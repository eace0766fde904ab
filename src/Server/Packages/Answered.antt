-- ===== src/Server/Packages/Answered.antt =====
-- What the package handlers answer, against an inventory.
use zarf_api.Prelude.{
  ℕ, ◌≡◌, refl, ap, ◌∙◌, subst, true, Option, none, some, List, ◌∷◌, Text, lit, nat_eq, list_eq,
  Bool-cases, inl, inr,
}
use zarf_api.Records.{Error, not_found, exists, is_not_found}
use zarf_api.Os.{World, Result, ok, err}
use zarf_api.Os.Files.{Reader}
use zarf_api.Store.{Store, Zarf, get, delete}
use zarf_api.Store.Import.{import_reader, is_root_name, read_package_root_file}
use zarf_api.Store.Inventory.{
  Item, Inventory, Reply, described, deleted, extracted, to_import, to_get, to_delete, perform,
  expect, found_in, wanted, discard,
}
use zarf_api.Store.Inventory.Shelves.{Shelves}
use zarf_api.Store.Inventory.Calls.{request-expect, read-expect}
use zarf_api.Handlers.{
  Response, no_body, package_info, respond, schema, answer_with, write_store_error, parse_verify,
  Parsed, strategy, invalid_verify, validates,
}
use zarf_api.Handlers.Packages.{
  package_import, package_get, package_delete, package_config_schema, import_with, fallback,
  after_native,
}
use zarf_api.Server.Packages.{
  Ask, imports, gets, schemas, deletes, failed, created, shown, schema_of, described_by, dropped,
  import_asked, answer,
}

abbrev extracted_of : Reply → Result Text → Result Text
extracted_of (extracted r) d = r
extracted_of _ d = d

write_store_error-failed : (e : Error) → write_store_error e ≡ failed e
unfolding write_store_error
write_store_error-failed (not_found id) = refl
write_store_error-failed (exists id) = refl
write_store_error-failed _ = refl

answer-failed :
    {A : Type 0} (done : A → Response) (r : Result A)
    → answer_with write_store_error done r ≡ answer_with failed done r
answer-failed done (ok a) = refl
answer-failed done (err e) = write_store_error-failed e

-- the response to a lookup or to a deletion
abbrev answered : Reply → Response
answered (described r) = answer_with failed (λ pkg. respond 200 (package_info pkg)) r
answered (deleted r) = answer_with failed (λ u. respond 204 no_body) r
answered _ = respond 500 no_body

-- the handler that a request comes to
abbrev pub run : Store → Zarf → Ask → (Text → Text) → Reader → World → Response × World
run s zarf imports q body =
    package_import s zarf (q (lit "validate")) (q (lit "verify")) (q (lit "fileName"))
      (q (lit "shasum")) body
run s zarf (gets id) q body = package_get s id
run s zarf (schemas id) q body = package_config_schema s zarf id
run s zarf (deletes id) q body = package_delete s id

module _ (s : Store) (zarf : Zarf) (w : World) (inv : Inventory) (h : Shelves s zarf w inv) where
  import-asked :
      (q : Text → Text) (body : Reader) (p : Parsed) (r : ℕ) (rs : List ℕ)
      → w.temps ≡ r ∷ rs
      → let out =
          import_with s zarf
            (q (lit "validate"))
            (q (lit "fileName"))
            (q (lit "shasum"))
            body
            p
            w in
        let want = import_asked zarf q body w.clock p inv in
        (out.0 ≡ want.0) × Shelves s zarf out.1 want.1
  unfolding perform expect
  import-asked q body (invalid_verify mode) r rs supply = (refl, h)
  import-asked q body (strategy verify) r rs supply =
      let (a, h') =
        request-expect s zarf
          (to_import body (q (lit "fileName")) (q (lit "shasum")) (validates (q (lit "validate")))
            verify)
          w inv h r rs supply in
      (
        answer-failed (λ pkg. respond 201 (package_info pkg))
              (import_reader s zarf body (q (lit "fileName")) (q (lit "shasum"))
                (validates (q (lit "validate"))) verify w).0
            ∙ ap created a,
        h',
      )

  reads :
      (id name : Text)
      → is_root_name name ≡ true
      → let out = read_package_root_file s zarf id name w in
        (out.0 ≡ wanted id (found_in zarf id name) (inv id)) × Shelves s zarf out.1 inv
  unfolding perform expect read_package_root_file
  reads id name good =
      let (a, h') = read-expect s zarf w inv h id name in
      (ap (λ r. extracted_of r (wanted id (found_in zarf id name) (inv id))) a ∙ rw good refl, h')

  fallback-found :
      (id : Text)
      → let out = fallback s zarf id w in
        (out.0
          ≡ answer_with failed
              (λ found. respond 200 (schema (lit "overrides") found))
              (wanted id (found_in zarf id (lit "config.schema.json")) (inv id)))
        × Shelves s zarf out.1 inv
  fallback-found id =
      let (a, h') = reads id (lit "config.schema.json") refl in
      let done : Text → Response = λ found. respond 200 (schema (lit "overrides") found) in
      (
        answer-failed done (read_package_root_file s zarf id (lit "config.schema.json") w).0
            ∙ ap (answer_with failed done) a,
        h',
      )

  native-schema_of :
      (id : Text) (r : Result Text)
      → let out = after_native s zarf id r w in
        (out.0 ≡ schema_of r (wanted id (found_in zarf id (lit "config.schema.json")) (inv id)))
        × Shelves s zarf out.1 inv
  native-schema_of id (ok found) = (refl, h)
  native-schema_of id (err e) = elim (Bool-cases (is_not_found e)) [
    | inl y ↦ rw (y, after_native) (fallback-found id)
    | inr n ↦ rw (n, after_native) (write_store_error-failed e, h)
  ]

dropped-discard :
    (id : Text) (o : Option Item) (inv : Inventory)
    → (answered (discard id o inv).0, (discard id o inv).1) ≡ dropped id o inv
dropped-discard id none inv = refl
dropped-discard id (some item) inv = refl

shown-wanted :
    (id : Text) (o : Option Item) → answered (described (wanted id (λ i. ok i.doc) o)) ≡ shown id o
shown-wanted id none = refl
shown-wanted id (some item) = refl

schema_of-wanted :
    (zarf : Zarf) (id : Text) (o : Option Item)
    → schema_of
        (wanted id (found_in zarf id (lit "values.schema.json")) o)
        (wanted id (found_in zarf id (lit "config.schema.json")) o)
      ≡ described_by zarf id o
schema_of-wanted zarf id none = refl
schema_of-wanted zarf id (some item) = refl

pub run-answer :
    (s : Store) (zarf : Zarf) (w : World) (inv : Inventory)
    → Shelves s zarf w inv
    → (a : Ask) (q : Text → Text) (body : Reader) (r : ℕ) (rs : List ℕ) → w.temps ≡ r ∷ rs
    → let out = run s zarf a q body w in
      let want = answer zarf a q body w.clock inv in (out.0 ≡ want.0) × Shelves s zarf out.1 want.1
unfolding package_import package_get package_config_schema package_delete answer perform expect
run-answer s zarf w inv h imports q body r rs supply =
    import-asked s zarf w inv h q body (parse_verify (q (lit "verify"))) r rs supply
run-answer s zarf w inv h (gets id) q body r rs supply =
    let (a, h') = request-expect s zarf (to_get id) w inv h r rs supply in
    (
      answer-failed (λ pkg. respond 200 (package_info pkg)) (get s id w).0
          ∙ ap answered a
          ∙ shown-wanted id (inv id),
      h',
    )
run-answer s zarf w inv h (schemas id) q body r rs supply =
    let (a, h') = reads s zarf w inv h id (lit "values.schema.json") refl in
    let (b, h'') = native-schema_of s zarf _ inv h' id _ in
    (
      b
          ∙ ap (λ r. schema_of r (wanted id (found_in zarf id (lit "config.schema.json")) (inv id)))
              a
          ∙ schema_of-wanted zarf id (inv id),
      h'',
    )
run-answer s zarf w inv h (deletes id) q body r rs supply =
    let (a, h') = request-expect s zarf (to_delete id) w inv h r rs supply in
    let same = dropped-discard id (inv id) inv in
    (
      answer-failed (λ u. respond 204 no_body) (delete s id w).0
          ∙ ap answered a
          ∙ ap (λ o. o.0) same,
      subst (Shelves s zarf _) (ap (λ o. o.1) same) h',
    )
