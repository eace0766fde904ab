-- ===== src/Handlers/Statuses.antt =====
-- What the handlers answer when no call of the operating system fails.
use zarf_api.Prelude.{
  ◌≡◌, ◌≢◌, ◌↔◌, ℕ, Bool, refl, ◌∙◌, true, false, none, some, [], Text, ℤ, pos, lookup, nat_eq,
  list_eq, eq_self, inr, arith, ltb_ℤ,
}
use zarf_api.Records.{not_found, Upload}
use zarf_api.Os.{Result, ok, err, Content, dir, file, World}
use zarf_api.Os.Paths.{join}
use zarf_api.Os.Files.{stat, remove}
use zarf_api.Store.{Store, valid_id, meta_path, delete}
use zarf_api.Store.Packages.{get_lem, delete_lem, absent_lem}
use zarf_api.Store.Uploads.{create_upload}
use zarf_api.Store.Counting.{directories, count_uploads_lem}
use zarf_api.Handlers.{
  Response, respond, upload, answering, answer_with, internal_error, no_body, store_error, too_many,
  write_store_error, value,
}
use zarf_api.Handlers.Packages.{package_get, package_delete}
use zarf_api.Handlers.Uploads.{upload_create}

module _ (s : Store) (id : Text) (w : World) (calm : w.faults ≡ []) where
  delete_calm : (delete s id w).1.faults ≡ []
  unfolding delete stat remove
  delete_calm = ground arith

  -- When no call of the operating system fails, deleting a package that is stored under a valid id,
  -- and whose sidecar is no directory, answers 204, and then both fetching the package and deleting
  -- it once more answer 404.
  pub package_gone :
      (c : Content)
      → valid_id id ≡ true
      → lookup (join s.packages_dir id) w.fs ≡ some (file c)
      → lookup (meta_path s id) w.fs ≢ some dir
      → let out = package_delete s id w in
        (out.0 ≡ respond 204 no_body)
        × ((package_get s id out.1).0 ≡ respond 404 (store_error (not_found id)))
        × ((package_delete s id out.1).0 ≡ respond 404 (store_error (not_found id)))
  unfolding package_delete package_get write_store_error
  package_gone c v t m =
      let w' = (delete s id w).1 in
      let (done, disk) = delete_lem s id w calm c v t m in
      let tarball : lookup (join s.packages_dir id) w'.fs ≡ none =
        disk (join s.packages_dir id) ∙ rw eq_self refl in
      let sidecar : lookup (meta_path s id) w'.fs ≡ none =
        disk (meta_path s id) ∙ rw eq_self (ground arith) in
      let again = (absent_lem s id w' delete_calm (inr tarball)).1 in
      let fetched = get_lem s id w' delete_calm in
      (rw done refl, rw (fetched, v, sidecar) refl, rw again refl)

created-open :
    (s : Store) (hint sha256 : Text) (w : World)
    → (answering
        (create_upload s hint sha256)
        internal_error
        (λ u. respond 201 (upload u))
        w).0.status
      ≢ 429
created-open s hint sha256 w = by_result (create_upload s hint sha256 w).0
  where
    by_result :
        (r : Result Upload)
        → (answer_with internal_error (λ u. respond 201 (upload u)) r).status ≢ 429
    by_result (ok u) e = absurd (omega (arith, e))
    by_result (err x) e = absurd (omega (arith, e))

-- by the outcome of the test of the cap
capped :
    (s : Store) (hint sha256 : Text) (w : World) (count : ℕ) (below : Bool)
    → let out : Response × World = elim below [
      | false ↦ (respond 429 (too_many count), w)
      | true ↦
          answering (create_upload s hint sha256) internal_error (λ u. respond 201 (upload u)) w
    ] in
      ((out.0.status ≡ 429) ↔ (below ≡ false))
      × (below ≡ false → out ≡ (respond 429 (too_many count), w))
capped s hint sha256 w count true =
    ((λ e. absurd (created-open s hint sha256 w e), λ e. cc), λ e. cc)
capped s hint sha256 w count false = ((λ e. refl, λ e. refl), λ e. refl)

-- When no call of the operating system fails and the uploads directory is there: a request that
-- decodes is answered 429 just when the disk has as many directories right below the uploads
-- directory as there may be sessions, or more; and then the answer has their number, and nothing at
-- all has changed.
pub upload_create_full :
    (s : Store) (max : ℤ) (hint sha256 : Text) (w : World)
    → w.faults ≡ []
    → lookup s.uploads_dir w.fs ≡ some dir
    → let count = directories s.uploads_dir w.fs in
      let out = upload_create s max (value (record { file_name_hint = hint; sha256 = sha256 })) w in
      ((out.0.status ≡ 429) ↔ (ltb_ℤ (pos count) max ≡ false))
      × (ltb_ℤ (pos count) max ≡ false → out ≡ (respond 429 (too_many count), w))
unfolding upload_create
upload_create_full s max hint sha256 w calm rooted = rw (count_uploads_lem s w calm rooted) (
    capped s hint sha256 w (directories s.uploads_dir w.fs)
      (ltb_ℤ (pos (directories s.uploads_dir w.fs)) max))
