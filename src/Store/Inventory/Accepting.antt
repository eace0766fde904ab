-- ===== src/Store/Inventory/Accepting.antt =====
-- internal/store/store.go: `finalizeImport` on a file that holds the upload, when no call of the
-- operating system fails.
use zarf_api.Prelude.{
  ◌≡◌, refl, subst, arith, not, ◌||◌, Bool, true, false, Option, none, some, [], Text, lookup, ◌==◌,
  nat_eq, list_eq, Bool-cases, Option-cases, inl, inr,
}
use zarf_api.Records.{Package, Error, exists}
use zarf_api.Os.{FilePath, bytes, Node, file, World, Result, ok, err}
use zarf_api.Os.Paths.{join}
use zarf_api.Os.Calm.{stat_present, stat_absent, read_file_present}
use zarf_api.Store.{Store, Zarf, Verification, Layout, valid_id}
use zarf_api.Store.Import.{install, describe, checked, named, place, finalize_import, equal_fold}
use zarf_api.Store.Finalizing.{Result-cases}
use zarf_api.Store.Inventory.{accept, examined, titled, read_as, well_named, only_if}

only_if-ok :
    {A : Type 0} (b : Bool) (e : Error) (r : Result A) (a : A)
    → only_if b e r ≡ ok a
    → (b ≡ true) × (r ≡ ok a)
only_if-ok true e r a h = (refl, h)
only_if-ok false e r a h = cc

well_named-ok :
    (r : Result (Layout × Text)) (meta : Layout) (name : Text)
    → well_named r ≡ ok (meta, name)
    → (r ≡ ok (meta, name)) × (not (name == []) ≡ true) × (valid_id name ≡ true)
well_named-ok (err e) meta name h = cc
well_named-ok (ok (l, n)) meta name h =
    let (filled, rest) = only_if-ok (not (n == [])) _ _ _ h in
    let (valid, same) = only_if-ok (valid_id n) _ _ _ rest in
    let here : n ≡ name = ground (arith, same) in
    (same, subst (λ x. not (x == []) ≡ true) here filled, subst (λ x. valid_id x ≡ true) here valid)

-- What is accepted has the right digest, can be read, and has a valid name.
pub accept-ok :
    (zarf : Zarf) (payload hint shasum : Text) (validate : Bool) (verify : Verification)
    (meta : Layout) (name : Text)
    → accept zarf payload hint shasum validate verify ≡ ok (meta, name)
    → ((shasum == [] || equal_fold shasum (zarf.sha256_hex payload)) ≡ true)
      × (read_as zarf payload hint validate verify ≡ ok (meta, name))
      × (not (name == []) ≡ true)
      × (valid_id name ≡ true)
unfolding accept
accept-ok zarf payload hint shasum validate verify meta name e =
    let (good, rest) =
      only_if-ok (shasum == [] || equal_fold shasum (zarf.sha256_hex payload)) _ _ _ e in
    let (read, filled, valid) =
      well_named-ok (read_as zarf payload hint validate verify) meta name rest in
    (good, read, filled, valid)

module _ (s : Store) (tmp : FilePath) (w : World) (sum : Text) where
  abbrev pub install_if : Layout → Text → Option Node → Result Package × World
  install_if meta name none = install s tmp meta name sum w
  install_if meta name (some n) = (err (exists name), w)

  abbrev pub install_accepted : Result (Layout × Text) → Result Package × World
  install_accepted (err e) = (err e, w)
  install_accepted (ok (meta, name)) = install_if meta name (lookup (join s.packages_dir name) w.fs)

  place-well_named :
      w.faults ≡ []
      → (meta : Layout) (name : Text)
      → place s tmp meta name sum w ≡ install_accepted (well_named (ok (meta, name)))
  unfolding place
  place-well_named calm meta name = elim (Bool-cases (not (name == []))) [
    | inr empty ↦ rw empty refl
    | inl named ↦ elim (Bool-cases (valid_id name)) [
      | inr bad ↦ rw (named, bad) refl
      | inl valid ↦ elim (Option-cases (lookup (join s.packages_dir name) w.fs)) [
        | inl free ↦ rw (named, valid, stat_absent w calm _ free, free) refl
        | inr (n, taken) ↦ rw (named, valid, stat_present w calm _ n taken, taken) refl
      ]
    ]
  ]

module _ (zarf : Zarf) (tmp : FilePath) (payload hint : Text) (w : World) where
  named-titled : (l : Layout) (o : Option Text) → named l o w ≡ (titled l o, w)
  named-titled l none = refl
  named-titled l (some name) = refl

  checked-examined : (o : Option Layout) → checked o w ≡ (examined o, w)
  checked-examined none = refl
  checked-examined (some l) = named-titled l l.file_name

  pub describe-read_as :
      w.faults ≡ []
      → lookup tmp w.fs ≡ some (file (bytes payload))
      → (validate : Bool) (verify : Verification)
      → describe zarf tmp hint validate verify w ≡ (read_as zarf payload hint validate verify, w)
  unfolding describe
  describe-read_as calm full true verify =
      rw (read_file_present w calm tmp (bytes payload) full)
        (checked-examined (zarf.load_from_tar (bytes payload) verify))
  describe-read_as calm full false verify = refl

module _ (s : Store) (zarf : Zarf) (tmp : FilePath) (payload hint shasum : Text) (validate : Bool)
    (verify : Verification) (w : World) where
  pub finalize_import-accept :
      w.faults ≡ []
      → lookup tmp w.fs ≡ some (file (bytes payload))
      → finalize_import s zarf tmp payload hint shasum validate verify w
        ≡ install_accepted s tmp w
            (zarf.sha256_hex payload)
            (accept zarf payload hint shasum validate verify)
  unfolding finalize_import accept
  finalize_import-accept calm full =
      let d = describe-read_as zarf tmp payload hint w calm full validate verify in
      elim (Bool-cases (shasum == [] || equal_fold shasum (zarf.sha256_hex payload))) [
        | inr bad ↦ rw bad refl
        | inl good ↦ elim (Result-cases (read_as zarf payload hint validate verify)) [
          | inl (e, q) ↦ rw (good, d, q) refl
          | inr ((meta, name), q) ↦
              rw (good, d, q) (place-well_named s tmp w (zarf.sha256_hex payload) calm meta name)
        ]
      ]
