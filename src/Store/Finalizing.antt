-- ===== src/Store/Finalizing.antt =====
-- `finalizeImport` and `ImportReader` as a whole, when no call of the operating system fails.
use zarf_api.Prelude.{
  ◌≡◌, refl, ◌⊎◌, inl, inr, not, ◌||◌, Bool, true, false, none, [], Text, lookup, ◌==◌, nat_eq,
  list_eq, arith, Bool-cases, Option-cases,
}
use zarf_api.Records.{Package, Error, exists, sha256_mismatch, no_file_name, invalid_file_name}
use zarf_api.Os.{FilePath, World, Result, ok, err}
use zarf_api.Os.Paths.{join}
use zarf_api.Os.Calm.{stat_present, stat_absent, read_file_same}
use zarf_api.Store.{Store, Zarf, Verification, Layout, valid_id}
use zarf_api.Store.Import.{install, describe, place, finalize_import, equal_fold}

pub Result-cases {ℓ} :
    {A : Type ℓ} (r : Result A) → ((e : Error) × (r ≡ err e)) ⊎ ((a : A) × (r ≡ ok a))
Result-cases (ok a) = inr (a, refl)
Result-cases (err e) = inl (e, refl)

describe_same :
    (zarf : Zarf) (tmp : FilePath) (hint : Text) (validate : Bool) (verify : Verification)
    (w : World)
    → w.faults ≡ []
    → (describe zarf tmp hint validate verify w).1 ≡ w
unfolding describe
describe_same zarf tmp hint true verify w calm = ground (arith, read_file_same w calm tmp)
describe_same zarf tmp hint false verify w calm = refl

module _ (s : Store) (tmp : FilePath) (w : World) (sum : Text) where
  -- Refused with nothing changed, or installed under a valid name that was free.
  abbrev pub Settled : Result Package × World → Type 0
  Settled run =
      ((e : Error) × (run ≡ (err e, w)))
      ⊎ ((meta : Layout) × (name : Text) × (valid_id name ≡ true)
          × (lookup (join s.packages_dir name) w.fs ≡ none)
          × (run ≡ install s tmp meta name sum w))

  place_outcome :
      (meta : Layout) (name : Text) → w.faults ≡ [] → Settled (place s tmp meta name sum w)
  unfolding place
  place_outcome meta name calm = elim (Bool-cases (not (name == []))) [
    | inr empty ↦ inl (no_file_name, rw empty refl)
    | inl named ↦ elim (Bool-cases (valid_id name)) [
      | inr bad ↦ inl (invalid_file_name name, rw (named, bad) refl)
      | inl valid ↦ elim (Option-cases (lookup (join s.packages_dir name) w.fs)) [
        | inl free ↦
            inr (meta, name, valid, free, rw (named, valid, stat_absent w calm _ free) refl)
        | inr (n, taken) ↦ inl (exists name, rw (named, valid, stat_present w calm _ n taken) refl)
      ]
    ]
  ]

module _ (s : Store) (zarf : Zarf) (tmp : FilePath) (payload hint shasum : Text) (validate : Bool)
    (verify : Verification) (w : World) where
  pub finalize_outcome :
      w.faults ≡ []
      → Settled s tmp w
          (zarf.sha256_hex payload)
          (finalize_import s zarf tmp payload hint shasum validate verify w)
  unfolding finalize_import
  finalize_outcome calm =
      elim (Bool-cases (shasum == [] || equal_fold shasum (zarf.sha256_hex payload))) [
        | inr bad ↦ inl (sha256_mismatch shasum (zarf.sha256_hex payload), rw bad refl)
        | inl good ↦ elim (Result-cases (describe zarf tmp hint validate verify w).0) [
          | inl (e, refused) ↦
              inl (e, rw (good, refused, describe_same zarf tmp hint validate verify w calm) refl)
          | inr ((meta, name), described) ↦
              rw (good, described, describe_same zarf tmp hint validate verify w calm)
                (place_outcome s tmp w (zarf.sha256_hex payload) meta name calm)
        ]
      ]
