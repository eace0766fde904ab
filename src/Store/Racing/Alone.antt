-- ===== src/Store/Racing/Alone.antt =====
-- internal/store/store.go: the three steps of one import, one right after the other.
use zarf_api.Prelude.{◌≡◌, refl, not, ◌||◌, [], Text, ◌==◌, nat_eq, list_eq, Bool-cases, inl, inr}
use zarf_api.Os.{FilePath, World, ok, finally, ◌>>◌}
use zarf_api.Os.Paths.{join}
use zarf_api.Os.Files.{stat, rename, remove, create_temp, copy_into}
use zarf_api.Store.{Store, Zarf, valid_id}
use zarf_api.Store.Finalizing.{Result-cases}
use zarf_api.Store.Import.{
  install, incoming, tar_zst, equal_fold, describe, place, finalize_import, import_reader,
}
use zarf_api.Store.Racing.{
  Import, Phase, arrived, answered, check, describe_placed, advance, after_temp,
}

module _ (s : Store) (zarf : Zarf) (i : Import) where
  abbrev next : Phase × World → Phase × World
  next out = advance s zarf i out.0 out.1

  abbrev payload : Text
  payload = i.reader.payload

  abbrev sum : Text
  sum = zarf.sha256_hex payload

  after_copy :
      (tmp : FilePath) (w : World)
      → (copy_into tmp [] i.reader w).0 ≡ ok tt
      → let out =
          finally
            (do
              copy_into tmp [] i.reader
              finalize_import s zarf tmp payload i.hint i.shasum i.validate i.verify)
            (remove tmp)
            w in
        next (next (after_temp s zarf i (ok tmp) w)) ≡ (answered out.0, out.1)
  unfolding advance check describe_placed finalize_import place install
  after_copy tmp w copied =
      let x = (copy_into tmp [] i.reader w).1 in
      elim (Bool-cases (i.shasum == [] || equal_fold i.shasum sum)) [
        | inr bad ↦ rw (copied, bad) refl
        | inl good ↦ elim (Result-cases (describe zarf tmp i.hint i.validate i.verify x).0) [
          | inl (e, d) ↦ rw (copied, good, d) refl
          | inr ((meta, name), d) ↦
              let y = (describe zarf tmp i.hint i.validate i.verify x).1 in
              elim (Bool-cases (not (name == []))) [
                | inr empty ↦ rw (copied, good, d, empty) refl
                | inl filled ↦ elim (Bool-cases (valid_id name)) [
                  | inr bad ↦ rw (copied, good, d, filled, bad) refl
                  | inl valid ↦ elim (Result-cases (stat (join s.packages_dir name) y).0) [
                    | inr (n, taken) ↦ rw (copied, good, d, filled, valid, taken) refl
                    | inl (e, free) ↦
                        let z = (stat (join s.packages_dir name) y).1 in
                        elim (Result-cases (rename tmp (join s.packages_dir name) z).0) [
                          | inl (e, failed) ↦ rw (copied, good, d, filled, valid, free, failed) refl
                          | inr (u, renamed) ↦
                              rw (copied, good, d, filled, valid, free, renamed) refl
                        ]
                  ]
                ]
              ]
        ]
      ]

  -- Whatever calls of the operating system fail, the three steps of a request in a row are `ImportReader`.
  advance-import_reader :
      (w : World)
      → let out = import_reader s zarf i.reader i.hint i.shasum i.validate i.verify w in
        next (next (next (arrived, w))) ≡ (answered out.0, out.1)
  unfolding advance check import_reader
  advance-import_reader w = elim (Result-cases (create_temp s.packages_dir incoming tar_zst w).0) [
    | inl (e, q) ↦ rw q refl
    | inr (tmp, q) ↦
        let x = (create_temp s.packages_dir incoming tar_zst w).1 in
        elim (Result-cases (copy_into tmp [] i.reader x).0) [
          | inl (e, c) ↦ rw (q, c) refl
          | inr (u, c) ↦ rw q (after_copy tmp x c)
        ]
  ]
