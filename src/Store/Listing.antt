-- ===== src/Store/Listing.antt =====
-- `List` when no call of the operating system fails: every readable sidecar, in the order of the ids.
use mathlib.Core.List.{Perm}
use zarf_api.Prelude.{
  ◌≡◌, refl, Bool, Option, some, List, [], ◌∷◌, Text, lookup, nat_eq, list_eq, arith, Bool-cases,
  inl, inr, sort, sort-perm, sort-IsSorted, IsSorted, text_leb, text_leb_total, if◌then◌else◌,
}
use zarf_api.Records.{Package}
use zarf_api.Os.{FilePath, Node, package_doc, dir, file, World, ok}
use zarf_api.Os.Paths.{join}
use zarf_api.Os.Calm.{read_dir_there}
use zarf_api.Os.Files.{entries, read_file}
use zarf_api.Store.{Store, is_sidecar, add_read, read_meta, read_all, list}

-- what stands at a sidecar's place, when it is a package
abbrev pub described : Option Node → List Package → List Package
described (some (file (package_doc pkg))) out = pkg ∷ out
described _ out = out

-- the packages of these entries
abbrev pub shelved : Store → World → List (Text × Bool) → List Package
shelved s w [] = []
shelved s w (e ∷ es) =
    let rest = shelved s w es in
    if is_sidecar e then described (lookup (join s.packages_dir e.0) w.fs) rest else rest

abbrev pub by_id : Package → Package → Bool
by_id a b = text_leb a.id b.id

module _ (s : Store) (w : World) (calm : w.faults ≡ []) where
  read_one :
      (p : FilePath) (out : List Package)
      → add_read (read_meta p w).0 out ≡ described (lookup p w.fs) out
  unfolding read_meta read_file
  read_one p out = ground arith

  read_meta_same : (p : FilePath) → (read_meta p w).1 ≡ w
  unfolding read_meta read_file
  read_meta_same p = ground arith

  read_all_lem : (es : List (Text × Bool)) → read_all s es w ≡ (ok (shelved s w es), w)
  unfolding read_all
  read_all_lem [] = refl
  read_all_lem (e ∷ es) = elim (Bool-cases (is_sidecar e)) [
    | inl side ↦ rw (side, read_meta_same, read_all_lem es, read_one) refl
    | inr other ↦ rw (other, read_all_lem es) refl
  ]

  -- When no call of the operating system fails and the packages directory is there, `List` returns
  -- the package of each readable sidecar of the directory as often as it is there, sorted by id, and
  -- changes nothing.
  pub list_lem :
      lookup s.packages_dir w.fs ≡ some dir
      → (out : List Package) × (list s w ≡ (ok out, w))
        × IsSorted by_id out
        × Perm out (shelved s w (sort (λ a b. text_leb a.0 b.0) (entries s.packages_dir w.fs)))
  unfolding list
  list_lem rooted =
      let es = sort (λ a b. text_leb a.0 b.0) (entries s.packages_dir w.fs) in
      (
        sort by_id (shelved s w es),
        rw (read_dir_there w calm s.packages_dir rooted, read_all_lem es) refl,
        sort-IsSorted by_id (λ a b. text_leb_total a.id b.id) (shelved s w es),
        sort-perm by_id (shelved s w es),
      )
