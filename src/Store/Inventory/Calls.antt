-- ===== src/Store/Inventory/Calls.antt =====
-- internal/store/store.go: `Get`, `Path`, `Delete` and `ReadPackageRootFile` against the inventory, and
-- sequences of calls.
use zarf_api.Prelude.{
  ◌≡◌, refl, true, Option, none, some, List, [], ◌∷◌, Text, lookup, nat_eq, list_eq, list_beq_iff,
  ℕ, arith, has_suffix, lit, Bool-cases, Option-cases, inl, inr, ◌⊎◌,
}
use zarf_api.Records.{not_found}
use zarf_api.Os.{bytes, package_doc, file, World, Content, err}
use zarf_api.Os.Paths.{join}
use zarf_api.Os.Calm.{read_file_present}
use zarf_api.Store.{Store, Zarf, valid_id, meta_path, get, path, delete}
use zarf_api.Store.Import.{is_root_name, search_archive, decompressed, read_package_root_file}
use zarf_api.Store.Packages.{get_lem, absent_lem, path_lem, delete_lem, delete_quiet}
use zarf_api.Store.Inventory.{
  Item, Inventory, Request, to_import, to_get, to_locate, to_delete, to_read, Reply, Call, arrive,
  perform, perform_all, expect, expect_all, searched, discard,
}
use zarf_api.Store.Inventory.Shelves.{Shelves, Shelves-tidy, put-Shelves, arrive-Shelves}
use zarf_api.Store.Inventory.Imports.{import_reader-received}

module _ (s : Store) (zarf : Zarf) (w : World) (inv : Inventory) (h : Shelves s zarf w inv)
    (id : Text) where
  -- An id is not in the inventory, or it is valid and its package is on the disk.
  by_id :
      ((inv id ≡ none)
        × (get s id w ≡ (err (not_found id), w))
        × (path s id w ≡ (err (not_found id), w))
        × (delete s id w ≡ (err (not_found id), w)))
      ⊎ ((item : Item) × (inv id ≡ some item)
          × (valid_id id ≡ true)
          × (lookup (join s.packages_dir id) w.fs ≡ some (file (bytes item.payload)))
          × (lookup (meta_path s id) w.fs ≡ some (file (package_doc item.doc))))
  by_id = elim (Bool-cases (valid_id id)) [
    | inr bad ↦
        let (p, d) = absent_lem s id w h.quiet (inl bad) in
        inl (h.named id bad, rw (get_lem s id w h.quiet, bad) refl, p, d)
    | inl v ↦ elim (Option-cases (inv id)) [
      | inl free ↦
          let (t, m) = rw free at (h.kept id v) in
          let (p, d) = absent_lem s id w h.quiet (inr t) in
          inl (free, rw (get_lem s id w h.quiet, v, m) refl, p, d)
      | inr (item, held) ↦ let k = rw held at (h.kept id v) in inr (item, held, v, k.0, k.1)
    ]
  ]

  search-searched :
      (name : Text) (o : Option Content)
      → search_archive zarf name id o w ≡ (searched zarf name id o, w)
  search-searched name none = refl
  search-searched name (some c) = refl

  pub read-expect :
      (name : Text)
      → let out = perform s zarf (to_read id name) w in
        let want = expect s zarf (to_read id name) w.clock inv in
        (out.0 ≡ want.0) × Shelves s zarf out.1 want.1
  unfolding perform expect read_package_root_file
  read-expect name = elim (Bool-cases (is_root_name name)) [
    | inr bad ↦ rw bad (refl, h)
    | inl good ↦ elim by_id [
      | inl (free, _, p, _) ↦ rw (good, free, p) (refl, h)
      | inr (item, held, v, t, m) ↦
          rw
            (
              good,
              held,
              path_lem s id w h.quiet (file (bytes item.payload)) v t,
              read_file_present w h.quiet (join s.packages_dir id) (bytes item.payload) t,
              search-searched name
                  (decompressed (has_suffix id (lit ".zst")) zarf (bytes item.payload)),
            )
            (refl, h)
    ]
  ]

  delete-expect :
      ((perform s zarf (to_delete id) w).0 ≡ (discard id (inv id) inv).0)
      × Shelves s zarf (perform s zarf (to_delete id) w).1 (discard id (inv id) inv).1
  unfolding perform
  delete-expect = elim by_id [
    | inl (free, _, _, d) ↦ rw (free, d) (refl, h)
    | inr (item, held, v, t, m) ↦
        let (result, disk) =
          delete_lem s id w h.quiet (bytes item.payload) v t (Shelves-tidy s zarf w inv h id v) in
        rw held (
          rw result refl,
          put-Shelves s zarf w inv h id none _ v
              (delete_quiet s id w h.quiet (bytes item.payload) v t
                (Shelves-tidy s zarf w inv h id v))
              (
                ground (
                  arith,
                  disk (join s.packages_dir id),
                  list_beq_iff (join s.packages_dir id) (join s.packages_dir id),
                ),
                ground
                    (arith, disk (meta_path s id), list_beq_iff (meta_path s id) (meta_path s id)),
              )
              (λ p nt nm. ground (
                arith,
                disk p,
                list_beq_iff (join s.packages_dir id) p,
                list_beq_iff (meta_path s id) p,
              )),
        )
  ]

module _ (s : Store) (zarf : Zarf) where
  abbrev Agrees : Reply × World → Reply × Inventory → Type 0
  Agrees out want = (out.0 ≡ want.0) × Shelves s zarf out.1 want.1

  pub request-expect :
      (q : Request) (w : World) (inv : Inventory)
      → Shelves s zarf w inv
      → (r : ℕ) (rs : List ℕ) → w.temps ≡ r ∷ rs
      → Agrees (perform s zarf q w) (expect s zarf q w.clock inv)
  unfolding perform expect
  request-expect (to_import reader hint shasum validate verify) w inv h r rs supply =
      import_reader-received s zarf w inv h r rs supply reader hint shasum validate verify
  request-expect (to_get id) w inv h r rs supply = elim (by_id s zarf w inv h id) [
    | inl (free, g, _, _) ↦ rw (free, g) (refl, h)
    | inr (item, held, v, t, m) ↦ rw (held, get_lem s id w h.quiet, v, m) (refl, h)
  ]
  request-expect (to_locate id) w inv h r rs supply = elim (by_id s zarf w inv h id) [
    | inl (free, _, p, _) ↦ rw (free, p) (refl, h)
    | inr (item, held, v, t, m) ↦ rw (held, path_lem s id w h.quiet _ v t) (refl, h)
  ]
  request-expect (to_delete id) w inv h r rs supply = delete-expect s zarf w inv h id
  request-expect (to_read id name) w inv h r rs supply = read-expect s zarf w inv h id name

  -- When no call of the operating system fails: a store whose disk holds an inventory answers any
  -- imports, and any lookups, deletions and readings of packages, in any order, just as the
  -- inventory does, call by call, and in the end its disk holds what has become of the inventory:
  -- the tarball of each package with its sidecar and digest, and no temporary file.
  pub perform_all-expect_all :
      (cs : List Call) (w : World) (inv : Inventory)
      → Shelves s zarf w inv
      → let out = perform_all s zarf cs w in
        let want = expect_all s zarf cs inv in (out.0 ≡ want.0) × Shelves s zarf out.1 want.1
  unfolding perform_all expect_all
  perform_all-expect_all [] w inv h = (refl, h)
  perform_all-expect_all (c ∷ cs) w inv h =
      let (a, h') =
        request-expect c.request (arrive c w) inv (arrive-Shelves s zarf w inv h c) c.random c.more
          refl in
      let (rest, h'') = perform_all-expect_all cs _ _ h' in (ground (arith, a, rest), h'')
