-- ===== src/Store/Inventory/Imports.antt =====
-- internal/store/store.go: `ImportReader` against the inventory.
use zarf_api.Prelude.{
  ◌≡◌, refl, Bool, true, none, some, length, List, [], ◌∷◌, Text, lookup, nat_eq, list_eq,
  list_beq_iff, insert, ℕ, arith, Bool-cases, Option-cases, inl, inr,
}
use zarf_api.Records.{Package}
use zarf_api.Os.{FilePath, bytes, file, World, Result, finally}
use zarf_api.Os.Paths.{join}
use zarf_api.Os.Calm.{create_temp_free, copy_lem, remove_present, remove_absent}
use zarf_api.Os.Files.{write, temp_name, pick, Reader, remove}
use zarf_api.Store.{Store, Zarf, Verification, Layout, valid_id, meta_path}
use zarf_api.Store.Import.{package_of, install, incoming, tar_zst, import_reader, finalize_import}
use zarf_api.Store.Atomic.{received as arrived, received-Holding}
use zarf_api.Store.Landing.{Holding, full, cleaned, install-received, install_Stored, gone, done}
use zarf_api.Store.Finalizing.{Result-cases}
use zarf_api.Store.Inventory.{Item, Inventory, Reply, described, accept, admit, received, shelve}
use zarf_api.Store.Inventory.Accepting.{accept-ok, finalize_import-accept}
use zarf_api.Store.Inventory.Shelves.{
  Kept, Shelves, Shelves-tidy, SameDisk-Shelves, Stored-Shelves, temp_apart,
}

module _ (s : Store) (zarf : Zarf) (w : World) (inv : Inventory) (h : Shelves s zarf w inv) (r : ℕ)
    (rs : List ℕ) (supply : w.temps ≡ r ∷ rs) where
  abbrev tmp : FilePath
  tmp = temp_name s.packages_dir incoming tar_zst r

  picked : pick s.packages_dir incoming tar_zst w.temps w.fs ≡ some tmp
  unfolding pick
  picked = rw supply (ground (arith, h.clean r))

  -- an answer with the disk that it leaves, as the inventory has them
  abbrev pub Fits : Result Package × World → Reply × Inventory → Type 0
  Fits out want = (described out.0 ≡ want.0) × Shelves s zarf out.1 want.1

  module _ (payload : Text) (x : World) (holding : Holding tmp w payload x) where
    not_taken :
        (name : Text)
        → valid_id name ≡ true
        → lookup (join s.packages_dir name) x.fs ≡ lookup (join s.packages_dir name) w.fs
    not_taken name v = ground (
      arith,
      holding.disk (join s.packages_dir name),
      (temp_apart s r name v).0,
      list_beq_iff tmp (join s.packages_dir name),
    )

    refused : Shelves s zarf (remove tmp x).1 inv
    refused =
        rw
          (remove_present x holding.quiet tmp (bytes payload)
            (full s zarf w h.rooted (Shelves-tidy s zarf w inv h) tmp picked payload x holding))
          (SameDisk-Shelves s zarf w inv h _ holding.quiet
            (cleaned s zarf w h.rooted (Shelves-tidy s zarf w inv h) tmp picked payload x holding))

    at_name :
        (name : Text)
        → valid_id name ≡ true
        → Kept zarf name
            (inv name)
            (lookup (join s.packages_dir name) x.fs)
            (lookup (meta_path s name) w.fs)
    at_name name v = rw (not_taken name v) (h.kept name v)

    absent :
        (name : Text)
        → valid_id name ≡ true
        → inv name ≡ none
        → lookup (join s.packages_dir name) x.fs ≡ none
    absent name v free = (rw free at (at_name name v)).0

    present :
        (name : Text)
        → valid_id name ≡ true
        → (item : Item) → inv name ≡ some item
        → lookup (join s.packages_dir name) x.fs ≡ some (file (bytes item.payload))
    present name v item taken = (rw taken at (at_name name v)).0

    new_package :
        (meta : Layout) (name : Text) (v : valid_id name ≡ true)
        (f : lookup (join s.packages_dir name) x.fs ≡ none)
        → Fits (finally (install s tmp meta name (zarf.sha256_hex payload)) (remove tmp) x) (
            shelve name
              (record {
                payload = payload;
                doc = package_of meta name (length payload) (zarf.sha256_hex payload) x.clock;
              })
              none
              inv)
    new_package meta name v f =
        let tidy = Shelves-tidy s zarf w inv h in
        let (result, quiet, _) =
          install-received s zarf w h.rooted tidy tmp picked payload x holding meta name v f in
        let kept =
          remove_absent (done s zarf w h.rooted tidy tmp picked payload x holding meta name v f)
            quiet tmp (gone s zarf w h.rooted tidy tmp picked payload x holding meta name v f) in
        (
          rw result refl,
          rw kept (
              Stored-Shelves s zarf w inv h payload _ _ quiet
                (install_Stored s zarf w h.rooted tidy tmp picked payload x holding meta name v f)),
        )

    pub finalize_import-admit :
        (hint shasum : Text) (validate : Bool) (verify : Verification)
        → Fits
            (finally
              (finalize_import s zarf tmp payload hint shasum validate verify)
              (remove tmp)
              x)
            (admit zarf payload x.clock (accept zarf payload hint shasum validate verify) inv)
    finalize_import-admit hint shasum validate verify =
        let sum = zarf.sha256_hex payload in
        let stored =
          full s zarf w h.rooted (Shelves-tidy s zarf w inv h) tmp picked payload x holding in
        let ran =
          finalize_import-accept s zarf tmp payload hint shasum validate verify x holding.quiet
            stored in
        elim (Result-cases (accept zarf payload hint shasum validate verify)) [
          | inl (e, q) ↦ rw (ran, q) (refl, refused)
          | inr ((meta, name), q) ↦
              let v = (accept-ok zarf payload hint shasum validate verify meta name q).3 in
              elim (Option-cases (inv name)) [
                | inl free ↦
                    rw (ran, q, free, absent name v free)
                      (new_package meta name v (absent name v free))
                | inr (item, taken) ↦ rw (ran, q, taken, present name v item taken) (refl, refused)
              ]
        ]

  pub import_reader-received :
      (reader : Reader) (hint shasum : Text) (validate : Bool) (verify : Verification)
      → Fits (import_reader s zarf reader hint shasum validate verify w) (
          received zarf reader w.clock (accept zarf reader.payload hint shasum validate verify) inv)
  unfolding import_reader
  import_reader-received reader hint shasum validate verify =
      let start = create_temp_free w h.quiet s.packages_dir tmp incoming tar_zst h.rooted picked in
      let copied = copy_lem (write (insert tmp (file (bytes [])) w.fs) w) h.quiet tmp [] reader in
      let x =
        arrived s zarf w h.quiet h.rooted (Shelves-tidy s zarf w inv h) tmp picked reader.payload in
      let holding =
        received-Holding s zarf w h.quiet h.rooted (Shelves-tidy s zarf w inv h) tmp picked
          reader.payload in
      elim (Bool-cases reader.broken) [
        | inl cut ↦ rw (start, copied, cut) (refl, refused reader.payload x holding)
        | inr whole ↦
            rw (start, copied, whole)
              (finalize_import-admit reader.payload x holding hint shasum validate verify)
      ]
