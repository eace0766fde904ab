-- ===== src/Store/Packages.antt =====
-- `Get`, `Path` and `Delete` when no call of the operating system fails: what they answer, and what
-- they leave of the disk.
use zarf_api.Prelude.{
  ◌≡◌, ◌≢◌, ◌⊎◌, true, false, Option, none, some, [], Text, lookup, ◌==◌, nat_eq, list_eq,
  list_beq_iff, lookup-delete, delete as map_delete, arith, if◌then◌else◌,
}
use zarf_api.Records.{Package, not_found, bad_json, io}
use zarf_api.Os.{
  FilePath, Content, package_doc, bytes, upload_doc, Node, dir, file, World, Result, ok, err,
}
use zarf_api.Os.Paths.{join}
use zarf_api.Os.Files.{stat, read_file, remove}
use zarf_api.Store.{Store, valid_id, meta_path, get, path, delete}

-- what `Get` makes of what stands at the place of the sidecar
abbrev pub answer : Text → Option Node → Result Package
answer id none = err (not_found id)
answer id (some dir) = err io
answer id (some (file (package_doc pkg))) = ok pkg
answer id (some (file (bytes _))) = err bad_json
answer id (some (file (upload_doc _))) = err bad_json

module _ (s : Store) (id : Text) (w : World) (calm : w.faults ≡ []) where
  abbrev tarball : FilePath
  tarball = join s.packages_dir id

  abbrev sidecar : FilePath
  sidecar = meta_path s id

  -- When no call of the operating system fails, `Get` answers not found for an id that is not
  -- valid, and else with what stands at the place of the sidecar: not found when there is nothing,
  -- an error for a directory or a file that is no package, else the package; and it changes
  -- nothing.
  pub get_lem :
      get s id w ≡ (if valid_id id then answer id (lookup sidecar w.fs) else err (not_found id), w)
  unfolding get read_file
  get_lem = ground arith

  -- When no call of the operating system fails, `Delete` of a stored package under a valid id,
  -- whose sidecar is no directory, succeeds, whether or not there is a sidecar; it removes the
  -- tarball and the sidecar and changes no other path.
  pub delete_lem :
      (c : Content)
      → valid_id id ≡ true
      → lookup tarball w.fs ≡ some (file c)
      → lookup sidecar w.fs ≢ some dir
      → ((delete s id w).0 ≡ ok tt)
        × ((p : FilePath)
            → lookup p (delete s id w).1.fs
              ≡ (if tarball == p then none else if sidecar == p then none else lookup p w.fs))
  unfolding delete stat remove
  delete_lem c v t m = (
    ground (arith, lookup-delete tarball sidecar w.fs),
    λ p. ground (
      arith,
      lookup-delete tarball sidecar w.fs,
      lookup-delete tarball p w.fs,
      lookup-delete sidecar p (map_delete tarball w.fs),
      list_beq_iff sidecar p,
    ),
  )

  pub delete_quiet :
      (c : Content)
      → valid_id id ≡ true
      → lookup tarball w.fs ≡ some (file c)
      → lookup sidecar w.fs ≢ some dir
      → (delete s id w).1.faults ≡ []
  unfolding delete stat remove
  delete_quiet c v t m = ground (arith, lookup-delete tarball sidecar w.fs)

  -- `Path` and `Delete` refuse what is not there, and change nothing.
  pub absent_lem :
      (valid_id id ≡ false) ⊎ (lookup tarball w.fs ≡ none)
      → (path s id w ≡ (err (not_found id), w)) × (delete s id w ≡ (err (not_found id), w))
  unfolding path delete stat
  absent_lem h = ground arith

  pub path_lem :
      (n : Node) → valid_id id ≡ true → lookup tarball w.fs ≡ some n → path s id w ≡ (ok tarball, w)
  unfolding path stat
  path_lem n v h = ground arith
