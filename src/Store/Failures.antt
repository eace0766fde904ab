-- ===== src/Store/Failures.antt =====
-- What a failing call of the operating system leaves behind in the middle of an operation.
use zarf_api.Prelude.{
  ◌≡◌, true, some, [], ◌∷◌, Text, lookup, nat_eq, list_eq, list_beq_iff, lookup-delete, arith,
}
use zarf_api.Records.{Package, not_found, io}
use zarf_api.Os.{Content, package_doc, file, World, fine, refused, ok, err}
use zarf_api.Os.Paths.{join}
use zarf_api.Os.Files.{stat, read_file, remove}
use zarf_api.Store.{Store, valid_id, meta_path, get, path, delete}
use zarf_api.Store.Places.{package_places}

module _ (s : Store) (id : Text) (w : World) where
  -- When the second removal of a `Delete` is refused, on a package stored under a valid id with its
  -- sidecar, and no call before or after it fails: `Delete` answers an error, `Get` still shows the
  -- package, and both `Path` and another `Delete` answer not found and change nothing.
  pub delete_stuck :
      (c : Content) (pkg : Package)
      → w.faults ≡ fine ∷ fine ∷ refused ∷ []
      → valid_id id ≡ true
      → lookup (join s.packages_dir id) w.fs ≡ some (file c)
      → lookup (meta_path s id) w.fs ≡ some (file (package_doc pkg))
      → let w' = (delete s id w).1 in
        ((delete s id w).0 ≡ err io)
        × ((get s id w').0 ≡ ok pkg)
        × (path s id w' ≡ (err (not_found id), w'))
        × (delete s id w' ≡ (err (not_found id), w'))
  unfolding delete get path stat read_file remove
  delete_stuck c pkg f v t m =
      let apart = (package_places s id id v v).2 in
      ground (
        arith,
        lookup-delete (join s.packages_dir id) (meta_path s id) w.fs,
        lookup-delete (join s.packages_dir id) (join s.packages_dir id) w.fs,
        list_beq_iff (join s.packages_dir id) (meta_path s id),
        list_beq_iff (join s.packages_dir id) (join s.packages_dir id),
      )
