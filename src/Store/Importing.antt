-- ===== src/Store/Importing.antt =====
-- `ImportReader` when no call of the operating system fails: it installs the whole package and its
-- sidecar, or it leaves the disk as it was.
use zarf_api.Prelude.{
  ◌≡◌, ◌≢◌, refl, ap, true, Option, none, some, [], Text, length, lookup, insert, ◌==◌, nat_eq,
  eq_self, suc, list_eq, list_beq_iff, lookup-delete, lookup-insert, delete as map_delete, arith,
  if◌then◌else◌,
}
use zarf_api.Records.{Package}
use zarf_api.Os.{FilePath, package_doc, bytes, Node, dir, file, World, ok}
use zarf_api.Os.Paths.{join, parent, parent-append}
use zarf_api.Os.Calm.{rename_there, stat_present, write_file_there}
use zarf_api.Os.Files.{write, now}
use zarf_api.Store.{Store, Layout, valid_id, meta_path}
use zarf_api.Store.Import.{install, package_of}
use zarf_api.Store.Places.{package_places}

module _ (s : Store) (tmp : FilePath) (meta : Layout) (name sum : Text) (payload : Text)
    (w : World) where
  abbrev pub final : FilePath
  final = join s.packages_dir name

  abbrev pub sidecar : FilePath
  sidecar = meta_path s name

  abbrev pub installed : Package
  installed = package_of meta name (length payload) sum w.clock

  -- what the disk holds after a successful import
  abbrev pub after_install : FilePath → Option Node
  after_install p =
      if sidecar == p
      then some (file (package_doc installed))
      else if final == p
      then some (file (bytes payload))
      else if tmp == p
      then none
      else lookup p w.fs

  pub install_lem :
      w.faults ≡ []
      → valid_id name ≡ true
      → lookup s.packages_dir w.fs ≡ some dir
      → lookup tmp w.fs ≡ some (file (bytes payload))
      → lookup final w.fs ≡ none
      → lookup sidecar w.fs ≢ some dir
      → ((install s tmp meta name sum w).0 ≡ ok installed)
        × ((install s tmp meta name sum w).1.faults ≡ [])
        × ((p : FilePath) → lookup p (install s tmp meta name sum w).1.fs ≡ after_install p)
  unfolding install now
  install_lem calm v d t f m =
      let place = package_places s name name v v in
      let apart = place.2 in
      let tmp_final : tmp ≢ final = λ e. ground (arith, ap (λ p. lookup p w.fs) e) in
      let under_final : parent final ≡ s.packages_dir =
        rw place.0 (parent-append s.packages_dir _) in
      let under_sidecar : parent sidecar ≡ s.packages_dir =
        rw place.1 (parent-append s.packages_dir _) in
      let moved = insert final (file (bytes payload)) (map_delete tmp w.fs) in
      let moved_lem : (p : FilePath)
          → lookup p moved ≡ (
              if final == p
              then some (file (bytes payload))
              else if tmp == p
              then none
              else lookup p w.fs) =
        λ p. rw (lookup-insert, lookup-delete) refl in
      let w₁ = write moved w in
      let dir_moved : lookup s.packages_dir moved ≡ some dir = ground (
        arith,
        moved_lem s.packages_dir,
        list_beq_iff final s.packages_dir,
        list_beq_iff tmp s.packages_dir,
      ) in
      let sidecar_moved : lookup sidecar moved ≢ some dir =
        ground (arith, moved_lem sidecar, list_beq_iff final sidecar, list_beq_iff tmp sidecar) in
      let run : install s tmp meta name sum w ≡ (
        ok installed,
        write (insert sidecar (file (package_doc installed)) moved)
            (record w₁ { clock = suc w.clock }),
      ) =
        rw
          (
            rename_there w calm tmp final (bytes payload) t (rw (under_final) d) (λ e. cc),
            stat_present w₁ calm final (file (bytes payload))
                (rw (moved_lem final, eq_self final) refl),
            write_file_there (record w₁ { clock = suc w.clock }) calm sidecar
                (package_doc installed) (rw under_sidecar dir_moved) sidecar_moved,
          )
          refl in
      rw run (refl, calm, λ p. rw (lookup-insert, moved_lem p) refl)
