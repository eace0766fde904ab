-- ===== src/Store/Racing/Steps.antt =====
-- The steps of an import among others, when no call of the operating system fails: one equation for
-- each step that goes well.
use zarf_api.Prelude.{
  ◌≡◌, ◌≢◌, refl, true, false, none, some, [], Text, length, lookup, insert, suc,
  delete as map_delete, nat_eq, list_eq, list_beq_iff, eq_self, lookup-insert, arith,
}
use zarf_api.Os.{FilePath, bytes, package_doc, dir, file, World, ok}
use zarf_api.Os.Paths.{join, parent, parent-append}
use zarf_api.Os.Calm.{
  create_temp_free, copy_lem, rename_there, stat_present, stat_absent, write_file_there,
  remove_absent,
}
use zarf_api.Os.Files.{write, pick, now}
use zarf_api.Store.{Store, Zarf, Layout, valid_id, meta_path}
use zarf_api.Store.Import.{incoming, tar_zst, package_of}
use zarf_api.Store.Places.{package_places}
use zarf_api.Store.Inventory.{accept}
use zarf_api.Store.Inventory.Accepting.{accept-ok, describe-read_as}
use zarf_api.Store.Racing.{
  Import, Checked, arrived, checked, placed, answered, check, describe_placed, advance,
}

module _ (s : Store) (zarf : Zarf) (i : Import) (x : World) (calm : x.faults ≡ [])
    (rooted : lookup s.packages_dir x.fs ≡ some dir) (meta : Layout) (name : Text)
    (tmp : FilePath) where
  abbrev final : FilePath
  final = join s.packages_dir name

  abbrev sidecar : FilePath
  sidecar = meta_path s name

  abbrev sum : Text
  sum = zarf.sha256_hex i.reader.payload

  abbrev card : Checked
  card = record { tmp = tmp; meta = meta; name = name }

  abbrev pub uploaded : World
  uploaded =
      write (insert tmp (file (bytes i.reader.payload)) (insert tmp (file (bytes [])) x.fs)) x

  pub advance-arrived :
      pick s.packages_dir incoming tar_zst x.temps x.fs ≡ some tmp
      → i.reader.broken ≡ false
      → accept zarf i.reader.payload i.hint i.shasum i.validate i.verify ≡ ok (meta, name)
      → tmp ≢ final
      → lookup final x.fs ≡ none
      → advance s zarf i arrived x ≡ (checked card, uploaded)
  unfolding advance check
  advance-arrived picked whole accepted apart free =
      let (good, read, filled, valid) =
        accept-ok zarf i.reader.payload i.hint i.shasum i.validate i.verify meta name accepted in
      let x₁ = write (insert tmp (file (bytes [])) x.fs) x in
      let here : lookup tmp uploaded.fs ≡ some (file (bytes i.reader.payload)) =
        rw (lookup-insert, eq_self tmp) refl in
      let still : lookup final uploaded.fs ≡ none =
        rw (lookup-insert, lookup-insert) (ground (arith, apart, free, list_beq_iff tmp final)) in
      rw
        (
          create_temp_free x calm s.packages_dir tmp incoming tar_zst rooted picked,
          copy_lem x₁ calm tmp [] i.reader,
          whole,
          good,
          describe-read_as zarf tmp i.reader.payload i.hint uploaded calm here i.validate i.verify,
          read,
          filled,
          valid,
          stat_absent uploaded calm final still,
        )
        refl

  pub advance-checked :
      (payload : Text)
      → valid_id name ≡ true
      → lookup tmp x.fs ≡ some (file (bytes payload))
      → lookup final x.fs ≢ some dir
      → advance s zarf i (checked card) x
        ≡ (placed card, write (insert final (file (bytes payload)) (map_delete tmp x.fs)) x)
  unfolding advance
  advance-checked payload v full n =
      let under : parent final ≡ s.packages_dir =
        rw (package_places s name name v v).0 (parent-append s.packages_dir _) in
      rw (rename_there x calm tmp final (bytes payload) full (rw under rooted) n) refl

  pub advance-placed :
      (payload : Text)
      → valid_id name ≡ true
      → lookup final x.fs ≡ some (file (bytes payload))
      → lookup sidecar x.fs ≢ some dir
      → lookup tmp x.fs ≡ none
      → sidecar ≢ tmp
      → let pkg = package_of meta name (length payload) sum x.clock in
        advance s zarf i (placed card) x ≡ (
          answered (ok pkg),
          write (insert sidecar (file (package_doc pkg)) x.fs) (record x { clock = suc x.clock }),
        )
  unfolding advance describe_placed now
  advance-placed payload v full n absent apart =
      let pkg = package_of meta name (length payload) sum x.clock in
      let later : World = record x { clock = suc x.clock } in
      let under : parent sidecar ≡ s.packages_dir =
        rw (package_places s name name v v).1 (parent-append s.packages_dir _) in
      let end : World = write (insert sidecar (file (package_doc pkg)) x.fs) later in
      let gone : lookup tmp end.fs ≡ none =
        rw lookup-insert (ground (arith, apart, absent, list_beq_iff sidecar tmp)) in
      rw
        (
          stat_present x calm final (file (bytes payload)) full,
          write_file_there later calm sidecar (package_doc pkg) (rw under rooted) n,
          remove_absent end calm tmp gone,
        )
        refl
