-- ===== src/Store/Racing.antt =====
-- internal/store/store.go: `ImportReader` by several requests at once. A request takes three steps: up
-- to the `os.Stat` of the final path, the `os.Rename` to it, and from there to its end. The steps of
-- different requests come in any order; there is no lock.
pub mod Steps
pub mod Mixed
pub mod Alone
mod Examples
use zarf_api.Prelude.{
  ℕ, Bool, not, ◌||◌, Option, none, some, List, [], ◌∷◌, Text, ◌==◌, nat_eq, list_eq, if◌then◌else◌,
}
use zarf_api.Records.{Package, Error, sha256_mismatch, no_file_name, invalid_file_name}
use zarf_api.Os.{
  FilePath, package_doc, Node, World, Result, ok, err, Io, pure, raise, ◌>>=◌, ◌>>◌, attempt,
}
use zarf_api.Os.Paths.{join}
use zarf_api.Os.Files.{Reader, stat, write_file, rename, remove, create_temp, copy_into, now}
use zarf_api.Store.{Store, Zarf, Verification, Layout, valid_id, meta_path}
use zarf_api.Store.Import.{
  incoming, tar_zst, equal_fold, require, describe, must_be_absent, package_of, node_size,
}

-- the arguments of `ImportReader`
pub record Import : Type 0 where
  pub reader : Reader
  pub hint : Text
  pub shasum : Text
  pub validate : Bool
  pub verify : Verification

-- A package that is on its way: its temporary file, its metadata and its name.
pub record Checked : Type 0 where
  pub tmp : FilePath
  pub meta : Layout
  pub name : Text

pub data Phase : Type 0 where
  arrived : Phase
  checked placed : Checked → Phase
  answered : Result Package → Phase

-- from the copy of the body to `os.Stat`
unfoldable pub check : Store → Zarf → Import → FilePath → Io (Layout × Text)
check s zarf i tmp = do
  copy_into tmp [] i.reader
  let sum = zarf.sha256_hex i.reader.payload
  require (i.shasum == [] || equal_fold i.shasum sum) (sha256_mismatch i.shasum sum)
  (meta, name) ← describe zarf tmp i.hint i.validate i.verify
  require (not (name == [])) no_file_name
  require (valid_id name) (invalid_file_name name)
  r ← attempt (stat (join s.packages_dir name))
  must_be_absent name r
  pure (meta, name)

-- from the second `os.Stat` to the sidecar
unfoldable pub describe_placed : Store → Layout → Text → Text → Io Package
describe_placed s meta name sum = do
  info ← stat (join s.packages_dir name)
  t ← now
  let pkg = package_of meta name (node_size info) sum t
  write_file (meta_path s name) (package_doc pkg)
  pure pkg

-- the deferred removal of the temporary file, on the way out
abbrev pub leave : FilePath → Result Package → World → Phase × World
leave tmp r w = (answered r, (remove tmp w).1)

abbrev pub after_check : FilePath → Result (Layout × Text) → World → Phase × World
after_check tmp (err e) w = leave tmp (err e) w
after_check tmp (ok (meta, name)) w = (checked (record { tmp = tmp; meta = meta; name = name }), w)

abbrev pub after_temp : Store → Zarf → Import → Result FilePath → World → Phase × World
after_temp s zarf i (err e) w = (answered (err e), w)
after_temp s zarf i (ok tmp) w = let (r, w') = check s zarf i tmp w in after_check tmp r w'

abbrev pub after_rename : Checked → Result (Unit {0}) → World → Phase × World
after_rename c (err e) w = leave c.tmp (err e) w
after_rename c (ok u) w = (placed c, w)

unfoldable pub advance : Store → Zarf → Import → Phase → World → Phase × World
unfolding check describe_placed
advance s zarf i arrived w =
    let (r, w') = create_temp s.packages_dir incoming tar_zst w in after_temp s zarf i r w'
advance s zarf i (checked c) w =
    let (r, w') = rename c.tmp (join s.packages_dir c.name) w in after_rename c r w'
advance s zarf i (placed c) w =
    let (r, w') = describe_placed s c.meta c.name (zarf.sha256_hex i.reader.payload) w in
    leave c.tmp r w'
advance s zarf i (answered r) w = (answered r, w)

pub record Race : Type 0 where
  pub world : World
  pub phase : ℕ → Phase

abbrev pub moved : ℕ → Race → Phase × World → Race
moved k race out = record { world = out.1; phase = λ i. if i == k then out.0 else race.phase i }

unfoldable pub go : Store → Zarf → (ℕ → Import) → List ℕ → Race → Race
go s zarf imports [] race = race
go s zarf imports (k ∷ ks) race =
    go s zarf imports ks (moved k race (advance s zarf (imports k) (race.phase k) race.world))

-- All requests have just arrived.
abbrev pub begun : World → Race
begun w = record { world = w; phase = λ k. arrived }
