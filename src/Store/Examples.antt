-- ===== src/Store/Examples.antt =====
-- Runs of the store, and its theorems at concrete disks.
use zarf_api.Prelude.{
  ◌≡◌, ◌≢◌, ◌↔◌, refl, ◌⊎◌, true, false, some, List, [], ◌∷◌, Text, lit, lookup, nat_eq, list_eq,
  list_beq_iff, arith, decimal,
}
use zarf_api.Regex.{nullable, derive, matches}
use zarf_api.Records.{Package, Error, not_found, io}
use zarf_api.Os.{FilePath, bytes, package_doc, dir, file, World, Fault, fine, refused, ok, err}
use zarf_api.Os.Paths.{join}
use zarf_api.Os.Files.{Reader, pick}
use zarf_api.Store.{Store, Zarf, verify_never, valid_id, meta_path, get, path, delete}
use zarf_api.Store.Import.{incoming, tar_zst, import_reader}
use zarf_api.Store.Ids.{IsPackageId, valid_id_iff}
use zarf_api.Store.Places.{meta_path_lem}
use zarf_api.Store.Failures.{delete_stuck}
use zarf_api.Store.Landing.{SameDisk, Stored}
use zarf_api.Store.Atomic.{import_reader_lem}

abbrev pub store : Store
store = record { packages_dir = lit "p" ∷ []; uploads_dir = lit "u" ∷ [] }

abbrev id : Text
id = lit "a.tar"

abbrev other : Text
other = lit "b.tar.zst"

accepts : valid_id id ≡ true
unfolding valid_id matches derive nullable
accepts = refl

accepts_other : valid_id other ≡ true
unfolding valid_id matches derive nullable
accepts_other = refl

refuses : valid_id (lit "../a.tar") ≡ false
unfolding valid_id matches derive nullable
refuses = refl

valid_id_iff_example : (valid_id id ≡ true) ↔ IsPackageId id
valid_id_iff_example = valid_id_iff id

abbrev held_package : Package
held_package = record {
  id = id;
  name = [];
  version = [];
  architecture = [];
  kind = [];
  description = [];
  yolo = false;
  components = [];
  size = 1;
  sha256 = lit "s";
  imported_at = 3;
}

abbrev tarball_path : FilePath
tarball_path = lit "p" ∷ id ∷ []

abbrev sidecar_path : FilePath
sidecar_path = lit "p" ∷ lit "a.tar.meta.json" ∷ []

-- a disk that holds one package, with the faults to come
abbrev world : List Fault → World
world faults = record {
  fs =
      (lit "p" ∷ [], dir)
      ∷ (tarball_path, file (bytes (7 ∷ [])))
      ∷ (sidecar_path, file (package_doc held_package))
      ∷ [];
  faults = faults;
  clock = 9;
  entropy = [];
  temps = 1 ∷ [];
}

held : lookup (join store.packages_dir id) (world []).fs ≡ some (file (bytes (7 ∷ [])))
unfolding lookup join
held = refl

described : lookup (meta_path store id) (world []).fs ≡ some (file (package_doc held_package))
unfolding lookup meta_path join
described = refl

delete_stuck_example :
    let w = world (fine ∷ fine ∷ refused ∷ []) in
    let w' = (delete store id w).1 in
    ((delete store id w).0 ≡ err io)
    × ((get store id w').0 ≡ ok held_package)
    × (path store id w' ≡ (err (not_found id), w'))
    × (delete store id w' ≡ (err (not_found id), w'))
delete_stuck_example =
    delete_stuck store id (world (fine ∷ fine ∷ refused ∷ [])) (bytes (7 ∷ [])) held_package refl
      accepts held described

-- zarf's side: a digest, an archive that loads under one name
abbrev pub zarf : Zarf
zarf = record {
  sha256_hex = λ t. lit "ab";
  load_from_tar = λ c v. some (record {
    name = lit "b";
    version = [];
    architecture = [];
    kind = [];
    description = [];
    yolo = false;
    components = [];
    file_name = some (lit "b.tar");
  });
  zstd_decode = λ c. some c;
  tar_read = λ c. record { entries = []; ends = true };
}

abbrev blank : World
blank = record {
  fs = (lit "p" ∷ [], dir) ∷ [];
  faults = [];
  clock = 0;
  entropy = [];
  temps = 1 ∷ [];
}

abbrev pub body : Reader
body = record { payload = 5 ∷ 6 ∷ []; broken = false }

blank_tidy :
    (name : Text) → valid_id name ≡ true → lookup (meta_path store name) blank.fs ≢ some dir
unfolding lookup
blank_tidy name v e =
    let apart : lit "p" ∷ [] ≢ meta_path store name =
      λ h. ground (arith, h, meta_path_lem store name v) in
    ground (arith, e, apart, list_beq_iff (lit "p" ∷ []) (meta_path store name))

picked :
    pick store.packages_dir incoming tar_zst blank.temps blank.fs
    ≡ some (lit "p" ∷ lit ".incoming-1.tar.zst" ∷ [])
unfolding pick lookup decimal
picked = refl

import_reader_lem_example :
    let out = import_reader store zarf body [] (lit "AB") true verify_never blank in
    ((e : Error) × (out.0 ≡ err e) × SameDisk blank out.1)
    ⊎ ((pkg : Package) × (out.0 ≡ ok pkg)
        × (body.broken ≡ false)
        × Stored store zarf body.payload blank pkg out.1)
unfolding lookup
import_reader_lem_example =
    import_reader_lem store zarf blank refl refl blank_tidy
      (lit "p" ∷ lit ".incoming-1.tar.zst" ∷ []) picked body [] (lit "AB") true verify_never
