-- ===== src/Store/Import.antt =====
-- internal/store/store.go: `ImportReader`, `finalizeImport` and `ReadPackageRootFile`.
use zarf_api.Prelude.{
  ℕ, ◌+◌, Bool, true, false, not, ◌&&◌, ◌||◌, Option, none, some, List, [], ◌∷◌, Text, ◌==◌, nat_eq,
  list_eq, lit, has_suffix, trim_prefix, contains_any, length, if◌then◌else◌,
}
use zarf_api.Records.{
  Package, Error, exists, not_found, sha256_mismatch, validation_failed, no_canonical_name,
  no_file_name, invalid_file_name, invalid_root_name, zstd_failed, bad_archive,
}
use zarf_api.Os.{
  FilePath, Content, bytes, package_doc, Node, file, Result, ok, err, Io, pure, raise, ◌>>=◌, ◌>>◌,
  attempt, finally,
}
use zarf_api.Os.Paths.{join}
use zarf_api.Os.Files.{
  Reader, stat, read_file, write_file, rename, remove, create_temp, copy_into, now,
}
use zarf_api.Store.{Verification, Layout, TarEntry, Zarf, Store, valid_id, meta_path, path, between}

abbrev lower : ℕ → ℕ
lower c = if between b'A' b'Z' c then c + 32 else c

-- `strings.EqualFold`; one side is a digest in lower-case hexadecimal, so that ASCII is enough
unfoldable pub equal_fold : Text → Text → Bool
equal_fold [] [] = true
equal_fold (c ∷ s) (d ∷ t) = lower c == lower d && equal_fold s t
equal_fold _ _ = false

abbrev pub require : Bool → Error → Io (Unit {0})
require true e = pure tt
require false e = raise e

abbrev pub named : Layout → Option Text → Io (Layout × Text)
named l none = raise no_canonical_name
named l (some file_name) = pure (l, file_name)

abbrev pub checked : Option Layout → Io (Layout × Text)
checked none = raise validation_failed
checked (some l) = named l l.file_name

abbrev pub loaded : Zarf → Verification → Result Content → Io (Layout × Text)
loaded zarf verify (ok c) = checked (zarf.load_from_tar c verify)
loaded zarf verify (err e) = raise validation_failed

-- the zero value of `v1alpha1.ZarfPackage`
abbrev pub no_layout : Layout
no_layout = record {
  name = [];
  version = [];
  architecture = [];
  kind = [];
  description = [];
  yolo = false;
  components = [];
  file_name = none;
}

-- `if validate { … }`: the metadata and the file name
unfoldable pub describe : Zarf → FilePath → Text → Bool → Verification → Io (Layout × Text)
describe zarf tmp hint true verify = do r ← attempt (read_file tmp); loaded zarf verify r
describe zarf tmp hint false verify = pure (no_layout, hint)

-- `if _, err := os.Stat(finalPath); err == nil`
abbrev pub must_be_absent : Text → Result Node → Io (Unit {0})
must_be_absent name (ok n) = raise (exists name)
must_be_absent name (err e) = pure tt

abbrev pub node_size : Node → ℕ
node_size (file (bytes b)) = length b
node_size _ = 0

abbrev pub package_of : Layout → Text → ℕ → Text → ℕ → Package
package_of meta file_name size sum imported_at = record {
  id = file_name;
  name = meta.name;
  version = meta.version;
  architecture = meta.architecture;
  kind = meta.kind;
  description = meta.description;
  yolo = meta.yolo;
  components = meta.components;
  size = size;
  sha256 = sum;
  imported_at = imported_at;
}

-- from the rename on: the package is moved into place and its sidecar is written
unfoldable pub install : Store → FilePath → Layout → Text → Text → Io Package
install s tmp meta file_name sum = do
  rename tmp (join s.packages_dir file_name)
  info ← stat (join s.packages_dir file_name)
  t ← now
  let pkg = package_of meta file_name (node_size info) sum t
  write_file (meta_path s file_name) (package_doc pkg)
  pure pkg

-- the tests of the file name, and of what stands at its place
unfoldable pub place : Store → FilePath → Layout → Text → Text → Io Package
place s tmp meta file_name sum = do
  require (not (file_name == [])) no_file_name
  require (valid_id file_name) (invalid_file_name file_name)
  r ← attempt (stat (join s.packages_dir file_name))
  must_be_absent file_name r
  install s tmp meta file_name sum

-- `payload` is what went through the digest `h`
unfoldable pub finalize_import :
    Store → Zarf → FilePath → Text → Text → Text → Bool → Verification → Io Package
unfolding equal_fold describe
finalize_import s zarf tmp payload hint shasum validate verify = do
  let sum = zarf.sha256_hex payload
  require (shasum == [] || equal_fold shasum sum) (sha256_mismatch shasum sum)
  (meta, file_name) ← describe zarf tmp hint validate verify
  place s tmp meta file_name sum

abbrev pub incoming : Text
incoming = lit ".incoming-"

abbrev pub tar_zst : Text
tar_zst = lit ".tar.zst"

unfoldable pub import_reader :
    Store → Zarf → Reader → Text → Text → Bool → Verification → Io Package
unfolding finalize_import
import_reader s zarf r hint shasum validate verify = do
  tmp ← create_temp s.packages_dir incoming tar_zst
  finally (do copy_into tmp [] r; finalize_import s zarf tmp r.payload hint shasum validate verify)
      (remove tmp)

-- `io.ReadAll(tr)`
abbrev pub read_entry : Option Text → Result Text
read_entry none = err bad_archive
read_entry (some body) = ok body

-- the loop over the entries of the archive
unfoldable pub find_entry : Text → Text → List TarEntry → Bool → Result Text
find_entry name id [] true = err (not_found id)
find_entry name id [] false = err bad_archive
find_entry name id (e ∷ entries) ends =
    if e.regular && trim_prefix e.name (lit "./") == name
    then read_entry e.body
    else find_entry name id entries ends

abbrev pub decompressed : Bool → Zarf → Content → Option Content
decompressed true zarf c = zarf.zstd_decode c
decompressed false zarf c = some c

-- `filepath.Base` gives back every name that is not empty and holds no slash.
abbrev pub is_root_name : Text → Bool
is_root_name name = not (name == []) && not (contains_any name (lit "/\\"))

abbrev pub search_archive : Zarf → Text → Text → Option Content → Io Text
search_archive zarf name id none w = (err zstd_failed, w)
search_archive zarf name id (some c) w =
    (find_entry name id (zarf.tar_read c).entries (zarf.tar_read c).ends, w)

unfoldable pub read_package_root_file : Store → Zarf → Text → Text → Io Text
unfolding find_entry
read_package_root_file s zarf id name = do
  require (is_root_name name) (invalid_root_name name)
  p ← path s id
  c ← read_file p
  search_archive zarf name id (decompressed (has_suffix id (lit ".zst")) zarf c)
