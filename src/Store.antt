-- ===== src/Store.antt =====
-- internal/store/store.go: the inventory of packages. Upload sessions are in the child `Uploads`.
-- What is not the program's or Go's own (zarf's archive loader, zstd, and the digest, tar and zstd
-- formats) is the parameter `Zarf`.
pub mod Concurrent
pub mod Import
pub mod Uploads
pub mod Inventory
pub mod Racing
pub mod Ids
pub mod Places
pub mod Packages
pub mod Importing
pub mod Finalizing
pub mod Chunks
pub mod Pushing
pub mod Contiguous
pub mod Landing
pub mod Atomic
pub mod Completing
pub mod Aborting
pub mod Gathering
pub mod Counting
pub mod Creating
pub mod Listing
pub mod Failures
pub mod Examples
pub mod Sessions
use zarf_api.Prelude.{
  ℕ, ◌+◌, Bool, true, false, not, ◌&&◌, ◌||◌, Option, none, some, List, [], ◌∷◌, ◌++◌, map, Text,
  ◌==◌, nat_eq, list_eq, leb, lit, has_suffix, trim_prefix, contains_any, length, sort, text_leb,
  if◌then◌else◌,
}
use zarf_api.Regex.{Regex, one, seq, star, maybe, exactly, times, matches}
use zarf_api.Records.{
  Package, Error, not_found, exists, fs_not_exist, io, bad_json, sha256_mismatch, validation_failed,
  no_canonical_name, no_file_name, invalid_file_name, invalid_root_name, zstd_failed, bad_archive,
}
use zarf_api.Os.{
  FilePath, Content, bytes, package_doc, upload_doc, Node, Result, ok, err, Io, pure, raise, ◌>>=◌,
  ◌>>◌, attempt, finally,
}
use zarf_api.Os.Paths.{join}
use zarf_api.Os.Files.{
  Reader, stat, read_file, write_file, rename, remove, create_temp, mkdir_all, read_dir, copy_into,
  now,
}

-- `layout.VerificationStrategy`
pub data Verification : Type 0 where
  verify_if_possible verify_never verify_always : Verification

-- What the store reads of a `layout.PackageLayout`: the fields of `v1alpha1.ZarfPackage` and the
-- result of `FileName()`.
pub record Layout : Type 0 where
  pub name : Text
  pub version : Text
  pub architecture : Text
  pub kind : Text
  pub description : Text
  pub yolo : Bool
  pub components : List Text
  pub file_name : Option Text

-- `body` is `none` when the stream breaks off in the middle of the entry.
pub record TarEntry : Type 0 where
  pub name : Text
  pub regular : Bool
  pub body : Option Text

-- The entries that `tar.Reader` yields, and whether it then meets the end or an error.
pub record Archive : Type 0 where
  pub entries : List TarEntry
  pub ends : Bool

-- `zstd_decode` is `none` when no reader can be opened, else what the reader yields.
pub record Zarf : Type 0 where
  pub sha256_hex : Text → Text
  pub load_from_tar : Content → Verification → Option Layout
  pub zstd_decode : Content → Option Content
  pub tar_read : Content → Archive

pub record Store : Type 0 where
  pub packages_dir : FilePath
  pub uploads_dir : FilePath

-- `Open`
unfoldable pub open_store : FilePath → FilePath → Io Store
open_store packages uploads = do
  mkdir_all packages
  mkdir_all uploads
  pure (record { packages_dir = packages; uploads_dir = uploads })

abbrev pub between : ℕ → ℕ → ℕ → Bool
between lo hi c = leb lo c && leb c hi

-- `[a-zA-Z0-9]` and `[a-zA-Z0-9._-]`
abbrev pub is_alphanumeric : ℕ → Bool
is_alphanumeric c = between b'a' b'z' c || between b'A' b'Z' c || between b'0' b'9' c

abbrev pub is_id_byte : ℕ → Bool
is_id_byte c =
    is_alphanumeric c || between b'.' b'.' c || between b'_' b'_' c || between b'-' b'-' c

-- `^[a-zA-Z0-9][a-zA-Z0-9._-]*\.tar(\.zst)?$`
abbrev pub id_pattern : Regex
id_pattern =
    seq (one is_alphanumeric)
      (seq (star (one is_id_byte)) (seq (exactly (lit ".tar")) (maybe (exactly (lit ".zst")))))

unfoldable pub valid_id : Text → Bool
valid_id s = matches id_pattern s

abbrev pub meta_suffix : Text
meta_suffix = lit ".meta.json"

unfoldable pub meta_path : Store → Text → FilePath
meta_path s id = join s.packages_dir (id ++ meta_suffix)

abbrev pub unmarshal_package : Content → Io Package
unmarshal_package (package_doc pkg) = pure pkg
unmarshal_package _ = raise bad_json

unfoldable pub read_meta : FilePath → Io Package
read_meta path = do b ← read_file path; unmarshal_package b

-- one entry of the directory: what is no sidecar, or cannot be read, is skipped
abbrev pub is_sidecar : Text × Bool → Bool
is_sidecar e = not e.1 && has_suffix e.0 meta_suffix

abbrev pub add_read : Result Package → List Package → List Package
add_read (ok pkg) out = pkg ∷ out
add_read (err e) out = out

unfoldable pub read_all : Store → List (Text × Bool) → Io (List Package)
unfolding read_meta
read_all s [] = pure []
read_all s (e ∷ entries) =
    let rest = read_all s entries in
    if is_sidecar e
    then (do r ← attempt (read_meta (join s.packages_dir e.0)); out ← rest; pure (add_read r out))
    else rest

unfoldable pub list : Store → Io (List Package)
unfolding read_all sort
list s = do
  entries ← read_dir s.packages_dir
  out ← read_all s entries
  pure (sort (λ (a : Package) (b : Package). text_leb a.id b.id) out)

-- `errors.Is(err, fs.ErrNotExist)` is reported as ErrNotFound
abbrev pub missing_as : Text → Result Package → Io Package
missing_as id (err fs_not_exist) = raise (not_found id)
missing_as id (err e) = raise e
missing_as id (ok pkg) = pure pkg

unfoldable pub get : Store → Text → Io Package
unfolding read_meta
get s id =
    if valid_id id
    then (do r ← attempt (read_meta (meta_path s id)); missing_as id r)
    else raise (not_found id)

-- any error of `os.Stat` is reported as ErrNotFound
abbrev pub must_stat : Text → Result Node → Io (Unit {0})
must_stat id (ok n) = pure tt
must_stat id (err e) = raise (not_found id)

unfoldable pub path : Store → Text → Io FilePath
path s id =
    if valid_id id
    then (do
      r ← attempt (stat (join s.packages_dir id))
      must_stat id r
      pure (join s.packages_dir id))
    else raise (not_found id)

-- a sidecar that is not there is no failure
abbrev pub unless_missing : Result (Unit {0}) → Io (Unit {0})
unless_missing (err fs_not_exist) = pure tt
unless_missing (err e) = raise e
unless_missing (ok u) = pure tt

unfoldable pub delete : Store → Text → Io (Unit {0})
delete s id =
    if valid_id id
    then (do
      r ← attempt (stat (join s.packages_dir id))
      must_stat id r
      remove (join s.packages_dir id)
      removed ← attempt (remove (meta_path s id))
      unless_missing removed)
    else raise (not_found id)
