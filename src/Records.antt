-- ===== src/Records.antt =====
-- internal/store/store.go: what the store keeps of a package and of an upload session, and the
-- errors of its operations: an error that `%w` wraps is the error itself. Times are numbers; a size in bytes is a number.
use zarf_api.Prelude.{ℕ, ◌+◌, Bool, true, false, List, [], ◌∷◌, Text, Map}

pub record Package : Type 0 where
  pub id : Text
  pub name : Text
  pub version : Text
  pub architecture : Text
  pub kind : Text
  pub description : Text
  pub yolo : Bool
  pub components : List Text
  pub size : ℕ
  pub sha256 : Text
  pub imported_at : ℕ

-- `Upload`, and `sessionFile`, which has the same fields
pub record Upload : Type 0 where
  pub id : Text
  pub file_name_hint : Text
  pub sha256 : Text
  pub created_at : ℕ
  pub chunks : Map ℕ ℕ

unfoldable pub total_size : Map ℕ ℕ → ℕ
total_size [] = 0
total_size ((index, size) ∷ chunks) = size + total_size chunks

unfoldable pub received_bytes : Upload → ℕ
unfolding total_size
received_bytes u = total_size u.chunks

pub data Error : Type 0 where
  not_found exists : Text → Error  -- wrap ErrNotFound and ErrExists
  fs_not_exist : Error  -- wraps fs.ErrNotExist
  io : Error  -- any other error of the operating system
  bad_json : Error
  sha256_mismatch : Text → Text → Error
  validation_failed no_canonical_name no_file_name : Error
  invalid_file_name invalid_root_name : Text → Error
  negative_index no_chunks zstd_failed bad_archive : Error
  missing_chunk : ℕ → Error

-- `errors.Is(err, ErrNotFound)` and `errors.Is(err, ErrExists)`
abbrev pub is_not_found : Error → Bool
is_not_found (not_found _) = true
is_not_found _ = false

abbrev pub is_exists : Error → Bool
is_exists (exists _) = true
is_exists _ = false
