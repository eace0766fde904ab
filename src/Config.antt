-- ===== src/Config.antt =====
-- internal/config/config.go: the configuration of the server, from the environment.
-- `os.Getenv` and the working directory are arguments.
pub mod BasePath
pub mod Bounds
pub mod Examples
use zarf_api.Prelude.{
  ℕ, Bool, true, false, not, ◌&&◌, ◌||◌, Option, none, some, List, [], ◌∷◌, ◌++◌, reverse, Text, ℤ,
  pos, negsuc, ◌==◌, nat_eq, list_eq, ltb, leb, lit, atoi, ltb_ℤ, contains_any, has_prefix,
  if◌then◌else◌,
}
use zarf_api.Os.{FilePath}
use zarf_api.Os.Paths.{join}

-- `TempDir`: as it was given, or below the data directory
pub data TempDir : Type 0 where
  given : Text → TempDir
  below : FilePath → TempDir

pub record Config : Type 0 where
  pub version : Text
  pub port : ℤ
  pub log_level : Text
  pub log_format : Text
  pub data_dir : FilePath
  pub temp_dir : TempDir
  pub public_key_path : Text
  pub ui_enabled : Bool
  pub base_path : Text
  pub max_upload_sessions : ℤ
  pub max_jobs : ℤ
  pub job_log_lines : ℤ
  pub packages_dir : FilePath
  pub uploads_dir : FilePath
  pub cache_dir : FilePath
  pub custom_columns : Text

pub data ConfigError : Type 0 where
  invalid_port invalid_max_upload_sessions invalid_base_path : Text → ConfigError
  no_working_directory : ConfigError

pub data Outcome (A : Type 0) : Type 0 where
  ok : A → Outcome A
  err : ConfigError → Outcome A

infixl 5 ◌>>=◌
abbrev pub ◌>>=◌ : {A B : Type 0} → Outcome A → (A → Outcome B) → Outcome B
ok a >>= f = f a
err e >>= f = err e

unfoldable pub env_or : (Text → Text) → Text → Text → Text
env_or getenv key fallback = let v = getenv key in if v == [] then fallback else v

-- `strings.Trim(s, "/")`
pub trim_left : Text → Text
trim_left [] = []
trim_left (c ∷ s) = let rest = trim_left s in if c == b'/' then rest else c ∷ s

unfoldable pub trim : Text → Text
unfolding trim_left
trim s = reverse (trim_left (reverse (trim_left s)))

abbrev pub in_port_range : ℤ → Bool
in_port_range p = not (ltb_ℤ p (pos 1)) && not (ltb_ℤ (pos 65535) p)

abbrev pub port_of : Text → Option ℤ → Outcome ℤ
port_of v none = err (invalid_port v)
port_of v (some p) = if in_port_range p then ok p else err (invalid_port v)

unfoldable pub parse_port : Text → Outcome ℤ
parse_port v = if v == [] then ok (pos 8080) else port_of v (atoi v)

abbrev pub sessions_of : Text → Option ℤ → Outcome ℤ
sessions_of v none = err (invalid_max_upload_sessions v)
sessions_of v (some n) = if ltb_ℤ n (pos 1) then err (invalid_max_upload_sessions v) else ok n

unfoldable pub parse_sessions : Text → Outcome ℤ
parse_sessions v = if v == [] then ok (pos 16) else sessions_of v (atoi v)

-- `"/" + strings.Trim(v, "/")`, unless nothing is left or a forbidden byte stands in it
unfoldable pub parse_base_path : Text → Outcome Text
parse_base_path v =
    if v == []
    then ok []
    else let bp : Text = b'/' ∷ trim v in
      if bp == lit "/" || contains_any bp (lit " ?#") then err (invalid_base_path v) else ok bp

-- `filepath.Abs`
abbrev pub from_cwd : Option FilePath → Text → Outcome FilePath
from_cwd none p = err no_working_directory
from_cwd (some cwd) p = ok (join cwd p)

unfoldable pub abs : Option FilePath → Text → Outcome FilePath
abs cwd p = if has_prefix p (lit "/") then ok (join [] p) else from_cwd cwd p

unfoldable pub from_env : (Text → Text) → Option FilePath → Outcome Config
unfolding env_or parse_port parse_sessions parse_base_path abs
from_env getenv cwd = do
  port ← parse_port (getenv (lit "ZARF_API_PORT"))
  sessions ← parse_sessions (getenv (lit "ZARF_API_MAX_UPLOAD_SESSIONS"))
  bp ← parse_base_path (getenv (lit "ZARF_API_BASE_PATH"))
  data_dir ← abs cwd (env_or getenv (lit "ZARF_API_DATA_DIR") (lit "./data"))
  let temp : Text = getenv (lit "ZARF_API_TEMP_DIR")
  ok (record {
    version = env_or getenv (lit "ZARF_API_VERSION") (lit "0.1.0-dev");
    port = port;
    log_level = env_or getenv (lit "ZARF_API_LOG_LEVEL") (lit "info");
    log_format = env_or getenv (lit "ZARF_API_LOG_FORMAT") (lit "json");
    data_dir = data_dir;
    temp_dir = if temp == [] then below (join data_dir (lit "tmp")) else given temp;
    public_key_path = getenv (lit "ZARF_API_PUBLIC_KEY_PATH");
    ui_enabled = not (getenv (lit "ZARF_API_UI_ENABLED") == lit "false");
    base_path = bp;
    max_upload_sessions = sessions;
    max_jobs = pos 100;
    job_log_lines = pos 2000;
    packages_dir = join data_dir (lit "packages");
    uploads_dir = join data_dir (lit "uploads");
    cache_dir = join data_dir (lit "cache");
    custom_columns = getenv (lit "ZARF_API_UI_CUSTOM_COLUMNS");
  })
