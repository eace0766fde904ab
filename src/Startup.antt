-- ===== src/Startup.antt =====
-- cmd/zarf-api/main.go: what `run` sets up before it listens. The environment, the working directory,
-- the version of the build, Zarf's logger and the mux of net/http are arguments.
pub mod Dirs
pub mod Serving
mod Examples
use zarf_api.Prelude.{
  Bool, true, false, Option, none, some, List, [], ◌∷◌, ◌++◌, Text, ◌==◌, nat_eq, list_eq, lit,
  if◌then◌else◌,
}
use zarf_api.Records.{Error, io}
use zarf_api.Os.{FilePath, World, Result, ok, err, Io, pure, ◌>>=◌, ◌>>◌}
use zarf_api.Os.Files.{mkdir_all}
use zarf_api.Config.{Config, ConfigError, Outcome, TempDir, given, below, abs, from_env}
use zarf_api.Config
use zarf_api.Store.{Store, open_store}
use zarf_api.Handlers.Routes.{register}
use zarf_api.Handlers.Routes.Serving.{ServeMux}
use zarf_api.Jobs.{Manager, new_manager}

-- `zlogger`: which levels it parses, and for which formats it makes a logger
pub record Loggers : Type 0 where
  pub parse_level : Text → Bool
  pub makes : Text → Bool

-- `zarfz.ZarfVersion`
abbrev pub zarf_version : Text
zarf_version = lit "0.85.0"

-- What is there when the server starts to listen, the process-wide settings of Zarf included.
pub record Ready : Type 0 where
  pub config : Config
  pub cli_version : Text
  pub cache_path : FilePath
  pub temp_directory : TempDir
  pub store : Store
  pub jobs : Manager

pub data Setup : Type 0 where
  ready : Ready → Setup
  bad_config : ConfigError → Setup
  bad_log_level bad_log_format : Text → Setup
  failed : Error → Setup
  panicked : Setup  -- in `Register`

-- `if cfg.Version == "0.1.0-dev" { cfg.Version = version }`
unfoldable pub versioned : Text → Config → Config
versioned version cfg =
    if cfg.version == lit "0.1.0-dev" then record cfg { version = version } else cfg

unfoldable pub cli_version_of : Config → Text
cli_version_of cfg = zarf_version ++ lit "+zarf-api." ++ cfg.version

-- where a relative path is to the operating system
abbrev pub located : Outcome FilePath → Io FilePath
located (Config.ok p) w = (ok p, w)
located (Config.err e) w = (err io, w)

abbrev pub temp_path : Option FilePath → TempDir → Io FilePath
temp_path cwd (given t) = located (abs cwd t)
temp_path cwd (below p) = pure p

abbrev pub ready_with : Config → Store → Ready
ready_with cfg s = record {
  config = cfg;
  cli_version = cli_version_of cfg;
  cache_path = cfg.cache_dir;
  temp_directory = cfg.temp_dir;
  store = s;
  jobs = new_manager cfg.max_jobs cfg.job_log_lines;
}

-- `srv.Handler()`
abbrev pub routed : ServeMux → Config → Store → Setup
routed mux cfg s =
    if mux.accepts (register cfg.base_path cfg.ui_enabled)
    then ready (ready_with cfg s)
    else panicked

abbrev pub concluded : ServeMux → Config → Result Store → World → Setup × World
concluded mux cfg (err e) w = (failed e, w)
concluded mux cfg (ok s) w = (routed mux cfg s, w)

-- the directories, then the store
unfoldable pub make_store : Option FilePath → Config → Io Store
make_store cwd cfg = do
  mkdir_all cfg.cache_dir
  temp ← temp_path cwd cfg.temp_dir
  mkdir_all temp
  open_store cfg.packages_dir cfg.uploads_dir

abbrev pub with_config :
    ServeMux → Loggers → Text → Option FilePath → Outcome Config → World → Setup × World
with_config mux loggers version cwd (Config.err e) w = (bad_config e, w)
with_config mux loggers version cwd (Config.ok cfg) w =
    if loggers.parse_level cfg.log_level
    then (if loggers.makes cfg.log_format
        then (let (r, w') = make_store cwd (versioned version cfg) w in
            concluded mux (versioned version cfg) r w')
        else (bad_log_format cfg.log_format, w))
    else (bad_log_level cfg.log_level, w)

-- `run` up to the handler of the HTTP server
unfoldable pub setup :
    ServeMux → Loggers → Text → (Text → Text) → Option FilePath → World → Setup × World
unfolding make_store
setup mux loggers version getenv cwd = with_config mux loggers version cwd (from_env getenv cwd)
