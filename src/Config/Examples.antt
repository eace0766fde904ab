-- ===== src/Config/Examples.antt =====
-- The theorems on the configuration at a concrete environment.
use zarf_api.Prelude.{
  ◌≡◌, refl, false, some, [], ◌∷◌, Text, ◌==◌, nat_eq, list_eq, lit, if◌then◌else◌, pos,
}
use zarf_api.Config.{
  given, Config, Outcome, ok, err, trim, trim_left, parse_base_path, parse_port, parse_sessions,
  env_or, abs, from_env,
}
use zarf_api.Config.BasePath.{IsBasePath, parse_base_path_lem}
use zarf_api.Config.Bounds.{IsSound, from_env-IsSound}

parse_base_path_lem_example :
    IsBasePath (lit "/zarf") × (parse_base_path (lit "/zarf") ≡ ok (lit "/zarf"))
parse_base_path_lem_example =
    parse_base_path_lem (lit "zarf//") (lit "/zarf") (unfold parse_base_path trim trim_left in refl)

-- the base path is set, and nothing else is
abbrev pub environment : Text → Text
environment key = if key == lit "ZARF_API_BASE_PATH" then lit "/zarf/" else []

-- the configuration in an outcome, when there is one
abbrev config_or : Config → Outcome Config → Config
config_or d (ok c) = c
config_or d (err e) = d

abbrev nothing : Config
nothing = record {
  version = [];
  port = pos 0;
  log_level = [];
  log_format = [];
  data_dir = [];
  temp_dir = given [];
  public_key_path = [];
  ui_enabled = false;
  base_path = [];
  max_upload_sessions = pos 0;
  max_jobs = pos 0;
  job_log_lines = pos 0;
  packages_dir = [];
  uploads_dir = [];
  cache_dir = [];
  custom_columns = [];
}

abbrev pub accepted : Config
accepted = config_or nothing (from_env environment (some (lit "srv" ∷ [])))

from_env-IsSound_example : IsSound accepted
from_env-IsSound_example =
    from_env-IsSound environment (some (lit "srv" ∷ [])) accepted
      (unfold from_env parse_base_path trim trim_left env_or parse_port parse_sessions abs in refl)
