-- ===== src/Zarfz/Packaging.antt =====
-- internal/zarfz/zarf.go: `Deploy`, `Remove`, `ListDeployed`, `GetDeployed` and `Ping`. The calls of
-- Zarf are recorded in order, and the parameter `Packager` replies to each by all calls so far; what
-- it hands out (a package, a cluster) is a number.
pub mod Asked
pub mod Calls
use zarf_api.Prelude.{
  ℕ, Bool, true, false, ◌&&◌, Option, none, some, List, [], ◌∷◌, ◌++◌, Text, Map, ℤ, pos, ◌==◌,
  nat_eq, list_eq, if◌then◌else◌,
}
use zarf_api.Store.{Verification, verify_if_possible}
use zarf_api.Zarfz.{
  Json, ValueLib, DeployRequest, RemoveRequest, ZarfError, no_source, no_cache_path, no_package,
  no_deploy, no_cluster, no_list, zarf_failed, Fallible, ok, err, build_values, build_overrides,
  verify_strategy,
}

-- `filters.Combine(ByLocalOS, ForDeploy)`, `filters.Combine(ByLocalOS, BySelectState)`, `filters.Empty`
pub data Filter : Type 0 where
  for_deploy by_select_state : Text → Filter
  no_filter : Filter

pub record LoadOptions : Type 0 where
  pub shasum : Text
  pub verification : Verification
  pub public_key_path : Text
  pub filter : Filter
  pub architecture : Text
  pub oci_concurrency : ℤ
  pub cache_path : Text

pub record DeployOptions : Type 0 where
  pub values : Map Text Json
  pub overrides : Option (Map Text (Map Text (Map Text Json)))
  pub take_ownership : Bool
  pub connected : Bool
  pub force_conflicts : Bool
  pub timeout : ℤ
  pub retries : ℤ
  pub oci_concurrency : ℤ
  pub set_variables : Map Text Text
  pub namespace_override : Text
  pub interactive : Bool
  pub skip_values_schema_validation : Bool
  pub skip_version_check : Bool

pub record RemoveOptions : Type 0 where
  pub cluster : Option ℕ
  pub timeout : ℤ
  pub namespace_override : Text
  pub skip_version_check : Bool
  pub values : Map Text Json

pub data Call : Type 0 where
  load_package : Text → LoadOptions → Call
  clean_up : ℕ → Call
  deploy_package : ℕ → DeployOptions → Call
  connect : Call
  get_package : Option ℕ → Text → Text → LoadOptions → Call
  remove_package : ℕ → RemoveOptions → Call
  list_packages : ℕ → Call
  get_deployed_package : ℕ → Text → Text → Call

-- a `state.DeployedComponent` with the connect strings of its charts
pub record Deployed : Type 0 where
  pub name : Text
  pub status : Text
  pub charts : List (Map Text Text)

-- what Zarf replies to the last of these calls; `none` is an error
pub record Packager : Type 0 where
  pub absolute_cache_path : Option Text
  pub architecture : Text
  pub handed : List Call → Option ℕ
  pub deployed : List Call → Option (List Deployed)
  pub done : List Call → Bool
  pub listed : List Call → List Text × Bool  -- names of packages, and whether there was no error
  pub found : List Call → Option Text

abbrev pub Eff : Type 0 → Type 0
Eff A = List Call → Fallible A × List Call

abbrev pub lift : {A : Type 0} → Fallible A → Eff A
lift r calls = (r, calls)

abbrev pub continue : {A B : Type 0} → Fallible A → (A → Eff B) → Eff B
continue (ok a) f calls = f a calls
continue (err e) f calls = (err e, calls)

infixl 5 ◌>>=◌
abbrev pub ◌>>=◌ : {A B : Type 0} → Eff A → (A → Eff B) → Eff B
◌>>=◌ m f calls = let (r, calls') = m calls in continue r f calls'

abbrev pub or_error : {A : Type 0} → ZarfError → Option A → Fallible A
or_error e none = err e
or_error e (some a) = ok a

-- one call, its reply, and the error that stands for none
abbrev pub perform : {A : Type 0} → Call → (List Call → Option A) → ZarfError → Eff A
perform c reply e calls = let calls' = calls ++ c ∷ [] in (or_error e (reply calls'), calls')

-- the same where the caller ignores the error
abbrev pub perform_any : {A : Type 0} → Call → (List Call → Option A) → Eff (Option A)
perform_any c reply calls = let calls' = calls ++ c ∷ [] in (ok (reply calls'), calls')

-- `defer func() { _ = pkgLayout.Cleanup() }()`
abbrev pub deferring : {A : Type 0} → Eff A → Call → Eff A
deferring m c calls = let (r, calls') = m calls in (r, calls' ++ c ∷ [])

abbrev pub load_options : Packager → DeployRequest → Text → Verification → LoadOptions
load_options zarf req cache strategy = record {
  shasum = req.shasum;
  verification = strategy;
  public_key_path = req.public_key_path;
  filter = for_deploy req.components;
  architecture = zarf.architecture;
  oci_concurrency = req.oci_concurrency;
  cache_path = cache;
}

abbrev pub deploy_options :
    DeployRequest → Map Text Json → Option (Map Text (Map Text (Map Text Json))) → DeployOptions
deploy_options req values overrides = record {
  values = values;
  overrides = overrides;
  take_ownership = req.take_ownership;
  connected = req.connected;
  force_conflicts = req.force_conflicts;
  timeout = req.timeout;
  retries = req.retries;
  oci_concurrency = req.oci_concurrency;
  set_variables = req.set_variables;
  namespace_override = req.namespace_override;
  interactive = false;
  skip_values_schema_validation = req.skip_values_schema_validation;
  skip_version_check = req.skip_version_check;
}

-- from the loaded package on
unfoldable pub deploy_loaded : ValueLib → Packager → DeployRequest → ℕ → Eff (List Deployed)
deploy_loaded lib zarf req layout = do
  values ← lift (build_values lib req.values req.set_values)
  overrides ← lift (build_overrides lib req.values_overrides)
  perform (deploy_package layout (deploy_options req values overrides)) zarf.deployed no_deploy

-- `Deploy`
unfoldable pub deploy : ValueLib → Packager → DeployRequest → Eff (List Deployed)
unfolding deploy_loaded
deploy lib zarf req = if req.source == [] then lift (err no_source) else (do
  cache ← lift (or_error no_cache_path zarf.absolute_cache_path)
  strategy ← lift (verify_strategy req.verify)
  layout ←
      perform (load_package req.source (load_options zarf req cache strategy)) zarf.handed
        no_package
  deferring (deploy_loaded lib zarf req layout) (clean_up layout))

abbrev pub remove_options : RemoveRequest → Option ℕ → Map Text Json → RemoveOptions
remove_options req cluster values = record {
  cluster = cluster;
  timeout = req.timeout;
  namespace_override = req.namespace_override;
  skip_version_check = req.skip_version_check;
  values = values;
}

abbrev pub cluster_options : Packager → Text → Filter → LoadOptions
cluster_options zarf cache filter = record {
  shasum = [];
  verification = verify_if_possible;
  public_key_path = [];
  filter = filter;
  architecture = zarf.architecture;
  oci_concurrency = pos 0;
  cache_path = cache;
}

abbrev pub unit_if : Bool → Option (Unit {0})
unit_if true = some tt
unit_if false = none

-- `Remove`
unfoldable pub remove : ValueLib → Packager → Text → RemoveRequest → Eff (Unit {0})
remove lib zarf name req = do
  cluster ← perform_any connect zarf.handed
  cache ← lift (or_error no_cache_path zarf.absolute_cache_path)
  pkg ←
      perform
        (get_package cluster name req.namespace_override
          (cluster_options zarf cache (by_select_state req.components)))
        zarf.handed no_package
  values ← lift (build_values lib req.values req.set_values)
  perform (remove_package pkg (remove_options req cluster values))
      (λ calls. unit_if (zarf.done calls)) zarf_failed

-- an error counts only when nothing was read
abbrev pub listing : List Text × Bool → Fallible (List Text)
listing (names, true) = ok names
listing ([], false) = err no_list
listing (name ∷ names, false) = ok (name ∷ names)

abbrev pub list_from : Packager → ℕ → Eff (List Text)
list_from zarf c calls =
    let calls' = calls ++ list_packages c ∷ [] in (listing (zarf.listed calls'), calls')

-- `ListDeployed`, `GetDeployed` and `Ping`
unfoldable pub list_deployed : Packager → Eff (List Text)
list_deployed zarf = do c ← perform connect zarf.handed no_cluster; list_from zarf c

unfoldable pub get_deployed : Packager → Text → Text → Eff Text
get_deployed zarf name namespace_override = do
  c ← perform connect zarf.handed no_cluster
  perform (get_deployed_package c name namespace_override) zarf.found zarf_failed

unfoldable pub ping : Packager → Eff ℕ
ping zarf = perform connect zarf.handed no_cluster
