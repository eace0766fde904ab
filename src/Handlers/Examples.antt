-- ===== src/Handlers/Examples.antt =====
-- The theorems on the handlers at a store with one package and one session.
mod Begun
mod Turns
use zarf_api.Prelude.{
  ◌↔◌, ltb_ℤ, false, some, false, ◌==◌, ◌≡◌, refl, true, none, [], ◌∷◌, Text, lit, pos, nat_eq,
  list_eq, lookup, arith, sort, text_leb,
}
use zarf_api.Records.{not_found}
use zarf_api.Regex.{matches, derive, nullable}
use zarf_api.Os.{bytes, dir, file, World}
use zarf_api.Os.Paths.{join}
use zarf_api.Os.Files.{entries}
use zarf_api.Store.{Store, valid_id, meta_path}
use zarf_api.Store.Counting.{directories}
use zarf_api.Store.Uploads.{count_dirs}
use zarf_api.Handlers.{respond, no_body, store_error, too_many, value}
use zarf_api.Handlers.Packages.{package_get, package_delete}
use zarf_api.Handlers.Uploads.{upload_create}
use zarf_api.Jobs.{Job, new_job, kind_deploy, failed}
use zarf_api.Jobs.Lifecycle.{new_job-IsConsistent}
use zarf_api.Zarfz.{DeployRequest, RemoveRequest}
use zarf_api.Zarfz.{null, build_values, set_all, build_overrides, verify_strategy}
use zarf_api.Zarfz.Packaging.{remove, deploy, deploy_loaded}
use zarf_api.Handlers.Running.{
  ZarfLib, Logging, deploying, removing, deployed, deploy_begun, run_deploy, run_remove,
}
use zarf_api.Handlers.Going.{Ended}
use zarf_api.Handlers.Outcomes.{Follows, run_deploy_lem, run_remove_lem}
use zarf_api.Handlers.Jobs.{respond_job}
use zarf_api.Handlers.Statuses.{package_gone, upload_create_full}

abbrev store : Store
store = record { packages_dir = lit "p" ∷ []; uploads_dir = lit "u" ∷ [] }

abbrev id : Text
id = lit "a.tar"

-- a package without its sidecar, and one session
abbrev world : World
world = record {
  fs =
      (lit "p" ∷ [], dir)
      ∷ (lit "p" ∷ id ∷ [], file (bytes (7 ∷ [])))
      ∷ (lit "u" ∷ [], dir)
      ∷ (lit "u" ∷ lit "s" ∷ [], dir)
      ∷ [];
  faults = [];
  clock = 9;
  entropy = [];
  temps = [];
}

upload_create_full_example :
    let count = directories store.uploads_dir world.fs in
    let out =
      upload_create store (pos 1) (value (record { file_name_hint = []; sha256 = [] })) world in
    ((out.0.status ≡ 429) ↔ (ltb_ℤ (pos count) (pos 1) ≡ false))
    × (ltb_ℤ (pos count) (pos 1) ≡ false → out ≡ (respond 429 (too_many count), world))
upload_create_full_example =
    upload_create_full store (pos 1) [] [] world refl (unfold lookup in refl)

-- there is one session, which is the one that there may be
full :
    upload_create store (pos 1) (value (record { file_name_hint = []; sha256 = [] })) world
    ≡ (respond 429 (too_many 1), world)
unfolding directories
full = upload_create_full_example.1 refl

-- Zarf logs one line, deploys one component and cannot remove anything.
abbrev zarf : ZarfLib
zarf = record {
  values = record { set = λ out p x. none; infer_type = λ s. null };
  packager = λ w. record {
    absolute_cache_path = some (lit "/cache");
    architecture = lit "amd64";
    handed = λ calls. some 7;
    deployed = λ calls. some (
        record { name = lit "c"; status = lit "Succeeded"; charts = ((lit "k", lit "v") ∷ []) ∷ [] }
        ∷ []);
    done = λ calls. false;
    listed = λ calls. ([], false);
    found = λ calls. none;
  };
  logged = λ calls w.
      (
        record { attrs = []; group = [] },
        record { time = 1; level = lit "INFO"; message = lit "m"; attrs = [] },
      )
      ∷ [];
  error_text = λ e. lit "no cluster";
}

abbrev logging : Logging
logging = record { is_on = λ level. level == lit "INFO"; error_text = λ e. lit "e" }

abbrev job : Job
job = new_job kind_deploy id (lit "j0") 1 2

abbrev removal : RemoveRequest
removal = record {
  components = [];
  namespace_override = [];
  timeout = pos 0;
  set_values = [];
  values = [];
  skip_version_check = false;
}

abbrev deployment : DeployRequest
deployment = record {
  source = lit "/p/a.tar";
  components = [];
  set_variables = [];
  set_values = [];
  values = [];
  values_overrides = [];
  namespace_override = [];
  take_ownership = false;
  connected = false;
  force_conflicts = false;
  timeout = pos 0;
  retries = pos 0;
  oci_concurrency = pos 0;
  shasum = [];
  verify = [];
  public_key_path = [];
  skip_values_schema_validation = false;
  skip_version_check = false;
}

run_deploy_lem_example :
    let begun = (deploy_begun logging deployment job world).1 in
    let out = run_deploy store logging zarf deployment true job world in
    (begun.fs ≡ world.fs)
    × Ended job world out.0
        (λ k. Follows store id true (deploying zarf deployment begun).1 begun k out.1)
run_deploy_lem_example =
    run_deploy_lem store logging zarf deployment true job world
      (new_job-IsConsistent kind_deploy id (lit "j0") 1 2) refl
