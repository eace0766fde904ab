-- ===== src/Handlers/Deployments.antt =====
-- internal/server/handlers/deployments.go: the handlers that start a job. `go` carries the work that
-- the goroutine of the job gets; what it does is in Running. The id and the time of a job are
-- arguments.
use zarf_api.Prelude.{
  ℕ, ℤ, Bool, true, false, Option, none, some, [], ◌∷◌, ◌++◌, Text, ◌==◌, nat_eq, list_eq, lit,
  if◌then◌else◌,
}
use zarf_api.Os.{FilePath, World, Result, ok, err}
use zarf_api.Store.{Store, path}
use zarf_api.Jobs.{Manager, create, kind_deploy, kind_remove}
use zarf_api.Zarfz.{DeployRequest, RemoveRequest}
use zarf_api.Handlers.{
  Response, respond, bad_request, write_store_error, Decoded, empty, malformed, value,
}

-- the anonymous struct of `packageDeploy`
pub record DeployBody : Type 0 where
  pub request : DeployRequest
  pub delete_package_after_deploy : Bool

-- An answer at once, or the manager with the new job, its address and its goroutine's work.
pub data Accepted (A : Type 0) : Type 0 where
  refused : Response → Accepted A
  go : Manager → ℕ → A → Accepted A

-- What `req` holds after `decodeBody`: nothing was decoded from an empty body.
abbrev pub decoded_or {ℓ} : {A : Type ℓ} → A → Decoded A → Option A
decoded_or zero_value empty = some zero_value
decoded_or zero_value malformed = none
decoded_or zero_value (value a) = some a

-- a path of the store's, as it is written
abbrev pub path_text : FilePath → Text
path_text [] = []
path_text (c ∷ p) = lit "/" ++ (c ++ path_text p)

abbrev pub no_deploy_request : DeployRequest
no_deploy_request = record {
  source = [];
  components = [];
  set_variables = [];
  set_values = [];
  values = [];
  values_overrides = [];
  namespace_override = [];
  take_ownership = false;
  connected = false;
  force_conflicts = false;
  timeout = ℤ.pos 0;
  retries = ℤ.pos 0;
  oci_concurrency = ℤ.pos 0;
  shasum = [];
  verify = [];
  public_key_path = [];
  skip_values_schema_validation = false;
  skip_version_check = false;
}

-- `req.Source` and `req.PublicKeyPath`
abbrev pub keyed : Text → DeployRequest → DeployRequest
keyed key req = record req {
  public_key_path = if req.public_key_path == [] then key else req.public_key_path;
}

unfoldable pub start_deploy : Text → Manager → Text → Text → ℕ → DeployBody → Accepted DeployBody
start_deploy key m id job_id now body =
    let (m', a) = create m kind_deploy id job_id now in
    go m' a (record body { request = keyed key body.request })

abbrev pub sourced :
    Text → Manager → Text → Text → ℕ → DeployBody → Result FilePath → Accepted DeployBody
sourced key m id job_id now body (err e) = refused (write_store_error e)
sourced key m id job_id now body (ok p) =
    start_deploy key m id job_id now
      (record body { request = record body.request { source = path_text p } })

-- whether the source is empty
abbrev pub deploy_by :
    Store
    → Text
    → Manager
    → Text
    → Text
    → ℕ
    → DeployBody
    → Bool
    → World
    → Accepted DeployBody × World
deploy_by s key m id job_id now body false w = (start_deploy key m id job_id now body, w)
deploy_by s key m id job_id now body true w =
    let (r, w') = path s id w in (sourced key m id job_id now body r, w')

abbrev pub deploy_from :
    Store
    → Text
    → Manager
    → Text
    → Text
    → ℕ
    → Option DeployBody
    → World
    → Accepted DeployBody × World
deploy_from s key m id job_id now none w = (refused (respond 400 (bad_request (lit "body"))), w)
deploy_from s key m id job_id now (some body) w =
    deploy_by s key m id job_id now body (body.request.source == []) w

-- `packageDeploy`; `key` is the configuration's public key path
unfoldable pub package_deploy :
    Store
    → Text
    → Manager
    → Text
    → Text
    → ℕ
    → Decoded DeployBody
    → World
    → Accepted DeployBody × World
unfolding start_deploy
package_deploy s key m id job_id now body =
    deploy_from s key m id job_id now (
      decoded_or (record { request = no_deploy_request; delete_package_after_deploy = false }) body)

-- the query of a removal
pub record RemoveQuery : Type 0 where
  pub components : Text
  pub namespace_override : Text
  pub timeout : Text
  pub skip_version_check : Text

abbrev pub or_query : Text → Text → Text
or_query q v = if q == [] then v else q

-- `req.Timeout` after the query, or none when that does not parse
abbrev pub query_timeout : (Text → Option ℤ) → Text → ℤ → Option ℤ
query_timeout parse_duration q t = if q == [] then some t else parse_duration q

abbrev pub no_remove_request : RemoveRequest
no_remove_request = record {
  components = [];
  namespace_override = [];
  timeout = ℤ.pos 0;
  set_values = [];
  values = [];
  skip_version_check = false;
}

abbrev pub merged : RemoveQuery → RemoveRequest → ℤ → RemoveRequest
merged q req timeout = record req {
  components = or_query q.components req.components;
  namespace_override = or_query q.namespace_override req.namespace_override;
  timeout = timeout;
  skip_version_check = if q.skip_version_check == lit "true" then true else req.skip_version_check;
}

abbrev pub start_remove :
    Manager → Text → Text → ℕ → RemoveQuery → RemoveRequest → Option ℤ → Accepted RemoveRequest
start_remove m name job_id now q req none = refused (respond 400 (bad_request q.timeout))
start_remove m name job_id now q req (some t) =
    let (m', a) = create m kind_remove name job_id now in go m' a (merged q req t)

abbrev pub remove_from :
    (Text → Option ℤ)
    → Manager
    → Text
    → Text
    → ℕ
    → RemoveQuery
    → Option RemoveRequest
    → Accepted RemoveRequest
remove_from parse_duration m name job_id now q none =
    refused (respond 400 (bad_request (lit "body")))
remove_from parse_duration m name job_id now q (some req) =
    start_remove m name job_id now q req (query_timeout parse_duration q.timeout req.timeout)

-- `deploymentRemove`; only a POST has a body
unfoldable pub deployment_remove :
    (Text → Option ℤ)
    → Manager
    → Text
    → Text
    → ℕ
    → Bool
    → Decoded RemoveRequest
    → RemoveQuery
    → Accepted RemoveRequest
deployment_remove parse_duration m name job_id now is_post body q =
    remove_from parse_duration m name job_id now q
      (if is_post then decoded_or no_remove_request body else some no_remove_request)
