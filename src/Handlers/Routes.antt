-- ===== src/Handlers/Routes.antt =====
-- internal/server/handlers/handlers.go: the patterns that `Register` gives to the mux, in order, each
-- a method and a path; and internal/server/handlers/meta.go.
pub mod Distinct
pub mod Mux
pub mod Patterns
pub mod Serving
pub mod Formed
pub mod Apart
pub mod Unique
pub mod Prefixed
pub mod Filled
mod Examples
use zarf_api.Prelude.{
  ℕ, Bool, true, false, not, ◌&&◌, ◌||◌, List, [], ◌∷◌, ◌++◌, map, Text, lit, ◌==◌, nat_eq, list_eq,
  if◌then◌else◌,
}
use zarf_api.Config.{Config}
use zarf_api.Zarfz.Packaging.{Packager, ping}
use zarf_api.Handlers.Cluster.{ClusterAnswer, status_text, answer_of}

-- The handler of a pattern; those of the UI answer with a redirect to a path, or from a mount path.
pub data Target : Type 0 where
  on_healthz on_readyz on_version on_ui_config : Target
  on_package_import on_package_list on_package_get on_package_definition : Target
  on_package_config_schema on_package_delete on_package_deploy : Target
  on_upload_create on_upload_list on_upload_get on_upload_chunk : Target
  on_upload_complete on_upload_abort : Target
  on_deployment_list on_deployment_get on_deployment_remove : Target
  on_job_list on_job_get : Target
  redirect_to ui_at : Text → Target

pub record Route : Type 0 where
  pub method : Text
  pub path : Text
  pub target : Target

abbrev pub route : Text → Text → Target → Route
route method path target = record { method = method; path = path; target = target }

-- `"GET "+bp+path`
abbrev pub under : Text → Route → Route
under bp r = record r { path = bp ++ r.path }

abbrev pub health : Route
health = route (lit "GET") (lit "/healthz") on_healthz

abbrev pub ready : Route
ready = route (lit "GET") (lit "/readyz") on_readyz

abbrev pub probes : List Route
probes = health ∷ ready ∷ []

-- the routes of the API, below the base path
abbrev pub api : List Route
api =
    route (lit "GET") (lit "/api/v1/version") on_version
    ∷ route (lit "POST") (lit "/api/v1/packages") on_package_import
    ∷ route (lit "GET") (lit "/api/v1/packages") on_package_list
    ∷ route (lit "GET") (lit "/api/v1/packages/{id}") on_package_get
    ∷ route (lit "GET") (lit "/api/v1/packages/{id}/definition") on_package_definition
    ∷ route (lit "GET") (lit "/api/v1/packages/{id}/config-schema") on_package_config_schema
    ∷ route (lit "DELETE") (lit "/api/v1/packages/{id}") on_package_delete
    ∷ route (lit "POST") (lit "/api/v1/packages/{id}/deploy") on_package_deploy
    ∷ route (lit "POST") (lit "/api/v1/uploads") on_upload_create
    ∷ route (lit "GET") (lit "/api/v1/uploads") on_upload_list
    ∷ route (lit "GET") (lit "/api/v1/uploads/{id}") on_upload_get
    ∷ route (lit "PUT") (lit "/api/v1/uploads/{id}/chunks/{index}") on_upload_chunk
    ∷ route (lit "POST") (lit "/api/v1/uploads/{id}/complete") on_upload_complete
    ∷ route (lit "DELETE") (lit "/api/v1/uploads/{id}") on_upload_abort
    ∷ route (lit "GET") (lit "/api/v1/deployments") on_deployment_list
    ∷ route (lit "GET") (lit "/api/v1/deployments/{name}") on_deployment_get
    ∷ route (lit "DELETE") (lit "/api/v1/deployments/{name}") on_deployment_remove
    ∷ route (lit "POST") (lit "/api/v1/deployments/{name}/remove") on_deployment_remove
    ∷ route (lit "GET") (lit "/api/v1/jobs") on_job_list
    ∷ route (lit "GET") (lit "/api/v1/jobs/{id}") on_job_get
    ∷ route (lit "GET") (lit "/api/v1/ui-config") on_ui_config
    ∷ []

abbrev pub root_redirect : Text → Route
root_redirect bp = route (lit "GET") (lit "/{$}") (redirect_to (bp ++ lit "/ui/"))

-- the redirects of the base path
abbrev pub prefix_redirects : Text → List Route
prefix_redirects bp =
    route (lit "GET") (bp ++ lit "/{$}") (redirect_to (bp ++ lit "/ui/"))
    ∷ route (lit "GET") bp (redirect_to (bp ++ lit "/ui/"))
    ∷ []

abbrev pub ui_assets : Text → Route
ui_assets bp = route (lit "GET") (bp ++ lit "/ui/") (ui_at (bp ++ lit "/ui/"))

unfoldable pub ui_routes : Text → List Route
ui_routes bp =
    root_redirect bp ∷ ((if bp == [] then [] else prefix_redirects bp) ++ (ui_assets bp ∷ []))

-- `Register`
unfoldable pub register : Text → Bool → List Route
unfolding ui_routes
register bp ui_enabled = (probes ++ map (under bp) api) ++ (if ui_enabled then ui_routes bp else [])

-- `healthz`, `readyz` and `version`
unfoldable pub healthz : ℕ × ClusterAnswer
healthz = (200, status_text (lit "ok"))

unfoldable pub readyz : Packager → ℕ × ClusterAnswer
readyz zarf = answer_of 503 (λ (c : ℕ). status_text (lit "ready")) (ping zarf []).0

unfoldable pub version : Config → ℕ × ClusterAnswer
version cfg = (200, status_text cfg.version)

-- `uiConfig`; `unmarshal` is what encoding/json leaves of the columns, with whether it reports an
-- error, which is logged and dropped
unfoldable pub ui_config {ℓ} : {A : Type ℓ} → A → (Text → A × Bool) → Config → ℕ × A
ui_config no_columns unmarshal cfg =
    (200, if cfg.custom_columns == [] then no_columns else (unmarshal cfg.custom_columns).0)
