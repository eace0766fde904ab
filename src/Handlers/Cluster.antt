-- ===== src/Handlers/Cluster.antt =====
-- internal/server/handlers: the handlers that ask Zarf and answer at once, `deploymentList` and
-- `deploymentGet` of deployments.go and `packageDefinition` of packages.go.
use zarf_api.Prelude.{ℕ, List, [], Text, nat_eq, list_eq}
use zarf_api.Os.{FilePath, World, Result, ok, err}
use zarf_api.Store.{Store, path}
use zarf_api.Zarfz
use zarf_api.Zarfz.{DeployRequest, RemoveRequest, ZarfError, Fallible}
use zarf_api.Zarfz.Packaging.{Packager, list_deployed, get_deployed}
use zarf_api.Zarfz.Definition.{ZarfPackage, DefinitionInfo, get_definition}
use zarf_api.Handlers.{Response, write_store_error}
use zarf_api.Handlers.Deployments.{path_text}

-- What the handlers of the cluster answer.
pub data ClusterAnswer : Type 0 where
  deployments : List Text → ClusterAnswer
  deployment : Text → ClusterAnswer
  definition : DefinitionInfo → ClusterAnswer
  store_refusal : Response → ClusterAnswer
  zarf_error : ZarfError → ClusterAnswer
  status_text : Text → ClusterAnswer

abbrev pub answer_of : {A : Type 0} → ℕ → (A → ClusterAnswer) → Fallible A → ℕ × ClusterAnswer
answer_of failed done (Zarfz.ok a) = (200, done a)
answer_of failed done (Zarfz.err e) = (failed, zarf_error e)

-- `deploymentList` and `deploymentGet`
unfoldable pub deployment_list : Packager → ℕ × ClusterAnswer
deployment_list zarf = answer_of 502 deployments (list_deployed zarf []).0

unfoldable pub deployment_get : Packager → Text → Text → ℕ × ClusterAnswer
deployment_get zarf name namespace_override =
    answer_of 404 deployment (get_deployed zarf name namespace_override []).0

abbrev pub defined : Packager → (ℕ → ZarfPackage) → Result FilePath → ℕ × ClusterAnswer
defined zarf described (err e) = ((write_store_error e).status, store_refusal (write_store_error e))
defined zarf described (ok p) =
    answer_of 500 definition (get_definition zarf described (path_text p) []).0

-- `packageDefinition` of packages.go
unfoldable pub package_definition :
    Store → Packager → (ℕ → ZarfPackage) → Text → World → (ℕ × ClusterAnswer) × World
package_definition s zarf described id w =
    let (r, w') = path s id w in (defined zarf described r, w')
