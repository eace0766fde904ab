-- ===== src/Handlers/Examples/Begun.antt =====
-- A deployment of the stored package is begun, and ends.
use zarf_api.Prelude.{◌≡◌, refl, true, [], lit, lookup, pos, nat_eq, list_eq}
use zarf_api.Os.Paths.{join}
use zarf_api.Regex.{matches, derive, nullable}
use zarf_api.Store.{valid_id}
use zarf_api.Jobs.{Manager, new_manager, create, kind_deploy}
use zarf_api.Handlers.{value}
use zarf_api.Handlers.Deployments.{DeployBody, package_deploy}
use zarf_api.Handlers.Accepting.{Ends, begun, completed, package_deploy_lem, package_deploy-Ends}
use zarf_api.Handlers.Examples.{store, id, world, zarf, logging, deployment}

abbrev body : DeployBody
body = record { request = record deployment { source = [] }; delete_package_after_deploy = true }

abbrev manager : Manager
manager = new_manager (pos 0) (pos 5)

package_deploy_lem_example :
    package_deploy store (lit "/k.pub") manager id (lit "j1") 9 (value body) world
    ≡ (begun store (lit "/k.pub") manager id (lit "j1") 9 body, world)
unfolding valid_id matches derive nullable lookup join
package_deploy_lem_example =
    package_deploy_lem store (lit "/k.pub") manager id (lit "j1") 9 body world refl

package_deploy-Ends_example :
    let (m', a) = create manager kind_deploy id (lit "j1") 9 in
    Ends store
      (lit "/k.pub")
      manager
      id
      (lit "j1")
      9
      logging
      zarf
      m'
      a
      (completed store (lit "/k.pub") manager id (lit "j1") 9 body)
      world
package_deploy-Ends_example =
    package_deploy-Ends store (lit "/k.pub") manager id (lit "j1") 9 logging zarf (value body) world
      world world _ _ _ package_deploy_lem_example
