-- ===== src/Handlers/Waiting.antt =====
-- What a client that waits for its job is answered.
use zarf_api.Prelude.{
  ℕ, ◌≡◌, refl, Bool, true, false, Option, none, some, ◌∙◌, ap, Text, lit, list_eq, nat_eq,
}
use zarf_api.Os.{World}
use zarf_api.Store.{Store}
use zarf_api.Jobs.{Job, pending}
use zarf_api.Jobs.Lifecycle.{IsConsistent}
use zarf_api.Zarfz.{DeployRequest, RemoveRequest}
use zarf_api.Handlers.Running.{
  Logging, ZarfLib, deploying, removing, Outcome, deploy_failed, deployed, deploy_begun,
  remove_begun, run_deploy, run_remove,
}
use zarf_api.Handlers.Outcomes.{Agrees, Follows, run_deploy_lem, run_remove_lem}
use zarf_api.Handlers.Jobs.{awaited, respond_job}

abbrev pub deploy_code : Outcome → ℕ
deploy_code (deploy_failed _) = 500
deploy_code (deployed _) = 200

abbrev pub remove_code : Option Text → ℕ
remove_code none = 200
remove_code (some _) = 500

abbrev code : Job → ℕ
code k = (awaited (some k)).0

Follows-code :
    (s : Store) (pkg : Text) (delete_after : Bool) (outcome : Outcome) (w : World) (k : Job)
    (w' : World)
    → Follows s pkg delete_after outcome w k w'
    → code k ≡ deploy_code outcome
Follows-code s pkg delete_after (deploy_failed e) w k w' f = rw f.0 refl
Follows-code s pkg false (deployed cs) w k w' f = rw f.0 refl
Follows-code s pkg true (deployed cs) w k w' f = rw f.0 refl

Agrees-code :
    (outcome : Option Text) (name : Text) (k : Job)
    → Agrees outcome name k
    → code k ≡ remove_code outcome
Agrees-code none name k f = rw f.0 refl
Agrees-code (some e) name k f = rw f.0 refl

-- A client that waits for the deployment of a consistent job that is pending is answered 500 when the
-- packager fails, and 200 when it succeeds, whether or not the package could then be deleted.
pub respond_job-run_deploy :
    (s : Store) (l : Logging) (zarf : ZarfLib) (req : DeployRequest) (delete_after : Bool) (j : Job)
    (w : World)
    → IsConsistent j
    → j.status ≡ pending
    → (respond_job (lit "true") 202 j (run_deploy s l zarf req delete_after j w).0).0
      ≡ deploy_code (deploying zarf req (deploy_begun l req j w).1).1
unfolding respond_job
respond_job-run_deploy s l zarf req delete_after j w c p =
    let (_, (k, e, _, _, f)) = run_deploy_lem s l zarf req delete_after j w c p in
    ap (λ o. (awaited o).0) e ∙ Follows-code s _ delete_after _ _ k _ f

-- A client that waits for the removal of a consistent job that is pending is answered 500 when the
-- packager fails, and 200 when it succeeds.
respond_job-run_remove :
    (l : Logging) (zarf : ZarfLib) (name : Text) (req : RemoveRequest) (j : Job) (w : World)
    → IsConsistent j
    → j.status ≡ pending
    → (respond_job (lit "true") 202 j (run_remove l zarf name req j w).0).0
      ≡ remove_code (removing zarf name req (remove_begun l name req j w).1).1
unfolding respond_job
respond_job-run_remove l zarf name req j w c p =
    let ((k, e, _, _, f), _) = run_remove_lem l zarf name req j w c p in
    ap (λ o. (awaited o).0) e ∙ Agrees-code _ name k f
