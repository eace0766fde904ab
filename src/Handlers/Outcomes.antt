-- ===== src/Handlers/Outcomes.antt =====
-- How the goroutines that run a job end: always, and as the packager did.
use zarf_api.Prelude.{
  ◌≡◌, refl, subst, Bool, true, false, Option, none, some, List, [], ◌∷◌, Text, lit, decimal,
  length,
}
use zarf_api.Os.{World, Result, ok, err}
use zarf_api.Store.{Store, delete}
use zarf_api.Jobs.{Job, pending, succeeded, failed, removed}
use zarf_api.Jobs.Lifecycle.{IsConsistent}
use zarf_api.Zarfz.{DeployRequest, RemoveRequest}
use zarf_api.Zarfz.Packaging.{Deployed}
use zarf_api.Handlers.Running.{
  Logging, ZarfLib, deploying, removing, Outcome, deploy_failed, deployed, Run, replay, started,
  summary, remove_with, conclude, clean_with, clean_up, deploy_with, remove_begun, run_remove,
  deploy_begun, run_deploy,
}
use zarf_api.Handlers.Going.{
  Going, Ended, start-Going, log_line-Going, replay-Going, succeed-Ended, fail-Ended,
}

-- What the job of a removal says of the packager's outcome.
abbrev pub Agrees : Option Text → Text → Job → Type 0
Agrees (some e) name k = (k.status ≡ failed) × (k.error ≡ e)
Agrees none name k = (k.status ≡ succeeded) × (k.result ≡ some (removed name))

pub remove_with-Ended :
    (j : Job) (w : World) (l : Logging) (name : Text) (outcome : Option Text) (run : Run)
    → IsConsistent j
    → Going j w run
    → let out = remove_with l name outcome run in
      Ended j w out.0 (Agrees outcome name) × (out.1.fs ≡ w.fs)
remove_with-Ended j w l name (some e) run c g =
    let g' =
      log_line-Going j w l (lit "ERROR") (lit "remove failed") ((lit "error", e) ∷ []) run g in
    (fail-Ended j w c _ g' _ e, g'.disk)
remove_with-Ended j w l name none run c g =
    let g' =
      log_line-Going j w l (lit "INFO") (lit "remove succeeded") ((lit "package", name) ∷ []) run
        g in
    (succeed-Ended j w c _ g' _ (removed name), g'.disk)

-- Whatever the packager logs and answers, `runRemove` takes a consistent job that is pending by the
-- steps of a job to its end without a panic: failed with the packager's error when there is one,
-- else succeeded with the name removed; and it leaves the store's disk as it was.
pub run_remove_lem :
    (l : Logging) (zarf : ZarfLib) (name : Text) (req : RemoveRequest) (j : Job) (w : World)
    → IsConsistent j
    → j.status ≡ pending
    → let out = run_remove l zarf name req j w in
      Ended j w out.0 (Agrees (removing zarf name req (remove_begun l name req j w).1).1 name)
      × (out.1.fs ≡ w.fs)
unfolding run_remove
run_remove_lem l zarf name req j w c p =
    let begun = remove_begun l name req j w in
    let out = removing zarf name req begun.1 in
    let g =
      log_line-Going j w l (lit "INFO") (lit "remove started")
        ((lit "package", name) ∷ (lit "components", req.components) ∷ []) (started j w)
        (start-Going j w p) in
    remove_with-Ended j w l name out.1 _ c (replay-Going j w out.0 begun.0 begun.1 g)

abbrev pub is_ok {ℓ} : {A : Type ℓ} → Result A → Bool
is_ok (ok _) = true
is_ok (err _) = false

-- The world in which the packager has done its part, and what the job and the disk are in the end.
abbrev pub Concluded : Store → Text → List Deployed → Bool → World → Job → World → Type 0
Concluded s pkg cs false w k w' =
    (k.status ≡ succeeded) × (k.result ≡ some (summary cs false)) × (w'.fs ≡ w.fs)
Concluded s pkg cs true w k w' =
    (k.status ≡ succeeded)
    × (k.result ≡ some (summary cs (is_ok (delete s pkg w).0)))
    × (w'.fs ≡ (delete s pkg w).1.fs)

abbrev pub Follows : Store → Text → Bool → Outcome → World → Job → World → Type 0
Follows s pkg delete_after (deploy_failed e) w k w' =
    (k.status ≡ failed) × (k.error ≡ e) × (w'.fs ≡ w.fs)
Follows s pkg delete_after (deployed cs) w k w' = Concluded s pkg cs delete_after w k w'

conclude-Ended :
    (j : Job) (w : World) (l : Logging) (cs : List Deployed) (package_deleted : Bool) (run : Run)
    → IsConsistent j
    → Going j w run
    → let out = conclude l cs package_deleted run in
      Ended j w out.0 (λ k.
        (k.status ≡ succeeded) × (k.result ≡ some (summary cs package_deleted)) × (out.1.fs ≡ w.fs))
conclude-Ended j w l cs package_deleted run c g =
    let g' =
      log_line-Going j w l (lit "INFO") (lit "deploy succeeded")
        ((lit "components", decimal (length cs)) ∷ []) run g in
    let (k, e, r, d, t) = succeed-Ended j w c _ g' _ (summary cs package_deleted) in
    (k, e, r, d, (t.0, t.1, g'.disk))

clean_with-Ended :
    (j : Job) (w : World) (l : Logging) (cs : List Deployed) (pkg : Text) (r : Result (Unit {0}))
    (run : Run)
    → IsConsistent j
    → Going j w run
    → let out = clean_with l cs pkg r run in
      Ended j w out.0
        (λ k. (k.status ≡ succeeded) × (k.result ≡ some (summary cs (is_ok r))) × (out.1.fs ≡ w.fs))
clean_with-Ended j w l cs pkg (err e) run c g = conclude-Ended j w l cs false _ c (
    log_line-Going j w l (lit "WARN") (lit "deploy succeeded but package cleanup failed")
      ((lit "package", pkg) ∷ (lit "error", l.error_text e) ∷ []) run g)
clean_with-Ended j w l cs pkg (ok u) run c g = conclude-Ended j w l cs true _ c (
    log_line-Going j w l (lit "INFO") (lit "package deleted from store after deploy")
      ((lit "package", pkg) ∷ []) run g)

clean_up-Ended :
    (s : Store) (j : Job) (w : World) (l : Logging) (cs : List Deployed) (delete_after : Bool)
    (run : Run)
    → IsConsistent j
    → Going j w run
    → let out = clean_up s l cs delete_after run in
      Ended j w out.0 (λ k. Concluded s run.0.package_name cs delete_after run.1 k out.1)
clean_up-Ended s j w l cs false run c g =
    conclude-Ended j run.1 l cs false run c
      (record { path = g.path; status = g.status; pkg = g.pkg; disk = refl })
clean_up-Ended s j w l cs true (k, x) c g =
    let (r, x') = delete s k.package_name x in
    clean_with-Ended j x' l cs k.package_name r (k, x') c
      (record { path = g.path; status = g.status; pkg = g.pkg; disk = refl })

pub deploy_with-Ended :
    (s : Store) (j : Job) (w : World) (l : Logging) (delete_after : Bool) (outcome : Outcome)
    (run : Run)
    → IsConsistent j
    → Going j w run
    → let out = deploy_with s l delete_after outcome run in
      Ended j w out.0 (λ k. Follows s run.0.package_name delete_after outcome run.1 k out.1)
deploy_with-Ended s j w l delete_after (deploy_failed e) run c g =
    let g' =
      log_line-Going j run.1 l (lit "ERROR") (lit "deploy failed") ((lit "error", e) ∷ []) run
        (record { path = g.path; status = g.status; pkg = g.pkg; disk = refl }) in
    let (k, h, r, d, t) = fail-Ended j run.1 c _ g' _ e in (k, h, r, d, (t.0, t.1, g'.disk))
deploy_with-Ended s j w l delete_after (deployed cs) run c g =
    clean_up-Ended s j w l cs delete_after run c g

-- Whatever the packager logs and answers, `runDeploy` takes a consistent job that is pending by the
-- steps of a job to its end without a panic. When the packager fails, the job failed with its error
-- and the disk is that of before, even if the package was to be deleted. Else the job succeeded
-- with the components deployed; `Delete` runs on the package when that was asked for, and else the
-- disk is that of before; and the job says whether that `Delete` worked, but does not fail with it.
pub run_deploy_lem :
    (s : Store) (l : Logging) (zarf : ZarfLib) (req : DeployRequest) (delete_after : Bool) (j : Job)
    (w : World)
    → IsConsistent j
    → j.status ≡ pending
    → let begun = (deploy_begun l req j w).1 in
      let out = run_deploy s l zarf req delete_after j w in
      (begun.fs ≡ w.fs)
      × Ended j w out.0
          (λ k. Follows s j.package_name delete_after (deploying zarf req begun).1 begun k out.1)
unfolding run_deploy
run_deploy_lem s l zarf req delete_after j w c p =
    let begun = deploy_begun l req j w in
    let out = deploying zarf req begun.1 in
    let g =
      log_line-Going j w l (lit "INFO") (lit "deploy started")
        ((lit "source", req.source) ∷ (lit "components", req.components) ∷ []) (started j w)
        (start-Going j w p) in
    let g' = replay-Going j w out.0 begun.0 begun.1 g in
    (
      g.disk,
      subst
          (λ name. Ended j w (run_deploy s l zarf req delete_after j w).0 (λ k.
            Follows s name delete_after out.1 begun.1 k
              (run_deploy s l zarf req delete_after j w).1))
          g'.pkg
          (deploy_with-Ended s j w l delete_after out.1 (replay out.0 begun.0, begun.1) c g'),
    )
