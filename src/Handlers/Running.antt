-- ===== src/Handlers/Running.antt =====
-- internal/server/handlers/deployments.go: the goroutines that run a job, `runDeploy` and
-- `runRemove`. Each holds the cluster's mutex from its first to its last line, so that it runs alone.
-- What they call of Zarf, through package zarfz, is the parameter `ZarfLib`, which does not write
-- below the store's directories.
use zarf_api.Prelude.{
  suc, Bool, true, false, Option, none, some, List, [], ◌∷◌, map, Text, Map, lit, decimal, length,
  insert, list_eq, nat_eq,
}
use zarf_api.Records.{Error}
use zarf_api.Os.{World, Result, ok, err}
use zarf_api.Store.{Store, delete}
use zarf_api.Zarfz
use zarf_api.Zarfz.{ValueLib, DeployRequest, RemoveRequest, ZarfError, Fallible}
use zarf_api.Zarfz.Packaging
use zarf_api.Zarfz.Packaging.{Packager, Call, Deployed}
use zarf_api.Jobs.{
  Job, Payload, deploy_result, removed, TeeHandler, SlogRecord, logger, handle, start, succeed,
  fail,
}

pub data Outcome : Type 0 where
  deploy_failed : Text → Outcome
  deployed : List Deployed → Outcome

-- What package zarfz uses: Zarf's values, its packager as the disk makes it answer, the lines that
-- it logs in the course of its calls, each with the handler that it goes through, and its errors'
-- texts.
pub record ZarfLib : Type 0 where
  pub values : ValueLib
  pub packager : World → Packager
  pub logged : List Call → World → List (TeeHandler × SlogRecord)
  pub error_text : ZarfError → Text

-- `zarfz.Deploy` and `zarfz.Remove`, with the lines that were logged
abbrev pub outcome_of : ZarfLib → Fallible (List Deployed) → Outcome
outcome_of zarf (Zarfz.ok cs) = deployed cs
outcome_of zarf (Zarfz.err e) = deploy_failed (zarf.error_text e)

abbrev pub error_of : ZarfLib → Fallible (Unit {0}) → Option Text
error_of zarf (Zarfz.ok u) = none
error_of zarf (Zarfz.err e) = some (zarf.error_text e)

unfoldable pub deploying :
    ZarfLib → DeployRequest → World → List (TeeHandler × SlogRecord) × Outcome
deploying zarf req w =
    let (r, calls) = Packaging.deploy zarf.values (zarf.packager w) req [] in
    (zarf.logged calls w, outcome_of zarf r)

unfoldable pub removing :
    ZarfLib → Text → RemoveRequest → World → List (TeeHandler × SlogRecord) × Option Text
removing zarf name req w =
    let (r, calls) = Packaging.remove zarf.values (zarf.packager w) name req [] in
    (zarf.logged calls w, error_of zarf r)

-- Which levels the server's own handler lets through, and the text of an error.
pub record Logging : Type 0 where
  pub is_on : Text → Bool
  pub error_text : Error → Text

-- The job and the world in the middle of a run.
abbrev pub Run : Type 0
Run = Job × World

abbrev pub tick : World → World
tick w = record w { clock = suc w.clock }

-- A line of the job's own logger, unless its level is off.
unfoldable pub log_line : Logging → Text → Text → List (Text × Text) → Run → Run
log_line l level message attrs (j, w) = elim (l.is_on level) [
  | false ↦ (j, w)
  | true ↦ (
    handle logger j (record { time = w.clock; level = level; message = message; attrs = attrs }),
    tick w,
  )
]

unfoldable pub replay : List (TeeHandler × SlogRecord) → Job → Job
replay [] j = j
replay ((h, r) ∷ lines) j = replay lines (handle h j r)

abbrev pub started : Job → World → Run
started j w = (start j w.clock, tick w)

abbrev pub failing : Text → Run → Option Job × World
failing e (j, w) = (fail j w.clock e, tick w)

abbrev pub succeeding : Payload → Run → Option Job × World
succeeding r (j, w) = (succeed j w.clock r, tick w)

-- `runRemove`
abbrev pub remove_with : Logging → Text → Option Text → Run → Option Job × World
remove_with l name (some e) run =
    failing e (log_line l (lit "ERROR") (lit "remove failed") ((lit "error", e) ∷ []) run)
remove_with l name none run =
    succeeding (removed name)
      (log_line l (lit "INFO") (lit "remove succeeded") ((lit "package", name) ∷ []) run)

abbrev pub remove_begun : Logging → Text → RemoveRequest → Job → World → Run
remove_begun l name req j w =
    log_line l (lit "INFO") (lit "remove started")
      ((lit "package", name) ∷ (lit "components", req.components) ∷ []) (started j w)

unfoldable pub run_remove :
    Logging → ZarfLib → Text → RemoveRequest → Job → World → Option Job × World
run_remove l zarf name req j w =
    let run = remove_begun l name req j w in
    let out = removing zarf name req run.1 in remove_with l name out.1 (replay out.0 run.0, run.1)

-- `connectStrings[k] = v`, chart after chart
unfoldable pub merge : Map Text Text → Map Text Text → Map Text Text
merge [] into = into
merge ((k, v) ∷ strings) into = merge strings (insert k v into)

unfoldable pub merge_charts : List (Map Text Text) → Map Text Text → Map Text Text
unfolding merge
merge_charts [] into = into
merge_charts (chart ∷ charts) into = merge_charts charts (merge chart into)

unfoldable pub connect_strings : List Deployed → Map Text Text → Map Text Text
unfolding merge_charts
connect_strings [] into = into
connect_strings (c ∷ cs) into = connect_strings cs (merge_charts c.charts into)

abbrev pub summary : List Deployed → Bool → Payload
summary cs package_deleted =
    deploy_result (map (λ (c : Deployed). (c.name, c.status)) cs) (connect_strings cs [])
      package_deleted

-- the last lines, whatever became of the package
abbrev pub conclude : Logging → List Deployed → Bool → Run → Option Job × World
conclude l cs package_deleted run = succeeding (summary cs package_deleted) (
    log_line l (lit "INFO") (lit "deploy succeeded") ((lit "components", decimal (length cs)) ∷ [])
      run)

-- The removal of the package: its failure is a warning.
abbrev pub clean_with :
    Logging → List Deployed → Text → Result (Unit {0}) → Run → Option Job × World
clean_with l cs pkg (err e) run = conclude l cs false (
    log_line l (lit "WARN") (lit "deploy succeeded but package cleanup failed")
      ((lit "package", pkg) ∷ (lit "error", l.error_text e) ∷ []) run)
clean_with l cs pkg (ok u) run = conclude l cs true (
    log_line l (lit "INFO") (lit "package deleted from store after deploy")
      ((lit "package", pkg) ∷ []) run)

abbrev pub clean_up : Store → Logging → List Deployed → Bool → Run → Option Job × World
clean_up s l cs false run = conclude l cs false run
clean_up s l cs true (j, w) =
    let (r, w') = delete s j.package_name w in clean_with l cs j.package_name r (j, w')

abbrev pub deploy_with : Store → Logging → Bool → Outcome → Run → Option Job × World
deploy_with s l delete_after (deploy_failed e) run =
    failing e (log_line l (lit "ERROR") (lit "deploy failed") ((lit "error", e) ∷ []) run)
deploy_with s l delete_after (deployed cs) run = clean_up s l cs delete_after run

-- `runDeploy`
abbrev pub deploy_begun : Logging → DeployRequest → Job → World → Run
deploy_begun l req j w =
    log_line l (lit "INFO") (lit "deploy started")
      ((lit "source", req.source) ∷ (lit "components", req.components) ∷ []) (started j w)

unfoldable pub run_deploy :
    Store → Logging → ZarfLib → DeployRequest → Bool → Job → World → Option Job × World
unfolding replay connect_strings
run_deploy s l zarf req delete_after j w =
    let run = deploy_begun l req j w in
    let out = deploying zarf req run.1 in
    deploy_with s l delete_after out.1 (replay out.0 run.0, run.1)
