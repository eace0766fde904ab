-- ===== src/Handlers/Serial.antt =====
-- internal/server/handlers/deployments.go: several goroutines of `runDeploy` and `runRemove`, which the
-- mutex `clusterMu` puts one after the other. A goroutine takes two steps, up to its first log line
-- and from there to its end; between them other requests may leave any other disk. One that finds the
-- mutex taken waits.
pub mod Orderly
pub mod Turns
use zarf_api.Prelude.{
  ℕ, Bool, true, false, Option, none, some, List, [], ◌∷◌, Text, ◌==◌, nat_eq, if◌then◌else◌,
}
use zarf_api.Os.{World}
use zarf_api.Store.{Store}
use zarf_api.Jobs.{Job}
use zarf_api.Zarfz.{DeployRequest, RemoveRequest}
use zarf_api.Handlers.Running.{
  ZarfLib, Logging, Run, replay, deploying, removing, deploy_begun, remove_begun, deploy_with,
  remove_with,
}

pub data Work : Type 0 where
  deploy_work : DeployRequest → Bool → Work
  remove_work : Text → RemoveRequest → Work

-- up to the call of Zarf
abbrev pub begin : Logging → Work → Job → World → Run
begin l (deploy_work req delete_after) j w = deploy_begun l req j w
begin l (remove_work name req) j w = remove_begun l name req j w

-- from the call of Zarf on
abbrev pub complete : Store → Logging → ZarfLib → Work → Run → Option Job × World
complete s l zarf (deploy_work req delete_after) run =
    let out = deploying zarf req run.1 in
    deploy_with s l delete_after out.1 (replay out.0 run.0, run.1)
complete s l zarf (remove_work name req) run =
    let out = removing zarf name req run.1 in remove_with l name out.1 (replay out.0 run.0, run.1)

-- Where a goroutine is; an end without a job is a panic.
pub data Turn : Type 0 where
  waiting inside : Job → Turn
  ended : Option Job → Turn

pub record Cluster : Type 0 where
  pub world : World
  pub holder : Option ℕ
  pub turn : ℕ → Turn

-- the next step of a goroutine, or the disk after other requests
pub data Event : Type 0 where
  go_on : ℕ → Event
  disk : World → Event

abbrev pub arrive : Option ℕ → ℕ → Turn → Cluster → World → Cluster
arrive holder k t c w = record {
  world = w;
  holder = holder;
  turn = λ i. if i == k then t else c.turn i;
}

-- `h.clusterMu.Lock()`
abbrev pub lock : Logging → Work → ℕ → Job → Option ℕ → Cluster → Cluster
lock l work k j (some i) c = c
lock l work k j none c = let (j', w) = begin l work j c.world in arrive (some k) k (inside j') c w

abbrev pub advance : Store → Logging → ZarfLib → Work → ℕ → Turn → Cluster → Cluster
advance s l zarf work k (waiting j) c = lock l work k j c.holder c
advance s l zarf work k (inside j) c =
    let (o, w) = complete s l zarf work (j, c.world) in arrive none k (ended o) c w
advance s l zarf work k (ended o) c = c

unfoldable pub turn : Store → Logging → ZarfLib → (ℕ → Work) → Event → Cluster → Cluster
turn s l zarf works (go_on k) c = advance s l zarf (works k) k (c.turn k) c
turn s l zarf works (disk w) c = record c { world = w }

unfoldable pub turns : Store → Logging → ZarfLib → (ℕ → Work) → List Event → Cluster → Cluster
unfolding turn
turns s l zarf works [] c = c
turns s l zarf works (e ∷ es) c = turns s l zarf works es (turn s l zarf works e c)

-- The goroutines of these jobs have just been started.
abbrev pub queued : (ℕ → Job) → World → Cluster
queued jobs w = record { world = w; holder = none; turn = λ k. waiting (jobs k) }
