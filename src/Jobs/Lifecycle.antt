-- ===== src/Jobs/Lifecycle.antt =====
-- The life of a job: the steps that the goroutine running it takes, and what holds in between.
use zarf_api.Prelude.{
  ℕ, ◌≤◌, ◌≡◌, refl, Bool, true, false, not, Option, none, some, [], ◌∷◌, ◌++◌, ◌-◌, Text, length,
  length-drop, arith,
}
use zarf_api.Jobs.{
  Kind, Status, pending, running, succeeded, failed, Payload, LogEntry, Job, is_unfinished, new_job,
  start, succeed, fail, append,
}

abbrev pub is_some {ℓ} : {A : Type ℓ} → Option A → Bool
is_some none = false
is_some (some _) = true

abbrev pub is_pending : Status → Bool
is_pending pending = true
is_pending _ = false

abbrev pub is_succeeded : Status → Bool
is_succeeded succeeded = true
is_succeeded _ = false

-- The channel is closed, the times are set and the result is there exactly as the status says.
pub record IsConsistent (j : Job) : Type 0 where
  pub closed : j.done ≡ not (is_unfinished j.status)
  pub started : is_some j.started_at ≡ not (is_pending j.status)
  pub finished : is_some j.finished_at ≡ not (is_unfinished j.status)
  pub outcome : is_some j.result ≡ is_succeeded j.status
  pub silent : is_unfinished j.status ≡ true → j.error ≡ []
  pub capped : length j.logs ≤ j.max_log_lines

-- What `runDeploy` and `runRemove` do with their job.
pub data Step (j : Job) : Job → Type 0 where
  begin : (now : ℕ) → j.status ≡ pending → Step j (start j now)
  log : (e : LogEntry) → Step j (append j e)
  finish :
      {j' : Job} (now : ℕ) (r : Payload)
      → j.status ≡ running
      → succeed j now r ≡ some j'
      → Step j j'
  abort :
      {j' : Job} (now : ℕ) (err : Text) → j.status ≡ running → fail j now err ≡ some j' → Step j j'

pub data Reach (j : Job) : Job → Type 0 where
  here : Reach j j
  next : {k l : Job} → Reach j k → Step k l → Reach j l

pub new_job-IsConsistent :
    (kind : Kind) (pkg id : Text) (now max : ℕ) → IsConsistent (new_job kind pkg id now max)
new_job-IsConsistent kind pkg id now max = ground arith

append-IsConsistent : (j : Job) (e : LogEntry) → IsConsistent j → IsConsistent (append j e)
unfolding append
append-IsConsistent j e h =
    ground (arith, length-drop (length (j.logs ++ e ∷ []) - j.max_log_lines) (j.logs ++ e ∷ []))

Step-IsConsistent : {j k : Job} → Step j k → IsConsistent j → IsConsistent k
unfolding start succeed fail
Step-IsConsistent (begin now p) h = ground arith
Step-IsConsistent {j} (log e) h = append-IsConsistent j e h
Step-IsConsistent (finish now r p e) h = ground arith
Step-IsConsistent (abort now err p e) h = ground arith

-- A consistent job is consistent after whatever steps: its channel is closed, its times are set and
-- its result is there exactly as its status says.
pub Reach-IsConsistent : {j k : Job} → Reach j k → IsConsistent j → IsConsistent k
Reach-IsConsistent here h = h
Reach-IsConsistent (next r s) h = Step-IsConsistent s (Reach-IsConsistent r h)

-- A consistent job that is not finished is finished by either method without a panic, and
-- whatever was recorded then, a second call of either method panics.
pub finish_once :
    (j : Job) (now later : ℕ) (r r' : Payload) (err err' : Text)
    → IsConsistent j
    → is_unfinished j.status ≡ true
    → ((k : Job) × (succeed j now r ≡ some k)
        × (k.status ≡ succeeded)
        × (succeed k later r' ≡ none)
        × (fail k later err' ≡ none))
      × ((k : Job) × (fail j now err ≡ some k)
          × (k.status ≡ failed)
          × (succeed k later r' ≡ none)
          × (fail k later err' ≡ none))
unfolding succeed fail
finish_once j now later r r' err err' h u = (
  (
    record j { finished_at = some now; status = succeeded; result = some r; done = true },
    ground arith,
    refl,
    refl,
    refl,
  ),
  (
    record j { finished_at = some now; status = failed; error = err; done = true },
    ground arith,
    refl,
    refl,
    refl,
  ),
)
