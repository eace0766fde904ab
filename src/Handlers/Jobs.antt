-- ===== src/Handlers/Jobs.antt =====
-- internal/server/handlers/jobs.go: showing jobs, and waiting for one.
use zarf_api.Prelude.{
  ℕ, Bool, true, false, Option, none, some, List, Text, ℤ, pos, atoi, lit, ◌==◌, nat_eq, list_eq,
  if◌then◌else◌,
}
use zarf_api.Jobs.{Job, Manager, LogEntry, Status, failed, get, deref, logs, list}

-- What the job handlers write.
pub data JobAnswer : Type 0 where
  job_list_answer : List ℕ → JobAnswer  -- the jobs at these addresses
  job_unknown : Text → JobAnswer
  job_answer : Job → List LogEntry → JobAnswer
  job_status : Job → JobAnswer
  unanswered : JobAnswer  -- the client gave up

unfoldable pub job_list : Manager → ℕ × JobAnswer
job_list m = (200, job_list_answer (list m))

-- `tail, _ := strconv.Atoi(…)`: 0 when it is no number; the greatest or least `int` that `Atoi` gives
-- for a number out of range asks for all lines, as 0 does
abbrev pub tail_of : Option ℤ → ℤ
tail_of none = pos 0
tail_of (some tail) = tail

abbrev pub shown_job : Text → Text → Option Job → ℕ × JobAnswer
shown_job id tail none = (404, job_unknown id)
shown_job id tail (some j) = (200, job_answer j (logs j (tail_of (atoi tail))))

unfoldable pub job_get : Manager → Text → Text → ℕ × JobAnswer
job_get m id tail = shown_job id tail (deref m.heap (get m id))

abbrev pub is_failed : Status → Bool
is_failed failed = true
is_failed _ = false

-- `respondJob` with `?wait=true`: the job once its channel is closed, or none when the request ends
-- first
abbrev pub awaited : Option Job → ℕ × JobAnswer
awaited none = (0, unanswered)
awaited (some j) = if is_failed j.status then (500, job_status j) else (200, job_status j)

unfoldable pub respond_job : Text → ℕ → Job → Option Job → ℕ × JobAnswer
respond_job wait accepted j later =
    if wait == lit "true" then awaited later else (accepted, job_status j)
