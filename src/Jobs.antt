-- ===== src/Jobs.antt =====
-- internal/jobs/jobs.go: jobs, and the manager that creates, tracks and retains them.
-- A `*Job` is an address into `heap`, so that the map of the manager and the goroutine that runs a
-- job share it. Times and random ids are arguments.
pub mod Logs
pub mod Lifecycle
pub mod Evict
pub mod Validity
pub mod Retention
pub mod Ids
mod Examples
use zarf_api.Prelude.{
  ℕ, ◌-◌, Bool, true, false, ◌&&◌, Option, none, some, List, [], ◌∷◌, ◌++◌, ℤ, pos, negsuc, Text,
  Map, ◌==◌, nat_eq, list_eq, lookup, insert, delete, length, drop, get_elem?, set, ltb, lit,
  if◌then◌else◌,
}

pub data Kind : Type 0 where
  kind_deploy kind_remove : Kind

pub data Status : Type 0 where
  pending running succeeded failed : Status

-- `slog.Value.Any()` and the attributes of a log line: what is kept is their text
pub record LogEntry : Type 0 where
  pub time : ℕ
  pub level : Text
  pub message : Text
  pub attrs : Map Text Text

-- The `any` of `Result`: the two payloads that the handlers pass.
pub data Payload : Type 0 where
  deploy_result : List (Text × Text) → Map Text Text → Bool → Payload
  removed : Text → Payload

pub record Job : Type 0 where
  pub id : Text
  pub kind : Kind
  pub package_name : Text
  pub status : Status
  pub created_at : ℕ
  pub started_at : Option ℕ
  pub finished_at : Option ℕ
  pub error : Text
  pub result : Option Payload
  pub max_log_lines : ℕ
  pub logs : List LogEntry
  pub done : Bool

pub record Manager : Type 0 where
  pub heap : List Job
  pub jobs : Map Text ℕ
  pub order : List Text
  pub max_jobs : ℕ
  pub max_log_lines : ℕ

-- An `int` below 1 is replaced by the default.
abbrev pub at_least_one : ℤ → ℕ → ℕ
at_least_one (pos n) default_value = if ltb n 1 then default_value else n
at_least_one (negsuc _) default_value = default_value

unfoldable pub new_manager : ℤ → ℤ → Manager
new_manager max_jobs max_log_lines = record {
  heap = [];
  jobs = [];
  order = [];
  max_jobs = at_least_one max_jobs 100;
  max_log_lines = at_least_one max_log_lines 2000;
}

-- `nil`, or a job that the eviction loop may not drop
abbrev pub deref : List Job → Option ℕ → Option Job
deref heap none = none
deref heap (some a) = get_elem? heap a

abbrev pub is_unfinished : Status → Bool
is_unfinished pending = true
is_unfinished running = true
is_unfinished _ = false

abbrev pub blocks : Option Job → Bool
blocks none = true
blocks (some j) = is_unfinished j.status

-- `for len(m.order) > m.maxJobs { … }`, with the map and the order that it leaves
unfoldable pub evict : ℕ → List Job → Map Text ℕ → List Text → Map Text ℕ × List Text
evict max_jobs heap jobs [] = (jobs, [])
evict max_jobs heap jobs (oldest ∷ order) =
    let rest = evict max_jobs heap (delete oldest jobs) order in
    if ltb max_jobs (length (oldest ∷ order))
    then (if blocks (deref heap (lookup oldest jobs)) then (jobs, oldest ∷ order) else rest)
    else (jobs, oldest ∷ order)

abbrev pub new_job : Kind → Text → Text → ℕ → ℕ → Job
new_job kind pkg id now max_log_lines = record {
  id = id;
  kind = kind;
  package_name = pkg;
  status = pending;
  created_at = now;
  started_at = none;
  finished_at = none;
  error = [];
  result = none;
  max_log_lines = max_log_lines;
  logs = [];
  done = false;
}

-- The new manager and the address of the job; `id` is what `newID` draws.
unfoldable pub create : Manager → Kind → Text → Text → ℕ → Manager × ℕ
create m kind pkg id now =
    let a = length m.heap in
    let heap = m.heap ++ new_job kind pkg id now m.max_log_lines ∷ [] in
    let kept = evict m.max_jobs heap (insert id a m.jobs) (m.order ++ id ∷ []) in
    (record m { heap = heap; jobs = kept.0; order = kept.1 }, a)

unfoldable pub get : Manager → Text → Option ℕ
get m id = lookup id m.jobs

-- the loop of `List` over `m.order`
unfoldable pub list_from : Map Text ℕ → List Text → List ℕ
list_from jobs [] = []
list_from jobs (id ∷ order) =
    let rest = list_from jobs order in elim (lookup id jobs) [ none ↦ rest | some a ↦ a ∷ rest ]

unfoldable pub list : Manager → List ℕ
list m = list_from m.jobs m.order

-- Methods of `*Job`. `none` is the panic of `close` on a channel that is closed.
unfoldable pub start : Job → ℕ → Job
start j now = record j { started_at = some now; status = running }

abbrev pub close : Job → Option Job
close j = if j.done then none else some (record j { done = true })

unfoldable pub succeed : Job → ℕ → Payload → Option Job
succeed j now result =
    close (record j { finished_at = some now; status = succeeded; result = some result })

unfoldable pub fail : Job → ℕ → Text → Option Job
fail j now err = close (record j { finished_at = some now; status = failed; error = err })

-- `Logs(tail)`
unfoldable pub logs : Job → ℤ → List LogEntry
logs j (pos tail) =
    if ltb 0 tail && ltb tail (length j.logs) then drop (length j.logs - tail) j.logs else j.logs
logs j (negsuc _) = j.logs

-- `append`: the overflow of the buffer is cut off at its front
unfoldable pub append : Job → LogEntry → Job
append j e =
    let grown = j.logs ++ e ∷ [] in
    let overflow = length grown - j.max_log_lines in
    record j { logs = if ltb 0 overflow then drop overflow grown else grown }

-- A write through a pointer.
unfoldable pub update : Manager → ℕ → (Job → Job) → Manager
update m a f = elim (get_elem? m.heap a) [
  | none ↦ m
  | some j ↦ record m { heap = set m.heap a (f j) }
]

-- `teeHandler`, without the pointers to the job and to the next handler
pub record TeeHandler : Type 0 where
  pub attrs : List (Text × Text)
  pub group : Text

-- `Logger`
abbrev pub logger : TeeHandler
logger = record { attrs = []; group = [] }

pub record SlogRecord : Type 0 where
  pub time : ℕ
  pub level : Text
  pub message : Text
  pub attrs : List (Text × Text)

unfoldable pub with_attrs : TeeHandler → List (Text × Text) → TeeHandler
with_attrs h attrs = record h { attrs = h.attrs ++ attrs }

unfoldable pub with_group : TeeHandler → Text → TeeHandler
with_group h name = record h { group = name }

abbrev pub qualified : Text → Text → Text
qualified group key = if group == [] then key else group ++ lit "." ++ key

-- the two loops of `Handle`, each over its list of attributes
unfoldable pub add_attrs : Text → List (Text × Text) → Map Text Text → Map Text Text
add_attrs group [] m = m
add_attrs group ((key, value) ∷ attrs) m =
    add_attrs group attrs (insert (qualified group key) value m)

unfoldable pub handle : TeeHandler → Job → SlogRecord → Job
handle h j r = append j (record {
  time = r.time;
  level = r.level;
  message = r.message;
  attrs = add_attrs h.group r.attrs (add_attrs [] h.attrs []);
})
