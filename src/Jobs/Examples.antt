-- ===== src/Jobs/Examples.antt =====
-- Runs of the job manager, and its theorems at concrete managers.
use zarf_api.Prelude.{
  ℕ, ◌≤◌, ◌≡◌, ◌≢◌, refl, ◌⊎◌, none, some, List, [], ◌∷◌, map, pos, lit, length, get_elem?, lookup,
  insert, subst, nat_eq, list_eq, list_beq_iff, arith,
}
use mathlib.Core.Option
use zarf_api.Jobs.{
  kind_deploy, kind_remove, running, succeeded, failed, LogEntry, Job, Manager, removed, new_job,
  new_manager, create, get, list, start, succeed, fail, logs, append, update, evict, with_attrs,
  with_group, handle, add_attrs,
}
use zarf_api.Jobs.Logs.{append_all, last, logs-append_all-last}
use zarf_api.Jobs.Lifecycle.{
  IsConsistent, begin, here, next, Reach-IsConsistent, new_job-IsConsistent, finish_once,
}
use zarf_api.Jobs.Validity.{IsValid, member, ids-list}
use zarf_api.Jobs.Retention.{
  HeadUnfinished, create-IsValid, create_retains, create_keeps_unfinished, create_blocked,
}

abbrev line : ℕ → LogEntry
line t = record { time = t; level = lit "INFO"; message = lit "m"; attrs = [] }

abbrev fresh : Job
fresh = new_job kind_deploy (lit "p") (lit "j0") 1 2

abbrev lines : List LogEntry
lines = line 1 ∷ line 2 ∷ line 3 ∷ []

logs-append_all-last_example :
    ((append_all fresh lines).logs ≡ last 2 lines)
    × (logs (append_all fresh lines) (pos 1) ≡ last 1 lines)
logs-append_all-last_example = logs-append_all-last fresh lines (pos 1) refl

abbrev started : Job
started = record fresh { started_at = some 5; status = running }

starts : start fresh 5 ≡ started
unfolding start
starts = refl

Reach-IsConsistent_example : IsConsistent (start fresh 5)
Reach-IsConsistent_example =
    Reach-IsConsistent (next here (begin 5 refl))
      (new_job-IsConsistent kind_deploy (lit "p") (lit "j0") 1 2)

finish_once_example :
    ((k : Job) × (succeed fresh 1 (removed []) ≡ some k)
      × (k.status ≡ succeeded)
      × (succeed k 2 (removed []) ≡ none)
      × (fail k 2 [] ≡ none))
    × ((k : Job) × (fail fresh 1 [] ≡ some k)
        × (k.status ≡ failed)
        × (succeed k 2 (removed []) ≡ none)
        × (fail k 2 [] ≡ none))
finish_once_example =
    finish_once fresh 1 2 (removed []) (removed []) [] []
      (new_job-IsConsistent kind_deploy (lit "p") (lit "j0") 1 2) refl

abbrev empty : Manager
empty = record { heap = []; jobs = []; order = []; max_jobs = 1; max_log_lines = 2 }

empty-IsValid : IsValid empty
unfolding lookup
empty-IsValid = record { distinct = tt; resolved = tt; known = λ id h. absurd (h refl) }

create-IsValid_example : IsValid (create empty kind_deploy (lit "p") (lit "j0") 1).0
unfolding lookup member
create-IsValid_example =
    create-IsValid empty kind_deploy (lit "p") (lit "j0") 1 empty-IsValid refl refl

abbrev one : Manager
one = record {
  heap = fresh ∷ [];
  jobs = (lit "j0", 0) ∷ [];
  order = lit "j0" ∷ [];
  max_jobs = 1;
  max_log_lines = 2;
}

one_made : (create empty kind_deploy (lit "p") (lit "j0") 1).0 ≡ one
unfolding create evict insert
one_made = refl

one-IsValid : IsValid one
unfolding lookup member
one-IsValid =
    subst IsValid one_made
      (create-IsValid empty kind_deploy (lit "p") (lit "j0") 1 empty-IsValid refl refl)

create_retains_example :
    let m = (create one kind_remove (lit "q") (lit "j1") 2).0 in
    (length m.order ≤ m.max_jobs) ⊎ HeadUnfinished m
unfolding lookup member
create_retains_example = create_retains one kind_remove (lit "q") (lit "j1") 2 one-IsValid refl refl

j1_ne_j0 : lit "j1" ≢ lit "j0"
j1_ne_j0 e = ground (arith, list_beq_iff (lit "j1") (lit "j0"))

create_keeps_unfinished_example :
    let m = (create one kind_remove (lit "q") (lit "j1") 2).0 in
    (get m (lit "j0") ≡ some 0) × (get_elem? m.heap 0 ≡ some fresh) × (get m (lit "j1") ≡ some 1)
unfolding lookup get
create_keeps_unfinished_example =
    create_keeps_unfinished one kind_remove (lit "q") (lit "j1") 2 (lit "j0") 0 fresh refl refl refl
      j1_ne_j0

create_blocked_example :
    (create one kind_remove (lit "q") (lit "j1") 2).0.order ≡ lit "j0" ∷ lit "j1" ∷ []
unfolding lookup get
create_blocked_example =
    create_blocked one kind_remove (lit "q") (lit "j1") 2 (lit "j0") [] 0 fresh refl j1_ne_j0 refl
      refl refl

ids-list_example :
    map (λ a. Option.map (λ (j : Job). j.id) (get_elem? one.heap a)) (list one)
    ≡ some (lit "j0") ∷ []
ids-list_example = ids-list one one-IsValid

-- A defaulted manager, a finished job that is evicted, and a job that is finished through its
-- address.
defaults : (new_manager (pos 0) (pos 0)).max_jobs ≡ 100
unfolding new_manager
defaults = refl

finished_one : Manager
finished_one = update one 0 (λ j. start j 7)

runs_in_place : finished_one.heap ≡ record fresh { started_at = some 7; status = running } ∷ []
unfolding finished_one update start
runs_in_place = refl

-- A group replaces the one that was open before, and does not stand before attributes that the
-- handler had already.
groups :
    (handle
      (with_group
        (with_group
          (with_attrs (record { attrs = []; group = [] }) ((lit "a", lit "1") ∷ []))
          (lit "g"))
        (lit "h"))
      fresh
      (record { time = 1; level = []; message = []; attrs = (lit "b", lit "2") ∷ [] })).logs
    ≡ record {
      time = 1;
      level = [];
      message = [];
      attrs = (lit "a", lit "1") ∷ (lit "h.b", lit "2") ∷ [];
    }
      ∷ []
unfolding handle with_group with_attrs append add_attrs insert
groups = refl
