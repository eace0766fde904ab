-- ===== src/Handlers/Examples/Turns.antt =====
-- Two goroutines: a deployment and a removal.
use zarf_api.Prelude.{ℕ, ◌≡◌, refl, true, false, not, ◌&&◌, List, [], ◌∷◌, decimal, ◌==◌, nat_eq}
use zarf_api.Jobs.{Job, new_job, kind_deploy}
use zarf_api.Jobs.Lifecycle.{new_job-IsConsistent}
use zarf_api.Handlers.Serial.{Work, deploy_work, remove_work, Event, go_on, disk, turns, queued}
use zarf_api.Handlers.Serial.Orderly.{EndsWell}
use zarf_api.Handlers.Serial.Turns.{runs, CanEnd, turns_lem, turns-CanEnd}
use zarf_api.Handlers.Examples.{store, id, world, zarf, logging, deployment, removal}

abbrev works : ℕ → Work
works k = elim (k == 0) [ true ↦ deploy_work deployment false | false ↦ remove_work id removal ]

abbrev jobs : ℕ → Job
jobs k = new_job kind_deploy id (decimal k) 1 2

-- the second waits while the first is inside
abbrev events : List Event
events = go_on 0 ∷ go_on 1 ∷ disk world ∷ go_on 0 ∷ go_on 1 ∷ []

turns_lem_example :
    let c = turns store logging zarf works events (queued jobs world) in
    ((i k : ℕ) → (runs (c.turn i) && runs (c.turn k) && not (i == k)) ≡ false)
    × ((k : ℕ) → EndsWell (jobs k) (c.turn k))
turns_lem_example =
    turns_lem store logging zarf works jobs
      (λ k. new_job-IsConsistent kind_deploy id (decimal k) 1 2) (λ k. refl) events world

turns-CanEnd_example :
    CanEnd store logging zarf works jobs
      (λ k. new_job-IsConsistent kind_deploy id (decimal k) 1 2)
      (λ k. refl)
      1
      (turns store logging zarf works events (queued jobs world))
turns-CanEnd_example =
    turns-CanEnd store logging zarf works jobs
      (λ k. new_job-IsConsistent kind_deploy id (decimal k) 1 2) (λ k. refl) events world 1
