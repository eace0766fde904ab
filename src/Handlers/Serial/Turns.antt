-- ===== src/Handlers/Serial/Turns.antt =====
-- Jobs take turns: one runs at a time, each that has ended is done, and none is stuck.
use zarf_api.Prelude.{
  ℕ, ◌≡◌, refl, sym, subst, ◌∙◌, ap, Bool, true, false, not, ◌&&◌, Option, none, some, List, [],
  ◌∷◌, Text, ◌==◌, ==_iff, nat_eq, arith, Bool-cases, Option-cases, inl, inr,
}
use zarf_api.Os.{World}
use zarf_api.Store.{Store}
use zarf_api.Jobs.{Job, Status, pending, running, succeeded, failed, is_unfinished}
use zarf_api.Jobs.Lifecycle.{IsConsistent, Reach-IsConsistent}
use zarf_api.Zarfz.{DeployRequest, RemoveRequest}
use zarf_api.Handlers.Running.{ZarfLib, Logging, run_deploy, run_remove}
use zarf_api.Handlers.Serial.{
  Work, deploy_work, remove_work, begin, complete, Turn, waiting, inside, ended, Cluster, Event,
  go_on, lock, advance, turn, turns, queued,
}
use zarf_api.Handlers.Serial.Orderly.{EndsWell, Holds, Orderly, began, completed, turns-Orderly}

abbrev pub is_running : Status → Bool
is_running running = true
is_running _ = false

-- Has the job of a goroutine the status running?
abbrev pub runs : Turn → Bool
runs (waiting j) = is_running j.status
runs (inside j) = is_running j.status
runs (ended (some j)) = is_running j.status
runs (ended none) = false

module _ (s : Store) (l : Logging) (zarf : ZarfLib) (works : ℕ → Work) (jobs : ℕ → Job)
    (fit : (k : ℕ) → IsConsistent (jobs k)) (fresh : (k : ℕ) → (jobs k).status ≡ pending) where
  runs-holder :
      (holder : Option ℕ) (k : ℕ) (t : Turn)
      → Holds jobs holder k t
      → runs t ≡ true
      → holder ≡ some k
  runs-holder holder k (waiting j) h r =
      let idle = ap is_running (ap (λ (a : Job). a.status) h ∙ fresh k) in cc
  runs-holder holder k (inside j) h r = h.0
  runs-holder holder k (ended o) (j, e, reach, d) r =
      let closed = (Reach-IsConsistent reach (fit k)).closed in
      let r' : is_running j.status ≡ true = ap runs (ap ended (sym e)) ∙ r in
      absurd (done_or_running j.status j.done closed d r')
    where
      done_or_running :
          (a : Status) (b : Bool) → b ≡ not (is_unfinished a) → b ≡ true → is_running a ≡ true → ⊥
      done_or_running running b h d r = cc
      done_or_running pending b h d r = cc
      done_or_running succeeded b h d r = cc
      done_or_running failed b h d r = cc

  one_runs :
      (c : Cluster)
      → Orderly jobs c
      → (i k : ℕ) → (runs (c.turn i) && runs (c.turn k) && not (i == k)) ≡ false
  one_runs c o i k = elim (Bool-cases (runs (c.turn i))) [
    | inr e ↦ rw e refl
    | inl e ↦ elim (Bool-cases (runs (c.turn k))) [
      | inr f ↦ ground (arith, e, f)
      | inl f ↦
          let at_i = runs-holder c.holder i (c.turn i) (o.holds i) e in
          let at_k = runs-holder c.holder k (c.turn k) (o.holds k) f in
          let same : (i == k) ≡ true = (==_iff i k).1 (cc) in ground (arith, e, f, same)
    ]
  ]

  Holds-EndsWell :
      (holder : Option ℕ) (k : ℕ) (t : Turn) → Holds jobs holder k t → EndsWell (jobs k) t
  Holds-EndsWell holder k (waiting j) h = tt
  Holds-EndsWell holder k (inside j) h = tt
  Holds-EndsWell holder k (ended o) h = h

  -- There are steps after which the goroutine has ended its job.
  abbrev pub CanEnd : ℕ → Cluster → Type 0
  CanEnd k c =
      (more : List Event) × (j : Job) × ((turns s l zarf works more c).turn k ≡ ended (some j))
      × (j.done ≡ true)

  later :
      (k : ℕ) (e : Event) (c c' : Cluster) → turn s l zarf works e c ≡ c' → CanEnd k c' → CanEnd k c
  unfolding turns
  later k e c c' p (more, j, at, d) =
      (e ∷ more, j, ap (λ x. (turns s l zarf works more x).turn k) p ∙ at, d)

  go_on_lem :
      (c : Cluster) (k : ℕ) (t : Turn)
      → c.turn k ≡ t
      → turn s l zarf works (go_on k) c ≡ advance s l zarf (works k) k t c
  unfolding turn
  go_on_lem c k t at = ap (λ a. advance s l zarf (works k) k a c) at

  from_inside : (c : Cluster) (k : ℕ) (j : Job) → Orderly jobs c → c.turn k ≡ inside j → CanEnd k c
  unfolding turns
  from_inside c k j o at =
      let (_, _, (j', e, d)) = completed s l zarf works jobs fit fresh c k j o at in
      later k (go_on k) c _ (go_on_lem c k (inside j) at) ([], j', e, d)

  from_free :
      (c : Cluster) (k : ℕ) (j : Job)
      → Orderly jobs c
      → c.turn k ≡ waiting j
      → c.holder ≡ none
      → CanEnd k c
  from_free c k j o at free =
      let (o', (j', at')) = began s l zarf works jobs fit fresh c k j o at free in
      later k (go_on k) c _ (go_on_lem c k (waiting j) at ∙ ap (λ h. lock l (works k) k j h c) free)
        (from_inside _ k j' o' at')

  from_held :
      (c : Cluster) (k i : ℕ) (j a : Job)
      → Orderly jobs c
      → c.turn k ≡ waiting j
      → c.turn i ≡ inside a
      → CanEnd k c
  from_held c k i j a o at at_i =
      let (o', free, _) = completed s l zarf works jobs fit fresh c i a o at_i in
      let apart : (k == i) ≡ false = elim (Bool-cases (k == i)) [
        | inl e ↦ absurd (let same = ap c.turn ((==_iff k i).0 e) in cc)
        | inr e ↦ e
      ] in
      later k (go_on i) c _ (go_on_lem c i (inside a) at_i) (from_free _ k j o' (rw apart at) free)

  can_end : (c : Cluster) (k : ℕ) → Orderly jobs c → (t : Turn) → c.turn k ≡ t → CanEnd k c
  unfolding turns
  can_end c k o (ended a) at =
      let (j, e, r, d) = subst (Holds jobs c.holder k) at (o.holds k) in ([], j, at ∙ ap ended e, d)
  can_end c k o (inside j) at = from_inside c k j o at
  can_end c k o (waiting j) at = elim (Option-cases c.holder) [
    | inl free ↦ from_free c k j o at free
    | inr (i, held) ↦ let (a, at_i) = o.busy i held in from_held c k i j a o at at_i
  ]

  queued-Orderly : (w : World) → Orderly jobs (queued jobs w)
  queued-Orderly w = record { holds = λ k. refl; busy = λ k e. cc }

  -- However many goroutines run consistent jobs that are pending, in whatever order they take their
  -- steps and whatever other requests leave on the disk in between: at any time at most one of the
  -- jobs has the status running, and each job that a goroutine has ended was brought there by the
  -- steps of a job, without a panic, and is done.
  pub turns_lem :
      (es : List Event) (w : World)
      → let c = turns s l zarf works es (queued jobs w) in
        ((i k : ℕ) → (runs (c.turn i) && runs (c.turn k) && not (i == k)) ≡ false)
        × ((k : ℕ) → EndsWell (jobs k) (c.turn k))
  turns_lem es w =
      let c = turns s l zarf works es (queued jobs w) in
      let o = turns-Orderly s l zarf works jobs fit fresh es (queued jobs w) (queued-Orderly w) in
      (one_runs c o, λ k. Holds-EndsWell c.holder k (c.turn k) (o.holds k))

  -- However many goroutines run consistent jobs that are pending, none is ever stuck: from wherever
  -- their steps and other requests have led, there are further steps after which the goroutine has
  -- ended its job and the job is done.
  pub turns-CanEnd :
      (es : List Event) (w : World) (k : ℕ) → CanEnd k (turns s l zarf works es (queued jobs w))
  turns-CanEnd es w k =
      can_end _ k
        (turns-Orderly s l zarf works jobs fit fresh es (queued jobs w) (queued-Orderly w)) _ refl

-- The two steps of a goroutine, one right after the other, are all of `runDeploy` or `runRemove`.
complete-begin :
    (s : Store) (l : Logging) (zarf : ZarfLib) (req : DeployRequest) (b : Bool) (name : Text)
    (removal : RemoveRequest) (j : Job) (w : World)
    → (complete s l zarf (deploy_work req b) (begin l (deploy_work req b) j w)
        ≡ run_deploy s l zarf req b j w)
      × (complete s l zarf (remove_work name removal) (begin l (remove_work name removal) j w)
          ≡ run_remove l zarf name removal j w)
unfolding run_deploy run_remove
complete-begin s l zarf req b name removal j w = (refl, refl)
