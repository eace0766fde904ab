-- ===== src/Handlers/Serial/Orderly.antt =====
-- Goroutines that take turns: what holds between any two of their steps.
use zarf_api.Prelude.{
  ℕ, ◌≡◌, refl, sym, subst, ◌∙◌, ap, true, false, Option, none, some, List, [], ◌∷◌, ◌==◌, ==_iff,
  nat_eq, eq_self, arith, Bool-cases, inl, inr, if◌then◌else◌,
}
use zarf_api.Os.{World}
use zarf_api.Store.{Store}
use zarf_api.Jobs.{Job, pending, running}
use zarf_api.Jobs.Lifecycle.{IsConsistent, Reach}
use zarf_api.Handlers.Running.{ZarfLib, Logging, Run, replay, started, deploying, removing}
use zarf_api.Handlers.Going.{Going, Ended, start-Going, log_line-Going, replay-Going}
use zarf_api.Handlers.Outcomes.{deploy_with-Ended, remove_with-Ended}
use zarf_api.Handlers.Serial.{
  Work, deploy_work, remove_work, begin, complete, Turn, waiting, inside, ended, Cluster, Event,
  go_on, disk, lock, advance, turn, turns,
}

begin-Going :
    (l : Logging) (work : Work) (j : Job) (w : World)
    → j.status ≡ pending
    → Going j w (begin l work j w)
begin-Going l (deploy_work req delete_after) j w p =
    log_line-Going j w l _ _ _ (started j w) (start-Going j w p)
begin-Going l (remove_work name req) j w p =
    log_line-Going j w l _ _ _ (started j w) (start-Going j w p)

-- Zarf is called and the job brought to its end, on the disk that is then there.
complete-Ended :
    (s : Store) (l : Logging) (zarf : ZarfLib) (work : Work) (j : Job) (run : Run)
    → IsConsistent j
    → Going j run.1 run
    → Ended j run.1 (complete s l zarf work run).0 (λ k. Unit {0})
complete-Ended s l zarf (deploy_work req delete_after) j run c g =
    let out = deploying zarf req run.1 in
    let (k, e, r, d, _) =
      deploy_with-Ended s j run.1 l delete_after out.1 (replay out.0 run.0, run.1) c
        (replay-Going j run.1 out.0 run.0 run.1 g) in
    (k, e, r, d, tt)
complete-Ended s l zarf (remove_work name req) j run c g =
    let out = removing zarf name req run.1 in
    let ((k, e, r, d, _), _) =
      remove_with-Ended j run.1 l name out.1 (replay out.0 run.0, run.1) c
        (replay-Going j run.1 out.0 run.0 run.1 g) in
    (k, e, r, d, tt)

-- The job that a goroutine has ended is the one that it got, and is done; there was no panic.
abbrev pub EndsWell : Job → Turn → Type 0
EndsWell j (waiting _) = Unit
EndsWell j (inside _) = Unit
EndsWell j (ended o) = (k : Job) × (o ≡ some k) × Reach j k × (k.done ≡ true)

placed :
    (P : ℕ → Turn → Type 0) (f : ℕ → Turn) (k : ℕ) (t : Turn)
    → P k t
    → ((i : ℕ) → (i == k) ≡ false → P i (f i))
    → (i : ℕ) → P i (if i == k then t else f i)
placed P f k t here others i = elim (Bool-cases (i == k)) [
  | inl e ↦ rw e (subst (λ a. P a t) (sym ((==_iff i k).0 e)) here)
  | inr e ↦ rw e (others i e)
]

module _ (jobs : ℕ → Job) where
  abbrev pub Holds : Option ℕ → ℕ → Turn → Type 0
  Holds holder k (waiting j) = j ≡ jobs k
  Holds holder k (inside j) =
      (holder ≡ some k)
      × Reach (jobs k) j
      × (j.status ≡ running)
      × (j.package_name ≡ (jobs k).package_name)
  Holds holder k (ended o) = EndsWell (jobs k) (ended o)

  pub record Orderly (c : Cluster) : Type 0 where
    pub holds : (k : ℕ) → Holds c.holder k (c.turn k)
    pub busy : (k : ℕ) → c.holder ≡ some k → (j : Job) × (c.turn k ≡ inside j)

module _ (s : Store) (l : Logging) (zarf : ZarfLib) (works : ℕ → Work) (jobs : ℕ → Job)
    (fit : (k : ℕ) → IsConsistent (jobs k)) (fresh : (k : ℕ) → (jobs k).status ≡ pending) where
  -- While nobody held the mutex no goroutine was inside, whoever takes it.
  taken : (holder : Option ℕ) (i : ℕ) (t : Turn) → Holds jobs none i t → Holds jobs holder i t
  taken holder i (waiting j) h = h
  taken holder i (inside j) h = let nobody = h.0 in cc
  taken holder i (ended o) h = h

  released : (k i : ℕ) (t : Turn) → (i == k) ≡ false → Holds jobs (some k) i t → Holds jobs none i t
  released k i (waiting j) n h = h
  released k i (inside j) n h = let same = h.0 in ground arith
  released k i (ended o) n h = h

  pub began :
      (c : Cluster) (k : ℕ) (j : Job)
      → Orderly jobs c
      → c.turn k ≡ waiting j
      → c.holder ≡ none
      → let c' = lock l (works k) k j none c in
        Orderly jobs c' × ((j' : Job) × (c'.turn k ≡ inside j'))
  began c k j o at free =
      let same : j ≡ jobs k = subst (Holds jobs c.holder k) at (o.holds k) in
      let j' = (begin l (works k) j c.world).0 in
      let g = begin-Going l (works k) j c.world (ap (λ (a : Job). a.status) same ∙ fresh k) in
      (
        record {
          holds =
              placed (Holds jobs (some k)) c.turn k (inside j')
                (
                  refl,
                  subst (λ a. Reach a j') same g.path,
                  g.status,
                  g.pkg ∙ ap (λ (a : Job). a.package_name) same,
                )
                (λ i n.
                  taken (some k) i (c.turn i)
                    (subst (λ h. Holds jobs h i (c.turn i)) free (o.holds i)));
          busy = λ i e. let here : (i == k) ≡ true = (==_iff i k).1 (cc) in (j', rw here refl);
        },
        (j', rw (eq_self k) refl),
      )

  pub completed :
      (c : Cluster) (k : ℕ) (j : Job)
      → Orderly jobs c
      → c.turn k ≡ inside j
      → let c' = advance s l zarf (works k) k (inside j) c in
        Orderly jobs c'
        × (c'.holder ≡ none)
        × ((j' : Job) × (c'.turn k ≡ ended (some j')) × (j'.done ≡ true))
  completed c k j o at =
      let f = subst (Holds jobs c.holder k) at (o.holds k) in
      let (j', e, r, d, _) =
        complete-Ended s l zarf (works k) (jobs k) (j, c.world) (fit k)
          (record { path = f.1; status = f.2; pkg = f.3; disk = refl }) in
      (
        record {
          holds =
              placed (Holds jobs none) c.turn k (ended (complete s l zarf (works k) (j, c.world)).0)
                (j', e, r, d)
                (λ i n.
                  released k i (c.turn i) n
                    (subst (λ h. Holds jobs h i (c.turn i)) f.0 (o.holds i)));
          busy = λ i h. cc;
        },
        refl,
        (j', rw (eq_self k) (ap ended e), d),
      )

  turn-Orderly : (e : Event) (c : Cluster) → Orderly jobs c → Orderly jobs (turn s l zarf works e c)
  unfolding turn
  turn-Orderly (disk w) c o = record { holds = o.holds; busy = o.busy }
  turn-Orderly (go_on k) c o = by_turn (c.turn k) refl
    where
      by_holder :
          (j : Job)
          → c.turn k ≡ waiting j
          → (h : Option ℕ) → c.holder ≡ h
          → Orderly jobs (lock l (works k) k j h c)
      by_holder j at (some i) e = o
      by_holder j at none e = (began c k j o at e).0

      by_turn : (t : Turn) → c.turn k ≡ t → Orderly jobs (advance s l zarf (works k) k t c)
      by_turn (waiting j) at = by_holder j at c.holder refl
      by_turn (inside j) at = (completed c k j o at).0
      by_turn (ended a) at = o

  pub turns-Orderly :
      (es : List Event) (c : Cluster) → Orderly jobs c → Orderly jobs (turns s l zarf works es c)
  unfolding turns
  turns-Orderly [] c o = o
  turns-Orderly (e ∷ es) c o = turns-Orderly es (turn s l zarf works e c) (turn-Orderly e c o)
