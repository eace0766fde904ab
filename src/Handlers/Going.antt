-- ===== src/Handlers/Going.antt =====
-- A job while its goroutine runs: what its log lines and Zarf's leave, and how it may end.
use zarf_api.Prelude.{
  ℕ, ◌≡◌, refl, ◌∙◌, ap, true, false, not, Option, some, List, [], ◌∷◌, Text, Bool-cases, inl, inr,
}
use zarf_api.Os.{World}
use zarf_api.Jobs.{
  Job, pending, running, succeeded, failed, Payload, TeeHandler, SlogRecord, handle, append, start,
  succeed, fail, is_unfinished,
}
use zarf_api.Jobs.Lifecycle.{
  IsConsistent, Step, begin, log, finish, abort, Reach, here, next, Reach-IsConsistent,
}
use zarf_api.Handlers.Running.{Logging, Run, log_line, replay, started}

-- The job runs, as the same package's; nothing of the disk has changed.
pub record Going (j : Job) (w : World) (run : Run) : Type 0 where
  pub path : Reach j run.0
  pub status : run.0.status ≡ running
  pub pkg : run.0.package_name ≡ j.package_name
  pub disk : run.1.fs ≡ w.fs

handle-Step : (h : TeeHandler) (r : SlogRecord) (j : Job) → Step j (handle h j r)
unfolding handle
handle-Step h r j = log _

handle-status : (h : TeeHandler) (r : SlogRecord) (j : Job) → (handle h j r).status ≡ j.status
unfolding handle append
handle-status h r j = refl

handle-package_name :
    (h : TeeHandler) (r : SlogRecord) (j : Job) → (handle h j r).package_name ≡ j.package_name
unfolding handle append
handle-package_name h r j = refl

module _ (j : Job) (w : World) where
  handle-Going :
      (h : TeeHandler) (r : SlogRecord) (k : Job) (x y : World)
      → y.fs ≡ x.fs
      → Going j w (k, x)
      → Going j w (handle h k r, y)
  handle-Going h r k x y e g = record {
    path = next g.path (handle-Step h r k);
    status = handle-status h r k ∙ g.status;
    pkg = handle-package_name h r k ∙ g.pkg;
    disk = e ∙ g.disk;
  }

  pub log_line-Going :
      (l : Logging) (level message : Text) (attrs : List (Text × Text)) (run : Run)
      → Going j w run
      → Going j w (log_line l level message attrs run)
  unfolding log_line
  log_line-Going l level message attrs (k, x) g = elim (Bool-cases (l.is_on level)) [
    | inl e ↦ rw (log_line, e) (handle-Going _ _ k x _ refl g)
    | inr e ↦ rw (log_line, e) g
  ]

  pub replay-Going :
      (lines : List (TeeHandler × SlogRecord)) (k : Job) (x : World)
      → Going j w (k, x)
      → Going j w (replay lines k, x)
  unfolding replay
  replay-Going [] k x g = g
  replay-Going ((h, r) ∷ lines) k x g =
      replay-Going lines (handle h k r) x (handle-Going h r k x x refl g)

  pub start-Going : j.status ≡ pending → Going j w (started j w)
  start-Going p = record {
    path = next here (begin w.clock p);
    status = unfold start in refl;
    pkg = unfold start in refl;
    disk = refl;
  }

  -- What a finished run leaves: a job that is done, reached by the steps of a job.
  abbrev pub Ended : Option Job → (Job → Type 0) → Type 0
  Ended out P = (k : Job) × (out ≡ some k) × Reach j k × (k.done ≡ true) × P k

  module _ (c : IsConsistent j) (run : Run) (g : Going j w run) where
    open_channel : run.0.done ≡ false
    open_channel = (Reach-IsConsistent g.path c).closed ∙ ap (λ s. not (is_unfinished s)) g.status

    pub succeed-Ended :
        (now : ℕ) (r : Payload)
        → Ended (succeed run.0 now r) (λ k. (k.status ≡ succeeded) × (k.result ≡ some r))
    succeed-Ended now r =
        let k = record run.0 {
          finished_at = some now;
          status = succeeded;
          result = some r;
          done = true;
        } in
        let e : succeed run.0 now r ≡ some k = unfold succeed in rw open_channel refl in
        (k, e, next g.path (finish now r g.status e), refl, (refl, refl))

    pub fail-Ended :
        (now : ℕ) (e : Text) → Ended (fail run.0 now e) (λ k. (k.status ≡ failed) × (k.error ≡ e))
    fail-Ended now e =
        let k = record run.0 { finished_at = some now; status = failed; error = e; done = true } in
        let h : fail run.0 now e ≡ some k = unfold fail in rw open_channel refl in
        (k, h, next g.path (abort now e g.status h), refl, (refl, refl))
