-- ===== src/Store/Concurrent/Schedules.antt =====
-- Whatever the order of their steps, concurrent `PutChunk`s lose no update of the session.
use zarf_api.Prelude.{
  ℕ, ◌≡◌, refl, sym, subst, ◌∙◌, Option, none, List, [], ◌∷◌, Text, nat_eq, list_eq, arith, lit,
  Option-cases, inl, inr,
}
use zarf_api.Records.{Upload}
use zarf_api.Os.{FilePath, World, Result, ok, err}
use zarf_api.Os.Calm.{pick_name, read_file_same}
use zarf_api.Os.Files.{pick, create_temp, rename}
use zarf_api.Store.{Store}
use zarf_api.Store.Uploads.{session_file, chunks_dir, chunk_path, read_session}
use zarf_api.Store.Chunks.{IsOpen}
use zarf_api.Store.Concurrent.{
  Task, Phase, ready, looked, renamed, gave_up, created, copied, spoiled, holding, writing,
  finished, System, or_gave_up, after_copy, move, step, run, at_rest,
}
use zarf_api.Store.Concurrent.Keeping.{
  InChunks, Keeps, create_temp-Keeps, copy_into-Keeps, remove-Keeps, rename-Keeps,
  chunk_path-InChunks,
}
use zarf_api.Store.Concurrent.Invariant.{
  member, is_finished, counting_all, Fits, intact, Consistent, outside,
}
use zarf_api.Store.Concurrent.Critical.{unheld-IsOpen, locked, emptying, counted}

module _ (s : Store) (id : Text) (tasks : ℕ → Task) (u₀ : Upload) where
  or_gave_up-Fits :
      (log : List ℕ) (holder : Option ℕ) (k : ℕ) {A : Type 0} (next : A → Phase) (r : Result A)
      → Fits s id tasks u₀ log holder k gave_up
      → ((a : A) → r ≡ ok a → Fits s id tasks u₀ log holder k (next a))
      → Fits s id tasks u₀ log holder k (or_gave_up next r)
  or_gave_up-Fits log holder k next (ok a) f g = g a refl
  or_gave_up-Fits log holder k next (err e) f g = f

  after_copy-Fits :
      (log : List ℕ) (holder : Option ℕ) (k : ℕ) (tmp : FilePath) (r : Result (Unit {0}))
      → Fits s id tasks u₀ log holder k (created tmp)
      → Fits s id tasks u₀ log holder k (after_copy tmp r)
  after_copy-Fits log holder k tmp (ok u) f = f
  after_copy-Fits log holder k tmp (err e) f = f

  created_name :
      (w : World) (tmp : FilePath)
      → w.faults ≡ []
      → (create_temp (chunks_dir s id) (lit ".chunk-") [] w).0 ≡ ok tmp
      → InChunks s id tmp
  unfolding create_temp
  created_name w tmp calm h =
      elim (Option-cases (pick (chunks_dir s id) (lit ".chunk-") [] w.temps w.fs)) [
        | inl full ↦ absurd (ground (arith, full, h))
        | inr (p, free) ↦
            let (r, named) = pick_name (chunks_dir s id) p (lit ".chunk-") [] w.temps w.fs free in
            let same : p ≡ tmp = ground (arith, free, h) in (_, sym same ∙ named)
      ]

  read_session_calm : (w : World) → w.faults ≡ [] → (read_session s id w).1 ≡ w
  unfolding read_session
  read_session_calm w calm = ground (arith, read_file_same w calm (session_file s id))

  read_session-Keeps : (w : World) → w.faults ≡ [] → Keeps s id w (read_session s id w).1
  read_session-Keeps w calm =
      subst (Keeps s id w) (sym (read_session_calm w calm))
        (record { calm = calm; home = refl; chunks_home = refl; session = refl })

  -- After a step, the log is that of before or one longer.
  abbrev pub Next : System → Type 0
  Next sys = (log : List ℕ) × Consistent s id tasks u₀ log sys

  move-Consistent :
      (log : List ℕ) (sys : System) (k : ℕ) (p : Phase)
      → Consistent s id tasks u₀ log sys
      → sys.phase k ≡ p
      → Fits s id tasks u₀ log sys.holder k p
      → Next (move s id (tasks k) k p sys)
  move-Consistent log sys k ready c at f = (
    log,
    outside s id tasks u₀ log sys k _ _ c (λ u e. cc) (read_session-Keeps sys.world c.calm)
        (or_gave_up-Fits log sys.holder k (λ (u : Upload). looked) (read_session s id sys.world).0 f
          (λ a e. f)),
  )
  move-Consistent log sys k looked c at f = (
    log,
    outside s id tasks u₀ log sys k _ _ c (λ u e. cc)
        (create_temp-Keeps s id sys.world c.calm [] (lit ".chunk-"))
        (or_gave_up-Fits log sys.holder k created _ f
          (λ tmp e. (f, created_name sys.world tmp c.calm e))),
  )
  move-Consistent log sys k (created tmp) c at f = (
    log,
    outside s id tasks u₀ log sys k _ _ c (λ u e. cc)
        (copy_into-Keeps s id sys.world c.calm tmp (tasks k).body f.1)
        (after_copy-Fits log sys.holder k tmp _ f),
  )
  move-Consistent log sys k (spoiled tmp) c at f = (
    log,
    outside s id tasks u₀ log sys k _ _ c (λ u e. cc) (remove-Keeps s id sys.world c.calm tmp f.1)
        f.0,
  )
  move-Consistent log sys k (copied tmp) c at f = (
    log,
    outside s id tasks u₀ log sys k _ _ c (λ u e. cc)
        (rename-Keeps s id sys.world c.calm tmp _ f.1 (chunk_path-InChunks s id (tasks k).index))
        (or_gave_up-Fits log sys.holder k (λ (u : Unit {0}). renamed)
          (rename tmp (chunk_path s id (tasks k).index) sys.world).0 f.0 (λ a e. f.0)),
  )
  move-Consistent log sys k renamed c at f =
      (log, locked s id tasks u₀ log sys c k at sys.holder refl)
  move-Consistent log sys k (holding u) c at f = (log, emptying s id tasks u₀ log sys c k u at)
  move-Consistent log sys k (writing u) c at f = (k ∷ log, counted s id tasks u₀ log sys c k u at)
  move-Consistent log sys k (finished u) c at f = (log, c)
  move-Consistent log sys k gave_up c at f = (log, c)

  pub run-Consistent :
      (order : List ℕ) (log : List ℕ) (sys : System)
      → Consistent s id tasks u₀ log sys
      → Next (run s id tasks order sys)
  unfolding run step
  run-Consistent [] log sys c = (log, c)
  run-Consistent (k ∷ order) log sys c =
      let (log', c') = move-Consistent log sys k (sys.phase k) c refl (c.fits k) in
      run-Consistent order log' _ c'

  Fits-is_finished :
      (log : List ℕ) (holder : Option ℕ) (k : ℕ) (p : Phase)
      → Fits s id tasks u₀ log holder k p
      → is_finished p ≡ member k log
  Fits-is_finished log holder k ready f = sym f
  Fits-is_finished log holder k looked f = sym f
  Fits-is_finished log holder k renamed f = sym f
  Fits-is_finished log holder k gave_up f = sym f
  Fits-is_finished log holder k (created tmp) f = sym f.0
  Fits-is_finished log holder k (copied tmp) f = sym f.0
  Fits-is_finished log holder k (spoiled tmp) f = sym f.0
  Fits-is_finished log holder k (holding u) f = sym f.0
  Fits-is_finished log holder k (writing u) f = sym f.0
  Fits-is_finished log holder k (finished u) f = sym f

-- When no call of the operating system fails and the session is open: whatever chunks are pushed to
-- it by however many requests, and in whatever order these take their steps, at any time at which
-- nobody holds the mutex the session is open, and what it counts is what it counted at first with
-- the chunks of just those requests that have succeeded, in some order.
pub run-IsOpen :
    (s : Store) (id : Text) (tasks : ℕ → Task) (u₀ : Upload) (w : World) (order : List ℕ)
    → w.faults ≡ []
    → IsOpen s id u₀ w
    → (run s id tasks order (at_rest w)).holder ≡ none
    → let sys = run s id tasks order (at_rest w) in
      (log : List ℕ) × IsOpen s id (counting_all tasks log u₀) sys.world
      × ((k : ℕ) → is_finished (sys.phase k) ≡ member k log)
run-IsOpen s id tasks u₀ w order calm o free =
    let (log, c) =
      run-Consistent s id tasks u₀ order [] (at_rest w)
        (record { calm = calm; fits = λ k. refl; stored = intact o }) in
    let sys = run s id tasks order (at_rest w) in
    (
      log,
      unheld-IsOpen s id tasks u₀ log sys.holder sys.phase sys.world free c.stored,
      λ k. Fits-is_finished s id tasks u₀ log sys.holder k (sys.phase k) (c.fits k),
    )
