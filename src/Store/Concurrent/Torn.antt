-- ===== src/Store/Concurrent/Torn.antt =====
-- The read of the session outside of the mutex meets a session that is being written.
use zarf_api.Prelude.{
  ℕ, ◌≡◌, refl, subst, ◌∙◌, ap, false, List, [], ◌∷◌, Text, insert, ◌==◌, ==_iff, nat_eq, eq_self,
  list_eq, Bool-cases, inl, inr,
}
use zarf_api.Records.{Upload, bad_json}
use zarf_api.Os.{bytes, file, World, err}
use zarf_api.Os.Calm.{read_file_present}
use zarf_api.Os.Files.{write}
use zarf_api.Store.{Store}
use zarf_api.Store.Uploads.{session_file, read_session}
use zarf_api.Store.Chunks.{IsOpen}
use zarf_api.Store.Concurrent.{
  Task, ready, gave_up, holding, writing, System, enter, move, step, run, at_rest,
}
use zarf_api.Store.Concurrent.Invariant.{Consistent, Fits, intact}
use zarf_api.Store.Concurrent.Critical.{homes, beside, write_session-there}
use zarf_api.Store.Concurrent.Schedules.{run-Consistent}

module _ (s : Store) (id : Text) (tasks : ℕ → Task) (u₀ : Upload) (log : List ℕ) (sys : System)
    (c : Consistent s id tasks u₀ log sys) (k j : ℕ) (u : Upload) (at_k : sys.phase k ≡ holding u)
    (at_j : sys.phase j ≡ ready) where
  -- the world and the system once the file is emptied
  abbrev torn : World
  torn = write (insert (session_file s id) (file (bytes [])) sys.world.fs) sys.world

  abbrev amid : System
  amid = enter sys sys.holder k (writing u) torn

  emptied_lem : step s id tasks k sys ≡ amid
  unfolding step
  emptied_lem =
      let f = subst (Fits s id tasks u₀ log sys.holder k) at_k (c.fits k) in
      let h = homes s id tasks u₀ log sys.holder sys.phase sys.world c.stored in
      let named : u.id ≡ id = ap (λ (v : Upload). v.id) f.2 ∙ h.named in
      ap (λ p. move s id (tasks k) k p sys) at_k
      ∙ simp (write_session-there s id tasks u₀ log sys c k u (bytes []) named) refl

  other : (j == k) ≡ false
  other = elim (Bool-cases (j == k)) [
    | inl e ↦ absurd (let same = ap sys.phase ((==_iff j k).0 e) in cc)
    | inr e ↦ e
  ]

  read_torn : read_session s id torn ≡ (err bad_json, torn)
  unfolding read_session
  read_torn =
      let h = homes s id tasks u₀ log sys.holder sys.phase sys.world c.stored in
      let (home, chunks_home, session) = beside s id tasks u₀ log sys.world (bytes []) h in
      rw (h.valid, read_file_present torn c.calm (session_file s id) (bytes []) session) refl

  gives_up : (step s id tasks j amid).phase j ≡ gave_up
  unfolding step
  gives_up =
      let begins : amid.phase j ≡ ready = rw other at_j in
      ap (λ p. (move s id (tasks j) j p amid).phase j) begins ∙ simp read_torn (rw (eq_self j) refl)

-- When no call of the operating system fails and the session is open: at any time at which one request
-- is about to write the session and another is about to begin, if the first empties the file and the
-- second then reads it, the second gives up.
pub run-torn :
    (s : Store) (id : Text) (tasks : ℕ → Task) (u₀ : Upload) (w : World) (order : List ℕ) (k j : ℕ)
    (u : Upload)
    → w.faults ≡ []
    → IsOpen s id u₀ w
    → (run s id tasks order (at_rest w)).phase k ≡ holding u
    → (run s id tasks order (at_rest w)).phase j ≡ ready
    → (run s id tasks (k ∷ j ∷ []) (run s id tasks order (at_rest w))).phase j ≡ gave_up
unfolding run
run-torn s id tasks u₀ w order k j u calm o at_k at_j =
    let sys = run s id tasks order (at_rest w) in
    let (log, c) =
      run-Consistent s id tasks u₀ order [] (at_rest w)
        (record { calm = calm; fits = λ i. refl; stored = intact o }) in
    ap (λ t. (step s id tasks j t).phase j) (emptied_lem s id tasks u₀ log sys c k j u at_k at_j)
    ∙ gives_up s id tasks u₀ log sys c k j u at_k at_j
