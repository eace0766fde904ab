-- ===== src/Store/Concurrent/Critical.antt =====
-- The steps of a `PutChunk` under the mutex.
use zarf_api.Prelude.{
  ℕ, ◌≡◌, ◌≢◌, refl, sym, subst, ◌∙◌, ap, true, false, Option, none, some, List, [], ◌∷◌, Text,
  lookup, insert, nat_eq, eq_self, list_eq, list_beq_iff, lookup-insert, arith,
}
use zarf_api.Records.{Upload}
use zarf_api.Os.{Content, bytes, upload_doc, dir, file, World, ok}
use zarf_api.Os.Calm.{write_file_there}
use zarf_api.Os.Files.{write, write_file}
use zarf_api.Os.Paths.{parent-append}
use zarf_api.Store.{Store}
use zarf_api.Store.Uploads.{valid_session, session_dir, session_file, chunks_dir, write_session}
use zarf_api.Store.Chunks.{IsOpen, session_file_lem, read_session_open}
use zarf_api.Store.Concurrent.{
  Task, Phase, renamed, holding, writing, finished, System, counting, lock, move,
}
use zarf_api.Store.Concurrent.Invariant.{
  member, updated, now, Fits, Stored, intact, emptied, Consistent, taken, let_go,
}

module _ (s : Store) (id : Text) (tasks : ℕ → Task) (u₀ : Upload) where
  -- What is known of the session's paths at any time.
  pub record Homes (log : List ℕ) (w : World) : Type 0 where
    pub valid : valid_session id ≡ true
    pub named : (now s id tasks u₀ log).id ≡ id
    pub home : lookup (session_dir s id) w.fs ≡ some dir
    pub chunks_home : lookup (chunks_dir s id) w.fs ≡ some dir
    pub no_dir : lookup (session_file s id) w.fs ≢ some dir

  pub homes :
      (log : List ℕ) (holder : Option ℕ) (phase : ℕ → Phase) (w : World)
      → Stored s id tasks u₀ log holder phase w
      → Homes log w
  homes log holder phase w (intact o) = record {
    valid = o.valid;
    named = o.named;
    home = o.home;
    chunks_home = o.chunks_home;
    no_dir = λ e. ground (arith, o.session, e);
  }
  homes log holder phase w (emptied k u h p v n home chunks_home session) = record {
    valid = v;
    named = n;
    home = home;
    chunks_home = chunks_home;
    no_dir = λ e. ground (arith, session, e);
  }

  pub unheld-IsOpen :
      (log : List ℕ) (holder : Option ℕ) (phase : ℕ → Phase) (w : World)
      → holder ≡ none
      → Stored s id tasks u₀ log holder phase w
      → IsOpen s id (now s id tasks u₀ log) w
  unheld-IsOpen log holder phase w e (intact o) = o
  unheld-IsOpen log holder phase w e (emptied k u h p v n home chunks_home session) = cc

  -- Writing the session's file touches no other path of the session.
  pub beside :
      (log : List ℕ) (w : World) (content : Content)
      → Homes log w
      → let fs = insert (session_file s id) (file content) w.fs in
        (lookup (session_dir s id) fs ≡ some dir)
        × (lookup (chunks_dir s id) fs ≡ some dir)
        × (lookup (session_file s id) fs ≡ some (file content))
  beside log w content h = (
    lookup-insert (session_file s id) (session_dir s id) (file content) w.fs
        ∙ ground (arith, list_beq_iff (session_file s id) (session_dir s id), h.no_dir, h.home),
    lookup-insert (session_file s id) (chunks_dir s id) (file content) w.fs
        ∙ ground
            (arith, list_beq_iff (session_file s id) (chunks_dir s id), h.no_dir, h.chunks_home),
    lookup-insert (session_file s id) (session_file s id) (file content) w.fs
        ∙ rw (eq_self (session_file s id)) refl,
  )

  module _ (log : List ℕ) (sys : System) (c : Consistent s id tasks u₀ log sys) (k : ℕ) where
    -- The session's file can be written.
    pub write_session-there :
        (u : Upload) (content : Content)
        → u.id ≡ id
        → write_file (session_file s u.id) content sys.world
          ≡ (ok tt, write (insert (session_file s id) (file content) sys.world.fs) sys.world)
    write_session-there u content named =
        let h = homes log sys.holder sys.phase sys.world c.stored in
        subst
          (λ i.
            write_file (session_file s i) content sys.world
            ≡ (ok tt, write (insert (session_file s id) (file content) sys.world.fs) sys.world))
          (sym named)
          (write_file_there sys.world c.calm (session_file s id) content
            (rw (session_file_lem s id, parent-append) h.home) h.no_dir)

    pub locked :
        sys.phase k ≡ renamed
        → (o : Option ℕ) → sys.holder ≡ o
        → Consistent s id tasks u₀ log (lock s id (tasks k) k o sys)
    locked at (some j) e = c
    locked at none e =
        let o = unheld-IsOpen log sys.holder sys.phase sys.world e c.stored in
        let free : member k log ≡ false =
          subst (Fits s id tasks u₀ log sys.holder k) at (c.fits k) in
        simp (read_session_open s id (now s id tasks u₀ log) sys.world c.calm o) (record {
          calm = c.calm;
          fits =
              updated (Fits s id tasks u₀ log (some k)) sys.phase k
                (holding (counting (tasks k) (now s id tasks u₀ log))) (free, refl, refl)
                (λ j n.
                  taken s id tasks u₀ log (some k) j (sys.phase j)
                    (subst (λ h. Fits s id tasks u₀ log h j (sys.phase j)) e (c.fits j)));
          stored = intact o;
        })

    pub emptying :
        (u : Upload)
        → sys.phase k ≡ holding u
        → Consistent s id tasks u₀ log (move s id (tasks k) k (holding u) sys)
    emptying u at =
        let f = subst (Fits s id tasks u₀ log sys.holder k) at (c.fits k) in
        let h = homes log sys.holder sys.phase sys.world c.stored in
        let (home, chunks_home, session) = beside log sys.world (bytes []) h in
        let named : u.id ≡ id = ap (λ (v : Upload). v.id) f.2 ∙ h.named in
        simp (write_session-there u (bytes []) named) (record {
          calm = c.calm;
          fits =
              updated (Fits s id tasks u₀ log sys.holder) sys.phase k (writing u) f
                (λ j n. c.fits j);
          stored = emptied k u f.1 (rw (eq_self k) refl) h.valid h.named home chunks_home session;
        })

    pub counted :
        (u : Upload)
        → sys.phase k ≡ writing u
        → Consistent s id tasks u₀ (k ∷ log) (move s id (tasks k) k (writing u) sys)
    unfolding write_session
    counted u at =
        let f = subst (Fits s id tasks u₀ log sys.holder k) at (c.fits k) in
        let h = homes log sys.holder sys.phase sys.world c.stored in
        let (home, chunks_home, session) = beside log sys.world (upload_doc u) h in
        let named : u.id ≡ id = ap (λ (v : Upload). v.id) f.2 ∙ h.named in
        simp (write_session-there u (upload_doc u) named) (record {
          calm = c.calm;
          fits =
              updated (Fits s id tasks u₀ (k ∷ log) none) sys.phase k (finished u)
                (rw (eq_self k) refl)
                (λ j n.
                  let_go s id tasks u₀ log k j (sys.phase j) n
                    (subst (λ o. Fits s id tasks u₀ log o j (sys.phase j)) f.1 (c.fits j)));
          stored = intact (record {
            valid = h.valid;
            named = h.named;
            home = home;
            chunks_home = chunks_home;
            session = session ∙ ap (λ v. some (file (upload_doc v))) f.2;
          });
        })
