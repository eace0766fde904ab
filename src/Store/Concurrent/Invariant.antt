-- ===== src/Store/Concurrent/Invariant.antt =====
-- Concurrent `PutChunk`s: what holds between any two of their steps.
use zarf_api.Prelude.{
  ℕ, ◌≡◌, ◌≢◌, sym, subst, ◌∙◌, Bool, true, false, Option, none, some, List, [], ◌∷◌, Text, lookup,
  ◌==◌, ==_iff, nat_eq, list_eq, arith, Bool-cases, inl, inr, if◌then◌else◌,
}
use zarf_api.Records.{Upload}
use zarf_api.Os.{bytes, dir, file, World}
use zarf_api.Store.{Store}
use zarf_api.Store.Uploads.{valid_session, session_dir, session_file, chunks_dir}
use zarf_api.Store.Chunks.{IsOpen}
use zarf_api.Store.Concurrent.{
  Task, Phase, ready, looked, renamed, gave_up, created, copied, spoiled, holding, writing,
  finished, System, counting, enter,
}
use zarf_api.Store.Concurrent.Keeping.{InChunks, Keeps, Keeps-IsOpen}

abbrev pub member : ℕ → List ℕ → Bool
member k [] = false
member k (j ∷ log) = if j == k then true else member k log

abbrev pub is_finished : Phase → Bool
is_finished (finished u) = true
is_finished _ = false

-- The session with the chunks of these requests counted, the last one first.
abbrev pub counting_all : (ℕ → Task) → List ℕ → Upload → Upload
counting_all tasks [] u = u
counting_all tasks (k ∷ log) u = counting (tasks k) (counting_all tasks log u)

pub updated :
    (P : ℕ → Phase → Type 0) (f : ℕ → Phase) (k : ℕ) (p : Phase)
    → P k p
    → ((j : ℕ) → (j == k) ≡ false → P j (f j))
    → (j : ℕ) → P j (if j == k then p else f j)
updated P f k p here others j = elim (Bool-cases (j == k)) [
  | inl e ↦ rw e (subst (λ i. P i p) (sym ((==_iff j k).0 e)) here)
  | inr e ↦ rw e (others j e)
]

module _ (s : Store) (id : Text) (tasks : ℕ → Task) (u₀ : Upload) where
  -- the session as it should be
  abbrev pub now : List ℕ → Upload
  now log = counting_all tasks log u₀

  -- What holds of a request in a phase.
  abbrev pub Fits : List ℕ → Option ℕ → ℕ → Phase → Type 0
  Fits log holder k ready = member k log ≡ false
  Fits log holder k looked = member k log ≡ false
  Fits log holder k renamed = member k log ≡ false
  Fits log holder k gave_up = member k log ≡ false
  Fits log holder k (created tmp) = (member k log ≡ false) × InChunks s id tmp
  Fits log holder k (copied tmp) = (member k log ≡ false) × InChunks s id tmp
  Fits log holder k (spoiled tmp) = (member k log ≡ false) × InChunks s id tmp
  Fits log holder k (holding u) =
      (member k log ≡ false) × (holder ≡ some k) × (u ≡ counting (tasks k) (now log))
  Fits log holder k (writing u) =
      (member k log ≡ false) × (holder ≡ some k) × (u ≡ counting (tasks k) (now log))
  Fits log holder k (finished u) = member k log ≡ true

  -- The session's file, which is empty while its writer is between two steps.
  pub data Stored (log : List ℕ) (holder : Option ℕ) (phase : ℕ → Phase) (w : World) : Type 0 where
    intact : IsOpen s id (now log) w → Stored log holder phase w
    emptied :
        (k : ℕ) (u : Upload)
        → holder ≡ some k
        → phase k ≡ writing u
        → valid_session id ≡ true
        → (now log).id ≡ id
        → lookup (session_dir s id) w.fs ≡ some dir
        → lookup (chunks_dir s id) w.fs ≡ some dir
        → lookup (session_file s id) w.fs ≡ some (file (bytes []))
        → Stored log holder phase w

  pub record Consistent (log : List ℕ) (sys : System) : Type 0 where
    pub calm : sys.world.faults ≡ []
    pub fits : (k : ℕ) → Fits log sys.holder k (sys.phase k)
    pub stored : Stored log sys.holder sys.phase sys.world

  pub kept-Stored :
      (log : List ℕ) (holder : Option ℕ) (phase : ℕ → Phase) (w w' : World) (k : ℕ) (p : Phase)
      → ((u : Upload) → phase k ≢ writing u)
      → Keeps s id w w'
      → Stored log holder phase w
      → Stored log holder (λ j. if j == k then p else phase j) w'
  kept-Stored log holder phase w w' k p other kept (intact o) =
      intact (Keeps-IsOpen s id (now log) w w' kept o)
  kept-Stored log holder phase w w' k p other kept
        (emptied j u held_by at v named home chunks_home session) =
      let j_ne_k : (j == k) ≡ false = elim (Bool-cases (j == k)) [
        | inl e ↦ absurd (other u (subst (λ i. phase i ≡ writing u) ((==_iff j k).0 e) at))
        | inr e ↦ e
      ] in
      emptied j u held_by (rw j_ne_k at) v named (kept.home ∙ home) (kept.chunks_home ∙ chunks_home)
        (kept.session ∙ session)

  -- A step of a request outside of the mutex.
  pub outside :
      (log : List ℕ) (sys : System) (k : ℕ) (p : Phase) (w : World)
      → Consistent log sys
      → ((u : Upload) → sys.phase k ≢ writing u)
      → Keeps s id sys.world w
      → Fits log sys.holder k p
      → Consistent log (enter sys sys.holder k p w)
  outside log sys k p w c other kept here = record {
    calm = kept.calm;
    fits = updated (Fits log sys.holder) sys.phase k p here (λ j n. c.fits j);
    stored = kept-Stored log sys.holder sys.phase sys.world w k p other kept c.stored;
  }

  -- The mutex may be taken while nobody holds it.
  pub taken :
      (log : List ℕ) (holder : Option ℕ) (j : ℕ) (p : Phase)
      → Fits log none j p
      → Fits log holder j p
  taken log holder j ready f = f
  taken log holder j looked f = f
  taken log holder j renamed f = f
  taken log holder j gave_up f = f
  taken log holder j (created tmp) f = f
  taken log holder j (copied tmp) f = f
  taken log holder j (spoiled tmp) f = f
  taken log holder j (holding u) f = let nobody = f.1 in cc
  taken log holder j (writing u) f = let nobody = f.1 in cc
  taken log holder j (finished u) f = f

  -- The holder may count its chunk and let go.
  pub let_go :
      (log : List ℕ) (k j : ℕ) (p : Phase)
      → (j == k) ≡ false
      → Fits log (some k) j p
      → Fits (k ∷ log) none j p
  let_go log k j ready n f = ground arith
  let_go log k j looked n f = ground arith
  let_go log k j renamed n f = ground arith
  let_go log k j gave_up n f = ground arith
  let_go log k j (created tmp) n f = (ground (arith, f.0), f.1)
  let_go log k j (copied tmp) n f = (ground (arith, f.0), f.1)
  let_go log k j (spoiled tmp) n f = (ground (arith, f.0), f.1)
  let_go log k j (holding u) n f = let same = f.1 in ground arith
  let_go log k j (writing u) n f = let same = f.1 in ground arith
  let_go log k j (finished u) n f = ground arith
