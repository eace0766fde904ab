-- ===== src/Store/Concurrent.antt =====
-- `PutChunk` of internal/store/store.go by several requests at once: one step for each call of the
-- operating system, and one for taking the mutex with the read under it; `os.WriteFile` empties the
-- file in a step of its own. A request that finds the mutex taken waits. `put_chunk` of Store/Uploads is the same code run alone.
pub mod Keeping
pub mod Invariant
pub mod Critical
pub mod Schedules
pub mod Torn
mod Examples
use zarf_api.Prelude.{
  ℕ, Bool, true, false, Option, none, some, List, [], ◌∷◌, Text, lit, length, insert, ◌==◌, nat_eq,
  if◌then◌else◌,
}
use zarf_api.Records.{Upload}
use zarf_api.Os.{FilePath, World, bytes, Result, ok, err}
use zarf_api.Os.Files.{Reader, create_temp, copy_into, remove, rename, write_file}
use zarf_api.Store.{Store}
use zarf_api.Store.Uploads.{session_file, chunks_dir, chunk_path, read_session, write_session}

-- the index and the body of a request
pub record Task : Type 0 where
  pub index : ℕ
  pub body : Reader

-- How far a request is, with what its local variables hold.
pub data Phase : Type 0 where
  ready looked renamed gave_up : Phase
  created copied spoiled : FilePath → Phase
  holding writing finished : Upload → Phase

pub record System : Type 0 where
  pub world : World
  pub holder : Option ℕ
  pub phase : ℕ → Phase

-- `u.Chunks[index] = size`
abbrev pub counting : Task → Upload → Upload
counting t u = record u { chunks = insert t.index (length t.body.payload) u.chunks }

-- the phase after a call that may fail
abbrev pub or_gave_up : {A : Type 0} → (A → Phase) → Result A → Phase
or_gave_up next (ok a) = next a
or_gave_up next (err e) = gave_up

abbrev pub after_copy : FilePath → Result (Unit {0}) → Phase
after_copy tmp (ok u) = copied tmp
after_copy tmp (err e) = spoiled tmp

abbrev pub enter : System → Option ℕ → ℕ → Phase → World → System
enter sys holder k p w = record {
  world = w;
  holder = holder;
  phase = λ j. if j == k then p else sys.phase j;
}

-- `s.mu.Lock()` with the read of the session, when nobody holds it; an error unlocks it at once
abbrev pub held : ℕ → Phase → Option ℕ
held k (holding u) = some k
held k _ = none

abbrev pub lock : Store → Text → Task → ℕ → Option ℕ → System → System
lock s id t k (some j) sys = sys
lock s id t k none sys =
    let (r, w) = read_session s id sys.world in
    let p = or_gave_up (λ u. holding (counting t u)) r in enter sys (held k p) k p w

abbrev pub unless_failed : {A : Type 0} → Result A → Option ℕ → Option ℕ
unless_failed (ok a) holder = holder
unless_failed (err e) holder = none

-- the next step of request `k`
abbrev pub move : Store → Text → Task → ℕ → Phase → System → System
move s id t k ready sys =
    let (r, w) = read_session s id sys.world in
    enter sys sys.holder k (or_gave_up (λ (u : Upload). looked) r) w
move s id t k looked sys =
    let (r, w) = create_temp (chunks_dir s id) (lit ".chunk-") [] sys.world in
    enter sys sys.holder k (or_gave_up created r) w
move s id t k (created tmp) sys =
    let (r, w) = copy_into tmp [] t.body sys.world in enter sys sys.holder k (after_copy tmp r) w
move s id t k (spoiled tmp) sys = enter sys sys.holder k gave_up (remove tmp sys.world).1
move s id t k (copied tmp) sys =
    let (r, w) = rename tmp (chunk_path s id t.index) sys.world in
    enter sys sys.holder k (or_gave_up (λ (u : Unit {0}). renamed) r) w
move s id t k renamed sys = lock s id t k sys.holder sys
move s id t k (holding u) sys =
    let (r, w) = write_file (session_file s u.id) (bytes []) sys.world in
    enter sys (unless_failed r sys.holder) k (or_gave_up (λ (v : Unit {0}). writing u) r) w
move s id t k (writing u) sys =
    let (r, w) = write_session s u sys.world in
    enter sys none k (or_gave_up (λ (v : Unit {0}). finished u) r) w
move s id t k (finished u) sys = sys
move s id t k gave_up sys = sys

unfoldable pub step : Store → Text → (ℕ → Task) → ℕ → System → System
step s id tasks k sys = move s id (tasks k) k (sys.phase k) sys

-- the requests take steps in this order
unfoldable pub run : Store → Text → (ℕ → Task) → List ℕ → System → System
unfolding step
run s id tasks [] sys = sys
run s id tasks (k ∷ order) sys = run s id tasks order (step s id tasks k sys)

abbrev pub at_rest : World → System
at_rest w = record { world = w; holder = none; phase = λ k. ready }
