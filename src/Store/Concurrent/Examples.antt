-- ===== src/Store/Concurrent/Examples.antt =====
-- Two requests that push to one session at once.
use zarf_api.Prelude.{
  pos, delete, ℕ, ◌≡◌, refl, false, none, some, List, [], ◌∷◌, lookup, insert, decimal, ◌==◌,
  nat_eq, list_eq, if◌then◌else◌,
}
use zarf_api.Regex.{matches, derive, nullable}
use zarf_api.Os.{bytes, upload_doc, file, World, ok}
use zarf_api.Os.Paths.{join}
use zarf_api.Os.Files.{read_file, write_file, create_temp, pick, copy_into, rename}
use zarf_api.Store.Uploads.{
  valid_session, session_dir, session_file, chunk_path, read_session, write_session, put_chunk,
  place_chunk, record_chunk,
}
use zarf_api.Store.Chunks.{IsOpen}
use zarf_api.Store.Examples.{store}
use zarf_api.Store.Uploads.Examples.{session_id, session, uploading, is_open}
use zarf_api.Store.Concurrent.{Task, gave_up, finished, counting, step, run, at_rest}
use zarf_api.Store.Concurrent.Invariant.{member, is_finished, counting_all}
use zarf_api.Store.Concurrent.Schedules.{run-IsOpen}
use zarf_api.Store.Concurrent.Torn.{run-torn}

-- both send chunk 2, of one byte and of two
abbrev tasks : ℕ → Task
tasks k = record {
  index = 2;
  body = record { payload = if k == 0 then 5 ∷ [] else 6 ∷ 6 ∷ []; broken = false };
}

abbrev disk : World
disk = record uploading { temps = 1 ∷ 2 ∷ [] }

disk-IsOpen : IsOpen store session_id session disk
disk-IsOpen = record {
  valid = is_open.valid;
  named = is_open.named;
  home = is_open.home;
  chunks_home = is_open.chunks_home;
  session = is_open.session;
}

-- the first renames its chunk before the second, and counts it after
abbrev order : List ℕ
order = 0 ∷ 1 ∷ 0 ∷ 1 ∷ 0 ∷ 1 ∷ 0 ∷ 1 ∷ 1 ∷ 0 ∷ 1 ∷ 1 ∷ 0 ∷ 0 ∷ 0 ∷ []

free : (run store session_id tasks order (at_rest disk)).holder ≡ none
unfolding run step read_session write_session read_file write_file create_temp pick copy_into rename
    lookup insert delete join decimal session_dir valid_session matches derive nullable
free = refl

run-IsOpen_example :
    let sys = run store session_id tasks order (at_rest disk) in
    (log : List ℕ) × IsOpen store session_id (counting_all tasks log session) sys.world
    × ((k : ℕ) → is_finished (sys.phase k) ≡ member k log)
run-IsOpen_example = run-IsOpen store session_id tasks session disk order refl disk-IsOpen free

-- The session counts one byte for the chunk that holds two.
miscounted :
    let fs = (run store session_id tasks order (at_rest disk)).world.fs in
    (lookup (session_file store session_id) fs
      ≡ some (file (upload_doc (counting (tasks 0) (counting (tasks 1) session)))))
    × (lookup (chunk_path store session_id 2) fs ≡ some (file (bytes (6 ∷ 6 ∷ []))))
unfolding run step read_session write_session read_file write_file create_temp pick copy_into rename
    lookup insert delete join decimal session_dir valid_session matches derive nullable
miscounted = (refl, refl)

-- Run alone, a request does what `put_chunk` does.
alone :
    let sys = run store session_id tasks (0 ∷ 0 ∷ 0 ∷ 0 ∷ 0 ∷ 0 ∷ 0 ∷ []) (at_rest disk) in
    (sys.phase 0 ≡ finished (counting (tasks 0) session))
    × (lookup (session_file store session_id) sys.world.fs
        ≡ some (file (upload_doc (counting (tasks 0) session))))
    × (lookup (chunk_path store session_id 2) sys.world.fs ≡ some (file (bytes (5 ∷ []))))
unfolding run step read_session write_session read_file write_file create_temp pick copy_into rename
    lookup insert delete join decimal session_dir valid_session matches derive nullable
alone = (refl, refl, refl)

sequential :
    let out = put_chunk store session_id (pos 2) (tasks 0).body disk in
    (out.0 ≡ ok (counting (tasks 0) session))
    × (lookup (session_file store session_id) out.1.fs
        ≡ some (file (upload_doc (counting (tasks 0) session))))
    × (lookup (chunk_path store session_id 2) out.1.fs ≡ some (file (bytes (5 ∷ []))))
unfolding put_chunk place_chunk record_chunk read_session write_session read_file write_file
    create_temp pick copy_into rename lookup insert delete join decimal session_dir valid_session
    matches derive nullable
sequential = (refl, refl, refl)

run-torn_example :
    (run store session_id tasks
        (0 ∷ 1 ∷ [])
        (run store session_id tasks (0 ∷ 0 ∷ 0 ∷ 0 ∷ 0 ∷ []) (at_rest disk))).phase
      1
    ≡ gave_up
unfolding run step read_session read_file create_temp pick copy_into rename lookup insert delete
    join decimal session_dir valid_session matches derive nullable
run-torn_example =
    run-torn store session_id tasks session disk (0 ∷ 0 ∷ 0 ∷ 0 ∷ 0 ∷ []) 0 1
      (counting (tasks 0) session) refl disk-IsOpen refl refl
