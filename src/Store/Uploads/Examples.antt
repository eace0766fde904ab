-- ===== src/Store/Uploads/Examples.antt =====
-- Chunked uploads at concrete disks: the theorems, and what the operations compute.
use mathlib.Core.List.{Nodup, Perm, Mem, Nodup-cons, Nodup-nil, mem-cons, not-mem-nil}
use mathlib.Core.Logic.Or
use mathlib.Core.HLevel.{⊥_prop}
use zarf_api.Prelude.{
  ℕ, ◌≡◌, ◌≢◌, ◌↔◌, refl, ◌⊎◌, true, false, none, some, List, [], ◌∷◌, ◌++◌, Text, pos, lit, lookup,
  nat_eq, list_eq, arith, ◌==◌, decimal, insert, sort, subst, if◌then◌else◌,
}
use zarf_api.Regex.{nullable, derive, matches}
use zarf_api.Records.{not_found, Package, Upload, Error, received_bytes}
use zarf_api.Os.{FilePath, bytes, upload_doc, dir, file, World, ok, err}
use zarf_api.Os.Paths.{join}
use zarf_api.Os.Files.{pick, below}
use zarf_api.Store.{verify_never, valid_id, meta_path, meta_suffix}
use zarf_api.Store.Import.{incoming, tar_zst}
use zarf_api.Store.Uploads.{
  valid_session, session_dir, session_file, chunks_dir, chunk_path, get_upload, put_chunk,
  complete_upload, abort_upload, first_missing, sorted_indexes,
}
use zarf_api.Store.Places.{meta_path_lem}
use zarf_api.Store.Landing.{SameDisk, Stored}
use zarf_api.Store.Contiguous.{indexes, range, contiguous_iff}
use zarf_api.Store.Chunks.{IsOpen}
use zarf_api.Store.Aborting.{abort_upload_lem}
use zarf_api.Store.Completing.{flat, Received, complete_upload_lem}
use zarf_api.Store.Pushing.{put_chunk_lem}
use zarf_api.Store.Examples.{store, zarf, body}

abbrev pub session_id : Text
session_id = lit "0123456789abcdef"

abbrev pub session : Upload
session = record {
  id = session_id;
  file_name_hint = [];
  sha256 = [];
  created_at = 0;
  chunks = (1, 4) ∷ (0, 9) ∷ [];
}

distinct : Nodup (indexes session)
distinct = Nodup-cons.1 (
  λ m. Or.elim ⊥_prop (mem-cons.0 m) (λ e. omega arith) not-mem-nil,
  Nodup-cons.1 (not-mem-nil, Nodup-nil),
)

contiguous_iff_example :
    ((first_missing 0 (sorted_indexes session) ≡ none) ↔ Perm (1 ∷ 0 ∷ []) (range 0 2))
    × ((gap : ℕ) → first_missing 0 (sorted_indexes session) ≡ some gap → ¬ Mem gap (1 ∷ 0 ∷ []))
contiguous_iff_example = contiguous_iff session distinct

-- the disk of the session
abbrev pub uploading : World
uploading = record {
  fs =
      (lit "u" ∷ [], dir)
      ∷ (lit "u" ∷ session_id ∷ [], dir)
      ∷ (lit "u" ∷ session_id ∷ lit "chunks" ∷ [], dir)
      ∷ (lit "u" ∷ session_id ∷ lit "session.json" ∷ [], file (upload_doc session))
      ∷ [];
  faults = [];
  clock = 0;
  entropy = [];
  temps = 1 ∷ [];
}

pub is_open : IsOpen store session_id session uploading
unfolding lookup valid_session matches derive nullable session_dir join
is_open = record { valid = refl; named = refl; home = refl; chunks_home = refl; session = refl }

abbrev chunk_tmp : FilePath
chunk_tmp = lit "u" ∷ session_id ∷ lit "chunks" ∷ lit ".chunk-1" ∷ []

chunk_picked :
    pick (chunks_dir store session_id) (lit ".chunk-") [] uploading.temps uploading.fs
    ≡ some chunk_tmp
unfolding pick lookup decimal session_dir join
chunk_picked = refl

vacant : lookup (chunk_path store session_id 2) uploading.fs ≢ some dir
unfolding lookup session_dir join decimal
vacant e = cc

put_chunk_lem_example :
    let after : Upload = record session { chunks = insert 2 2 session.chunks } in
    let out = put_chunk store session_id (pos 2) body uploading in
    (out.0 ≡ ok after)
    × IsOpen store session_id after out.1
    × (get_upload store session_id out.1 ≡ (ok after, out.1))
    × ((p : FilePath)
        → lookup p out.1.fs ≡ (
            if session_file store session_id == p
            then some (file (upload_doc after))
            else if chunk_path store session_id 2 == p
            then some (file (bytes (5 ∷ 6 ∷ [])))
            else lookup p uploading.fs))
put_chunk_lem_example =
    put_chunk_lem store session_id session uploading refl is_open 2 body chunk_tmp chunk_picked refl
      vacant

received : received_bytes session ≡ 13
unfolding received_bytes
received = refl

-- a session with its two chunks on the disk
abbrev finishing : World
finishing = record {
  fs =
      (lit "p" ∷ [], dir)
      ∷ (lit "u" ∷ session_id ∷ [], dir)
      ∷ (lit "u" ∷ session_id ∷ lit "chunks" ∷ [], dir)
      ∷ (lit "u" ∷ session_id ∷ lit "session.json" ∷ [], file (upload_doc session))
      ∷ (lit "u" ∷ session_id ∷ lit "chunks" ∷ lit "1" ∷ [], file (bytes (3 ∷ 4 ∷ [])))
      ∷ (lit "u" ∷ session_id ∷ lit "chunks" ∷ lit "0" ∷ [], file (bytes (1 ∷ 2 ∷ [])))
      ∷ [];
  faults = [];
  clock = 0;
  entropy = [];
  temps = 1 ∷ [];
}

finishing-IsOpen : IsOpen store session_id session finishing
unfolding lookup valid_session matches derive nullable session_dir join
finishing-IsOpen = record {
  valid = refl;
  named = refl;
  home = refl;
  chunks_home = refl;
  session = refl;
}

finishing_picked :
    pick store.packages_dir incoming tar_zst finishing.temps finishing.fs
    ≡ some (lit "p" ∷ lit ".incoming-1.tar.zst" ∷ [])
unfolding pick lookup decimal
finishing_picked = refl

abbrev two_parts : List Text
two_parts = (1 ∷ 2 ∷ []) ∷ (3 ∷ 4 ∷ []) ∷ []

two-Received : Received store session_id finishing (sorted_indexes session) two_parts
unfolding lookup session_dir join decimal sorted_indexes sort
two-Received = (refl, (refl, tt))

-- no directory of this disk has the name of a sidecar
finishing_tidy :
    (name : Text) → valid_id name ≡ true → lookup (meta_path store name) finishing.fs ≢ some dir
unfolding lookup
finishing_tidy name v e =
    let e' : lookup (lit "p" ∷ (name ++ meta_suffix) ∷ []) finishing.fs ≡ some dir =
      subst (λ p. lookup p finishing.fs ≡ some dir) (meta_path_lem store name v) e in
    cc

complete_upload_lem_example :
    let out = complete_upload store zarf session_id false verify_never finishing in
    ((e : Error) × (out.0 ≡ err e) × SameDisk finishing out.1)
    ⊎ ((pkg : Package) × (before : World) × (out.0 ≡ ok pkg)
        × (first_missing 0 (sorted_indexes session) ≡ none)
        × Stored store zarf (flat two_parts) finishing pkg before
        × ((p : FilePath)
            → lookup p out.1.fs
              ≡ (if below p (session_dir store session_id) then none else lookup p before.fs)))
complete_upload_lem_example =
    complete_upload_lem store zarf finishing refl (unfold lookup in refl) finishing_tidy
      (lit "p" ∷ lit ".incoming-1.tar.zst" ∷ []) finishing_picked session_id session
      finishing-IsOpen two_parts two-Received false verify_never

abort_upload_lem_example :
    let out = abort_upload store session_id finishing in
    (out.0 ≡ ok tt)
    × ((p : FilePath)
        → lookup p out.1.fs
          ≡ (if below p (session_dir store session_id) then none else lookup p finishing.fs))
    × (get_upload store session_id out.1 ≡ (err (not_found session_id), out.1))
    × (abort_upload store session_id out.1 ≡ (err (not_found session_id), out.1))
abort_upload_lem_example = abort_upload_lem store session_id session finishing refl finishing-IsOpen
