-- ===== src/Store/Uploads.antt =====
-- internal/store/store.go: chunked upload sessions.
pub mod Examples
use zarf_api.Prelude.{
  ℕ, ◌+◌, ◌/◌, ◌%◌, suc, Bool, true, false, Option, none, some, List, [], ◌∷◌, ◌++◌, map, Text, ℤ,
  pos, negsuc, ◌==◌, nat_eq, list_eq, insert, leb, ltb, lit, decimal, length, sort, ◌||◌,
  if◌then◌else◌,
}
use zarf_api.Regex.{one, times, matches}
use zarf_api.Records.{
  Package, Upload, not_found, fs_not_exist, bad_json, negative_index, no_chunks, missing_chunk,
}
use zarf_api.Os.{
  FilePath, Content, bytes, upload_doc, Result, ok, err, Io, pure, raise, ◌>>=◌, ◌>>◌, attempt,
  finally,
}
use zarf_api.Os.Paths.{join}
use zarf_api.Os.Files.{
  Reader, read_file, write_file, rename, remove, remove_all, mkdir_all, create_temp, read_dir,
  copy_into, now, rand_read,
}
use zarf_api.Store.{Verification, Zarf, Store, between}
use zarf_api.Store.Import.{require, incoming, tar_zst, finalize_import}

abbrev pub is_hex : ℕ → Bool
is_hex c = between b'a' b'f' c || between b'0' b'9' c

-- `^[a-f0-9]{16}$`
unfoldable pub valid_session : Text → Bool
valid_session id = matches (times 16 (one is_hex)) id

unfoldable pub session_dir : Store → Text → FilePath
session_dir s id = join s.uploads_dir id

abbrev pub session_file : Store → Text → FilePath
session_file s id = join (session_dir s id) (lit "session.json")

abbrev pub chunks_dir : Store → Text → FilePath
chunks_dir s id = join (session_dir s id) (lit "chunks")

abbrev pub chunk_path : Store → Text → ℕ → FilePath
chunk_path s id index = join (chunks_dir s id) (decimal index)

-- `hex.EncodeToString`
abbrev pub hex_digit : ℕ → ℕ
hex_digit n = if ltb n 10 then 48 + n else 87 + n

unfoldable pub hex : Text → Text
hex [] = []
hex (b ∷ bs) = hex_digit (b / 16) ∷ hex_digit (b % 16) ∷ hex bs

unfoldable pub new_upload_id : Io Text
unfolding hex
new_upload_id = do b ← rand_read; pure (hex b)

abbrev pub unmarshal_session : Text → Result Content → Io Upload
unmarshal_session id (ok (upload_doc u)) = pure u
unmarshal_session id (ok _) = raise bad_json
unmarshal_session id (err fs_not_exist) = raise (not_found id)
unmarshal_session id (err e) = raise e

unfoldable pub read_session : Store → Text → Io Upload
read_session s id =
    if valid_session id
    then (do r ← attempt (read_file (session_file s id)); unmarshal_session id r)
    else raise (not_found id)

unfoldable pub write_session : Store → Upload → Io (Unit {0})
write_session s u = write_file (session_file s u.id) (upload_doc u)

unfoldable pub create_upload : Store → Text → Text → Io Upload
unfolding new_upload_id write_session
create_upload s hint shasum = do
  id ← new_upload_id
  t ← now
  let u : Upload = record {
    id = id;
    file_name_hint = hint;
    sha256 = shasum;
    created_at = t;
    chunks = [];
  }
  mkdir_all (chunks_dir s id)
  write_session s u
  pure u

abbrev pub get_upload : Store → Text → Io Upload
get_upload s id = read_session s id

-- A failed copy removes the temporary file. The failure of `Close` is not told apart from it.
abbrev pub or_remove : FilePath → Result (Unit {0}) → Io (Unit {0})
or_remove tmp (ok u) = pure tt
or_remove tmp (err e) = do _ ← attempt (remove tmp); raise e

-- `PutChunk` up to the lock: the chunk is in place, and the session does not know of it yet.
unfoldable pub place_chunk : Store → Text → ℕ → Reader → Io (Unit {0})
place_chunk s id index r = do
  _ ← read_session s id
  tmp ← create_temp (chunks_dir s id) (lit ".chunk-") []
  copied ← attempt (copy_into tmp [] r)
  or_remove tmp copied
  rename tmp (chunk_path s id index)

-- `PutChunk` under the lock
unfoldable pub record_chunk : Store → Text → ℕ → ℕ → Io Upload
unfolding write_session
record_chunk s id index size = do
  u ← read_session s id
  let u' : Upload = record u { chunks = insert index size u.chunks }
  write_session s u'
  pure u'

unfoldable pub put_chunk : Store → Text → ℤ → Reader → Io Upload
unfolding place_chunk record_chunk
put_chunk s id (negsuc _) r = raise negative_index
put_chunk s id (pos index) r = do
  place_chunk s id index r
  record_chunk s id index (length r.payload)

unfoldable pub abort_upload : Store → Text → Io (Unit {0})
abort_upload s id = do _ ← read_session s id; remove_all (session_dir s id)

-- `for want, got := range indexes`: the first index that is missing
unfoldable pub first_missing : ℕ → List ℕ → Option ℕ
first_missing want [] = none
first_missing want (got ∷ indexes) =
    if want == got then first_missing (suc want) indexes else some want

abbrev pub no_gap : Option ℕ → Io (Unit {0})
no_gap none = pure tt
no_gap (some want) = raise (missing_chunk want)

-- A chunk file holds bytes.
abbrev pub raw : Content → Text
raw (bytes b) = b
raw _ = []

-- the loop that appends the chunks to the temporary file, which holds `front` so far
unfoldable pub assemble : Store → Text → FilePath → Text → List ℕ → Io Text
assemble s id tmp front [] = pure front
assemble s id tmp front (index ∷ indexes) = do
  c ← read_file (chunk_path s id index)
  copy_into tmp front (record { payload = raw c; broken = false })
  assemble s id tmp (front ++ raw c) indexes

unfoldable pub sorted_indexes : Upload → List ℕ
unfolding sort
sorted_indexes u = sort leb (map (λ (e : ℕ × ℕ). e.0) u.chunks)

abbrev pub is_nil {ℓ} : {A : Type ℓ} → List A → Bool
is_nil [] = true
is_nil (x ∷ xs) = false

abbrev pub some_chunks : Upload → Bool
some_chunks u = if is_nil u.chunks then false else true

unfoldable pub complete_upload : Store → Zarf → Text → Bool → Verification → Io Package
unfolding first_missing assemble sorted_indexes
complete_upload s zarf id validate verify = do
  u ← read_session s id
  require (some_chunks u) no_chunks
  no_gap (first_missing 0 (sorted_indexes u))
  tmp ← create_temp s.packages_dir incoming tar_zst
  pkg ←
      finally
        (do
          payload ← assemble s id tmp [] (sorted_indexes u)
          finalize_import s zarf tmp payload u.file_name_hint u.sha256 validate verify)
        (remove tmp)
  _ ← attempt (remove_all (session_dir s id))
  pure pkg

unfoldable pub count_dirs : List (Text × Bool) → ℕ
count_dirs [] = 0
count_dirs (e ∷ entries) = let rest = count_dirs entries in if e.1 then suc rest else rest

unfoldable pub count_uploads : Store → Io ℕ
unfolding count_dirs
count_uploads s = do entries ← read_dir s.uploads_dir; pure (count_dirs entries)

abbrev pub add_session : Result Upload → List Upload → List Upload
add_session (ok u) out = u ∷ out
add_session (err e) out = out

unfoldable pub read_sessions : Store → List (Text × Bool) → Io (List Upload)
unfolding read_session
read_sessions s [] = pure []
read_sessions s (e ∷ entries) =
    let rest = read_sessions s entries in
    if e.1
    then (do r ← attempt (read_session s e.0); out ← rest; pure (add_session r out))
    else rest

unfoldable pub list_uploads : Store → Io (List Upload)
unfolding read_sessions sort
list_uploads s = do
  entries ← read_dir s.uploads_dir
  out ← read_sessions s entries
  pure (sort (λ (a : Upload) (b : Upload). leb a.created_at b.created_at) out)
