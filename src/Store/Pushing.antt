-- ===== src/Store/Pushing.antt =====
-- `PutChunk` as a whole when no call of the operating system fails.
use zarf_api.Prelude.{
  ℕ, ◌≡◌, ◌≢◌, refl, false, some, [], Text, length, lookup, insert, ◌==◌, nat_eq, eq_self, list_eq,
  list_beq_iff, lookup-insert, arith, lit, pos, if◌then◌else◌,
}
use zarf_api.Records.{Upload}
use zarf_api.Os.{FilePath, bytes, upload_doc, dir, file, World, ok}
use zarf_api.Os.Files.{write, Reader, pick}
use zarf_api.Store.{Store}
use zarf_api.Store.Uploads.{
  session_dir, session_file, chunks_dir, chunk_path, get_upload, put_chunk,
}
use zarf_api.Store.Chunks.{
  IsOpen, placed, placed_lookup, placed-IsOpen, place_chunk_lem, record_chunk_lem,
  read_session_open,
}

-- A recorded chunk leaves the session open.
pub recorded-IsOpen :
    (s : Store) (id : Text) (u : Upload) (w : World)
    → IsOpen s id u w
    → (index size : ℕ)
    → IsOpen s id
        (record u { chunks = insert index size u.chunks })
        (write
          (insert
            (session_file s id)
            (file (upload_doc (record u { chunks = insert index size u.chunks })))
            w.fs)
          w)
recorded-IsOpen s id u w o index size = record {
  valid = o.valid;
  named = o.named;
  home =
      rw lookup-insert
        (ground (arith, list_beq_iff (session_file s id) (session_dir s id), o.session, o.home));
  chunks_home = rw lookup-insert (
      ground (arith, list_beq_iff (session_file s id) (chunks_dir s id), o.session, o.chunks_home));
  session = rw (lookup-insert, eq_self (session_file s id)) refl;
}

module _ (s : Store) (id : Text) (u : Upload) (w : World) (calm : w.faults ≡ [])
    (o : IsOpen s id u w) (index : ℕ) (r : Reader) (tmp : FilePath)
    (picked : pick (chunks_dir s id) (lit ".chunk-") [] w.temps w.fs ≡ some tmp)
    (whole : r.broken ≡ false) (vacant : lookup (chunk_path s id index) w.fs ≢ some dir) where
  abbrev after : Upload
  after = record u { chunks = insert index (length r.payload) u.chunks }

  -- When no call of the operating system fails, the session is open, a temporary name is free, no
  -- directory is in the way of the chunk and its body arrives whole: the pushed chunk is on the
  -- disk with its bytes, the session is open and counts it with its size whether it is new or sent
  -- again, the session read back is the answer, and nothing else has changed.
  pub put_chunk_lem :
      let out = put_chunk s id (pos index) r w in
      (out.0 ≡ ok after)
      × IsOpen s id after out.1
      × (get_upload s id out.1 ≡ (ok after, out.1))
      × ((p : FilePath)
          → lookup p out.1.fs ≡ (
              if session_file s id == p
              then some (file (upload_doc after))
              else if chunk_path s id index == p
              then some (file (bytes r.payload))
              else lookup p w.fs))
  unfolding put_chunk
  put_chunk_lem =
      let w₁ = placed s id u w calm o index r tmp picked whole vacant in
      let o₁ = placed-IsOpen s id u w calm o index r tmp picked whole vacant in
      let after_open = recorded-IsOpen s id u w₁ o₁ index (length r.payload) in
      rw
        (
          place_chunk_lem s id u w calm o index r tmp picked whole vacant,
          record_chunk_lem s id u w₁ calm o₁ index (length r.payload),
        )
        (
          refl,
          after_open,
          read_session_open s id after _ calm after_open,
          λ p.
              rw (lookup-insert, placed_lookup s id u w calm o index r tmp picked whole vacant p)
                refl,
        )
