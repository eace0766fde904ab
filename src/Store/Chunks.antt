-- ===== src/Store/Chunks.antt =====
-- `PutChunk` when no call of the operating system fails: what it leaves of the session.
use zarf_api.Prelude.{
  ℕ, ◌≡◌, ◌≢◌, refl, sym, subst, ◌∙◌, ap, true, false, none, some, [], ◌∷◌, ◌++◌, Text, lookup,
  insert, ◌==◌, nat_eq, eq_self, list_eq, list_beq_iff, lookup-delete, lookup-insert,
  delete as map_delete, arith, decimal, decimal_digits, is_digit, all, contains, lit, if◌then◌else◌,
}
use zarf_api.Records.{Upload}
use zarf_api.Os.{FilePath, bytes, upload_doc, dir, file, World, ok}
use zarf_api.Os.Paths.{parent-append, IsPlain, join_plain}
use zarf_api.Os.Calm.{
  read_file_present, write_file_there, rename_there, create_temp_free, copy_lem, pick_free,
}
use zarf_api.Os.Files.{write, write_file, Reader, pick}
use zarf_api.Store.{Store}
use zarf_api.Store.Uploads.{
  valid_session, session_dir, session_file, chunks_dir, chunk_path, read_session, place_chunk,
  record_chunk,
}

decimal-IsPlain : (n : ℕ) → IsPlain (decimal n)
decimal-IsPlain n =
    let (d, filled) = decimal_digits n in
    record {
      filled = ground (arith, list_beq_iff (decimal n) []);
      not_dot = digits_ne (decimal n) (lit ".") d refl;
      not_dots = digits_ne (decimal n) (lit "..") d refl;
      no_slash = digits_slash (decimal n) d;
    }
  where
    digits_slash : (s : Text) → all is_digit s ≡ true → contains b'/' s ≡ false
    digits_slash [] h = refl
    digits_slash (c ∷ s) h = ground (arith, digits_slash s)

    digits_ne : (s t : Text) → all is_digit s ≡ true → all is_digit t ≡ false → (s == t) ≡ false
    digits_ne s t h k = ground (arith, list_beq_iff s t, ap (all is_digit) {x = s} {y = t})

pub session_file_lem :
    (s : Store) (id : Text) → session_file s id ≡ session_dir s id ++ lit "session.json" ∷ []
session_file_lem s id =
    join_plain (session_dir s id) (lit "session.json")
      (record { filled = refl; not_dot = refl; not_dots = refl; no_slash = refl })

pub chunks_dir_lem :
    (s : Store) (id : Text) → chunks_dir s id ≡ session_dir s id ++ lit "chunks" ∷ []
chunks_dir_lem s id =
    join_plain (session_dir s id) (lit "chunks")
      (record { filled = refl; not_dot = refl; not_dots = refl; no_slash = refl })

pub chunk_path_lem :
    (s : Store) (id : Text) (n : ℕ) → chunk_path s id n ≡ chunks_dir s id ++ decimal n ∷ []
chunk_path_lem s id n = join_plain (chunks_dir s id) (decimal n) (decimal-IsPlain n)

-- The file of a chunk is never the file of the session.
chunk_not_session : (s : Store) (id : Text) (n : ℕ) → chunk_path s id n ≢ session_file s id
chunk_not_session s id n e = no_deeper (session_dir s id) _ _ _ (
    sym (ap (λ p. p ++ decimal n ∷ []) (chunks_dir_lem s id))
    ∙ sym (chunk_path_lem s id n)
    ∙ e
    ∙ session_file_lem s id)
  where
    no_deeper : (p : FilePath) (a b c : Text) → (p ++ a ∷ []) ++ b ∷ [] ≡ p ++ c ∷ [] → ⊥
    no_deeper [] a b c e = cc
    no_deeper (d ∷ p) a b c e = no_deeper p a b c (cc)

-- A session with its directories and its file in place.
pub record IsOpen (s : Store) (id : Text) (u : Upload) (w : World) : Type 0 where
  pub valid : valid_session id ≡ true
  pub named : u.id ≡ id
  pub home : lookup (session_dir s id) w.fs ≡ some dir
  pub chunks_home : lookup (chunks_dir s id) w.fs ≡ some dir
  pub session : lookup (session_file s id) w.fs ≡ some (file (upload_doc u))

module _ (s : Store) (id : Text) (u : Upload) (w : World) (calm : w.faults ≡ [])
    (o : IsOpen s id u w) where
  pub read_session_open : read_session s id w ≡ (ok u, w)
  unfolding read_session
  read_session_open =
      rw (o.valid, read_file_present w calm (session_file s id) (upload_doc u) o.session) refl

  module _ (index size : ℕ) where
    abbrev pub counted : Upload
    counted = record u { chunks = insert index size u.chunks }

    pub record_chunk_lem :
        record_chunk s id index size w
        ≡ (ok counted, write (insert (session_file s id) (file (upload_doc counted)) w.fs) w)
    unfolding record_chunk
    record_chunk_lem =
        let after = write (insert (session_file s id) (file (upload_doc counted)) w.fs) w in
        let written =
          write_file_there w calm (session_file s id) (upload_doc counted)
            (rw (session_file_lem s id, parent-append) o.home)
            (λ e. ground (arith, o.session, e)) in
        rw
          (
            read_session_open,
            subst (λ k. write_file (session_file s k) (upload_doc counted) w ≡ (ok tt, after))
                (sym o.named) written,
          )
          refl

  module _ (index : ℕ) (r : Reader) (tmp : FilePath)
      (picked : pick (chunks_dir s id) (lit ".chunk-") [] w.temps w.fs ≡ some tmp)
      (whole : r.broken ≡ false) (vacant : lookup (chunk_path s id index) w.fs ≢ some dir) where
    abbrev chunk : FilePath
    chunk = chunk_path s id index

    free_tmp : lookup tmp w.fs ≡ none
    free_tmp = pick_free (chunks_dir s id) tmp (lit ".chunk-") [] w.temps w.fs picked

    abbrev written : World
    written = write (insert tmp (file (bytes r.payload)) (insert tmp (file (bytes [])) w.fs)) w

    abbrev pub placed : World
    placed = write (insert chunk (file (bytes r.payload)) (map_delete tmp written.fs)) w

    pub placed_lookup :
        (p : FilePath)
        → lookup p placed.fs ≡ (if chunk == p then some (file (bytes r.payload)) else lookup p w.fs)
    placed_lookup p =
        rw (lookup-insert, lookup-delete, lookup-insert, lookup-insert)
          (ground (arith, list_beq_iff tmp p, free_tmp))

    written_lookup :
        (p : FilePath)
        → lookup p written.fs ≡ (if tmp == p then some (file (bytes r.payload)) else lookup p w.fs)
    written_lookup p = rw (lookup-insert, lookup-insert) (ground arith)

    pub place_chunk_lem : place_chunk s id index r w ≡ (ok tt, placed)
    unfolding place_chunk
    place_chunk_lem =
        rw
          (
            read_session_open,
            create_temp_free w calm (chunks_dir s id) tmp (lit ".chunk-") [] o.chunks_home picked,
            copy_lem (write (insert tmp (file (bytes [])) w.fs) w) calm tmp [] r,
            whole,
            rename_there written calm tmp chunk (bytes r.payload)
                (rw (written_lookup tmp, eq_self tmp) refl)
                (rw (chunk_path_lem s id index, parent-append, written_lookup (chunks_dir s id))
                  (ground (arith, list_beq_iff tmp (chunks_dir s id), free_tmp, o.chunks_home)))
                (rw (written_lookup chunk) (ground (arith, vacant))),
          )
          refl

    pub placed-IsOpen : IsOpen s id u placed
    placed-IsOpen = record {
      valid = o.valid;
      named = o.named;
      home =
          rw (placed_lookup (session_dir s id))
            (ground (arith, list_beq_iff chunk (session_dir s id), vacant, o.home));
      chunks_home =
          rw (placed_lookup (chunks_dir s id))
            (ground (arith, list_beq_iff chunk (chunks_dir s id), vacant, o.chunks_home));
      session = rw (placed_lookup (session_file s id)) (
          ground (
            arith,
            list_beq_iff chunk (session_file s id),
            chunk_not_session s id index,
            o.session,
          ));
    }
