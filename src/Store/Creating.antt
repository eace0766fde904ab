-- ===== src/Store/Creating.antt =====
-- `CreateUpload` when no call of the operating system fails: the session that it opens.
mod Examples
use mathlib.Core.List.{append_assoc}
use zarf_api.Prelude.{
  ℕ, suc, ◌≡◌, ◌≢◌, refl, sym, subst, ◌∙◌, ap, true, false, none, some, List, [], ◌∷◌, ◌++◌, Text,
  lit, lookup, insert, length, nat_eq, list_eq, ◌==◌, list_beq_iff, eq_self, lookup-insert, arith,
  if◌then◌else◌,
}
use zarf_api.Records.{Upload}
use zarf_api.Os.{FilePath, upload_doc, Node, dir, file, World, ok, err}
use zarf_api.Os.Paths.{parent-append}
use zarf_api.Os.Calm.{write_file_there}
use zarf_api.Os.Dirs.{Clear, Made, Made-at, Grown, mkdir_all-Clear, below-sibling}
use zarf_api.Os.Files.{write, rand_read, now, below}
use zarf_api.Store.{Store}
use zarf_api.Store.Uploads.{
  session_dir, session_file, chunks_dir, hex, new_upload_id, create_upload, get_upload,
  write_session,
}
use zarf_api.Store.Sessions.{AllBytes, new_id_valid}
use zarf_api.Store.Chunks.{IsOpen, session_file_lem, chunks_dir_lem, read_session_open}

rand_read_lem :
    (b rest : Text) (w : World)
    → length b ≡ 8
    → w.entropy ≡ b ++ rest
    → rand_read w ≡ (ok b, record w { entropy = rest })
unfolding rand_read
rand_read_lem (b0 ∷ b1 ∷ b2 ∷ b3 ∷ b4 ∷ b5 ∷ b6 ∷ b7 ∷ []) rest w l e = rw e refl
rand_read_lem b rest w l e = absurd (omega arith)

-- a session without chunks, under the text of the bytes that were drawn
abbrev pub session_of : Text → Text → World → Text → Upload
session_of hint shasum w b = record {
  id = hex b;
  file_name_hint = hint;
  sha256 = shasum;
  created_at = w.clock;
  chunks = [];
}

module _ (s : Store) (hint shasum : Text) (w : World) (calm : w.faults ≡ []) (b rest : Text)
    (eight : length b ≡ 8) (octets : AllBytes b) (drawn : w.entropy ≡ b ++ rest)
    (clear : Clear w.fs [] (chunks_dir s (hex b)))
    (vacant : lookup (session_file s (hex b)) w.fs ≢ some dir) where
  abbrev drawn_world : World
  drawn_world = record w { entropy = rest; clock = suc w.clock }

  apart : below (chunks_dir s (hex b)) (session_file s (hex b)) ≡ false
  apart =
      rw (chunks_dir_lem s (hex b), session_file_lem s (hex b))
        (below-sibling (session_dir s (hex b)) (lit "chunks") (lit "session.json") refl)

  -- When no call of the operating system fails, eight bytes can be drawn, no file stands on the way
  -- to the session's directories and no directory in the place of its file: `CreateUpload` answers a
  -- session without chunks under the hexadecimal text of the bytes; the session is open and is what
  -- `GetUpload` reads back; and whatever stood at another path than the session's file stands there.
  pub create_upload_lem :
      let u = session_of hint shasum w b in
      let out = create_upload s hint shasum w in
      (out.0 ≡ ok u)
      × IsOpen s (hex b) u out.1
      × (get_upload s (hex b) out.1 ≡ (ok u, out.1))
      × ((p : FilePath) (n : Node)
          → session_file s (hex b) ≢ p
          → lookup p w.fs ≡ some n
          → lookup p out.1.fs ≡ some n)
  unfolding create_upload new_upload_id now write_session
  create_upload_lem =
      let u = session_of hint shasum w b in
      let (v, home) = new_id_valid s b eight octets in
      let (fs, made, grown, there, others) =
        mkdir_all-Clear (chunks_dir s (hex b)) drawn_world calm clear in
      let w₁ = write fs drawn_world in
      let path : chunks_dir s (hex b) ≡ s.uploads_dir ++ hex b ∷ lit "chunks" ∷ [] =
        chunks_dir_lem s (hex b)
        ∙ ap (λ d. d ++ lit "chunks" ∷ []) home
        ∙ append_assoc s.uploads_dir (hex b ∷ []) (lit "chunks" ∷ []) in
      let on_path : Made fs [] (s.uploads_dir ++ hex b ∷ lit "chunks" ∷ []) =
        subst (Made fs []) path there in
      let home_there : lookup (session_dir s (hex b)) fs ≡ some dir =
        subst (λ d. lookup d fs ≡ some dir) (sym home)
          (Made-at fs [] s.uploads_dir (hex b) (lit "chunks" ∷ []) on_path) in
      let chunks_there : lookup (chunks_dir s (hex b)) fs ≡ some dir =
        subst (λ d. lookup d fs ≡ some dir) (sym (chunks_dir_lem s (hex b)))
          (Made-at fs [] (session_dir s (hex b)) (lit "chunks") []
            (subst (Made fs []) (chunks_dir_lem s (hex b)) there)) in
      let free : lookup (session_file s (hex b)) fs ≢ some dir =
        λ e. vacant (sym (others (session_file s (hex b)) apart) ∙ e) in
      let written =
        write_file_there w₁ calm (session_file s (hex b)) (upload_doc u)
          (rw (session_file_lem s (hex b), parent-append) home_there) free in
      let w₂ = write (insert (session_file s (hex b)) (file (upload_doc u)) fs) w₁ in
      let open_now : IsOpen s (hex b) u w₂ = record {
        valid = v;
        named = refl;
        home = rw lookup-insert (
            ground (
              arith,
              list_beq_iff (session_file s (hex b)) (session_dir s (hex b)),
              home_there,
              free,
            ));
        chunks_home = rw lookup-insert (
            ground (
              arith,
              list_beq_iff (session_file s (hex b)) (chunks_dir s (hex b)),
              chunks_there,
              free,
            ));
        session = rw (lookup-insert, eq_self (session_file s (hex b))) refl;
      } in
      rw (rand_read_lem b rest w eight drawn, made, written)
        (
          refl,
          open_now,
          read_session_open s (hex b) u w₂ calm open_now,
          λ p n ne h.
              rw lookup-insert
                (ground (arith, list_beq_iff (session_file s (hex b)) p, ne, grown.kept p n h)),
        )
