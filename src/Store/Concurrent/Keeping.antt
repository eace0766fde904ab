-- ===== src/Store/Concurrent/Keeping.antt =====
-- The calls of `PutChunk` on its chunk's files leave the session as it is.
use zarf_api.Prelude.{
  ℕ, ◌≡◌, ◌≢◌, sym, ◌∙◌, ap, [], ◌∷◌, ◌++◌, Text, lookup, nat_eq, list_eq, list_beq_iff,
  lookup-delete, lookup-insert, arith, lit, Option-cases, inl, inr,
}
use zarf_api.Records.{Upload}
use zarf_api.Os.{FilePath, bytes, file, World}
use zarf_api.Os.Calm.{copy_lem, pick_name}
use zarf_api.Os.Files.{Reader, pick, create_temp, copy_into, remove, rename}
use zarf_api.Store.{Store}
use zarf_api.Store.Uploads.{session_dir, session_file, chunks_dir, chunk_path}
use zarf_api.Store.Chunks.{IsOpen, session_file_lem, chunks_dir_lem, chunk_path_lem}

append_ne : (p : FilePath) (a : Text) → p ++ a ∷ [] ≢ p
append_ne [] a e = cc
append_ne (d ∷ p) a e = append_ne p a (cc)

deeper_ne : (p : FilePath) (a b : Text) → (p ++ a ∷ []) ++ b ∷ [] ≢ p
deeper_ne [] a b e = cc
deeper_ne (d ∷ p) a b e = deeper_ne p a b (cc)

sideways_ne : (p : FilePath) (a b c : Text) → (p ++ a ∷ []) ++ b ∷ [] ≢ p ++ c ∷ []
sideways_ne [] a b c e = cc
sideways_ne (d ∷ p) a b c e = sideways_ne p a b c (cc)

-- an entry of the directory of the chunks
abbrev pub InChunks : Store → Text → FilePath → Type 0
InChunks s id p = (name : Text) × (p ≡ chunks_dir s id ++ name ∷ [])

module _ (s : Store) (id : Text) where
  pub chunk_path-InChunks : (n : ℕ) → InChunks s id (chunk_path s id n)
  chunk_path-InChunks n = (_, chunk_path_lem s id n)

  not_home : (p : FilePath) → InChunks s id p → p ≢ session_dir s id
  not_home p (name, e) h =
      deeper_ne (session_dir s id) (lit "chunks") name
        (ap (λ q. q ++ name ∷ []) (sym (chunks_dir_lem s id)) ∙ sym e ∙ h)

  not_chunks_home : (p : FilePath) → InChunks s id p → p ≢ chunks_dir s id
  not_chunks_home p (name, e) h = append_ne (chunks_dir s id) name (sym e ∙ h)

  not_session : (p : FilePath) → InChunks s id p → p ≢ session_file s id
  not_session p (name, e) h =
      sideways_ne (session_dir s id) (lit "chunks") name (lit "session.json")
        (ap (λ q. q ++ name ∷ []) (sym (chunks_dir_lem s id)) ∙ sym e ∙ h ∙ session_file_lem s id)

  -- No call fails afterwards either, and the session's own paths hold what they held.
  pub record Keeps (w w' : World) : Type 0 where
    pub calm : w'.faults ≡ []
    pub home : lookup (session_dir s id) w'.fs ≡ lookup (session_dir s id) w.fs
    pub chunks_home : lookup (chunks_dir s id) w'.fs ≡ lookup (chunks_dir s id) w.fs
    pub session : lookup (session_file s id) w'.fs ≡ lookup (session_file s id) w.fs

  pub Keeps-IsOpen : (u : Upload) (w w' : World) → Keeps w w' → IsOpen s id u w → IsOpen s id u w'
  Keeps-IsOpen u w w' h o = record {
    valid = o.valid;
    named = o.named;
    home = h.home ∙ o.home;
    chunks_home = h.chunks_home ∙ o.chunks_home;
    session = h.session ∙ o.session;
  }

  module _ (w : World) (calm : w.faults ≡ []) where
    unchanged-Keeps :
        (w' : World)
        → w'.faults ≡ []
        → ((q : FilePath)
            → ((p : FilePath) → InChunks s id p → p ≢ q)
            → lookup q w'.fs ≡ lookup q w.fs)
        → Keeps w w'
    unchanged-Keeps w' quiet same = record {
      calm = quiet;
      home = same (session_dir s id) not_home;
      chunks_home = same (chunks_dir s id) not_chunks_home;
      session = same (session_file s id) not_session;
    }

    rename_calm : (tmp p : FilePath) → (rename tmp p w).1.faults ≡ []
    unfolding rename
    rename_calm tmp p = ground arith

    rename_other :
        (tmp p q : FilePath) → tmp ≢ q → p ≢ q → lookup q (rename tmp p w).1.fs ≡ lookup q w.fs
    unfolding rename
    rename_other tmp p q n m =
        grind (arith, lookup-insert, lookup-delete, list_beq_iff tmp q, list_beq_iff p q)

    -- Each step that a request takes outside of the mutex.
    pub create_temp-Keeps :
        (suffix prefix : Text) → Keeps w (create_temp (chunks_dir s id) prefix suffix w).1
    unfolding create_temp
    create_temp-Keeps suffix prefix = unchanged-Keeps _ (ground (arith)) (λ q n.
        elim (Option-cases (pick (chunks_dir s id) prefix suffix w.temps w.fs)) [
          | inl none_free ↦ ground (arith, none_free)
          | inr (p, free) ↦
              let (r, named) = pick_name (chunks_dir s id) p prefix suffix w.temps w.fs free in
              ground (
                arith,
                free,
                lookup-insert p q (file (bytes [])) w.fs,
                list_beq_iff p q,
                n p (_, named),
              )
        ])

    pub copy_into-Keeps :
        (tmp : FilePath) (r : Reader) → InChunks s id tmp → Keeps w (copy_into tmp [] r w).1
    copy_into-Keeps tmp r i = unchanged-Keeps _ (ground (arith, copy_lem w calm tmp [] r)) (λ q n.
        ground (
          arith,
          copy_lem w calm tmp [] r,
          lookup-insert tmp q (file (bytes r.payload)) w.fs,
          list_beq_iff tmp q,
          n tmp i,
        ))

    pub remove-Keeps : (tmp : FilePath) → InChunks s id tmp → Keeps w (remove tmp w).1
    unfolding remove
    remove-Keeps tmp i =
        unchanged-Keeps _ (ground arith)
          (λ q n. ground (arith, lookup-delete tmp q w.fs, list_beq_iff tmp q, n tmp i))

    pub rename-Keeps :
        (tmp p : FilePath) → InChunks s id tmp → InChunks s id p → Keeps w (rename tmp p w).1
    rename-Keeps tmp p i j =
        unchanged-Keeps _ (rename_calm tmp p) (λ q n. rename_other tmp p q (n tmp i) (n p j))
