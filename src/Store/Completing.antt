-- ===== src/Store/Completing.antt =====
-- `CompleteUpload` when no call of the operating system fails: the chunks in the order of their
-- indexes are the package, and the import of it is all or nothing.
use mathlib.Core.List.{append_assoc, append-nil}
use zarf_api.Prelude.{
  ℕ, ◌≡◌, ◌≢◌, refl, ◌∙◌, ◌⊎◌, inl, inr, Bool, true, false, none, some, List, [], ◌∷◌, ◌++◌, Text,
  lookup, insert, nat_eq, list_eq, list_beq_iff, lookup-insert, arith, Bool-cases, Option-cases,
  if◌then◌else◌,
}
use zarf_api.Records.{Package, Upload, Error, no_chunks, missing_chunk}
use zarf_api.Os.{FilePath, bytes, dir, file, World, ok, err, finally}
use zarf_api.Os.Calm.{
  create_temp_free, copy_lem, pick_free, read_file_present, remove_all_there, lookup-prune,
}
use zarf_api.Os.Files.{write, remove, pick, below}
use zarf_api.Store.{Store, Zarf, Verification, valid_id, meta_path}
use zarf_api.Store.Import.{incoming, tar_zst, finalize_import}
use zarf_api.Store.Uploads.{
  session_dir, chunk_path, first_missing, sorted_indexes, some_chunks, assemble, complete_upload,
}
use zarf_api.Store.Chunks.{IsOpen, read_session_open}
use zarf_api.Store.Landing.{SameDisk, Stored, Holding, landed}

abbrev pub flat : List Text → Text
flat [] = []
flat (part ∷ parts) = part ++ flat parts

-- The files of these chunks hold these parts.
abbrev pub Received : Store → Text → World → List ℕ → List Text → Type 0
Received s id w [] [] = Unit
Received s id w (index ∷ indexes) (part ∷ parts) =
    (lookup (chunk_path s id index) w.fs ≡ some (file (bytes part))) × Received s id w indexes parts
Received s id w _ _ = ⊥

module _ (s : Store) (id : Text) (w : World) (tmp : FilePath) (free : lookup tmp w.fs ≡ none) where
  assemble_lem :
      (indexes : List ℕ) (parts : List Text) (front : Text) (x : World)
      → Received s id w indexes parts
      → Holding tmp w front x
      → (y : World) × (assemble s id tmp front indexes x ≡ (ok (front ++ flat parts), y))
        × Holding tmp w (front ++ flat parts) y
  unfolding assemble
  assemble_lem [] [] front x r h = rw append-nil (x, refl, h)
  assemble_lem [] (_ ∷ _) front x r h = absurd r
  assemble_lem (_ ∷ _) [] front x r h = absurd r
  assemble_lem (index ∷ indexes) (part ∷ parts) front x r h =
      let there : lookup (chunk_path s id index) x.fs ≡ some (file (bytes part)) =
        h.disk (chunk_path s id index)
        ∙ ground (arith, list_beq_iff tmp (chunk_path s id index), free, r.0) in
      let x' = write (insert tmp (file (bytes (front ++ part))) x.fs) x in
      let h' : Holding tmp w (front ++ part) x' = record {
        quiet = h.quiet;
        disk = λ p. rw (lookup-insert, h.disk p) (ground arith);
      } in
      let (y, run, hy) = assemble_lem indexes parts (front ++ part) x' r.1 h' in
      rw (← append_assoc) (
        y,
        rw
            (
              read_file_present x h.quiet (chunk_path s id index) (bytes part) there,
              copy_lem x h.quiet tmp front (record { payload = part; broken = false }),
            )
            run,
        hy,
      )

module _ (s : Store) (zarf : Zarf) (w : World) (calm : w.faults ≡ [])
    (rooted : lookup s.packages_dir w.fs ≡ some dir)
    (tidy : (name : Text) → valid_id name ≡ true → lookup (meta_path s name) w.fs ≢ some dir)
    (tmp : FilePath) (picked : pick s.packages_dir incoming tar_zst w.temps w.fs ≡ some tmp)
    (id : Text) (u : Upload) (o : IsOpen s id u w) (parts : List Text)
    (received : Received s id w (sorted_indexes u) parts) where
  -- When no call of the operating system fails, the packages directory is there, no sidecar's place
  -- is a directory and a temporary name is free: an open session that has the file of every chunk
  -- it counts is refused with the disk as it was, or its chunks run from 0 without a gap, the parts
  -- in the order of their indexes have been stored whole under a valid id that was free, and the
  -- session's directory is gone with all that was below it, and nothing else has changed.
  pub complete_upload_lem :
      (validate : Bool) (verify : Verification)
      → let out = complete_upload s zarf id validate verify w in
        ((e : Error) × (out.0 ≡ err e) × SameDisk w out.1)
        ⊎ ((pkg : Package) × (before : World) × (out.0 ≡ ok pkg)
            × (first_missing 0 (sorted_indexes u) ≡ none)
            × Stored s zarf (flat parts) w pkg before
            × ((p : FilePath)
                → lookup p out.1.fs
                  ≡ (if below p (session_dir s id) then none else lookup p before.fs)))
  unfolding complete_upload
  complete_upload_lem validate verify =
      let opened = read_session_open s id u w calm o in
      let start = create_temp_free w calm s.packages_dir tmp incoming tar_zst rooted picked in
      let free = pick_free s.packages_dir tmp incoming tar_zst w.temps w.fs picked in
      let x = write (insert tmp (file (bytes [])) w.fs) w in
      let (y, run, holding) =
        assemble_lem s id w tmp free (sorted_indexes u) parts [] x received
          (record { quiet = calm; disk = λ p. rw lookup-insert refl }) in
      elim (Bool-cases (some_chunks u)) [
        | inr none_yet ↦
            inl (no_chunks, rw (opened, none_yet) refl, rw (opened, none_yet) (λ p. refl))
        | inl present ↦ elim (Option-cases (first_missing 0 (sorted_indexes u))) [
          | inr (want, gap) ↦ inl (
            missing_chunk want,
            rw (opened, present, gap) refl,
            rw (opened, present, gap) (λ p. refl),
          )
          | inl whole ↦
              elim (landed s zarf w rooted tidy tmp picked (flat parts) y holding u.file_name_hint
                u.sha256 validate verify) [
                  | inl (e, refused, same) ↦ inl (
                    e,
                    rw (opened, present, whole, start, run, refused) refl,
                    rw (opened, present, whole, start, run, refused) same,
                  )
                  | inr (pkg, done, quiet, stored) ↦
                      let out =
                        finally
                          (finalize_import s zarf tmp (flat parts) u.file_name_hint u.sha256
                            validate verify)
                          (remove tmp) y in
                      let cleared = remove_all_there out.1 quiet (session_dir s id) in
                      inr (
                        pkg,
                        out.1,
                        rw (opened, present, whole, start, run, done) refl,
                        whole,
                        stored,
                        λ p.
                            rw (opened, present, whole, start, run, done, cleared)
                              (lookup-prune p (session_dir s id) out.1.fs),
                      )
                ]
        ]
      ]
