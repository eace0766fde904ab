-- ===== src/Store/Gathering.antt =====
-- `ListUploads` of internal/store/store.go when no call of the operating system fails: every session
-- that `GetUpload` finds, the oldest first.
mod Examples
use mathlib.Core.List.{Perm}
use zarf_api.Prelude.{
  ◌≡◌, refl, Bool, some, List, [], ◌∷◌, Text, lookup, nat_eq, list_eq, arith, leb, Bool-cases, inl,
  inr, sort, sort-perm, sort-IsSorted, IsSorted, text_leb, if◌then◌else◌,
}
use zarf_api.Records.{Upload}
use zarf_api.Os.{dir, World, ok}
use zarf_api.Os.Calm.{read_dir_there}
use zarf_api.Os.Files.{entries, read_file}
use zarf_api.Store.{Store}
use zarf_api.Store.Uploads.{read_session, get_upload, add_session, read_sessions, list_uploads}

-- the sessions that are found under the names of these directories
unfoldable pub found : Store → World → List (Text × Bool) → List Upload
found s w [] = []
found s w (e ∷ es) =
    let rest = found s w es in if e.1 then add_session (get_upload s e.0 w).0 rest else rest

abbrev pub by_age : Upload → Upload → Bool
by_age a b = leb a.created_at b.created_at

module _ (s : Store) (w : World) (calm : w.faults ≡ []) where
  read_session_same : (id : Text) → (read_session s id w).1 ≡ w
  unfolding read_session read_file
  read_session_same id = ground arith

  read_sessions_lem : (es : List (Text × Bool)) → read_sessions s es w ≡ (ok (found s w es), w)
  unfolding read_sessions found
  read_sessions_lem [] = refl
  read_sessions_lem (e ∷ es) = elim (Bool-cases e.1) [
    | inl session ↦ rw (session, read_session_same, read_sessions_lem es) refl
    | inr other ↦ rw (other, read_sessions_lem es) refl
  ]

  -- When no call of the operating system fails and the uploads directory is there, `ListUploads`
  -- returns what `GetUpload` answers for each directory in it, those left out for which it fails,
  -- sorted by the time of their creation, and changes nothing.
  pub list_uploads_lem :
      lookup s.uploads_dir w.fs ≡ some dir
      → (out : List Upload) × (list_uploads s w ≡ (ok out, w))
        × IsSorted by_age out
        × Perm out (found s w (sort (λ a b. text_leb a.0 b.0) (entries s.uploads_dir w.fs)))
  unfolding list_uploads
  list_uploads_lem rooted =
      let es = sort (λ a b. text_leb a.0 b.0) (entries s.uploads_dir w.fs) in
      (
        sort by_age (found s w es),
        rw (read_dir_there w calm s.uploads_dir rooted, read_sessions_lem es) refl,
        sort-IsSorted by_age (λ a b older. ground (arith, older)) (found s w es),
        sort-perm by_age (found s w es),
      )
