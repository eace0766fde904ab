-- ===== src/Store/Gathering/Examples.antt =====
-- An uploads directory with two sessions, a directory that is none and a stray file.
use mathlib.Core.List.{Perm}
use zarf_api.Prelude.{
  ◌≡◌, IsSorted, refl, List, [], ◌∷◌, Text, lit, nat_eq, list_eq, lookup, sort, text_leb,
}
use zarf_api.Regex.{matches}
use zarf_api.Records.{Upload}
use zarf_api.Os.{World, bytes, upload_doc, dir, file, ok}
use zarf_api.Os.Paths.{join}
use zarf_api.Os.Files.{entries, read_dir, read_file}
use zarf_api.Store.Uploads.{valid_session, session_dir, list_uploads}
use zarf_api.Store.Examples.{store}
use zarf_api.Store.Uploads.Examples.{session, uploading}
use zarf_api.Store.Gathering.{by_age, found, list_uploads_lem}

abbrev older_id : Text
older_id = lit "fedcba9876543210"

abbrev younger : Upload
younger = record session { created_at = 7 }

abbrev older : Upload
older = record session { id = older_id; created_at = 3 }

abbrev two_sessions : World
two_sessions = record uploading {
  fs =
      (lit "u" ∷ [], dir)
      ∷ (lit "u" ∷ session.id ∷ [], dir)
      ∷ (lit "u" ∷ session.id ∷ lit "session.json" ∷ [], file (upload_doc younger))
      ∷ (lit "u" ∷ older_id ∷ [], dir)
      ∷ (lit "u" ∷ older_id ∷ lit "session.json" ∷ [], file (upload_doc older))
      ∷ (lit "u" ∷ lit "tmp" ∷ [], dir)
      ∷ (lit "u" ∷ lit "note" ∷ [], file (bytes []))
      ∷ [];
}

list_uploads_lem_example :
    (out : List Upload) × (list_uploads store two_sessions ≡ (ok out, two_sessions))
    × IsSorted by_age out
    × Perm out (
        found store two_sessions
          (sort (λ a b. text_leb a.0 b.0) (entries store.uploads_dir two_sessions.fs)))
list_uploads_lem_example = list_uploads_lem store two_sessions refl (unfold lookup in refl)

oldest_first : list_uploads store two_sessions ≡ (ok (older ∷ younger ∷ []), two_sessions)
unfolding list_uploads session_dir valid_session lookup sort text_leb matches entries read_dir
    read_file join
oldest_first = refl
