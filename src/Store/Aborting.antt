-- ===== src/Store/Aborting.antt =====
-- `AbortUpload` when no call of the operating system fails.
use zarf_api.Prelude.{◌≡◌, refl, ◌∙◌, none, [], Text, lookup, nat_eq, list_eq, if◌then◌else◌}
use zarf_api.Records.{Upload, not_found}
use zarf_api.Os.{FilePath, World, ok, err}
use zarf_api.Os.Calm.{remove_all_there, read_file_absent, lookup-prune, below-append}
use zarf_api.Os.Files.{below, prune, write}
use zarf_api.Store.{Store}
use zarf_api.Store.Uploads.{session_dir, session_file, get_upload, abort_upload, read_session}
use zarf_api.Store.Chunks.{IsOpen, read_session_open, session_file_lem}

module _ (s : Store) (id : Text) (u : Upload) (w : World) (calm : w.faults ≡ [])
    (o : IsOpen s id u w) where
  abbrev after : World
  after = write (prune (session_dir s id) w.fs) w

  session_gone : lookup (session_file s id) after.fs ≡ none
  session_gone =
      lookup-prune (session_file s id) (session_dir s id) w.fs
      ∙ rw (session_file_lem s id, below-append) refl

  read_session_gone : read_session s id after ≡ (err (not_found id), after)
  unfolding read_session
  read_session_gone =
      rw (o.valid, read_file_absent after calm (session_file s id) session_gone) refl

  -- When no call of the operating system fails, aborting an open session succeeds and takes away the
  -- session's directory with all that was below it, and no other path; from then on both fetching
  -- the session and aborting it once more answer not found and change nothing.
  pub abort_upload_lem :
      let out = abort_upload s id w in
      (out.0 ≡ ok tt)
      × ((p : FilePath)
          → lookup p out.1.fs ≡ (if below p (session_dir s id) then none else lookup p w.fs))
      × (get_upload s id out.1 ≡ (err (not_found id), out.1))
      × (abort_upload s id out.1 ≡ (err (not_found id), out.1))
  unfolding abort_upload
  abort_upload_lem =
      rw (read_session_open s id u w calm o, remove_all_there w calm (session_dir s id))
        (
          refl,
          λ p. lookup-prune p (session_dir s id) w.fs,
          read_session_gone,
          rw read_session_gone refl,
        )
