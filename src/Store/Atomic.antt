-- ===== src/Store/Atomic.antt =====
-- One-shot imports when no call of the operating system fails: all or nothing.
use zarf_api.Prelude.{
  ◌≡◌, ◌≢◌, refl, ◌⊎◌, inl, inr, Bool, true, false, some, [], Text, lookup, insert, nat_eq, list_eq,
  lookup-insert, arith, Bool-cases,
}
use zarf_api.Records.{Package, Error, io}
use zarf_api.Os.{FilePath, bytes, dir, file, World, ok, err}
use zarf_api.Os.Calm.{create_temp_free, copy_lem, remove_present}
use zarf_api.Os.Files.{write, Reader, pick}
use zarf_api.Store.{Store, Zarf, Verification, valid_id, meta_path}
use zarf_api.Store.Import.{incoming, tar_zst, import_reader}
use zarf_api.Store.Landing.{SameDisk, Stored, Holding, full, cleaned, landed}

module _ (s : Store) (zarf : Zarf) (w : World) (calm : w.faults ≡ [])
    (rooted : lookup s.packages_dir w.fs ≡ some dir)
    (tidy : (name : Text) → valid_id name ≡ true → lookup (meta_path s name) w.fs ≢ some dir)
    (tmp : FilePath) (picked : pick s.packages_dir incoming tar_zst w.temps w.fs ≡ some tmp) where
  -- the world in which the temporary file holds the bytes
  abbrev pub received : Text → World
  received payload = write (insert tmp (file (bytes payload)) (insert tmp (file (bytes [])) w.fs)) w

  pub received-Holding : (payload : Text) → Holding tmp w payload (received payload)
  received-Holding payload = record {
    quiet = calm;
    disk = λ p. rw (lookup-insert, lookup-insert) (ground arith);
  }

  -- When no call of the operating system fails, the packages directory is there, no sidecar's place
  -- is a directory and a temporary name is free: whatever is uploaded and however it is to be
  -- checked, a one-shot import is refused with the disk as it was, or it has stored the whole body,
  -- with its sidecar, under a valid id that was free, and has changed nothing else.
  pub import_reader_lem :
      (r : Reader) (hint shasum : Text) (validate : Bool) (verify : Verification)
      → let out = import_reader s zarf r hint shasum validate verify w in
        ((e : Error) × (out.0 ≡ err e) × SameDisk w out.1)
        ⊎ ((pkg : Package) × (out.0 ≡ ok pkg)
            × (r.broken ≡ false)
            × Stored s zarf r.payload w pkg out.1)
  unfolding import_reader
  import_reader_lem r hint shasum validate verify =
      let start = create_temp_free w calm s.packages_dir tmp incoming tar_zst rooted picked in
      let copied = copy_lem (write (insert tmp (file (bytes [])) w.fs) w) calm tmp [] r in
      let x = received r.payload in
      let holding = received-Holding r.payload in
      let removed =
        remove_present x calm tmp (bytes r.payload)
          (full s zarf w rooted tidy tmp picked r.payload x holding) in
      elim (Bool-cases r.broken) [
        | inl cut ↦ inl (
          io,
          rw (start, copied, cut) refl,
          rw (start, copied, cut, removed)
              (cleaned s zarf w rooted tidy tmp picked r.payload x holding),
        )
        | inr whole ↦
            elim (landed s zarf w rooted tidy tmp picked r.payload x holding hint shasum validate
              verify) [
                | inl (e, refused, same) ↦
                    inl (e, rw (start, copied, whole) refused, rw (start, copied, whole) same)
                | inr (pkg, done, _, stored) ↦
                    inr
                      (pkg, rw (start, copied, whole) done, whole, rw (start, copied, whole) stored)
              ]
      ]
