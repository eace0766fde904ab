-- ===== src/Store/Landing.antt =====
-- `finalizeImport` on a temporary file, and the deferred removal of that file, when no call of the
-- operating system fails: all or nothing.
use zarf_api.Prelude.{
  ◌≡◌, ◌≢◌, refl, sym, ◌∙◌, ◌⊎◌, inl, inr, Bool, true, none, some, [], ◌++◌, decimal, Text, length,
  lookup, ◌==◌, nat_eq, eq_self, list_eq, list_beq_iff, lookup-delete, delete as map_delete, arith,
  if◌then◌else◌,
}
use zarf_api.Records.{Package, Error}
use zarf_api.Os.{FilePath, bytes, package_doc, dir, file, World, ok, err, finally}
use zarf_api.Os.Paths.{join}
use zarf_api.Os.Calm.{pick_free, pick_name, remove_present, remove_absent}
use zarf_api.Os.Files.{write, remove, pick}
use zarf_api.Store.{Store, Zarf, Verification, Layout, valid_id, meta_path}
use zarf_api.Store.Import.{incoming, tar_zst, install, finalize_import}
use zarf_api.Store.Importing.{install_lem, installed, after_install}
use zarf_api.Store.Finalizing.{finalize_outcome}
use zarf_api.Store.Places.{package_places, incoming_not_sidecar}

-- No path tells the two disks apart.
abbrev pub SameDisk : World → World → Type 0
SameDisk w w' = (p : FilePath) → lookup p w'.fs ≡ lookup p w.fs

-- `pkg` is new in `w'`, with its bytes, its sidecar and its digest, and nothing else has changed.
pub record Stored (s : Store) (zarf : Zarf) (payload : Text) (w : World) (pkg : Package)
    (w' : World) : Type 0 where
  pub valid : valid_id pkg.id ≡ true
  pub free : lookup (join s.packages_dir pkg.id) w.fs ≡ none
  pub digest : pkg.sha256 ≡ zarf.sha256_hex payload
  pub measured : pkg.size ≡ length payload
  pub tarball : lookup (join s.packages_dir pkg.id) w'.fs ≡ some (file (bytes payload))
  pub sidecar : lookup (meta_path s pkg.id) w'.fs ≡ some (file (package_doc pkg))
  pub others :
      (p : FilePath)
      → join s.packages_dir pkg.id ≢ p
      → meta_path s pkg.id ≢ p
      → lookup p w'.fs ≡ lookup p w.fs

-- The disk of `x` is that of `w` with the payload in a temporary file.
pub record Holding (tmp : FilePath) (w : World) (payload : Text) (x : World) : Type 0 where
  pub quiet : x.faults ≡ []
  pub disk :
      (p : FilePath)
      → lookup p x.fs ≡ (if tmp == p then some (file (bytes payload)) else lookup p w.fs)

module _ (s : Store) (zarf : Zarf) (w : World) (rooted : lookup s.packages_dir w.fs ≡ some dir)
    (tidy : (name : Text) → valid_id name ≡ true → lookup (meta_path s name) w.fs ≢ some dir)
    (tmp : FilePath) (picked : pick s.packages_dir incoming tar_zst w.temps w.fs ≡ some tmp) where
  free_tmp : lookup tmp w.fs ≡ none
  free_tmp = pick_free s.packages_dir tmp incoming tar_zst w.temps w.fs picked

  not_sidecar : (name : Text) → valid_id name ≡ true → tmp ≢ meta_path s name
  not_sidecar name v e =
      let (r, named) = pick_name s.packages_dir tmp incoming tar_zst w.temps w.fs picked in
      incoming_not_sidecar s name (decimal r ++ tar_zst) v (sym named ∙ e)

  module _ (payload : Text) (x : World) (holding : Holding tmp w payload x) (meta : Layout)
      (name : Text) (v : valid_id name ≡ true)
      (f : lookup (join s.packages_dir name) x.fs ≡ none) where
    abbrev pub sum : Text
    sum = zarf.sha256_hex payload

    abbrev pub pkg : Package
    pkg = installed s tmp meta name sum payload x

    abbrev pub done : World
    done = (install s tmp meta name sum x).1

    pub install-received :
        ((install s tmp meta name sum x).0 ≡ ok pkg)
        × (done.faults ≡ [])
        × ((p : FilePath) → lookup p done.fs ≡ after_install s tmp meta name sum payload x p)
    install-received =
        install_lem s tmp meta name sum payload x holding.quiet v
          (rw holding.disk (ground (arith, list_beq_iff tmp s.packages_dir, free_tmp)))
          (rw (holding.disk tmp, eq_self tmp) refl) f
          (rw holding.disk (ground (arith, tidy name v, list_beq_iff tmp (meta_path s name))))

    pub gone : lookup tmp done.fs ≡ none
    gone = ground (
      arith,
      install-received.2 tmp,
      list_beq_iff (meta_path s name) tmp,
      list_beq_iff (join s.packages_dir name) tmp,
      not_sidecar name v,
      f,
      holding.disk tmp,
      list_beq_iff tmp tmp,
    )

    pub install_Stored : Stored s zarf payload w pkg done
    install_Stored =
        let apart = (package_places s name name v v).2 in
        record {
          valid = v;
          free = ground (arith, f, holding.disk (join s.packages_dir name));
          digest = refl;
          measured = refl;
          tarball = ground (
            arith,
            install-received.2 (join s.packages_dir name),
            list_beq_iff (meta_path s name) (join s.packages_dir name),
            list_beq_iff (join s.packages_dir name) (join s.packages_dir name),
          );
          sidecar = ground (
            arith,
            install-received.2 (meta_path s name),
            list_beq_iff (meta_path s name) (meta_path s name),
          );
          others = λ p nf ns. ground (
            arith,
            install-received.2 p,
            list_beq_iff (meta_path s name) p,
            list_beq_iff (join s.packages_dir name) p,
            list_beq_iff tmp p,
            holding.disk p,
            free_tmp,
          );
        }

  module _ (payload : Text) (x : World) (holding : Holding tmp w payload x) where
    pub full : lookup tmp x.fs ≡ some (file (bytes payload))
    full = rw (holding.disk tmp, eq_self tmp) refl

    -- the deferred removal after a refusal
    pub cleaned : SameDisk w (write (map_delete tmp x.fs) x)
    cleaned p = rw (lookup-delete, holding.disk p) (ground (arith, list_beq_iff tmp p, free_tmp))

    -- Refused with the disk as it was before the temporary file, or stored.
    pub landed :
        (hint shasum : Text) (validate : Bool) (verify : Verification)
        → let out =
            finally
              (finalize_import s zarf tmp payload hint shasum validate verify)
              (remove tmp)
              x in
          ((e : Error) × (out.0 ≡ err e) × SameDisk w out.1)
          ⊎ ((pkg : Package) × (out.0 ≡ ok pkg)
              × (out.1.faults ≡ [])
              × Stored s zarf payload w pkg out.1)
    landed hint shasum validate verify =
        let removed = remove_present x holding.quiet tmp (bytes payload) full in
        elim (finalize_outcome s zarf tmp payload hint shasum validate verify x holding.quiet) [
          | inl (e, refused) ↦ inl (e, rw refused refl, rw (refused, removed) cleaned)
          | inr (meta, name, v, f, ran) ↦
              let (result, quiet, _) = install-received payload x holding meta name v f in
              let kept =
                remove_absent (done payload x holding meta name v f) quiet tmp
                  (gone payload x holding meta name v f) in
              inr (
                pkg payload x holding meta name v f,
                rw ran result,
                rw (ran, kept) quiet,
                rw (ran, kept) (install_Stored payload x holding meta name v f),
              )
        ]
