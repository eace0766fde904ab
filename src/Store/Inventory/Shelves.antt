-- ===== src/Store/Inventory/Shelves.antt =====
-- When a disk holds an inventory, and what keeps it so.
use zarf_api.Prelude.{
  ℕ, ◌≡◌, ◌≢◌, refl, sym, ap, ◌∙◌, subst, true, false, Option, none, some, [], ◌∷◌, ◌++◌, Text,
  length, lookup, ◌==◌, nat_eq, list_eq, list_beq_iff, decimal, arith, Bool-cases, inl, inr,
}
use zarf_api.Records.{Package}
use zarf_api.Os.{FilePath, bytes, package_doc, Node, dir, file, World}
use zarf_api.Os.Paths.{join}
use zarf_api.Os.Files.{temp_name}
use zarf_api.Store.{Store, Zarf, valid_id, meta_path}
use zarf_api.Store.Import.{incoming, tar_zst}
use zarf_api.Store.Landing.{SameDisk, Stored}
use zarf_api.Store.Places.{package_places, append_cancel, incoming_invalid, incoming_not_sidecar}
use zarf_api.Store.Inventory.{Item, Inventory, put, Call, arrive}

-- what stands at the places of the tarball and of the sidecar of an id
abbrev pub Kept : Zarf → Text → Option Item → Option Node → Option Node → Type 0
Kept zarf id none t m = (t ≡ none) × (m ≡ none)
Kept zarf id (some item) t m =
    (t ≡ some (file (bytes item.payload)))
    × (m ≡ some (file (package_doc item.doc)))
    × (item.doc.id ≡ id)
    × (item.doc.size ≡ length item.payload)
    × (item.doc.sha256 ≡ zarf.sha256_hex item.payload)

-- The disk of `w` holds the inventory, whole, and no temporary file.
pub record Shelves (s : Store) (zarf : Zarf) (w : World) (inv : Inventory) : Type 0 where
  pub quiet : w.faults ≡ []
  pub rooted : lookup s.packages_dir w.fs ≡ some dir
  pub named : (id : Text) → valid_id id ≡ false → inv id ≡ none
  pub kept :
      (id : Text)
      → valid_id id ≡ true
      → Kept zarf id (inv id) (lookup (join s.packages_dir id) w.fs) (lookup (meta_path s id) w.fs)
  -- what reads back as a package is the sidecar of one
  pub only :
      (p : FilePath) (pkg : Package)
      → lookup p w.fs ≡ some (file (package_doc pkg))
      → (id : Text) × (valid_id id ≡ true) × (p ≡ meta_path s id)
  pub clean : (r : ℕ) → lookup (temp_name s.packages_dir incoming tar_zst r) w.fs ≡ none

-- A tarball does not read back as a package.
not_doc :
    (zarf : Zarf) (id : Text) (item : Option Item) (t m : Option Node)
    → Kept zarf id item t m
    → (pkg : Package) → t ≢ some (file (package_doc pkg))
not_doc zarf id none t m k pkg e = cc
not_doc zarf id (some item) t m k pkg e = cc

pub child_ne : (p : FilePath) (c : Text) → p ++ c ∷ [] ≢ p
child_ne [] c e = cc
child_ne (d ∷ p) c e = child_ne p c (cc)

module _ (s : Store) where
  -- A temporary file is neither a tarball nor a sidecar.
  pub temp_apart :
      (r : ℕ) (id : Text)
      → valid_id id ≡ true
      → let tmp = temp_name s.packages_dir incoming tar_zst r in
        (join s.packages_dir id ≢ tmp) × (meta_path s id ≢ tmp)
  temp_apart r id v =
      let random = decimal r ++ tar_zst in
      (
        λ e.
            let same : id ≡ incoming ++ random =
              append_cancel s.packages_dir (sym (package_places s id id v v).0 ∙ e) in
            cc (subst (λ n. valid_id n ≡ true) same v, incoming_invalid random),
        λ e. incoming_not_sidecar s id random v (sym e),
      )

  pub root_apart :
      (id : Text)
      → valid_id id ≡ true
      → (join s.packages_dir id ≢ s.packages_dir) × (meta_path s id ≢ s.packages_dir)
  root_apart id v =
      let place = package_places s id id v v in
      (
        λ e. child_ne s.packages_dir _ (sym place.0 ∙ e),
        λ e. child_ne s.packages_dir _ (sym place.1 ∙ e),
      )

module _ (s : Store) (zarf : Zarf) (w : World) (inv : Inventory) (h : Shelves s zarf w inv) where
  pub Shelves-tidy :
      (name : Text) → valid_id name ≡ true → lookup (meta_path s name) w.fs ≢ some dir
  Shelves-tidy name v e = by_item (inv name) (h.kept name v)
    where
      by_item :
          (o : Option Item)
          → Kept zarf name o
              (lookup (join s.packages_dir name) w.fs)
              (lookup (meta_path s name) w.fs)
          → ⊥
      by_item none k = cc
      by_item (some item) k = cc

  pub arrive-Shelves : (c : Call) → Shelves s zarf (arrive c w) inv
  arrive-Shelves c = record {
    quiet = h.quiet;
    rooted = h.rooted;
    named = h.named;
    kept = h.kept;
    only = h.only;
    clean = h.clean;
  }

  pub SameDisk-Shelves : (w' : World) → w'.faults ≡ [] → SameDisk w w' → Shelves s zarf w' inv
  SameDisk-Shelves w' quiet same = record {
    quiet = quiet;
    rooted = same s.packages_dir ∙ h.rooted;
    named = h.named;
    kept = λ id v. rw (same (join s.packages_dir id), same (meta_path s id)) (h.kept id v);
    only = λ p pkg e. h.only p pkg (sym (same p) ∙ e);
    clean = λ r. same _ ∙ h.clean r;
  }

  -- One id has changed, and nothing else below the packages directory.
  pub put-Shelves :
      (name : Text) (item : Option Item) (w' : World)
      → valid_id name ≡ true
      → w'.faults ≡ []
      → Kept zarf name item
          (lookup (join s.packages_dir name) w'.fs)
          (lookup (meta_path s name) w'.fs)
      → ((p : FilePath)
          → join s.packages_dir name ≢ p
          → meta_path s name ≢ p
          → lookup p w'.fs ≡ lookup p w.fs)
      → Shelves s zarf w' (put name item inv)
  put-Shelves name item w' v quiet at others = record {
    quiet = quiet;
    rooted = others s.packages_dir (root_apart s name v).0 (root_apart s name v).1 ∙ h.rooted;
    named = λ id i. elim (Bool-cases (name == id)) [
      | inl e ↦ absurd (let same = (list_beq_iff name id).0 e in ground (arith, v, i, same))
      | inr e ↦ rw e (h.named id i)
    ];
    kept = λ id i. elim (Bool-cases (name == id)) [
      | inl e ↦ rw e (
          subst
            (λ n.
              Kept zarf n item (lookup (join s.packages_dir n) w'.fs)
                (lookup (meta_path s n) w'.fs))
            ((list_beq_iff name id).0 e) at)
      | inr e ↦
          let ne : name ≢ id = λ q. ground (arith, e, q, list_beq_iff name id) in
          let place = package_places s name id v i in
          let back = package_places s id name i v in
          let t = others (join s.packages_dir id) (place.3 ne).0 (λ q. back.2 (sym q)) in
          let m = others (meta_path s id) (place.2) (place.3 ne).1 in rw (e, t, m) (h.kept id i)
    ];
    only = λ p pkg e. elim (Bool-cases (meta_path s name == p)) [
      | inl side ↦ (name, v, sym ((list_beq_iff (meta_path s name) p).0 side))
      | inr apart ↦ elim (Bool-cases (join s.packages_dir name == p)) [
        | inl tarball ↦
            let same = (list_beq_iff (join s.packages_dir name) p).0 tarball in
            absurd (not_doc zarf name item _ _ at pkg (ap (λ q. lookup q w'.fs) same ∙ e))
        | inr other ↦ h.only p pkg (
            sym (
              others p (λ q. ground (arith, other, q, list_beq_iff (join s.packages_dir name) p))
                (λ q. ground (arith, apart, q, list_beq_iff (meta_path s name) p)))
            ∙ e)
      ]
    ];
    clean = λ r. others _ (temp_apart s r name v).0 (temp_apart s r name v).1 ∙ h.clean r;
  }

  pub Stored-Shelves :
      (payload : Text) (pkg : Package) (w' : World)
      → w'.faults ≡ []
      → Stored s zarf payload w pkg w'
      → Shelves s zarf w' (put pkg.id (some (record { payload = payload; doc = pkg })) inv)
  Stored-Shelves payload pkg w' quiet st =
      put-Shelves pkg.id _ w' st.valid quiet (st.tarball, st.sidecar, refl, st.measured, st.digest)
        st.others
