-- ===== src/Store/Places.antt =====
-- Valid names stay in their directory, and no valid name is that of a sidecar or a temporary file.
use mathlib.Core.List.{append-nil, append_cancel_right}
use zarf_api.Prelude.{
  ℕ, ◌≡◌, ◌≢◌, refl, ap, sym, ◌∙◌, true, false, ◌⊎◌, inl, inr, [], ◌∷◌, ◌++◌, Text, lit, all,
  all-append, contains, arith, Bool-cases, nat_eq, list_eq,
}
use zarf_api.Os.{FilePath}
use zarf_api.Os.Paths.{IsPlain, join, join_plain}
use zarf_api.Store.{Store, is_id_byte, valid_id, meta_suffix, meta_path}
use zarf_api.Store.Import.{incoming}
use zarf_api.Store.Ids.{IsPackageId, valid_id_iff}

pub no_slash : (s : Text) → all is_id_byte s ≡ true → contains b'/' s ≡ false
no_slash [] h = refl
no_slash (c ∷ s) h = ground (arith, no_slash s)

last_byte : Text → ℕ
last_byte [] = 0
last_byte (c ∷ []) = c
last_byte (c ∷ d ∷ s) = last_byte (d ∷ s)

last_byte-append : (s t : Text) (c : ℕ) → last_byte (s ++ c ∷ t) ≡ last_byte (c ∷ t)
unfolding last_byte
last_byte-append [] t c = refl
last_byte-append (d ∷ []) t c = refl
last_byte-append (d ∷ e ∷ s) t c = last_byte-append (e ∷ s) t c

module _ (id : Text) (h : IsPackageId id) where
  ending_bytes : all is_id_byte h.ending ≡ true
  ending_bytes = elim h.ends [ inl p ↦ rw p refl | inr p ↦ rw p refl ]

  id_bytes : all is_id_byte id ≡ true
  id_bytes = rw h.shape (
      rw (all-append is_id_byte h.middle h.ending)
        (ground (arith, h.starts, h.plain, ending_bytes)))

  id_ends : (last_byte id ≡ b'r') ⊎ (last_byte id ≡ b't')
  unfolding last_byte
  id_ends = elim h.ends [
    | inl p ↦ inl (rw (h.shape, p) (last_byte-append (h.first ∷ h.middle) (lit "tar") b'.'))
    | inr p ↦ inr (rw (h.shape, p) (last_byte-append (h.first ∷ h.middle) (lit "tar.zst") b'.'))
  ]

  -- A suffix of the same bytes keeps the name plain.
  extended-IsPlain : (suffix : Text) → all is_id_byte suffix ≡ true → IsPlain (id ++ suffix)
  extended-IsPlain suffix k = record {
    filled = rw h.shape refl;
    not_dot = rw h.shape (ground (arith, h.starts));
    not_dots = rw h.shape (ground (arith, h.starts));
    no_slash =
        no_slash (id ++ suffix)
          (rw (all-append is_id_byte id suffix) (ground (arith, id_bytes, k)));
  }

  id-IsPlain : IsPlain id
  id-IsPlain = rw append-nil at (extended-IsPlain [] refl)

pub append_cancel : (p : FilePath) {a b : Text} → p ++ a ∷ [] ≡ p ++ b ∷ [] → a ≡ b
append_cancel [] e = cc
append_cancel (c ∷ p) e = append_cancel p (cc)

cancel_suffix : (a b s : Text) → a ++ s ≡ b ++ s → a ≡ b
cancel_suffix a b s e = append_cancel_right a b s e

pub join_id : (p : FilePath) (id : Text) → valid_id id ≡ true → join p id ≡ p ++ id ∷ []
join_id p id v = join_plain p id (id-IsPlain id ((valid_id_iff id).0 v))

pub meta_path_lem :
    (s : Store) (id : Text)
    → valid_id id ≡ true
    → meta_path s id ≡ s.packages_dir ++ (id ++ meta_suffix) ∷ []
unfolding meta_path
meta_path_lem s id v =
    join_plain s.packages_dir (id ++ meta_suffix)
      (extended-IsPlain id ((valid_id_iff id).0 v) meta_suffix refl)

not_sidecar : (id x : Text) → valid_id id ≡ true → id ≢ x ++ meta_suffix
unfolding last_byte
not_sidecar id x v e =
    let last : last_byte id ≡ b'n' = rw e (last_byte-append x (lit "meta.json") b'.') in
    elim (id_ends id ((valid_id_iff id).0 v)) [
      | inl p ↦ absurd (omega arith)
      | inr p ↦ absurd (omega arith)
    ]

-- The tarball and the sidecar of a valid id are entries of the packages directory itself, no
-- tarball is a sidecar, and different ids have different tarballs and different sidecars.
pub package_places :
    (s : Store) (a b : Text)
    → valid_id a ≡ true
    → valid_id b ≡ true
    → (join s.packages_dir a ≡ s.packages_dir ++ a ∷ [])
      × (meta_path s a ≡ s.packages_dir ++ (a ++ meta_suffix) ∷ [])
      × (join s.packages_dir a ≢ meta_path s b)
      × (a ≢ b → (join s.packages_dir a ≢ join s.packages_dir b) × (meta_path s a ≢ meta_path s b))
package_places s a b va vb = (
  join_id s.packages_dir a va,
  meta_path_lem s a va,
  λ e.
      not_sidecar a b va (
        append_cancel s.packages_dir
          (sym (join_id s.packages_dir a va) ∙ e ∙ meta_path_lem s b vb)),
  λ ne. (
    λ e. ne (
        append_cancel s.packages_dir
          (sym (join_id s.packages_dir a va) ∙ e ∙ join_id s.packages_dir b vb)),
    λ e. ne (
        cancel_suffix a b meta_suffix
          (append_cancel s.packages_dir (sym (meta_path_lem s a va) ∙ e ∙ meta_path_lem s b vb))),
  ),
)

-- No temporary file of the packages directory has a valid id, whatever its random part.
pub incoming_invalid : (x : Text) → valid_id (incoming ++ x) ≡ false
incoming_invalid x = elim (Bool-cases (valid_id (incoming ++ x))) [
  | inl v ↦
      let h : IsPackageId (incoming ++ x) = (valid_id_iff (incoming ++ x)).0 v in
      absurd (ground (arith, h.shape, h.starts))
  | inr v ↦ v
]

pub incoming_not_sidecar :
    (s : Store) (name x : Text)
    → valid_id name ≡ true
    → s.packages_dir ++ (incoming ++ x) ∷ [] ≢ meta_path s name
incoming_not_sidecar s name x v e =
    let h : IsPackageId name = (valid_id_iff name).0 v in
    let same : incoming ++ x ≡ name ++ meta_suffix =
      append_cancel s.packages_dir (e ∙ meta_path_lem s name v) in
    let shaped : incoming ++ x ≡ h.first ∷ ((h.middle ++ h.ending) ++ meta_suffix) =
      same ∙ ap (λ n. n ++ meta_suffix) h.shape in
    absurd (ground (arith, shaped, h.starts))
