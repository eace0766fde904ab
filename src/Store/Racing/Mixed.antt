-- ===== src/Store/Racing/Mixed.antt =====
-- Two imports of one name, the second between the first's look at the name and its rename.
use mathlib.Core.List.{append_cancel_left, append_cancel_right}
use zarf_api.Prelude.{
  ℕ, ◌≡◌, ◌≢◌, refl, sym, true, false, none, some, List, [], ◌∷◌, Text, length, lookup, insert, suc,
  delete as map_delete, ◌==◌, nat_eq, list_eq, list_beq_iff, eq_self, lookup-insert, lookup-delete,
  decimal_injective, arith, Bool-cases, inl, inr,
}
use zarf_api.Records.{Package}
use zarf_api.Os.{FilePath, bytes, package_doc, dir, file, World, ok}
use zarf_api.Os.Paths.{join}
use zarf_api.Os.Files.{write, pick, temp_name}
use zarf_api.Store.{Store, Zarf, Layout, valid_id, meta_path}
use zarf_api.Store.Import.{incoming, tar_zst, package_of}
use zarf_api.Store.Places.{package_places, append_cancel}
use zarf_api.Store.Inventory.{Inventory, accept}
use zarf_api.Store.Inventory.Accepting.{accept-ok}
use zarf_api.Store.Inventory.Shelves.{Shelves, temp_apart, root_apart, child_ne}
use zarf_api.Store.Racing.{Import, answered, go, begun}
use zarf_api.Store.Racing.Steps.{advance-arrived, advance-checked, advance-placed}

temp_name_injective :
    (d : FilePath) (r q : ℕ)
    → temp_name d incoming tar_zst r ≡ temp_name d incoming tar_zst q
    → r ≡ q
temp_name_injective d r q e =
    decimal_injective r q
      (append_cancel_right _ _ tar_zst (append_cancel_left incoming _ _ (append_cancel d e)))

apart_test : (p q : FilePath) → p ≢ q → (p == q) ≡ false
apart_test p q ne = elim (Bool-cases (p == q)) [
  | inl e ↦ absurd (ne ((list_beq_iff p q).0 e))
  | inr e ↦ e
]

ne_of_test : (p q : FilePath) → (p == q) ≡ false → p ≢ q
ne_of_test p q e same = ground (arith, e, same, list_beq_iff p q)

-- What is tested below of the five paths that the two imports meet.
record Apart (s : Store) (ta tb final side : FilePath) : Type 0 where
  temps : (ta == tb) ≡ false
  temps' : (tb == ta) ≡ false
  a_final : (ta == final) ≡ false
  b_final : (tb == final) ≡ false
  a_side : (ta == side) ≡ false
  b_side : (tb == side) ≡ false
  a_root : (ta == s.packages_dir) ≡ false
  b_root : (tb == s.packages_dir) ≡ false
  final_a : (final == ta) ≡ false
  final_b : (final == tb) ≡ false
  final_side : (final == side) ≡ false
  final_root : (final == s.packages_dir) ≡ false
  side_a : (side == ta) ≡ false
  side_b : (side == tb) ≡ false
  side_final : (side == final) ≡ false
  side_root : (side == s.packages_dir) ≡ false

paths_apart :
    (s : Store) (r q : ℕ) (name : Text)
    → r ≢ q
    → valid_id name ≡ true
    → Apart s
        (temp_name s.packages_dir incoming tar_zst r)
        (temp_name s.packages_dir incoming tar_zst q)
        (join s.packages_dir name)
        (meta_path s name)
paths_apart s r q name ne v =
    let at = temp_name s.packages_dir incoming tar_zst in
    let ra = temp_apart s r name v in
    let qa = temp_apart s q name v in
    let root = root_apart s name v in
    let place = package_places s name name v v in
    record {
      temps = apart_test _ _ (λ e. ne (temp_name_injective s.packages_dir r q e));
      temps' = apart_test _ _ (λ e. ne (temp_name_injective s.packages_dir r q (sym e)));
      a_final = apart_test _ _ (λ e. ra.0 (sym e));
      b_final = apart_test _ _ (λ e. qa.0 (sym e));
      a_side = apart_test _ _ (λ e. ra.1 (sym e));
      b_side = apart_test _ _ (λ e. qa.1 (sym e));
      a_root = apart_test _ _ (child_ne s.packages_dir _);
      b_root = apart_test _ _ (child_ne s.packages_dir _);
      final_a = apart_test _ _ ra.0;
      final_b = apart_test _ _ qa.0;
      final_side = apart_test _ _ place.2;
      final_root = apart_test _ _ root.0;
      side_a = apart_test _ _ ra.1;
      side_b = apart_test _ _ qa.1;
      side_final = apart_test _ _ (λ e. place.2 (sym e));
      side_root = apart_test _ _ root.1;
    }

module _ (s : Store) (zarf : Zarf) (imports : ℕ → Import) (w : World) (inv : Inventory)
    (h : Shelves s zarf w inv) (r q : ℕ) (rs : List ℕ) (supply : w.temps ≡ r ∷ q ∷ rs) (ne : r ≢ q)
    (name : Text) (ma mb : Layout)
    (accept_a : let i = imports 0 in
      accept zarf i.reader.payload i.hint i.shasum i.validate i.verify ≡ ok (ma, name))
    (accept_b : let i = imports 1 in
      accept zarf i.reader.payload i.hint i.shasum i.validate i.verify ≡ ok (mb, name))
    (whole_a : (imports 0).reader.broken ≡ false) (whole_b : (imports 1).reader.broken ≡ false)
    (free : inv name ≡ none) where
  abbrev ta : FilePath
  ta = temp_name s.packages_dir incoming tar_zst r

  abbrev tb : FilePath
  tb = temp_name s.packages_dir incoming tar_zst q

  abbrev final : FilePath
  final = join s.packages_dir name

  abbrev side : FilePath
  side = meta_path s name

  abbrev body_a : Text
  body_a = (imports 0).reader.payload

  abbrev body_b : Text
  body_b = (imports 1).reader.payload

  -- what the requests are answered
  abbrev pub pkg_b : Package
  pkg_b = package_of mb name (length body_b) (zarf.sha256_hex body_b) w.clock

  abbrev pub pkg_a : Package
  pkg_a = package_of ma name (length body_b) (zarf.sha256_hex body_a) (suc w.clock)

  -- the disk after each of the six steps
  abbrev w₁ : World
  w₁ = write (insert ta (file (bytes body_a)) (insert ta (file (bytes [])) w.fs)) w

  abbrev w₂ : World
  w₂ = write (insert tb (file (bytes body_b)) (insert tb (file (bytes [])) w₁.fs)) w₁

  abbrev w₃ : World
  w₃ = write (insert final (file (bytes body_a)) (map_delete ta w₂.fs)) w₂

  abbrev w₄ : World
  w₄ = write (insert final (file (bytes body_b)) (map_delete tb w₃.fs)) w₃

  abbrev w₅ : World
  w₅ = write (insert side (file (package_doc pkg_b)) w₄.fs) (record w₄ { clock = suc w.clock })

  abbrev w₆ : World
  w₆ =
      write (insert side (file (package_doc pkg_a)) w₅.fs) (record w₅ { clock = suc (suc w.clock) })

  v : valid_id name ≡ true
  v =
      let i = imports 0 in
      (accept-ok zarf i.reader.payload i.hint i.shasum i.validate i.verify ma name accept_a).3

  apart : Apart s ta tb final side
  apart = paths_apart s r q name ne v

  nothing_there : (lookup final w.fs ≡ none) × (lookup side w.fs ≡ none)
  nothing_there = rw free at (h.kept name v)

  picked_a : pick s.packages_dir incoming tar_zst w.temps w.fs ≡ some ta
  unfolding pick
  picked_a = rw supply (ground (arith, h.clean r))

  picked_b : pick s.packages_dir incoming tar_zst w.temps w₁.fs ≡ some tb
  unfolding pick
  picked_b =
      let full : lookup ta w₁.fs ≡ some (file (bytes body_a)) =
        rw (lookup-insert, eq_self ta) refl in
      let none_b : lookup tb w₁.fs ≡ none =
        rw (lookup-insert, lookup-insert, apart.temps) (h.clean q) in
      rw supply (ground (arith, full, none_b))

  root₁ : lookup s.packages_dir w₁.fs ≡ some dir
  root₁ = rw (lookup-insert, lookup-insert, apart.a_root) h.rooted

  root₂ : lookup s.packages_dir w₂.fs ≡ some dir
  root₂ = rw (lookup-insert, lookup-insert, apart.b_root) root₁

  root₃ : lookup s.packages_dir w₃.fs ≡ some dir
  root₃ = rw (lookup-insert, lookup-delete, apart.final_root, apart.a_root) root₂

  root₄ : lookup s.packages_dir w₄.fs ≡ some dir
  root₄ = rw (lookup-insert, lookup-delete, apart.final_root, apart.b_root) root₃

  root₅ : lookup s.packages_dir w₅.fs ≡ some dir
  root₅ = rw (lookup-insert, apart.side_root) root₄

  final₁ : lookup final w₁.fs ≡ none
  final₁ = rw (lookup-insert, lookup-insert, apart.a_final) nothing_there.0

  final₂ : lookup final w₂.fs ≡ none
  final₂ = rw (lookup-insert, lookup-insert, apart.b_final) final₁

  full_a₁ : lookup ta w₁.fs ≡ some (file (bytes body_a))
  full_a₁ = rw (lookup-insert, eq_self ta) refl

  full_a₂ : lookup ta w₂.fs ≡ some (file (bytes body_a))
  full_a₂ = rw (lookup-insert, lookup-insert, apart.temps') full_a₁

  full_b₃ : lookup tb w₃.fs ≡ some (file (bytes body_b))
  full_b₃ =
      rw (lookup-insert, lookup-delete, apart.final_b, apart.temps)
        (rw (lookup-insert, eq_self tb) refl)

  final₃ : lookup final w₃.fs ≡ some (file (bytes body_a))
  final₃ = rw (lookup-insert, eq_self final) refl

  final₄ : lookup final w₄.fs ≡ some (file (bytes body_b))
  final₄ = rw (lookup-insert, eq_self final) refl

  final₅ : lookup final w₅.fs ≡ some (file (bytes body_b))
  final₅ = rw (lookup-insert, apart.side_final) final₄

  side₁ : lookup side w₁.fs ≡ none
  side₁ = rw (lookup-insert, lookup-insert, apart.a_side) nothing_there.1

  side₂ : lookup side w₂.fs ≡ none
  side₂ = rw (lookup-insert, lookup-insert, apart.b_side) side₁

  side₃ : lookup side w₃.fs ≡ none
  side₃ = rw (lookup-insert, lookup-delete, apart.final_side, apart.a_side) side₂

  side₄ : lookup side w₄.fs ≡ none
  side₄ = rw (lookup-insert, lookup-delete, apart.final_side, apart.b_side) side₃

  gone_b : lookup tb w₄.fs ≡ none
  gone_b = rw (lookup-insert, lookup-delete, apart.final_b, eq_self tb) refl

  gone_a : lookup ta w₅.fs ≡ none
  gone_a =
      rw
        (
          lookup-insert,
          lookup-insert,
          lookup-delete,
          lookup-insert,
          lookup-delete,
          apart.side_a,
          apart.final_a,
          apart.temps',
          eq_self ta,
        )
        refl

  -- When no call of the operating system fails: of any two uploads that are accepted under one name
  -- that is free, let first the one and then the other be copied and look at that name, then the first
  -- be renamed to it, then the second, then the second be described, and last the first. In this order
  -- of the six steps both are answered that they are stored, and what is stored are the bytes of the
  -- second under a sidecar with the digest of the first.
  pub go-mixed :
      let out = go s zarf imports (0 ∷ 1 ∷ 0 ∷ 1 ∷ 1 ∷ 0 ∷ []) (begun w) in
      (out.phase 0 ≡ answered (ok pkg_a))
      × (out.phase 1 ≡ answered (ok pkg_b))
      × (lookup final out.world.fs ≡ some (file (bytes body_b)))
      × (lookup side out.world.fs ≡ some (file (package_doc pkg_a)))
  unfolding go
  go-mixed =
      let a = imports 0 in
      let b = imports 1 in
      rw
        (
          advance-arrived s zarf a w h.quiet h.rooted ma name ta picked_a whole_a accept_a
              (ne_of_test _ _ apart.a_final) nothing_there.0,
          advance-arrived s zarf b w₁ h.quiet root₁ mb name tb picked_b whole_b accept_b
              (ne_of_test _ _ apart.b_final) final₁,
          advance-checked s zarf a w₂ h.quiet root₂ ma name ta body_a v full_a₂ (λ e. cc (final₂)),
          advance-checked s zarf b w₃ h.quiet root₃ mb name tb body_b v full_b₃ (λ e. cc (final₃)),
          advance-placed s zarf b w₄ h.quiet root₄ mb name tb body_b v final₄ (λ e. cc (side₄))
              gone_b (ne_of_test _ _ apart.side_b),
          advance-placed s zarf a w₅ h.quiet root₅ ma name ta body_b v final₅
              (λ e.
                ground (
                  arith,
                  e,
                  lookup-insert side side (file (package_doc pkg_b)) w₄.fs,
                  eq_self side,
                ))
              gone_a (ne_of_test _ _ apart.side_a),
        )
        (
          refl,
          refl,
          rw (lookup-insert, apart.side_final) final₅,
          rw (lookup-insert, eq_self side) refl,
        )
