-- ===== src/Store/Inventory/Listing.antt =====
-- internal/store/store.go: `List` against the inventory.
use mathlib.Core.List.{Mem, Mem-prop, mem-cons, mem-cons_self, not-mem-nil, reverse-append}
use mathlib.Core.List.Perm
use mathlib.Core.Logic.Or
use mathlib.Core.Option
use zarf_api.Prelude.{
  ◌≡◌, ◌↔◌, refl, sym, ap, ◌∙◌, subst, Bool, true, false, Option, none, some, List, [], ◌∷◌, ◌++◌,
  reverse, Text, Map, lookup, ◌==◌, nat_eq, list_eq, list_beq_iff, has_suffix, has_prefix, eq_self,
  sort, sort-perm, IsSorted, text_leb, arith, Bool-cases, Option-cases, inl, inr,
}
use zarf_api.Records.{Package}
use zarf_api.Os.{FilePath, Content, bytes, package_doc, upload_doc, Node, dir, file, World, ok}
use zarf_api.Os.Paths.{join}
use zarf_api.Os.Files.{entries, entry_name, is_dir_node}
use zarf_api.Store.{Store, Zarf, valid_id, meta_path, meta_suffix, is_sidecar, list}
use zarf_api.Store.Listing.{by_id, described, shelved, list_lem}
use zarf_api.Store.Places.{meta_path_lem}
use zarf_api.Store.Inventory.{Item, Inventory}
use zarf_api.Store.Inventory.Shelves.{Shelves}

entry_name-append : (d : FilePath) (n : Text) → entry_name d (d ++ n ∷ []) ≡ some n
entry_name-append [] n = refl
entry_name-append (c ∷ d) n = rw (eq_self c) (entry_name-append d n)

entries_named :
    (d p : FilePath) (node : Node) (fs : Map FilePath Node) (n : Text)
    → entry_name d p ≡ some n
    → entries d ((p, node) ∷ fs) ≡ (n, is_dir_node (some node)) ∷ entries d fs
unfolding entries
entries_named d p node fs n e = ground (arith, e)

entries_unnamed :
    (d p : FilePath) (node : Node) (fs : Map FilePath Node)
    → entry_name d p ≡ none
    → entries d ((p, node) ∷ fs) ≡ entries d fs
unfolding entries
entries_unnamed d p node fs e = ground (arith, e)

-- A file in a directory is among its entries.
lookup-entries :
    (d : FilePath) (n : Text) (c : Content) (fs : Map FilePath Node)
    → lookup (d ++ n ∷ []) fs ≡ some (file c)
    → Mem (n, false) (entries d fs)
unfolding lookup
lookup-entries d n c [] h = cc
lookup-entries d n c ((p, node) ∷ fs) h = elim (Bool-cases (p == d ++ n ∷ [])) [
  | inl here ↦
      let at : entry_name d p ≡ some n =
        ap (entry_name d) ((list_beq_iff p (d ++ n ∷ [])).0 here) ∙ entry_name-append d n in
      let what : node ≡ file c = ground (arith, h, here) in
      rw (entries_named d p node fs n at, what) (mem-cons_self)
  | inr there ↦
      let rest = lookup-entries d n c fs (ground (arith, h, there)) in
      elim (Option-cases (entry_name d p)) [
        | inl none_here ↦ rw (entries_unnamed d p node fs none_here) rest
        | inr (m, at) ↦ rw (entries_named d p node fs m at) (mem-cons.1 (Or.inr rest))
      ]
]

has_prefix-append : (s t : Text) → has_prefix (s ++ t) s ≡ true
has_prefix-append [] t = refl
has_prefix-append (c ∷ s) t = rw (eq_self c) (has_prefix-append s t)

has_suffix-append : (s t : Text) → has_suffix (s ++ t) t ≡ true
has_suffix-append s t = rw (reverse-append s t) (has_prefix-append (reverse t) (reverse s))

module _ (s : Store) (zarf : Zarf) (w : World) (inv : Inventory) (h : Shelves s zarf w inv)
    (pkg : Package) where
  abbrev Listed : Type 0
  Listed = Option.map (λ (i : Item). i.doc) (inv pkg.id) ≡ some pkg

  Listed-prop : IsProp Listed
  Listed-prop = hlevel

  at_sidecar :
      (o : Option Node) (out : List Package)
      → Mem pkg (described o out)
      → (o ≡ some (file (package_doc pkg)) → Listed)
      → (Mem pkg out → Listed)
      → Listed
  at_sidecar none out m f g = g m
  at_sidecar (some dir) out m f g = g m
  at_sidecar (some (file (bytes b))) out m f g = g m
  at_sidecar (some (file (upload_doc u))) out m f g = g m
  at_sidecar (some (file (package_doc a))) out m f g =
      Or.elim Listed-prop (mem-cons.0 m)
        (λ e. f (ap (λ (k : Package). some (file (package_doc k))) (sym e))) g

  doc_listed : (p : FilePath) → lookup p w.fs ≡ some (file (package_doc pkg)) → Listed
  doc_listed p e =
      let (id, v, at) = h.only p pkg e in
      let side : lookup (meta_path s id) w.fs ≡ some (file (package_doc pkg)) =
        subst (λ q. lookup q w.fs ≡ some (file (package_doc pkg))) at e in
      elim (Option-cases (inv id)) [
        | inl free ↦ let k = rw free at (h.kept id v) in absurd (ground (arith, k, side))
        | inr (item, held) ↦
            let k = rw held at (h.kept id v) in
            let same : item.doc ≡ pkg = ground (arith, k.1, side) in
            let here : id ≡ pkg.id = sym k.2 ∙ ap (λ (a : Package). a.id) same in
            ap (λ k. Option.map (λ (i : Item). i.doc) (inv k)) (sym here)
            ∙ ap (Option.map (λ (i : Item). i.doc)) held
            ∙ ap some same
      ]

  shelved-sound : (es : List (Text × Bool)) → Mem pkg (shelved s w es) → Listed
  shelved-sound [] m = absurd (not-mem-nil m)
  shelved-sound (e ∷ es) m = elim (Bool-cases (is_sidecar e)) [
    | inr other ↦ shelved-sound es (rw other at m)
    | inl side ↦
        at_sidecar (lookup (join s.packages_dir e.0) w.fs) (shelved s w es) (rw side at m)
          (doc_listed (join s.packages_dir e.0)) (shelved-sound es)
  ]

  shelved-complete :
      (e : Text × Bool)
      → is_sidecar e ≡ true
      → lookup (join s.packages_dir e.0) w.fs ≡ some (file (package_doc pkg))
      → (es : List (Text × Bool)) → Mem e es
      → Mem pkg (shelved s w es)
  shelved-complete e side at [] m = absurd (not-mem-nil m)
  shelved-complete e side at (a ∷ es) m =
      Or.elim Mem-prop (mem-cons.0 m) (λ here. rw (← here) (rw (side, at) (mem-cons_self)))
        (λ there. keep a (shelved-complete e side at es there))
    where
      more : (o : Option Node) (out : List Package) → Mem pkg out → Mem pkg (described o out)
      more none out k = k
      more (some dir) out k = k
      more (some (file (bytes b))) out k = k
      more (some (file (upload_doc u))) out k = k
      more (some (file (package_doc b))) out k = mem-cons.1 (Or.inr k)

      keep : (b : Text × Bool) → Mem pkg (shelved s w es) → Mem pkg (shelved s w (b ∷ es))
      keep b k = elim (Bool-cases (is_sidecar b)) [
        | inl side' ↦ rw side' (more (lookup (join s.packages_dir b.0) w.fs) (shelved s w es) k)
        | inr other ↦ rw other k
      ]

  listed-shelved :
      Listed → Mem pkg (shelved s w (sort (λ a b. text_leb a.0 b.0) (entries s.packages_dir w.fs)))
  unfolding meta_path
  listed-shelved l = elim (Option-cases (inv pkg.id)) [
    | inl free ↦ absurd (ground (arith, l, free))
    | inr (item, held) ↦ elim (Bool-cases (valid_id pkg.id)) [
      | inr bad ↦ absurd (ground (arith, h.named pkg.id bad, held))
      | inl v ↦
          let k = rw held at (h.kept pkg.id v) in
          let same : item.doc ≡ pkg = ground (arith, l, held) in
          let at : lookup (meta_path s pkg.id) w.fs ≡ some (file (package_doc pkg)) =
            k.1 ∙ ap (λ (a : Package). some (file (package_doc a))) same in
          let entry =
            lookup-entries s.packages_dir (pkg.id ++ meta_suffix) (package_doc pkg) w.fs
              (rw (← (meta_path_lem s pkg.id v)) at) in
          shelved-complete (pkg.id ++ meta_suffix, false) (has_suffix-append pkg.id meta_suffix) at
            _
            ((Perm.mem_iff (
                sort-perm (λ (a : Text × Bool) (b : Text × Bool). text_leb a.0 b.0)
                  (entries s.packages_dir w.fs))).1
              entry)
    ]
  ]

module _ (s : Store) (zarf : Zarf) (w : World) (inv : Inventory) where
  -- When no call of the operating system fails: over a disk that holds an inventory, `List` returns
  -- packages sorted by id, which are exactly those of the inventory, and changes nothing.
  pub list-Shelves :
      Shelves s zarf w inv
      → (out : List Package) × (list s w ≡ (ok out, w))
        × IsSorted by_id out
        × ((pkg : Package)
            → Mem pkg out ↔ (Option.map (λ (i : Item). i.doc) (inv pkg.id) ≡ some pkg))
  list-Shelves h =
      let (out, ran, sorted, same) = list_lem s w h.quiet h.rooted in
      (
        out,
        ran,
        sorted,
        λ pkg. (
          λ m.
              shelved-sound s zarf w inv h pkg
                (sort (λ a b. text_leb a.0 b.0) (entries s.packages_dir w.fs))
                ((Perm.mem_iff same).0 m),
          λ l. (Perm.mem_iff same).1 (listed-shelved s zarf w inv h pkg l),
        ),
      )
