-- ===== src/Os/Dirs.antt =====
-- `os.MkdirAll`: when it succeeds, and what it leaves.
use mathlib.Core.List.{append_assoc, append-nil}
use zarf_api.Prelude.{
  ◌≡◌, ◌≢◌, refl, subst, ◌∙◌, ap, true, false, Option, none, some, [], ◌∷◌, ◌++◌, Text, Map, lookup,
  insert, nat_eq, list_eq, ◌==◌, list_beq_iff, eq_self, lookup-insert, arith, inl, inr, ◌⊎◌,
}
use zarf_api.Os.{FilePath, Content, Node, dir, file, World, ok}
use zarf_api.Os.Files.{make_dirs, mkdir_all, write, below}
use zarf_api.Os.Calm.{below-append}

-- What stands at a place: nothing, a directory or a file.
node_cases :
    (n : Option Node) → ((n ≡ none) ⊎ (n ≡ some dir)) ⊎ ((c : Content) × (n ≡ some (file c)))
node_cases none = inl (inl refl)
node_cases (some dir) = inl (inr refl)
node_cases (some (file c)) = inr (c, refl)

-- No file stands on the way from `base` along `p`.
abbrev pub Clear : Map FilePath Node → FilePath → FilePath → Type 0
Clear fs base [] = Unit
Clear fs base (c ∷ p) =
    ((d : Content) → lookup (base ++ c ∷ []) fs ≢ some (file d)) × Clear fs (base ++ c ∷ []) p

Clear-insert :
    (fs : Map FilePath Node) (base q p : FilePath)
    → Clear fs base p
    → Clear (insert q dir fs) base p
Clear-insert fs base q [] h = tt
Clear-insert fs base q (c ∷ p) h = (
  λ d e. h.0 d (ground (arith, e, lookup-insert q (base ++ c ∷ []) dir fs)),
  Clear-insert fs (base ++ c ∷ []) q p h.1,
)

-- What a disk keeps when directories are added to it.
pub record Grown (fs fs' : Map FilePath Node) : Type 0 where
  pub kept : (q : FilePath) (n : Node) → lookup q fs ≡ some n → lookup q fs' ≡ some n
  pub files :
      (q : FilePath) (c : Content) → lookup q fs' ≡ some (file c) → lookup q fs ≡ some (file c)

Grown-insert :
    (q : FilePath) (fs fs' : Map FilePath Node)
    → lookup q fs ≡ none
    → Grown (insert q dir fs) fs'
    → Grown fs fs'
Grown-insert q fs fs' free g = record {
  kept = λ p n h. g.kept p n (ground (arith, h, free, lookup-insert q p dir fs, list_beq_iff q p));
  files = λ p c h. ground (arith, g.files p c h, lookup-insert q p dir fs);
}

-- Every directory on the way from `base` along `p` is there.
abbrev pub Made : Map FilePath Node → FilePath → FilePath → Type 0
Made fs base [] = Unit
Made fs base (c ∷ p) = (lookup (base ++ c ∷ []) fs ≡ some dir) × Made fs (base ++ c ∷ []) p

make_dirs_lem :
    (base p full : FilePath) (fs : Map FilePath Node)
    → base ++ p ≡ full
    → Clear fs base p
    → (fs' : Map FilePath Node) × (make_dirs base p fs ≡ some fs')
      × Grown fs fs'
      × Made fs' base p
      × ((q : FilePath) → below full q ≡ false → lookup q fs' ≡ lookup q fs)
unfolding make_dirs
make_dirs_lem base [] full fs k h =
    (fs, refl, record { kept = λ q n e. e; files = λ q c e. e }, tt, λ q b. refl)
make_dirs_lem base (c ∷ p) full fs k h =
    let next = base ++ c ∷ [] in
    let k' : next ++ p ≡ full = append_assoc base (c ∷ []) p ∙ k in
    elim (node_cases (lookup next fs)) [
      | inl (inl free) ↦
          let (fs', e, g, m, o) =
            make_dirs_lem next p full (insert next dir fs) k' (Clear-insert fs next next p h.1) in
          let way : below full next ≡ true =
            subst (λ f. below f next ≡ true) k' (below-append next p) in
          (
            fs',
            rw (make_dirs, free) e,
            Grown-insert next fs fs' free g,
            (g.kept next dir (rw (lookup-insert, eq_self next) refl), m),
            λ q b.
                o q b
                ∙ ground (
                  arith,
                  lookup-insert next q dir fs,
                  list_beq_iff next q,
                  b,
                  way,
                  ap (below full) {x = next} {y = q},
                ),
          )
      | inl (inr there) ↦
          let (fs', e, g, m, o) = make_dirs_lem next p full fs k' h.1 in
          (fs', rw (make_dirs, there) e, g, (g.kept next dir there, m), o)
      | inr (d, blocked) ↦ absurd (h.0 d blocked)
    ]

pub Made-at :
    (fs : Map FilePath Node) (base p : FilePath) (c : Text) (q : FilePath)
    → Made fs base (p ++ c ∷ q)
    → lookup (base ++ p ++ c ∷ []) fs ≡ some dir
Made-at fs base [] c q m = rw append-nil m.0
Made-at fs base (d ∷ p) c q m =
    subst (λ b. lookup (b ++ c ∷ []) fs ≡ some dir) (append_assoc base (d ∷ []) p)
      (Made-at fs (base ++ d ∷ []) p c q m.1)

-- Where no file stands on the way, the call succeeds and makes what is missing.
pub mkdir_all-Clear :
    (p : FilePath) (w : World)
    → w.faults ≡ []
    → Clear w.fs [] p
    → (fs : Map FilePath Node) × (mkdir_all p w ≡ (ok tt, write fs w))
      × Grown w.fs fs
      × Made fs [] p
      × ((q : FilePath) → below p q ≡ false → lookup q fs ≡ lookup q w.fs)
unfolding mkdir_all
mkdir_all-Clear p w calm h =
    let (fs, e, g, m, o) = make_dirs_lem [] p p w.fs refl h in (fs, rw (calm, e) refl, g, m, o)

-- Two entries of one directory are not below one another.
pub below-sibling :
    (p : FilePath) (c d : Text) → (c == d) ≡ false → below (p ++ c ∷ []) (p ++ d ∷ []) ≡ false
below-sibling [] c d h = rw h refl
below-sibling (e ∷ p) c d h = rw (below-sibling p c d h) (ground (arith, list_beq_iff e e))
