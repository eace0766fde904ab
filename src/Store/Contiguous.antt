-- ===== src/Store/Contiguous.antt =====
-- The test of `CompleteUpload` that the chunks run from 0 without a gap.
use mathlib.Core.Logic.Or
use mathlib.Core.HLevel.{⊥_prop}
use mathlib.Core.List.{Mem, Perm, Nodup, Nodup-cons, not-mem-nil, mem-cons}
use mathlib.Core.List.Perm
use zarf_api.Prelude.{
  ℕ, zero, suc, ◌+◌, ◌≤◌, ◌<◌, ◌≡◌, ◌≢◌, refl, ap, ◌∙◌, true, false, none, some, List, [], ◌∷◌, map,
  length, sort, IsSorted, sort-perm, sort-IsSorted, ◌==◌, nat_eq, ◌↔◌, length-sort, subst,
  Option-cases, leb, leb→le, arith, Bool-cases, inl, inr,
}
use zarf_api.Records.{Upload}
use zarf_api.Store.Uploads.{first_missing, sorted_indexes}

-- `n` numbers from `start` on
abbrev pub range : ℕ → ℕ → List ℕ
range start zero = []
range start (suc n) = start ∷ range (suc start) n

abbrev pub indexes : Upload → List ℕ
indexes u = map (λ (e : ℕ × ℕ). e.0) u.chunks

full_range : (want : ℕ) (l : List ℕ) → first_missing want l ≡ none → l ≡ range want (length l)
unfolding first_missing
full_range want [] h = refl
full_range want (got ∷ l) h = ground (arith, full_range (suc want) l)

-- every item is at least `lo`
abbrev AtLeast : ℕ → List ℕ → Type 0
AtLeast lo [] = Unit
AtLeast lo (x ∷ l) = (lo ≤ x) × AtLeast lo l

weaken : {lo hi : ℕ} (l : List ℕ) → lo ≤ hi → AtLeast hi l → AtLeast lo l
weaken [] h k = tt
weaken (x ∷ l) h k = (omega arith, weaken l h k.1)

rising : (x : ℕ) (l : List ℕ) → IsSorted leb (x ∷ l) → AtLeast x l
rising x [] h = tt
rising x (y ∷ l) h = let le : x ≤ y = leb→le x y h.0 in (le, weaken l le (rising y l h.1))

not_mem_above : (a : ℕ) (l : List ℕ) → AtLeast (suc a) l → ¬ Mem a l
not_mem_above a [] h m = not-mem-nil m
not_mem_above a (x ∷ l) h m =
    Or.elim ⊥_prop (mem-cons.0 m) (λ e. omega arith) (not_mem_above a l h.1)

raise_bound : (a : ℕ) (l : List ℕ) → AtLeast a l → ¬ Mem a l → AtLeast (suc a) l
raise_bound a [] h n = tt
raise_bound a (x ∷ l) h n =
    let ne : a ≢ x = λ e. n (mem-cons.1 (Or.inl e)) in
    (omega arith, raise_bound a l h.1 (λ m. n (mem-cons.1 (Or.inr m))))

-- strictly rising
abbrev Strict : List ℕ → Type 0
Strict [] = Unit
Strict (x ∷ l) = AtLeast (suc x) l × Strict l

sorted-Strict : (l : List ℕ) → IsSorted leb l → Nodup l → Strict l
sorted-Strict [] h d = tt
sorted-Strict (x ∷ l) h d =
    let (n, d') = Nodup-cons.0 d in (raise_bound x l (rising x l h) n, sorted-Strict l h.1 d')

gap_bounds :
    (want : ℕ) (l : List ℕ) (gap : ℕ)
    → first_missing want l ≡ some gap
    → (want ≤ gap) × (gap < want + length l)
unfolding first_missing
gap_bounds want [] gap e = cc
gap_bounds want (got ∷ l) gap e = ground (arith, gap_bounds (suc want) l gap)

gap_missing :
    (want : ℕ) (l : List ℕ) (gap : ℕ)
    → AtLeast want l
    → Strict l
    → first_missing want l ≡ some gap
    → ¬ Mem gap l
unfolding first_missing
gap_missing want [] gap lo h e = not-mem-nil
gap_missing want (got ∷ l) gap lo h e = elim (Bool-cases (want == got)) [
  | inl held ↦
      let same : want ≡ got = ground (arith, held) in
      let rest : first_missing (suc want) l ≡ some gap = ground (arith, held, e) in
      λ m.
        Or.elim ⊥_prop (mem-cons.0 m) (λ k. omega (arith, gap_bounds (suc want) l gap rest))
          (gap_missing (suc want) l gap (rw same h.0) h.1 rest)
  | inr open' ↦
      let here : want ≡ gap = ground (arith, open', e) in
      let below : want ≢ got = ground (arith, open') in
      λ m.
        Or.elim ⊥_prop (mem-cons.0 m) (λ k. omega arith)
          (not_mem_above gap l (weaken l (omega arith) h.0))
]

mem_range : (start n a : ℕ) → start ≤ a → a < start + n → Mem a (range start n)
mem_range start zero a lo hi = absurd (omega arith)
mem_range start (suc n) a lo hi = elim (Bool-cases (start == a)) [
  | inl e ↦ mem-cons.1 (Or.inl (ground (arith, e)))
  | inr e ↦ mem-cons.1 (Or.inr (mem_range (suc start) n a (ground (arith, e)) (omega arith)))
]

AtLeast-zero : (l : List ℕ) → AtLeast 0 l
AtLeast-zero [] = tt
AtLeast-zero (x ∷ l) = (omega arith, AtLeast-zero l)

leb_total : (x y : ℕ) → leb x y ≡ false → leb y x ≡ true
leb_total x y h = ground arith

module _ (u : Upload) (distinct : Nodup (indexes u)) where
  strict : Strict (sorted_indexes u)
  unfolding sorted_indexes
  strict =
      sorted-Strict (sort leb (indexes u)) (sort-IsSorted leb leb_total (indexes u))
        (Perm.nodup (Perm.symm (sort-perm leb (indexes u))) distinct)

  same_items : Perm (sorted_indexes u) (indexes u)
  unfolding sorted_indexes
  same_items = sort-perm leb (indexes u)

  same_length : length (sorted_indexes u) ≡ length (indexes u)
  unfolding sorted_indexes
  same_length = length-sort leb (indexes u)

  gap_absent : (gap : ℕ) → first_missing 0 (sorted_indexes u) ≡ some gap → ¬ Mem gap (indexes u)
  gap_absent gap e m =
      gap_missing 0 (sorted_indexes u) gap (AtLeast-zero (sorted_indexes u)) strict e
        ((Perm.mem_iff same_items).1 m)

  -- For a session whose chunk indexes are distinct, the test passes exactly when the chunks
  -- received are those from 0 on, each once, without a gap; and the chunk that it reports as
  -- missing has not been received.
  pub contiguous_iff :
      ((first_missing 0 (sorted_indexes u) ≡ none)
        ↔ Perm (indexes u) (range 0 (length (indexes u))))
      × ((gap : ℕ) → first_missing 0 (sorted_indexes u) ≡ some gap → ¬ Mem gap (indexes u))
  contiguous_iff = (
    (
      λ e.
          subst (λ l. Perm (indexes u) l)
            (full_range 0 (sorted_indexes u) e ∙ ap (range 0) same_length) (Perm.symm same_items),
      λ p. elim (Option-cases (first_missing 0 (sorted_indexes u))) [
        | inl e ↦ e
        | inr (gap, e) ↦
            let lt = gap_bounds 0 (sorted_indexes u) gap e in
            absurd (
              gap_absent gap e (
                (Perm.mem_iff p).1 (
                  mem_range 0 (length (indexes u)) gap (omega arith) (omega (arith, same_length)))))
      ],
    ),
    gap_absent,
  )
