-- ===== src/Regex/Meaning.antt =====
-- The matcher decides the texts that a pattern describes.
use zarf_api.Prelude.{
  ℕ, ◌≡◌, refl, ◌↔◌, ap, sym, ◌∙◌, true, [], ◌∷◌, ◌++◌, Text, arith, inl, inr, ◌⊎◌, Bool-cases,
}
use zarf_api.Regex.{Regex, fails, empty, one, seq, alt, star, nullable, derive, matches}

-- A sequence of texts that `P` describes.
pub data Repeated (P : Text → Type 0) : Text → Type 0 where
  none : {u : Text} → u ≡ [] → Repeated P u
  more : {s t u : Text} → P s → Repeated P t → u ≡ s ++ t → Repeated P u

abbrev pub Matches : Regex → Text → Type 0
Matches fails s = ⊥
Matches empty s = s ≡ []
Matches (one p) s = (c : ℕ) × (p c ≡ true) × (s ≡ c ∷ [])
Matches (seq r q) u = (s : Text) × (t : Text) × Matches r s × Matches q t × (u ≡ s ++ t)
Matches (alt r q) s = Matches r s ⊎ Matches q s
Matches (star r) s = Repeated (Matches r) s

nullable_sound : (r : Regex) → nullable r ≡ true → Matches r []
unfolding nullable
nullable_sound fails h = cc
nullable_sound empty h = refl
nullable_sound (one p) h = cc
nullable_sound (seq r q) h =
    ([], [], nullable_sound r (ground arith), nullable_sound q (ground arith), refl)
nullable_sound (alt r q) h = elim (Bool-cases (nullable r)) [
  | inl left ↦ inl (nullable_sound r left)
  | inr right ↦ inr (nullable_sound q (ground (arith, right)))
]
nullable_sound (star r) h = none refl

nil_left : (s t : Text) → s ++ t ≡ [] → s ≡ []
nil_left [] t e = refl
nil_left (c ∷ s) t e = cc

nil_right : (s t : Text) → s ++ t ≡ [] → t ≡ []
nil_right [] t e = e
nil_right (c ∷ s) t e = cc

nullable_complete : (r : Regex) (s : Text) → s ≡ [] → Matches r s → nullable r ≡ true
unfolding nullable
nullable_complete fails s e h = absurd h
nullable_complete empty s e h = refl
nullable_complete (one p) s e h = cc (e, h.2)
nullable_complete (seq r q) u e (s, t, m, k, d) =
    let start : s ≡ [] = nil_left s t (sym d ∙ e) in
    let end : t ≡ [] = nil_right s t (sym d ∙ e) in
    ground (arith, nullable_complete r s start m, nullable_complete q t end k)
nullable_complete (alt r q) s e (inl m) = ground (arith, nullable_complete r s e m)
nullable_complete (alt r q) s e (inr m) = ground (arith, nullable_complete q s e m)
nullable_complete (star r) s e h = refl

derive_sound : (r : Regex) (c : ℕ) (s : Text) → Matches (derive c r) s → Matches r (c ∷ s)
unfolding derive
derive_sound fails c s m = absurd m
derive_sound empty c s m = absurd m
derive_sound (one p) c s m = elim (Bool-cases (p c)) [
  | inl yes' ↦ (c, yes', ap (◌∷◌ c) (rw yes' at m))
  | inr no' ↦ absurd (rw no' at m)
]
derive_sound (seq r q) c u m = elim (Bool-cases (nullable r)) [
  | inl skip ↦
      elim (let k : Matches (alt (seq (derive c r) q) (derive c q)) u = rw skip at m in k) [
        | inl (s, t, k, l, e) ↦ (c ∷ s, t, derive_sound r c s k, l, ap (◌∷◌ c) e)
        | inr k ↦ ([], c ∷ u, nullable_sound r skip, derive_sound q c u k, refl)
      ]
  | inr stay ↦
      let (s, t, k, l, e) = (let k : Matches (seq (derive c r) q) u = rw stay at m in k) in
      (c ∷ s, t, derive_sound r c s k, l, ap (◌∷◌ c) e)
]
derive_sound (alt r q) c s (inl m) = inl (derive_sound r c s m)
derive_sound (alt r q) c s (inr m) = inr (derive_sound q c s m)
derive_sound (star r) c u (s, t, m, k, e) = more (derive_sound r c s m) k (ap (◌∷◌ c) e)

matches_sound : (r : Regex) (s : Text) → matches r s ≡ true → Matches r s
unfolding matches
matches_sound r [] h = nullable_sound r h
matches_sound r (c ∷ s) h = derive_sound r c s (matches_sound (derive c r) s h)

-- The first text of a repetition that is not empty, and the rest.
split_star :
    (P : Text → Type 0) (c : ℕ) (s u : Text)
    → Repeated P u
    → u ≡ c ∷ s
    → (a : Text) × (b : Text) × P (c ∷ a) × Repeated P b × (s ≡ a ++ b)
split_star P c s u (none e) h = cc
split_star P c s u (more {s = []} {t = b} m k e) h = split_star P c s b k (sym e ∙ h)
split_star P c s u (more {s = x ∷ a} {t = b} m k e) h =
    let f : x ∷ (a ++ b) ≡ c ∷ s = sym e ∙ h in let g : x ≡ c = cc in (a, b, rw g at m, k, cc)

derive_complete :
    (r : Regex) (c : ℕ) (s u : Text) → u ≡ c ∷ s → Matches r u → Matches (derive c r) s
unfolding derive
derive_complete fails c s u h m = absurd m
derive_complete empty c s u h m = cc
derive_complete (one p) c s u h (d, pd, e) =
    let f : d ≡ c = cc in let g : p c ≡ true = rw f at pd in rw g (let k : s ≡ [] = cc in k)
derive_complete (seq r q) c s u h ([], b, m, k, e) =
    rw (nullable_complete r [] refl m) (inr (derive_complete q c s b (sym e ∙ h) k))
derive_complete (seq r q) c s u h (x ∷ a, b, m, k, e) =
    let f : x ∷ (a ++ b) ≡ c ∷ s = sym e ∙ h in
    let g : s ≡ a ++ b = cc in
    let here : Matches (derive c r) a = derive_complete r c a (x ∷ a) (cc) m in
    elim (Bool-cases (nullable r)) [
      | inl skip ↦ rw skip (inl (a, b, here, k, g))
      | inr stay ↦ rw stay (a, b, here, k, g)
    ]
derive_complete (alt r q) c s u h (inl m) = inl (derive_complete r c s u h m)
derive_complete (alt r q) c s u h (inr m) = inr (derive_complete q c s u h m)
derive_complete (star r) c s u h m =
    let (a, b, k, l, e) = split_star (Matches r) c s u m h in
    (a, b, derive_complete r c a (c ∷ a) refl k, l, e)

matches_complete : (r : Regex) (s : Text) → Matches r s → matches r s ≡ true
unfolding matches
matches_complete r [] h = nullable_complete r [] refl h
matches_complete r (c ∷ s) h =
    matches_complete (derive c r) s (derive_complete r c s (c ∷ s) refl h)

-- The matcher accepts exactly the texts that the pattern describes.
pub matches_iff : (r : Regex) (s : Text) → (matches r s ≡ true) ↔ Matches r s
matches_iff r s = (matches_sound r s, matches_complete r s)
