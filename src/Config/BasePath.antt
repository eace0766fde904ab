-- ===== src/Config/BasePath.antt =====
-- The prefix under which the API is served: its shape, and that it is a normal form.
use mathlib.Core.List.{reverse-append, reverse-reverse}
use zarf_api.Prelude.{
  ◌≡◌, ◌≢◌, refl, sym, subst, ap, ◌∙◌, ◌⊎◌, inl, inr, false, [], ◌∷◌, ◌++◌, reverse, Text, ◌==◌,
  nat_eq, list_eq, list_beq_iff, lit, contains_any, arith, Bool-cases,
}
use zarf_api.Config.{ok, trim_left, trim, parse_base_path}

-- no slash in front
abbrev pub Starts : Text → Type 0
Starts [] = Unit
Starts (c ∷ s) = c ≢ b'/'

trim_left-Starts : (s : Text) → Starts (trim_left s)
unfolding trim_left
trim_left-Starts [] = tt
trim_left-Starts (c ∷ s) = elim (Bool-cases (c == b'/')) [
  | inl e ↦ rw e (trim_left-Starts s)
  | inr e ↦ rw e (λ h. ground (arith, e))
]

trim_left-id : (s : Text) → Starts s → trim_left s ≡ s
unfolding trim_left
trim_left-id [] h = refl
trim_left-id (c ∷ s) h = ground arith

-- What is trimmed off the front is a text in front of the rest.
trim_left-suffix : (s : Text) → (front : Text) × (s ≡ front ++ trim_left s)
unfolding trim_left
trim_left-suffix [] = ([], refl)
trim_left-suffix (c ∷ s) = elim (Bool-cases (c == b'/')) [
  | inl e ↦ let (front, h) = trim_left-suffix s in (c ∷ front, rw e (ap (◌∷◌ c) h))
  | inr e ↦ ([], rw e refl)
]

Starts-front : (s t : Text) → Starts (s ++ t) → Starts s
Starts-front [] t h = tt
Starts-front (c ∷ s) t h = h

-- no slash at either end
pub record IsTrimmed (s : Text) : Type 0 where
  pub front : Starts s
  pub back : Starts (reverse s)

trim-IsTrimmed : (s : Text) → IsTrimmed (trim s)
unfolding trim
trim-IsTrimmed s =
    let a = trim_left s in
    let b = trim_left (reverse a) in
    let (front, h) = trim_left-suffix (reverse a) in
    let whole : a ≡ reverse b ++ reverse front =
      sym (reverse-reverse a) ∙ ap reverse h ∙ reverse-append front b in
    record {
      front = Starts-front (reverse b) (reverse front) (subst Starts whole (trim_left-Starts s));
      back = subst Starts (sym (reverse-reverse b)) (trim_left-Starts (reverse a));
    }

trim_id : (s : Text) → IsTrimmed s → trim s ≡ s
unfolding trim
trim_id s h =
    ap (λ t. reverse (trim_left (reverse t))) (trim_left-id s h.front)
    ∙ ap reverse (trim_left-id (reverse s) h.back)
    ∙ reverse-reverse s

trim_slash : (s : Text) → IsTrimmed s → trim (b'/' ∷ s) ≡ s
trim_slash s h = unfold trim trim_left in trim_id s h

-- Empty, or a slash and then a text that no slash begins or ends, with no blank, `?` or `#`.
pub record IsPrefix (bp : Text) : Type 0 where
  pub core : Text
  pub shape : bp ≡ b'/' ∷ core
  pub filled : core ≢ []
  pub trimmed : IsTrimmed core
  pub clean : contains_any bp (lit " ?#") ≡ false

abbrev pub IsBasePath : Text → Type 0
IsBasePath bp = (bp ≡ []) ⊎ IsPrefix bp

normalised : (v : Text) (bp : Text) → parse_base_path v ≡ ok bp → IsBasePath bp
unfolding parse_base_path
normalised [] bp h = inl (cc)
normalised (c ∷ s) bp h =
    let e : bp ≡ b'/' ∷ trim (c ∷ s) = ground arith in
    inr (record {
      core = trim (c ∷ s);
      shape = e;
      filled = λ f. ground (arith, f, h);
      trimmed = trim-IsTrimmed (c ∷ s);
      clean = rw e (ground (arith, h));
    })

stable : (bp : Text) → IsBasePath bp → parse_base_path bp ≡ ok bp
unfolding parse_base_path
stable bp (inl e) = rw e refl
stable bp (inr h) =
    let clean : contains_any (b'/' ∷ h.core) (lit " ?#") ≡ false =
      subst (λ p. contains_any p (lit " ?#") ≡ false) h.shape h.clean in
    let more : (h.core == []) ≡ false = ground (arith, list_beq_iff h.core [], h.filled) in
    subst (λ p. parse_base_path p ≡ ok p) (sym h.shape)
      (rw (trim_slash h.core h.trimmed) (ground (arith, clean, more)))

-- An accepted base path is empty or of the form /prefix, whatever slashes were around it, and to
-- normalise it again changes nothing.
pub parse_base_path_lem :
    (v bp : Text) → parse_base_path v ≡ ok bp → IsBasePath bp × (parse_base_path bp ≡ ok bp)
parse_base_path_lem v bp h = let p = normalised v bp h in (p, stable bp p)
