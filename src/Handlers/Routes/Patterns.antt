-- ===== src/Handlers/Routes/Patterns.antt =====
-- Patterns below a base path, taken apart: what stands before the slash stays literal.
use mathlib.Core.List.{append-nil, append_assoc}
use zarf_api.Prelude.{
  ◌≡◌, refl, ◌∙◌, ap, Bool, true, false, not, ◌&&◌, ◌||◌, lit, List, [], ◌∷◌, ◌++◌, map, Text, ◌==◌,
  nat_eq, list_eq, eq_self, all, contains, arith, Bool-cases, inl, inr,
}
use zarf_api.Handlers.Routes.Mux.{
  Segment, literal, components, segment, parse, fits, overlap, is_wild,
}

abbrev pub base : List Text → Text
base [] = []
base (b ∷ bs) = b'/' ∷ (b ++ base bs)

-- what net/http takes as it stands: neither a step in a path, nor escaped, nor with a brace
abbrev pub is_literal : Text → Bool
is_literal t =
    not (t == lit "." || t == lit "..") && (not (contains b'%' t) && not (contains b'{' t))

-- What may stand between the slashes of a base path, or be put for a wildcard.
abbrev pub is_name : Text → Bool
is_name t = not (t == []) && (not (contains b'/' t) && (not (is_wild t) && is_literal t))

pub components-name :
    (b t : Text) → contains b'/' b ≡ false → components (b ++ b'/' ∷ t) ≡ b ∷ components t
unfolding components
components-name [] t h = refl
components-name (c ∷ b) t h = ground (arith, h, components-name b t)

pub components_alone : (b : Text) → contains b'/' b ≡ false → components b ≡ b ∷ []
unfolding components
components_alone [] h = refl
components_alone (c ∷ b) h = ground (arith, h, components_alone b)

pub components-base :
    (b : Text) (bs : List Text) (t : Text)
    → all is_name (b ∷ bs) ≡ true
    → components (b ++ (base bs ++ b'/' ∷ t)) ≡ b ∷ (bs ++ components t)
components-base b [] t h = components-name b t (ground (arith, h))
components-base b (c ∷ bs) t h =
    components-name b ((c ++ base bs) ++ b'/' ∷ t) (ground (arith, h))
    ∙ ap (λ x. b ∷ components x) (append_assoc c (base bs) (b'/' ∷ t))
    ∙ ap (◌∷◌ b) (components-base c bs t (ground (arith, h)))

pub components_of_base :
    (b : Text) (bs : List Text) → all is_name (b ∷ bs) ≡ true → components (b ++ base bs) ≡ b ∷ bs
components_of_base b [] h = ap components (append-nil b) ∙ components_alone b (ground (arith, h))
components_of_base b (c ∷ bs) h =
    components-name b (c ++ base bs) (ground (arith, h))
    ∙ ap (◌∷◌ b) (components_of_base c bs (ground (arith, h)))

pub segment-name : (t : Text) → is_name t ≡ true → segment t ≡ literal t
segment-name [] h = cc
segment-name (c ∷ t) h = ground (arith, h)

pub parse-names :
    (b : Text) (bs : List Text) (u : Text) (us : List Text)
    → all is_name (b ∷ bs) ≡ true
    → parse (b ∷ (bs ++ u ∷ us)) ≡ map literal (b ∷ bs) ++ parse (u ∷ us)
unfolding parse
parse-names b [] u us h = rw (segment-name b (ground (arith, h))) refl
parse-names b (c ∷ bs) u us h =
    rw (segment-name b (ground (arith, h)), parse-names c bs u us (ground (arith, h))) refl

pub parse_of_names :
    (b : Text) (bs : List Text)
    → all is_name (b ∷ bs) ≡ true
    → parse (b ∷ bs) ≡ map literal (b ∷ bs)
unfolding parse
parse_of_names b [] h =
    let filled : (b == []) ≡ false = ground (arith, h) in
    rw (filled, segment-name b (ground (arith, h))) refl
parse_of_names b (c ∷ bs) h =
    rw (segment-name b (ground (arith, h)), parse_of_names c bs (ground (arith, h))) refl

pub components_some : (t : Text) → (u : Text) × (us : List Text) × (components t ≡ u ∷ us)
unfolding components
components_some [] = ([], [], refl)
components_some (c ∷ t) = elim (Bool-cases (c == b'/')) [
  | inl slash ↦ ([], components t, rw slash refl)
  | inr other ↦ let (u, us, e) = components_some t in (c ∷ u, us, rw (other, e) refl)
]

pub overlap-names :
    (bs : List Text) (ps qs : List Segment)
    → overlap (map literal bs ++ ps) (map literal bs ++ qs) ≡ overlap ps qs
unfolding overlap
overlap-names [] ps qs = refl
overlap-names (b ∷ bs) ps qs = rw (eq_self b) (overlap-names bs ps qs)

pub fits-names :
    (bs : List Text) (ps : List Segment) (ts : List Text)
    → fits (map literal bs ++ ps) (bs ++ ts) ≡ fits ps ts
unfolding fits
fits-names [] ps ts = refl
fits-names (b ∷ bs) ps ts = rw (eq_self b) (fits-names bs ps ts)
