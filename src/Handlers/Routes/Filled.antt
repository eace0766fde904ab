-- ===== src/Handlers/Routes/Filled.antt =====
-- Paths made from a pattern of the API by putting values for its wildcards.
use zarf_api.Prelude.{
  ℕ, ◌≡◌, refl, Bool, true, false, not, ◌&&◌, some, List, [], ◌∷◌, Text, ◌==◌, nat_eq, list_eq,
  list_beq_iff, eq_self, arith, inl, inr, get_elem?, zero, suc, Option-cases,
}
use zarf_api.Handlers.Routes.{Route, api}
use zarf_api.Handlers.Routes.Mux.{
  Segment, literal, wild, end, rest, pattern_of, Values, fits, dispatch, overlap, compete, competes,
  are_apart, match_route,
}
use zarf_api.Handlers.Routes.Unique.{match-compete}

-- the path in which the wildcards have these values
unfoldable pub fill : List Segment → Values → List Text
fill [] vs = []
fill (literal s ∷ ps) vs = s ∷ fill ps vs
fill (wild n ∷ ps) [] = []
fill (wild n ∷ ps) (v ∷ vs) = v.1 ∷ fill ps vs
fill (end ∷ ps) vs = [] ∷ []
fill (rest ∷ ps) vs = [] ∷ []

-- Are these values, none of them empty, for just the wildcards of the pattern?
unfoldable pub suits : List Segment → Values → Bool
suits [] [] = true
suits [] (v ∷ vs) = false
suits (literal s ∷ ps) vs = suits ps vs
suits (wild n ∷ ps) [] = false
suits (wild n ∷ ps) (v ∷ vs) = v.0 == n && (not (v.1 == []) && suits ps vs)
suits (end ∷ ps) vs = false
suits (rest ∷ ps) vs = false

fits-fill : (ps : List Segment) (vs : Values) → suits ps vs ≡ true → fits ps (fill ps vs) ≡ some vs
unfolding fits fill suits
fits-fill [] [] h = refl
fits-fill [] (v ∷ vs) h = cc
fits-fill (literal s ∷ ps) vs h = rw (eq_self s) (fits-fill ps vs h)
fits-fill (wild n ∷ ps) [] h = cc
fits-fill (wild n ∷ ps) ((k, t) ∷ vs) h = ground (arith, h, list_beq_iff k n, fits-fill ps vs)
fits-fill (end ∷ ps) vs h = cc
fits-fill (rest ∷ ps) vs h = cc

competes-get_elem? :
    (x r : Route) (l : List Route) (k : ℕ)
    → competes x l ≡ false
    → get_elem? l k ≡ some r
    → compete x r ≡ false
competes-get_elem? x r [] k h e = cc
competes-get_elem? x r (y ∷ l) zero h e = ground (arith, h, e)
competes-get_elem? x r (y ∷ l) (suc k) h e = ground (arith, h, competes-get_elem? x r l k)

dispatch-get_elem? :
    (l : List Route) (k : ℕ) (r : Route) (m : Text) (path : List Text) (vs : Values)
    → are_apart l ≡ true
    → get_elem? l k ≡ some r
    → match_route r m path ≡ some vs
    → dispatch l m path ≡ some (r.target, vs)
unfolding dispatch
dispatch-get_elem? [] k r m path vs apart e fit = cc
dispatch-get_elem? (x ∷ l) zero r m path vs apart e fit =
    let same : x ≡ r = ground (arith, e) in rw (same, fit) refl
dispatch-get_elem? (x ∷ l) (suc k) r m path vs apart e fit =
    elim (Option-cases (match_route x m path)) [
      | inl none_x ↦ rw none_x (dispatch-get_elem? l k r m path vs (ground (arith, apart)) e fit)
      | inr (us, fit_x) ↦
          let far = competes-get_elem? x r l k (ground (arith, apart)) e in
          absurd (ground (arith, far, match-compete x r m path (rw fit_x refl) (rw fit refl)))
    ]

api-are_apart : are_apart api ≡ true
unfolding pattern_of overlap
api-are_apart = refl

-- Each pattern of the API is reached by the paths that are made from it: a request of its method, with
-- values that are not empty put for its wildcards, comes to its handler, and the handler finds those
-- values under the names of the wildcards.
pub dispatch-fill :
    (k : ℕ) (r : Route) (vs : Values)
    → get_elem? api k ≡ some r
    → suits (pattern_of r.path) vs ≡ true
    → dispatch api r.method (fill (pattern_of r.path) vs) ≡ some (r.target, vs)
dispatch-fill k r vs e h =
    dispatch-get_elem? api k r r.method (fill (pattern_of r.path) vs) vs api-are_apart e
      (rw (eq_self r.method) (fits-fill (pattern_of r.path) vs h))
