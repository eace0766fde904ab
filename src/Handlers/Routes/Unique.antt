-- ===== src/Handlers/Routes/Unique.antt =====
-- At most one pattern fits a request, and a base path changes nothing but the paths.
use zarf_api.Prelude.{
  ◌≡◌, refl, Bool, true, false, ◌&&◌, ◌||◌, Option, none, some, List, [], ◌∷◌, Text, lit, ◌==◌,
  nat_eq, list_eq, list_beq_iff, all, arith, inl, inr, Option-cases, length, ◌≤◌,
}
use zarf_api.Handlers.Routes.{Route, ui_routes, register}
use zarf_api.Handlers.Routes.Mux.{
  Segment, literal, wild, end, rest, pattern_of, fits, serves, overlap, compete, competes, meets,
  are_apart, match_route, fitting,
}
use zarf_api.Handlers.Routes.Patterns.{base, is_name}
use zarf_api.Handlers.Routes.Serving.{is_well_formed}
use zarf_api.Handlers.Routes.Formed.{register-well_formed}
use zarf_api.Handlers.Routes.Apart.{register-ui, register-api}

abbrev pub is_some {ℓ} : {A : Type ℓ} → Option A → Bool
is_some none = false
is_some (some a) = true

fits-nil : (p : Segment) (ps : List Segment) → fits (p ∷ ps) [] ≡ none
unfolding fits
fits-nil (literal s) ps = refl
fits-nil (wild n) ps = refl
fits-nil end ps = refl
fits-nil rest ps = refl

fits-end :
    (ps : List Segment) (t : Text) (ts : List Text)
    → is_some (fits (end ∷ ps) (t ∷ ts)) ≡ true
    → (t ≡ []) × (ts ≡ [])
unfolding fits
fits-end ps t [] h = ground (arith, h, list_beq_iff t [])
fits-end ps t (u ∷ ts) h = cc

-- Patterns that one path fits overlap.
fits-overlap :
    (ps qs : List Segment) (ts : List Text)
    → is_some (fits ps ts) ≡ true
    → is_some (fits qs ts) ≡ true
    → overlap ps qs ≡ true
unfolding fits overlap
fits-overlap [] [] ts h k = refl
fits-overlap [] (q ∷ qs) [] h k = absurd (ground (arith, k, fits-nil q qs))
fits-overlap [] (q ∷ qs) (t ∷ ts) h k = cc
fits-overlap (p ∷ ps) [] [] h k = absurd (ground (arith, h, fits-nil p ps))
fits-overlap (p ∷ ps) [] (t ∷ ts) h k = cc
fits-overlap (p ∷ ps) (q ∷ qs) [] h k = absurd (ground (arith, h, fits-nil p ps))
fits-overlap (literal s ∷ ps) (literal u ∷ qs) (t ∷ ts) h k =
    ground
      (arith, h, k, list_beq_iff s t, list_beq_iff u t, list_beq_iff s u, fits-overlap ps qs ts)
fits-overlap (literal s ∷ ps) (wild n ∷ qs) (t ∷ ts) h k =
    ground (arith, h, k, fits-overlap ps qs ts)
fits-overlap (literal s ∷ ps) (end ∷ qs) (t ∷ ts) h k =
    ground (arith, h, fits-end qs t ts k, list_beq_iff s t, list_beq_iff s [])
fits-overlap (literal s ∷ ps) (rest ∷ qs) (t ∷ ts) h k = refl
fits-overlap (wild n ∷ ps) (literal u ∷ qs) (t ∷ ts) h k =
    ground (arith, h, k, fits-overlap ps qs ts)
fits-overlap (wild n ∷ ps) (wild m ∷ qs) (t ∷ ts) h k = ground (arith, h, k, fits-overlap ps qs ts)
fits-overlap (wild n ∷ ps) (end ∷ qs) (t ∷ ts) h k =
    ground (arith, h, fits-end qs t ts k, list_beq_iff t [])
fits-overlap (wild n ∷ ps) (rest ∷ qs) (t ∷ ts) h k = refl
fits-overlap (end ∷ ps) (literal u ∷ qs) (t ∷ ts) h k =
    ground (arith, k, fits-end ps t ts h, list_beq_iff u t, list_beq_iff u [])
fits-overlap (end ∷ ps) (wild n ∷ qs) (t ∷ ts) h k =
    ground (arith, k, fits-end ps t ts h, list_beq_iff t [])
fits-overlap (end ∷ ps) (end ∷ qs) (t ∷ ts) h k = refl
fits-overlap (end ∷ ps) (rest ∷ qs) (t ∷ ts) h k = refl
fits-overlap (rest ∷ ps) (q ∷ qs) (t ∷ ts) h k = refl

serves-meets : (a b m : Text) → serves a m ≡ true → serves b m ≡ true → meets a b ≡ true
serves-meets a b m h k = ground (
  arith,
  h,
  k,
  list_beq_iff a m,
  list_beq_iff b m,
  list_beq_iff a b,
  list_beq_iff a (lit "GET"),
  list_beq_iff b (lit "GET"),
  list_beq_iff m (lit "HEAD"),
  list_beq_iff a (lit "HEAD"),
  list_beq_iff b (lit "HEAD"),
)

pub match-compete :
    (x y : Route) (m : Text) (path : List Text)
    → is_some (match_route x m path) ≡ true
    → is_some (match_route y m path) ≡ true
    → compete x y ≡ true
match-compete x y m path h k = ground (
  arith,
  h,
  k,
  serves-meets x.method y.method m,
  fits-overlap (pattern_of x.path) (pattern_of y.path) path,
)

fitting_none :
    (x : Route) (l : List Route) (m : Text) (path : List Text)
    → is_some (match_route x m path) ≡ true
    → competes x l ≡ false
    → fitting l m path ≡ []
unfolding fitting
fitting_none x [] m path h c = refl
fitting_none x (y ∷ l) m path h c =
    ground (arith, c, match-compete x y m path h, fitting_none x l m path h)

fitting_one :
    (l : List Route) (m : Text) (path : List Text)
    → are_apart l ≡ true
    → length (fitting l m path) ≤ 1
unfolding fitting
fitting_one [] m path h = omega arith
fitting_one (x ∷ l) m path h = elim (Option-cases (match_route x m path)) [
  | inl no_fit ↦ rw no_fit (fitting_one l m path (ground (arith, h)))
  | inr (vs, fit) ↦
      rw (fit, fitting_none x l m path (rw fit refl) (ground (arith, h))) (omega arith)
]

-- base paths of the probes
abbrev pub is_probe : List Text → Bool
is_probe bs = bs == lit "healthz" ∷ [] || bs == lit "readyz" ∷ []

register-root : (ui_enabled : Bool) → are_apart (register [] ui_enabled) ≡ true
unfolding register ui_routes pattern_of overlap
register-root false = refl
register-root true = refl

pub register-are_apart :
    (bs : List Text) (ui_enabled : Bool)
    → all is_name bs ≡ true
    → (ui_enabled && is_probe bs) ≡ false
    → are_apart (register (base bs) ui_enabled) ≡ true
register-are_apart [] ui plain free = register-root ui
register-are_apart (b ∷ bs) false plain free = register-api b bs plain
register-are_apart (b ∷ bs) true plain free =
    register-ui b bs plain (ground (arith, free)) (ground (arith, free))

-- At a base path whose names are not empty, no `.` or `..`, and without a brace or a percent sign, and
-- that is not `/healthz` or `/readyz` when the UI is enabled, every pattern that `Register` gives to
-- the mux is well formed, and at most one of them fits a request, whatever its method and its path.
pub register_unique :
    (bs : List Text) (ui_enabled : Bool)
    → all is_name bs ≡ true
    → (ui_enabled && is_probe bs) ≡ false
    → (all is_well_formed (register (base bs) ui_enabled) ≡ true)
      × ((m : Text) (path : List Text)
          → length (fitting (register (base bs) ui_enabled) m path) ≤ 1)
register_unique bs ui plain free = (
  register-well_formed bs ui plain,
  λ m path. fitting_one (register (base bs) ui) m path (register-are_apart bs ui plain free),
)
