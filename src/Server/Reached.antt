-- ===== src/Server/Reached.antt =====
-- From a request of the API to its handler, through the log, the mux and the base path.
use zarf_api.Prelude.{
  ℕ, zero, suc, ◌≡◌, refl, sym, ap, ◌∙◌, Bool, true, false, ◌&&◌, some, List, [], ◌∷◌, ◌++◌, Text,
  lit, ◌==◌, nat_eq, list_eq, list_beq_iff, all, get_elem?, arith, if◌then◌else◌,
}
use zarf_api.Config.{Config}
use zarf_api.Handlers.Routes.{Target, Route, register, api}
use zarf_api.Handlers.Routes.Mux.{
  Segment, literal, wild, end, rest, Values, dispatch, pattern_of, are_apart,
}
use zarf_api.Handlers.Routes.Patterns.{base, is_name}
use zarf_api.Handlers.Routes.Serving.{ServeMux, IsServeMux, is_well_formed}
use zarf_api.Handlers.Routes.Formed.{register-well_formed}
use zarf_api.Handlers.Routes.Unique.{is_probe, register-are_apart}
use zarf_api.Handlers.Routes.Prefixed.{dispatch-register}
use zarf_api.Handlers.Routes.Filled.{fill, suits, dispatch-fill}
use zarf_api.Server.{
  HttpRequest, RequestLine, Handler, Logged, log_line, with_logging, serve_mux, handler,
}

abbrev is_api : List Segment → Bool
is_api (literal s ∷ ps) = s == lit "api"
is_api _ = false

fill-is_api :
    (ps : List Segment) (vs : Values)
    → is_api ps ≡ true
    → (ts : List Text) × (fill ps vs ≡ lit "api" ∷ ts)
unfolding fill
fill-is_api [] vs h = cc
fill-is_api (literal s ∷ ps) vs h =
    (fill ps vs, ap (λ t. t ∷ fill ps vs) ((list_beq_iff s (lit "api")).0 h))
fill-is_api (wild n ∷ ps) vs h = cc
fill-is_api (end ∷ ps) vs h = cc
fill-is_api (rest ∷ ps) vs h = cc

all-get_elem? :
    (f : Route → Bool) (l : List Route) (k : ℕ) (r : Route)
    → all f l ≡ true
    → get_elem? l k ≡ some r
    → f r ≡ true
all-get_elem? f [] k r h e = cc
all-get_elem? f (x ∷ l) zero r h e = ground (arith, h, e)
all-get_elem? f (x ∷ l) (suc k) r h e = ground (arith, h, all-get_elem? f l k r)

api_under_api : all (λ (r : Route). is_api (pattern_of r.path)) api ≡ true
unfolding pattern_of
api_under_api = refl

-- names put for the wildcards of a pattern
are_names : Values → Bool
are_names vs = all (λ (v : Text × Text). is_name v.1) vs

is_plain : List Segment → Bool
is_plain [] = true
is_plain (literal s ∷ ps) = is_name s && is_plain ps
is_plain (wild n ∷ ps) = is_plain ps
is_plain (_ ∷ ps) = false

fill-names :
    (ps : List Segment) (vs : Values)
    → is_plain ps ≡ true
    → are_names vs ≡ true
    → all is_name (fill ps vs) ≡ true
unfolding fill is_plain are_names
fill-names [] vs p h = refl
fill-names (literal s ∷ ps) vs p h = ground (arith, p, fill-names ps vs, h)
fill-names (wild n ∷ ps) [] p h = refl
fill-names (wild n ∷ ps) (v ∷ vs) p h = ground (arith, p, h, fill-names ps vs)
fill-names (end ∷ ps) vs p h = cc
fill-names (rest ∷ ps) vs p h = cc

api_plain : all (λ (r : Route). is_plain (pattern_of r.path)) api ≡ true
unfolding pattern_of is_plain
api_plain = refl

names-append :
    (bs ts : List Text)
    → all is_name bs ≡ true
    → all is_name ts ≡ true
    → all is_name (bs ++ ts) ≡ true
names-append [] ts h k = k
names-append (b ∷ bs) ts h k = ground (arith, h, names-append bs ts)

append-filled : (bs ts : List Text) (t : Text) → (bs ++ t ∷ ts == []) ≡ false
append-filled [] ts t = refl
append-filled (b ∷ bs) ts t = refl

module _ {S A : Type 0} (mux : ServeMux) (laws : IsServeMux mux)
    (targets : Target → Values → Handler S A) (unmatched : Handler S A) (cfg : Config)
    (bs : List Text) (at : cfg.base_path ≡ base bs) (plain : all is_name bs ≡ true)
    (free : (cfg.ui_enabled && is_probe bs) ≡ false) where
  abbrev pub routes : List Route
  routes = register cfg.base_path cfg.ui_enabled

  well_formed : all is_well_formed routes ≡ true
  well_formed = rw at (register-well_formed bs cfg.ui_enabled plain)

  apart : are_apart routes ≡ true
  apart = rw at (register-are_apart bs cfg.ui_enabled plain free)

  -- The mux takes the patterns.
  pub handler-mounted :
      handler mux targets unmatched cfg
      ≡ some (with_logging (serve_mux mux targets unmatched routes))
  unfolding handler
  handler-mounted = rw (laws.registers routes well_formed apart) refl

  pub handler-reached :
      (k : ℕ) (r : Route) (vs : Values) (request : HttpRequest)
      → get_elem? api k ≡ some r
      → suits (pattern_of r.path) vs ≡ true
      → all (λ (v : Text × Text). is_name v.1) vs ≡ true
      → request.method ≡ r.method
      → request.escaped ≡ bs ++ fill (pattern_of r.path) vs
      → (lines : List RequestLine) (s : S)
      → let out = targets r.target vs request s in
        with_logging (serve_mux mux targets unmatched routes) request (lines, s)
        ≡ (out.0, (if r.method == lit "PUT" then lines else log_line request lines, out.1))
  unfolding with_logging serve_mux are_names
  handler-reached k r vs request e h names method escaped lines s =
      let path = fill (pattern_of r.path) vs in
      let (ts, api_first) =
        fill-is_api (pattern_of r.path) vs
          (all-get_elem? (λ x. is_api (pattern_of x.path)) api k r api_under_api e) in
      let clean : all is_name (bs ++ path) ≡ true = names-append bs path plain (
        fill-names (pattern_of r.path) vs
          (all-get_elem? (λ x. is_plain (pattern_of x.path)) api k r api_plain e) names) in
      let filled : (bs ++ path == []) ≡ false = rw api_first (append-filled bs ts (lit "api")) in
      let reached : mux.find routes r.method (bs ++ path) ≡ some (r.target, vs) =
        laws.finds routes r.method (bs ++ path) well_formed apart filled clean
        ∙ ap (λ b. dispatch (register b cfg.ui_enabled) r.method (bs ++ path)) at
        ∙ ap (λ p. dispatch (register (base bs) cfg.ui_enabled) r.method (bs ++ p)) api_first
        ∙ dispatch-register bs cfg.ui_enabled plain r.method ts
        ∙ ap (dispatch api r.method) (sym api_first)
        ∙ dispatch-fill k r vs e h in
      rw (method, escaped, reached) refl

  -- The mux being as documented, below a base path of names, which are not empty, no `.` or `..`, and
  -- without a brace or a percent sign, and which is not `/healthz` or `/readyz` when the UI is enabled:
  -- the patterns are registered without a panic, and a request for a pattern of the API, of its method
  -- and with such names for its wildcards, is answered by the handler of the pattern, which gets the
  -- request and those names, and the request is logged once, or not at all when it is a PUT.
  pub handler-fill :
      (k : ℕ) (r : Route) (vs : Values) (request : HttpRequest)
      → get_elem? api k ≡ some r
      → suits (pattern_of r.path) vs ≡ true
      → all (λ (v : Text × Text). is_name v.1) vs ≡ true
      → request.method ≡ r.method
      → request.escaped ≡ bs ++ fill (pattern_of r.path) vs
      → (lines : List RequestLine) (s : S)
      → let out = targets r.target vs request s in
        (serve : Handler (Logged S) A) × (handler mux targets unmatched cfg ≡ some serve)
        × (serve request (lines, s)
            ≡ (out.0, (if r.method == lit "PUT" then lines else log_line request lines, out.1)))
  handler-fill k r vs request e h names method escaped lines s = (
    with_logging (serve_mux mux targets unmatched routes),
    handler-mounted,
    handler-reached k r vs request e h names method escaped lines s,
  )
