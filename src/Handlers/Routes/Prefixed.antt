-- ===== src/Handlers/Routes/Prefixed.antt =====
-- Requests for the API below a base path, against the same requests without one.
use mathlib.Core.List.{append-nil}
use zarf_api.Prelude.{
  ◌≡◌, refl, ◌∙◌, ap, Bool, true, false, Option, none, some, List, [], ◌∷◌, ◌++◌, map, Text, lit,
  ◌==◌, nat_eq, list_eq, all, arith,
}
use zarf_api.Handlers.Routes.{
  Route, under, probes, api, root_redirect, ui_assets, ui_routes, register, health, ready,
}
use zarf_api.Handlers.Routes.Distinct.{redirect, bare, assets, ui_lem}
use zarf_api.Handlers.Routes.Mux.{literal, end, pattern_of, fits, dispatch}
use zarf_api.Handlers.Routes.Patterns.{base, is_name, fits-names}
use zarf_api.Handlers.Routes.Apart.{
  is_rooted, others, root, root_lem, pattern_of-base, probes_lem, table_rooted,
}

abbrev or_else {ℓ} : {A : Type ℓ} → Option A → Option A → Option A
or_else (some a) o = some a
or_else none o = o

dispatch-append :
    (l k : List Route) (m : Text) (path : List Text)
    → dispatch (l ++ k) m path ≡ or_else (dispatch l m path) (dispatch k m path)
unfolding dispatch
dispatch-append [] k m path = refl
dispatch-append (r ∷ l) k m path = ground (arith, dispatch-append l k m path)

or_else-none {ℓ} : {A : Type ℓ} (o : Option A) → or_else o none ≡ o
or_else-none none = refl
or_else-none (some a) = refl

dispatch-none :
    (r : Route) (l : List Route) (m : Text) (path : List Text)
    → fits (pattern_of r.path) path ≡ none
    → dispatch (r ∷ l) m path ≡ dispatch l m path
unfolding dispatch
dispatch-none r l m path h = ground (arith, h)

module _ (m : Text) (path : List Text) where
  abbrev api_path : List Text
  api_path = lit "api" ∷ path

  -- neither a probe nor the root
  fits-short :
      (n : Text) (bs : List Text)
      → (n == lit "api") ≡ false
      → fits (literal n ∷ []) (bs ++ api_path) ≡ none
  unfolding fits
  fits-short n [] h = rw h refl
  fits-short n (b ∷ []) h = ground arith
  fits-short n (b ∷ c ∷ bs) h = ground arith

  fits-root : (bs : List Text) → all is_name bs ≡ true → fits (end ∷ []) (bs ++ api_path) ≡ none
  unfolding fits
  fits-root [] h = by_path path
    where
      by_path : (ts : List Text) → fits (end ∷ []) (lit "api" ∷ ts) ≡ none
      by_path [] = refl
      by_path (t ∷ ts) = refl
  fits-root (b ∷ []) h = refl
  fits-root (b ∷ c ∷ bs) h = refl

  module _ (b : Text) (bs : List Text) (plain : all is_name (b ∷ bs) ≡ true) where
    abbrev below_path : List Text
    below_path = b ∷ (bs ++ api_path)

    dispatch-under :
        (l : List Route)
        → all (λ (r : Route). is_rooted r.path) l ≡ true
        → dispatch (map (under (base (b ∷ bs))) l) m below_path ≡ dispatch l m api_path
    unfolding dispatch
    dispatch-under [] h = refl
    dispatch-under (r ∷ l) h =
        rw
          (
            pattern_of-base b bs plain r.path (ground (arith, h)),
            fits-names (b ∷ bs) (pattern_of r.path) api_path,
            dispatch-under l (ground (arith, h)),
          )
          refl

    others_none : dispatch (others b bs plain) m api_path ≡ none
    unfolding pattern_of fits dispatch
    others_none =
        let up = b ++ base bs in
        dispatch-none (redirect b'/' up) (bare b'/' up ∷ assets b'/' up ∷ []) m api_path
          (fits-root [] refl)
        ∙ dispatch-none (bare b'/' up) (assets b'/' up ∷ []) m api_path refl
        ∙ dispatch-none (assets b'/' up) [] m api_path refl

    probes_none :
        (l : List Route) → dispatch (health ∷ ready ∷ l) m below_path ≡ dispatch l m below_path
    probes_none l =
        dispatch-none health (ready ∷ l) m below_path
          (rw ((probes_lem b bs plain).0) (fits-short (lit "healthz") (b ∷ bs) refl))
        ∙ dispatch-none ready l m below_path
            (rw ((probes_lem b bs plain).1) (fits-short (lit "readyz") (b ∷ bs) refl))

    register-below :
        (ui_enabled : Bool)
        → dispatch (register (base (b ∷ bs)) ui_enabled) m below_path ≡ dispatch api m api_path
    unfolding register ui_routes
    register-below false =
        ap (λ l. dispatch l m below_path) (append-nil (probes ++ map (under (base (b ∷ bs))) api))
        ∙ probes_none (map (under (base (b ∷ bs))) api)
        ∙ dispatch-under api (table_rooted b bs plain).0
    register-below true =
        let here = map (under (base (b ∷ bs))) in
        ap (λ l. dispatch ((probes ++ here api) ++ root b bs plain ∷ l) m below_path)
          (ui_lem b'/' (b ++ base bs))
        ∙ probes_none (here api ++ root b bs plain ∷ here (others b bs plain))
        ∙ dispatch-append (here api) (root b bs plain ∷ here (others b bs plain)) m below_path
        ∙ ap (or_else (dispatch (here api) m below_path)) (
            dispatch-none (root b bs plain) (here (others b bs plain)) m below_path
              (rw (root_lem b bs plain) (fits-root (b ∷ bs) plain))
            ∙ dispatch-under (others b bs plain) (table_rooted b bs plain).1
            ∙ others_none)
        ∙ or_else-none (dispatch (here api) m below_path)
        ∙ dispatch-under api (table_rooted b bs plain).0

  root_patterns :
      (pattern_of health.path ≡ literal (lit "healthz") ∷ [])
      × (pattern_of ready.path ≡ literal (lit "readyz") ∷ [])
      × (pattern_of (lit "/{$}") ≡ end ∷ [])
      × (fits (pattern_of (lit "/ui/")) api_path ≡ none)
  unfolding pattern_of fits
  root_patterns = (refl, refl, refl, refl)

  after_probes : (l : List Route) → dispatch (health ∷ ready ∷ l) m api_path ≡ dispatch l m api_path
  after_probes l =
      dispatch-none health (ready ∷ l) m api_path
        (rw (root_patterns.0) (fits-short (lit "healthz") [] refl))
      ∙ dispatch-none ready l m api_path (rw (root_patterns.1) (fits-short (lit "readyz") [] refl))

  register-at_root :
      (ui_enabled : Bool) → dispatch (register [] ui_enabled) m api_path ≡ dispatch api m api_path
  unfolding register ui_routes
  register-at_root false =
      ap (λ l. dispatch l m api_path) (append-nil (probes ++ api)) ∙ after_probes api
  register-at_root true =
      after_probes (api ++ root_redirect [] ∷ ui_assets [] ∷ [])
      ∙ dispatch-append api (root_redirect [] ∷ ui_assets [] ∷ []) m api_path
      ∙ ap (or_else (dispatch api m api_path)) (
          dispatch-none (root_redirect []) (ui_assets [] ∷ []) m api_path
            (rw (root_patterns.2) (fits-root [] refl))
          ∙ dispatch-none (ui_assets []) [] m api_path root_patterns.3
          ∙ dispatch_nil)
      ∙ or_else-none (dispatch api m api_path)
    where
      dispatch_nil : dispatch [] m api_path ≡ none
      dispatch_nil = unfold dispatch in refl

-- Below a base path without a wildcard, with the UI or not, a request whose path goes on with `api`
-- reaches the handler, with the same values of its wildcards, that it reaches without a base path,
-- and none when it reaches none there.
pub dispatch-register :
    (bs : List Text) (ui_enabled : Bool)
    → all is_name bs ≡ true
    → (m : Text) (path : List Text)
    → dispatch (register (base bs) ui_enabled) m (bs ++ lit "api" ∷ path)
      ≡ dispatch api m (lit "api" ∷ path)
dispatch-register [] ui plain m path = register-at_root m path ui
dispatch-register (b ∷ bs) ui plain m path = register-below m path b bs plain ui
