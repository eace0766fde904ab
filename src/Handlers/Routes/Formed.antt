-- ===== src/Handlers/Routes/Formed.antt =====
-- The patterns of `Register` are well formed, so that net/http's mux takes them.
use mathlib.Core.List.{append-nil}
use zarf_api.Prelude.{
  ◌≡◌, refl, ◌∙◌, ap, Bool, true, false, ◌&&◌, List, [], ◌∷◌, ◌++◌, map, Text, nat_eq, list_eq, all,
  arith,
}
use zarf_api.Handlers.Routes.{Route, under, probes, api, ui_routes, register}
use zarf_api.Handlers.Routes.Distinct.{ui_lem}
use zarf_api.Handlers.Routes.Mux.{Segment, literal, pattern_of}
use zarf_api.Handlers.Routes.Patterns.{base, is_name}
use zarf_api.Handlers.Routes.Serving.{is_method, is_pattern, is_well_formed}
use zarf_api.Handlers.Routes.Apart.{is_rooted, pattern_of-base, root, others}

is_pattern-names :
    (bs : List Text) (ps : List Segment)
    → all is_name bs ≡ true
    → is_pattern (map literal bs ++ ps) ≡ is_pattern ps
unfolding is_pattern
is_pattern-names [] ps h = refl
is_pattern-names (b ∷ bs) ps h = ground (arith, h, is_pattern-names bs ps)

-- a pattern that is well formed below a base path
abbrev fits_below : Route → Bool
fits_below r = is_method r.method && (is_rooted r.path && is_pattern (pattern_of r.path))

all-append :
    (l k : List Route)
    → all is_well_formed (l ++ k) ≡ (all is_well_formed l && all is_well_formed k)
all-append [] k = refl
all-append (r ∷ l) k = ground (arith, all-append l k)

module _ (b : Text) (bs : List Text) (plain : all is_name (b ∷ bs) ≡ true) where
  under-well_formed :
      (r : Route) → fits_below r ≡ true → is_well_formed (under (base (b ∷ bs)) r) ≡ true
  under-well_formed r h =
      rw
        (
          pattern_of-base b bs plain r.path (ground (arith, h)),
          is_pattern-names (b ∷ bs) (pattern_of r.path) plain,
        )
        (ground (arith, h))

  all-under :
      (l : List Route)
      → all fits_below l ≡ true
      → all is_well_formed (map (under (base (b ∷ bs))) l) ≡ true
  all-under [] h = refl
  all-under (r ∷ l) h = ground (arith, h, under-well_formed r, all-under l)

  tables :
      (all is_well_formed probes ≡ true)
      × (all fits_below api ≡ true)
      × (all fits_below (others b bs plain) ≡ true)
      × (is_well_formed (root b bs plain) ≡ true)
  unfolding pattern_of is_pattern
  tables = (refl, refl, refl, refl)

  register-below :
      (ui_enabled : Bool) → all is_well_formed (register (base (b ∷ bs)) ui_enabled) ≡ true
  unfolding register ui_routes
  register-below false =
      ap (all is_well_formed) (append-nil (probes ++ map (under (base (b ∷ bs))) api))
      ∙ all-append probes (map (under (base (b ∷ bs))) api)
      ∙ rw (tables.0) (all-under api tables.1)
  register-below true =
      let here = map (under (base (b ∷ bs))) in
      ap (λ l. all is_well_formed ((probes ++ here api) ++ root b bs plain ∷ l))
        (ui_lem b'/' (b ++ base bs))
      ∙ all-append (probes ++ here api) (root b bs plain ∷ here (others b bs plain))
      ∙ rw
          (
            all-append probes (here api),
            tables.0,
            all-under api tables.1,
            tables.3,
            all-under (others b bs plain) tables.2,
          )
          refl

pub register-well_formed :
    (bs : List Text) (ui_enabled : Bool)
    → all is_name bs ≡ true
    → all is_well_formed (register (base bs) ui_enabled) ≡ true
unfolding register ui_routes pattern_of is_pattern
register-well_formed [] false h = refl
register-well_formed [] true h = refl
register-well_formed (b ∷ bs) ui h = register-below b bs h ui
