-- ===== src/Handlers/Routes/Apart.antt =====
-- When the patterns below a base path compete with one another, with the probes and with the root.
use mathlib.Core.List.{append-nil, append_assoc}
use zarf_api.Prelude.{
  ◌≡◌, refl, sym, ◌∙◌, ap, Bool, true, false, ◌&&◌, ◌||◌, List, [], ◌∷◌, ◌++◌, map, Text, lit, ◌==◌,
  nat_eq, list_eq, list_beq_iff, all, arith,
}
use zarf_api.Handlers.Routes.{
  Route, under, probes, api, root_redirect, ui_routes, register, health, ready,
}
use zarf_api.Handlers.Routes.Distinct.{redirect, bare, assets, ui_lem}
use zarf_api.Handlers.Routes.Mux.{
  Segment, literal, end, components, parse, pattern_of, overlap, compete, competes, meets,
  are_apart,
}
use zarf_api.Handlers.Routes.Patterns.{
  base, is_name, components-base, components_of_base, parse-names, parse_of_names, components_some,
  overlap-names,
}

-- the paths of the patterns below the base path
abbrev pub is_rooted : Text → Bool
is_rooted [] = true
is_rooted (c ∷ t) = c == b'/'

module _ (b : Text) (bs : List Text) (plain : all is_name (b ∷ bs) ≡ true) where
  abbrev pub bp : Text
  bp = base (b ∷ bs)

  pub pattern_of-base :
      (p : Text) → is_rooted p ≡ true → pattern_of (bp ++ p) ≡ map literal (b ∷ bs) ++ pattern_of p
  unfolding pattern_of
  pattern_of-base [] h =
      ap (λ x. parse (components x)) (append-nil (b ++ base bs))
      ∙ ap parse (components_of_base b bs plain)
      ∙ parse_of_names b bs plain
      ∙ sym (append-nil (map literal (b ∷ bs)))
  pattern_of-base (c ∷ t) h =
      let slash : c ≡ b'/' = ground (arith, h) in
      let (u, us, e) = components_some t in
      rw slash (
        ap (λ x. parse (components x)) (append_assoc b (base bs) (b'/' ∷ t))
        ∙ ap parse (components-base b bs t plain)
        ∙ rw e (parse-names b bs u us plain))

  pub compete-under :
      (x y : Route)
      → is_rooted x.path ≡ true
      → is_rooted y.path ≡ true
      → compete (under bp x) (under bp y) ≡ compete x y
  compete-under x y hx hy =
      rw (pattern_of-base x.path hx, pattern_of-base y.path hy, overlap-names (b ∷ bs)) refl

  abbrev pub all_rooted : List Route → Bool
  all_rooted l = all (λ (r : Route). is_rooted r.path) l

  competes-under :
      (x : Route) (l : List Route)
      → is_rooted x.path ≡ true
      → all_rooted l ≡ true
      → competes (under bp x) (map (under bp) l) ≡ competes x l
  competes-under x [] hx h = refl
  competes-under x (y ∷ l) hx h = ground (arith, compete-under x y hx, competes-under x l hx, h)

  pub are_apart-under :
      (l : List Route) → all_rooted l ≡ true → are_apart (map (under bp) l) ≡ are_apart l
  are_apart-under [] h = refl
  are_apart-under (x ∷ l) h = ground (arith, competes-under x l, are_apart-under l, h)

  competes-append :
      (r : Route) (xs ys : List Route) → competes r (xs ++ ys) ≡ (competes r xs || competes r ys)
  competes-append r [] ys = refl
  competes-append r (x ∷ xs) ys = ground (arith, competes-append r xs ys)

  -- Nothing below the base path competes with the root.
  abbrev pub root : Route
  root = root_redirect bp

  pub root_lem : pattern_of root.path ≡ end ∷ []
  unfolding pattern_of
  root_lem = refl

  root_after : (x : Route) → is_rooted x.path ≡ true → compete (under bp x) root ≡ false
  unfolding overlap
  root_after x h = rw (pattern_of-base x.path h, root_lem) (ground (arith, plain))

  root_before : (x : Route) → is_rooted x.path ≡ true → compete root (under bp x) ≡ false
  unfolding overlap
  root_before x h = rw (pattern_of-base x.path h, root_lem) (ground (arith, plain))

  root_alone : (l : List Route) → all_rooted l ≡ true → competes root (map (under bp) l) ≡ false
  root_alone [] h = refl
  root_alone (x ∷ l) h = ground (arith, h, root_before x, root_alone l)

  apart_past :
      (l k : List Route)
      → all_rooted l ≡ true
      → all_rooted k ≡ true
      → are_apart (map (under bp) l ++ root ∷ map (under bp) k)
        ≡ are_apart (map (under bp) l ++ map (under bp) k)
  apart_past [] k hl hk = rw (root_alone k hk) refl
  apart_past (x ∷ l) k hl hk = ground (
    arith,
    hl,
    apart_past l k,
    root_after x,
    competes-append (under bp x) (map (under bp) l) (root ∷ map (under bp) k),
    competes-append (under bp x) (map (under bp) l) (map (under bp) k),
  )

  -- A probe, whose path is one name, competes with the bare base path alone.
  abbrev is_filled : List Segment → Bool
  is_filled [] = false
  is_filled (p ∷ ps) = true

  overlap_longer :
      (cs : List Text) (ps : List Segment)
      → is_filled ps ≡ true
      → overlap [] (map literal cs ++ ps) ≡ false
  unfolding overlap
  overlap_longer [] [] h = cc
  overlap_longer [] (p ∷ ps) h = refl
  overlap_longer (c ∷ cs) ps h = refl

  module _ (r : Route) (n : Text) (short : pattern_of r.path ≡ literal n ∷ []) where
    probe_one :
        (x : Route)
        → is_rooted x.path ≡ true
        → is_filled (pattern_of x.path) ≡ true
        → compete r (under bp x) ≡ false
    unfolding overlap
    probe_one x h f =
        rw (short, pattern_of-base x.path h)
          (ground (arith, overlap_longer bs (pattern_of x.path) f))

    pub probe_all :
        (l : List Route)
        → all_rooted l ≡ true
        → all (λ (x : Route). is_filled (pattern_of x.path)) l ≡ true
        → competes r (map (under bp) l) ≡ false
    probe_all [] h f = refl
    probe_all (x ∷ l) h f = ground (arith, h, f, probe_one x, probe_all l)

    probe_bare :
        (b ∷ bs == n ∷ []) ≡ false → compete r (under bp (bare b'/' (b ++ base bs))) ≡ false
    unfolding overlap pattern_of
    probe_bare ne = rw (short, pattern_of-base [] refl) (by_rest bs ne)
      where
        by_rest :
            (cs : List Text)
            → (b ∷ cs == n ∷ []) ≡ false
            → (meets r.method (lit "GET") && (n == b && overlap [] (map literal cs ++ []))) ≡ false
        by_rest [] e = ground (arith, e, list_beq_iff n b, list_beq_iff b n)
        by_rest (c ∷ cs) e = ground arith

  -- what stands beside the API below the base path
  abbrev pub others : List Route
  others = redirect b'/' (b ++ base bs) ∷ bare b'/' (b ++ base bs) ∷ assets b'/' (b ++ base bs) ∷ []

  pub table_rooted :
      (all_rooted api ≡ true) × (all_rooted others ≡ true) × (all_rooted (api ++ others) ≡ true)
  table_rooted = (refl, refl, refl)

  pub table_filled :
      (all (λ (x : Route). is_filled (pattern_of x.path)) api ≡ true)
      × (is_filled (pattern_of (lit "/{$}")) ≡ true)
      × (is_filled (pattern_of (lit "/ui/")) ≡ true)
  unfolding pattern_of
  table_filled = (refl, refl, refl)

  table_apart : are_apart (api ++ others) ≡ true
  unfolding pattern_of overlap
  table_apart = refl

  probe_apart :
      (r : Route) (n : Text)
      → pattern_of r.path ≡ literal n ∷ []
      → compete r root ≡ false
      → (b ∷ bs == n ∷ []) ≡ false
      → competes r (map (under bp) api ++ root ∷ map (under bp) others) ≡ false
  probe_apart r n short far ne =
      let one = probe_one r n short in
      competes-append r (map (under bp) api) (root ∷ map (under bp) others)
      ∙ ap (λ t. t || competes r (root ∷ map (under bp) others))
          (probe_all r n short api table_rooted.0 table_filled.0)
      ∙ ap (λ t. t || competes r (map (under bp) others)) far
      ∙ none_of _ _ _ (one (redirect b'/' (b ++ base bs)) refl table_filled.1)
          (probe_bare r n short ne) (one (assets b'/' (b ++ base bs)) refl table_filled.2)
    where
      none_of :
          (x y z : Bool) → x ≡ false → y ≡ false → z ≡ false → (x || (y || (z || false))) ≡ false
      none_of x y z p q s = ground arith

  pub two_apart :
      (f g : Route) (l : List Route)
      → compete f g ≡ false
      → competes f l ≡ false
      → competes g l ≡ false
      → are_apart l ≡ true
      → are_apart (f ∷ g ∷ l) ≡ true
  two_apart f g l e in_f in_g d = ground (arith, e, in_f, in_g, d)

  pub probes_lem :
      (pattern_of health.path ≡ literal (lit "healthz") ∷ [])
      × (pattern_of ready.path ≡ literal (lit "readyz") ∷ [])
      × (compete health root ≡ false)
      × (compete ready root ≡ false)
      × (compete health ready ≡ false)
  unfolding pattern_of overlap
  probes_lem = (refl, refl, refl, refl, refl)

  -- all that is registered with the UI below a base path that is no probe's
  pub register-ui :
      (b ∷ bs == lit "healthz" ∷ []) ≡ false
      → (b ∷ bs == lit "readyz" ∷ []) ≡ false
      → are_apart (register bp true) ≡ true
  unfolding register ui_routes
  register-ui h r =
      let table = map (under bp) api ++ root ∷ map (under bp) others in
      ap (λ l. are_apart ((probes ++ map (under bp) api) ++ root ∷ l)) (ui_lem b'/' (b ++ base bs))
      ∙ two_apart health ready table probes_lem.4
          (probe_apart health (lit "healthz") probes_lem.0 probes_lem.2 h)
          (probe_apart ready (lit "readyz") probes_lem.1 probes_lem.3 r)
          (apart_past api others table_rooted.0 table_rooted.1
            ∙ are_apart-under (api ++ others) table_rooted.2
            ∙ table_apart)

  api_apart : are_apart api ≡ true
  unfolding pattern_of overlap
  api_apart = refl

  pub register-api : are_apart (register bp false) ≡ true
  unfolding register
  register-api =
      ap are_apart (append-nil (probes ++ map (under bp) api))
      ∙ two_apart health ready (map (under bp) api) probes_lem.4
          (probe_all health (lit "healthz") probes_lem.0 api table_rooted.0 table_filled.0)
          (probe_all ready (lit "readyz") probes_lem.1 api table_rooted.0 table_filled.0)
          (are_apart-under api table_rooted.0 ∙ api_apart)
