-- ===== src/Handlers/Routes/Distinct.antt =====
-- When the patterns that `Register` registers are distinct, so that the mux accepts them.
use mathlib.Core.List.{append-nil}
use zarf_api.Prelude.{
  ℕ, ◌≡◌, refl, sym, ◌∙◌, ap, Bool, true, false, not, ◌&&◌, ◌||◌, List, [], ◌∷◌, ◌++◌, map, Text,
  lit, ◌==◌, nat_eq, list_eq, list_beq_iff, all, arith,
}
use zarf_api.Handlers.Routes.{
  Route, route, under, probes, api, root_redirect, prefix_redirects, ui_assets, ui_routes, register,
  redirect_to, ui_at, health, ready,
}

-- Two routes of one pattern.
abbrev pub same : Route → Route → Bool
same a b = a.method == b.method && a.path == b.path

abbrev pub member : Route → List Route → Bool
member r [] = false
member r (x ∷ xs) = same x r || member r xs

abbrev pub are_distinct : List Route → Bool
are_distinct [] = true
are_distinct (x ∷ xs) = not (member x xs) && are_distinct xs

-- The base paths that are patterns of the server itself.
abbrev pub clashes : Text → Bool
clashes bp = bp == lit "/healthz" || bp == lit "/readyz" || bp == lit "/{$}"

-- Does a text end in another?
abbrev ends : Text → Text → Bool
ends s [] = s == []
ends s (c ∷ t) = s == c ∷ t || ends s t

ends_lem : (bp s t : Text) → (bp ++ s == t) ≡ true → ends s t ≡ true
ends_lem [] s [] h = h
ends_lem [] s (c ∷ t) h = ground (arith, h)
ends_lem (b ∷ bp) s [] h = cc
ends_lem (b ∷ bp) s (c ∷ t) h = ground (arith, h, ends_lem bp s t)

append_beq : (bp s t : Text) → (bp ++ s == bp ++ t) ≡ (s == t)
append_beq [] s t = refl
append_beq (b ∷ bp) s t = ground (arith, append_beq bp s t)

-- Does a text end in another that is not the whole?
abbrev after : Text → Text → Bool
after s [] = false
after s (c ∷ t) = ends s t

after_lem : (b : ℕ) (bp s t : Text) → ((b ∷ bp) ++ s == t) ≡ true → after s t ≡ true
after_lem b bp s [] h = cc
after_lem b bp s (c ∷ t) h = ground (arith, h, ends_lem bp s t)

same_comm : (a b : Route) → same a b ≡ same b a
same_comm a b = ground (
  arith,
  list_beq_iff a.method b.method,
  list_beq_iff b.method a.method,
  list_beq_iff a.path b.path,
  list_beq_iff b.path a.path,
)

member-append :
    (r : Route) (xs ys : List Route) → member r (xs ++ ys) ≡ (member r xs || member r ys)
member-append r [] ys = refl
member-append r (x ∷ xs) ys = ground (arith, member-append r xs ys)

distinct_middle :
    (xs : List Route) (f : Route) (ys : List Route)
    → are_distinct (xs ++ f ∷ ys) ≡ are_distinct (f ∷ xs ++ ys)
distinct_middle [] f ys = refl
distinct_middle (x ∷ xs) f ys = ground (
  arith,
  distinct_middle xs f ys,
  member-append x xs (f ∷ ys),
  member-append x xs ys,
  same_comm x f,
)

or_false : (t : Bool) → (t || false) ≡ t
or_false true = refl
or_false false = refl

distinct_two :
    (f g : Route) (l : List Route)
    → same g f ≡ false
    → member f l ≡ false
    → member g l ≡ false
    → are_distinct l ≡ true
    → are_distinct (f ∷ g ∷ l) ≡ true
distinct_two f g l e in_f in_g d = ground (arith, e, in_f, in_g, d)

distinct_three :
    (f g h : Route) (l : List Route) (x y z : Bool)
    → (same g f ≡ false) × (same h f ≡ false) × (same h g ≡ false)
    → member f l ≡ x
    → member g l ≡ y
    → member h l ≡ z
    → are_distinct l ≡ true
    → are_distinct (f ∷ g ∷ h ∷ l) ≡ not (y || z || x)
distinct_three f g h l x y z e in_f in_g in_h d = ground (arith, e, in_f, in_g, in_h, d)

module _ (b : ℕ) (bp : Text) where
  member_none :
      (r : Route) (l : List Route)
      → all (λ (s : Route). not (s.method == r.method && after s.path r.path)) l ≡ true
      → member r (map (under (b ∷ bp)) l) ≡ false
  member_none r [] h = refl
  member_none r (s ∷ l) h = ground (arith, h, after_lem b bp s.path r.path, member_none r l)

  member-under :
      (r : Route) (l : List Route) → member (under (b ∷ bp) r) (map (under (b ∷ bp)) l) ≡ member r l
  member-under r [] = refl
  member-under r (s ∷ l) = ground (arith, append_beq (b ∷ bp) s.path r.path, member-under r l)

  are_distinct-under : (l : List Route) → are_distinct (map (under (b ∷ bp)) l) ≡ are_distinct l
  are_distinct-under [] = refl
  are_distinct-under (r ∷ l) = ground (arith, member-under r l, are_distinct-under l)

  abbrev pub redirect : Route
  redirect = route (lit "GET") (lit "/{$}") (redirect_to ((b ∷ bp) ++ lit "/ui/"))

  abbrev pub bare : Route
  bare = route (lit "GET") [] (redirect_to ((b ∷ bp) ++ lit "/ui/"))

  abbrev pub assets : Route
  assets = route (lit "GET") (lit "/ui/") (ui_at ((b ∷ bp) ++ lit "/ui/"))

  -- all routes below the base path
  abbrev pub below : List Route
  below = api ++ (redirect ∷ bare ∷ assets ∷ [])

  pub ui_lem :
      prefix_redirects (b ∷ bp) ++ (ui_assets (b ∷ bp) ∷ [])
      ≡ map (under (b ∷ bp)) (redirect ∷ bare ∷ assets ∷ [])
  ui_lem =
      ap
        (λ (q : Text).
          under (b ∷ bp) redirect
          ∷ route (lit "GET") q (redirect_to ((b ∷ bp) ++ lit "/ui/"))
          ∷ under (b ∷ bp) assets
          ∷ [])
        (sym (append-nil (b ∷ bp)))

  -- Only the bare base path can be a pattern of the server's root.
  member_bare :
      (p : Text)
      → all (λ (s : Route). not (s.method == lit "GET" && after s.path p)) (api ++ (redirect ∷ []))
        ≡ true
      → after (lit "/ui/") p ≡ false
      → member (route (lit "GET") p bare.target) (map (under (b ∷ bp)) below) ≡ (b ∷ bp == p)
  member_bare p h u =
      let r = route (lit "GET") p bare.target in
      let none_in_front = member_none r (api ++ (redirect ∷ [])) h in
      let none_behind = member_none r (assets ∷ []) (rw u refl) in
      member-append r (map (under (b ∷ bp)) (api ++ (redirect ∷ [])))
        (map (under (b ∷ bp)) (bare ∷ assets ∷ []))
      ∙ ap (λ t. t || member r (map (under (b ∷ bp)) (bare ∷ assets ∷ []))) none_in_front
      ∙ ap (λ t. (b ∷ bp) ++ [] == p || t) none_behind
      ∙ ap (λ q. q == p || false) (append-nil (b ∷ bp))
      ∙ or_false (b ∷ bp == p)

  register_ui : are_distinct (register (b ∷ bp) true) ≡ not (clashes (b ∷ bp))
  unfolding register ui_routes
  register_ui =
      let api_routes = probes ++ map (under (b ∷ bp)) api in
      let root = root_redirect (b ∷ bp) in
      ap (λ l. are_distinct (api_routes ++ root ∷ l)) ui_lem
      ∙ distinct_middle api_routes root (map (under (b ∷ bp)) (redirect ∷ bare ∷ assets ∷ []))
      ∙ distinct_three root health ready (map (under (b ∷ bp)) below) _ _ _ (refl, refl, refl)
          (member_bare (lit "/{$}") refl refl) (member_bare (lit "/healthz") refl refl)
          (member_bare (lit "/readyz") refl refl) (are_distinct-under below)

  register_api : are_distinct (register (b ∷ bp) false) ≡ true
  unfolding register
  register_api =
      ap are_distinct (append-nil (probes ++ map (under (b ∷ bp)) api))
      ∙ distinct_two health ready (map (under (b ∷ bp)) api) refl (member_none health api refl)
          (member_none ready api refl) (are_distinct-under api)

-- The patterns that `Register` gives to the mux are pairwise distinct, so that it does not panic over
-- a pattern registered twice, exactly unless the UI is enabled and the base path is `/healthz`,
-- `/readyz` or `/{$}`.
pub register_lem :
    (bp : Text) (ui_enabled : Bool)
    → are_distinct (register bp ui_enabled) ≡ not (ui_enabled && clashes bp)
register_lem [] false = unfold register in refl
register_lem [] true = unfold register ui_routes in refl
register_lem (b ∷ bp) false = register_api b bp
register_lem (b ∷ bp) true = register_ui b bp
