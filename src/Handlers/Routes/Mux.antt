-- ===== src/Handlers/Routes/Mux.antt =====
-- How net/http's ServeMux, as it is documented, matches a request with the patterns of `Register`. A
-- pattern that competes with another makes it panic or choose; `dispatch` is for tables without such.
-- A path is the list of what stands between its slashes; neither it nor a pattern has an escape, and
-- what the mux does of itself, such as a redirect, is left out.
use zarf_api.Prelude.{
  Bool, true, false, not, ◌&&◌, ◌||◌, Option, none, some, List, [], ◌∷◌, Text, lit, ◌==◌, nat_eq,
  list_eq, if◌then◌else◌,
}
use zarf_api.Os.Paths.{push_front}
use zarf_api.Handlers.Routes.{Target, Route}

-- `end` is `{$}`, and `rest` the slash at the end of a pattern.
pub data Segment : Type 0 where
  literal wild : Text → Segment
  end rest : Segment

unfoldable pub components : Text → List Text
components [] = [] ∷ []
components (c ∷ s) =
    let parts = components s in if c == b'/' then [] ∷ parts else push_front c parts

abbrev pub is_wild : Text → Bool
is_wild [] = false
is_wild (c ∷ s) = c == b'{'

abbrev pub segment : Text → Segment
segment t = if t == lit "{$}" then end else if is_wild t then wild t else literal t

abbrev pub last_segment : Text → Segment
last_segment t = if t == [] then rest else segment t

unfoldable pub parse : List Text → List Segment
parse [] = []
parse (t ∷ []) = last_segment t ∷ []
parse (t ∷ u ∷ ts) = segment t ∷ parse (u ∷ ts)

abbrev pub behind : List Text → List Text
behind [] = []
behind (t ∷ ts) = ts

unfoldable pub pattern_of : Text → List Segment
unfolding components parse
pattern_of path = parse (behind (components path))

-- the values of the wildcards
abbrev pub Values : Type 0
Values = List (Text × Text)

abbrev pub bind : Text → Text → Option Values → Option Values
bind n t none = none
bind n t (some vs) = some ((n, t) ∷ vs)

abbrev pub only_if : Bool → Option Values → Option Values
only_if true o = o
only_if false o = none

unfoldable pub fits : List Segment → List Text → Option Values
fits [] [] = some []
fits [] (t ∷ ts) = none
fits (literal s ∷ ps) [] = none
fits (literal s ∷ ps) (t ∷ ts) = only_if (s == t) (fits ps ts)
fits (wild n ∷ ps) [] = none
fits (wild n ∷ ps) (t ∷ ts) = only_if (not (t == [])) (bind n t (fits ps ts))
fits (end ∷ ps) [] = none
fits (end ∷ ps) (t ∷ []) = only_if (t == []) (some [])
fits (end ∷ ps) (t ∷ u ∷ ts) = none
fits (rest ∷ ps) [] = none
fits (rest ∷ ps) (t ∷ ts) = some []

-- A pattern for GET is one for HEAD too.
abbrev pub serves : Text → Text → Bool
serves method m = method == m || (method == lit "GET" && m == lit "HEAD")

abbrev pub chosen : Target → Option Values → Option (Target × Values) → Option (Target × Values)
chosen target (some vs) others = some (target, vs)
chosen target none others = others

abbrev pub match_route : Route → Text → List Text → Option Values
match_route r m path = only_if (serves r.method m) (fits (pattern_of r.path) path)

unfoldable pub dispatch : List Route → Text → List Text → Option (Target × Values)
unfolding pattern_of fits
dispatch [] m path = none
dispatch (r ∷ routes) m path = chosen r.target (match_route r m path) (dispatch routes m path)

-- Can one path fit both? A slash at the end is taken to fit whatever is left.
unfoldable pub overlap : List Segment → List Segment → Bool
overlap [] [] = true
overlap [] (q ∷ qs) = false
overlap (p ∷ ps) [] = false
overlap (literal s ∷ ps) (literal t ∷ qs) = s == t && overlap ps qs
overlap (literal s ∷ ps) (wild n ∷ qs) = overlap ps qs
overlap (literal s ∷ ps) (end ∷ qs) = s == []
overlap (literal s ∷ ps) (rest ∷ qs) = true
overlap (wild n ∷ ps) (literal t ∷ qs) = overlap ps qs
overlap (wild n ∷ ps) (wild m ∷ qs) = overlap ps qs
overlap (wild n ∷ ps) (end ∷ qs) = false
overlap (wild n ∷ ps) (rest ∷ qs) = true
overlap (end ∷ ps) (literal t ∷ qs) = t == []
overlap (end ∷ ps) (wild n ∷ qs) = false
overlap (end ∷ ps) (end ∷ qs) = true
overlap (end ∷ ps) (rest ∷ qs) = true
overlap (rest ∷ ps) (q ∷ qs) = true

-- Is there a request that both methods serve?
abbrev pub meets : Text → Text → Bool
meets a b = a == b || (a == lit "GET" && b == lit "HEAD" || a == lit "HEAD" && b == lit "GET")

abbrev pub compete : Route → Route → Bool
compete a b = meets a.method b.method && overlap (pattern_of a.path) (pattern_of b.path)

abbrev pub competes : Route → List Route → Bool
competes r [] = false
competes r (x ∷ xs) = compete r x || competes r xs

abbrev pub are_apart : List Route → Bool
are_apart [] = true
are_apart (x ∷ xs) = not (competes x xs) && are_apart xs

-- the patterns that fit a request
abbrev pub keep_if : {A : Type 0} → Option Values → A → List A → List A
keep_if (some vs) r rs = r ∷ rs
keep_if none r rs = rs

unfoldable pub fitting : List Route → Text → List Text → List Route
unfolding pattern_of fits
fitting [] m path = []
fitting (r ∷ routes) m path = keep_if (match_route r m path) r (fitting routes m path)
