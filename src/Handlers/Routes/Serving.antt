-- ===== src/Handlers/Routes/Serving.antt =====
-- net/http's ServeMux, which the code only calls: what it does with any patterns, and what its
-- documentation says of well-formed ones that do not compete.
use zarf_api.Prelude.{
  Bool, true, false, not, ◌≡◌, ◌&&◌, ◌||◌, Option, List, [], ◌∷◌, Text, lit, ◌==◌, nat_eq, list_eq,
  all, leb, if◌then◌else◌,
}
use zarf_api.Handlers.Routes.{Target, Route}
use zarf_api.Handlers.Routes.Mux.{
  Segment, literal, wild, end, rest, Values, pattern_of, dispatch, are_apart,
}
use zarf_api.Handlers.Routes.Patterns.{is_name}

-- `accepts` is false when registering the patterns panics. `find` is the handler of a pattern and the
-- values of its wildcards, by the method and the escaped path of a request; `none` when the mux
-- answers itself, with a redirect or that nothing is found.
pub record ServeMux : Type 0 where
  pub accepts : List Route → Bool
  pub find : List Route → Text → List Text → Option (Target × Values)

abbrev is_letter : Text → Bool
is_letter [] = false
is_letter (c ∷ t) = leb b'a' c && leb c b'z'

-- letters up to a brace at the end
abbrev closes : Text → Bool
closes [] = false
closes (c ∷ t) = if c == b'}' then t == [] else is_letter (c ∷ []) && closes t

-- `{name}`
abbrev pub is_wildcard : Text → Bool
is_wildcard [] = false
is_wildcard (c ∷ t) = c == b'{' && (is_letter t && closes t)

abbrev pub has_wildcard : Text → List Segment → Bool
has_wildcard n [] = false
has_wildcard n (wild m ∷ ps) = n == m || has_wildcard n ps
has_wildcard n (_ ∷ ps) = has_wildcard n ps

abbrev is_last : List Segment → Bool
is_last [] = true
is_last (p ∷ ps) = false

-- Names, and wildcards with different names; `{$}` and the slash at the end only there.
unfoldable pub is_pattern : List Segment → Bool
is_pattern [] = true
is_pattern (literal s ∷ ps) = is_name s && is_pattern ps
is_pattern (wild n ∷ ps) = is_wildcard n && (not (has_wildcard n ps) && is_pattern ps)
is_pattern (end ∷ ps) = is_last ps
is_pattern (rest ∷ ps) = is_last ps

abbrev pub is_method : Text → Bool
is_method m = m == lit "GET" || (m == lit "POST" || (m == lit "PUT" || m == lit "DELETE"))

abbrev pub starts : Text → Bool
starts [] = false
starts (c ∷ t) = c == b'/'

abbrev pub is_well_formed : Route → Bool
is_well_formed r = is_method r.method && (starts r.path && is_pattern (pattern_of r.path))

-- The documented behaviour that is relied on: well-formed patterns of which no two fit one request
-- are registered, and then a request whose path is clean and not escaped comes to the pattern that
-- it fits, segment by segment.
pub record IsServeMux (mux : ServeMux) : Type 0 where
  pub registers :
      (routes : List Route)
      → all is_well_formed routes ≡ true
      → are_apart routes ≡ true
      → mux.accepts routes ≡ true
  pub finds :
      (routes : List Route) (m : Text) (path : List Text)
      → all is_well_formed routes ≡ true
      → are_apart routes ≡ true
      → (path == []) ≡ false
      → all is_name path ≡ true
      → mux.find routes m path ≡ dispatch routes m path
