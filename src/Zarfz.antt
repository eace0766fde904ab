-- ===== src/Zarfz.antt =====
-- internal/zarfz/zarf.go: the requests, and how their values are put together for Zarf's packager.
-- Package value of Zarf (`Values.Set`, `InferType`) is the parameter `ValueLib`, `ParseDuration` and
-- `Duration.String` of package time are arguments. A Go map is the list of its entries in the order that
-- `range` takes.
pub mod Values
pub mod Packaging
pub mod Definition
mod Examples
use zarf_api.Prelude.{
  ℕ, Bool, true, false, not, ◌&&◌, ◌||◌, Option, none, some, List, [], ◌∷◌, ◌++◌, Text, Map, ℤ, pos,
  negsuc, ◌==◌, nat_eq, list_eq, leb, lit, has_prefix, if◌then◌else◌,
}
use zarf_api.Store.{Verification, verify_if_possible, verify_never, verify_always}

-- `any`, as encoding/json decodes it: what the code tells apart, and all else by its JSON text
pub data Json : Type 0 where
  null : Json
  string : Text → Json
  integer : ℤ → Json
  other : Text → Json

pub record ValueLib : Type 0 where
  pub set : Map Text Json → Text → Json → Option (Map Text Json)
  pub infer_type : Text → Json

-- `Duration`: nanoseconds, an int64
pub data DurationError : Type 0 where
  invalid_duration : Text → DurationError
  not_a_duration : DurationError

pub data Decoding {ℓ} (E : Type 0) (A : Type ℓ) : Type ℓ where
  decoded : A → Decoding E A
  rejected : E → Decoding E A

abbrev in_int64 : ℤ → Bool
in_int64 (pos n) = leb n 9223372036854775807
in_int64 (negsuc n) = leb n 9223372036854775807

abbrev parsed : Text → Option ℤ → Decoding DurationError ℤ
parsed s none = rejected (invalid_duration s)
parsed s (some d) = decoded d

-- `Duration.UnmarshalJSON`; `null` decodes into a string, as the empty one
unfoldable pub unmarshal_duration : (Text → Option ℤ) → Json → Decoding DurationError ℤ
unmarshal_duration parse_duration null = parsed [] (parse_duration [])
unmarshal_duration parse_duration (string s) = parsed s (parse_duration s)
unmarshal_duration parse_duration (integer n) =
    if in_int64 n then decoded n else rejected not_a_duration
unmarshal_duration parse_duration (other _) = rejected not_a_duration

-- `Duration.MarshalJSON`, over `time.Duration.String`
unfoldable pub marshal_duration : (ℤ → Text) → ℤ → Json
marshal_duration show d = string (show d)

pub record DeployRequest : Type 0 where
  pub source : Text
  pub components : Text
  pub set_variables : Map Text Text
  pub set_values : Map Text Text
  pub values : Map Text Json
  pub values_overrides : Map Text (Map Text (Map Text Json))
  pub namespace_override : Text
  pub take_ownership : Bool
  pub connected : Bool
  pub force_conflicts : Bool
  pub timeout : ℤ
  pub retries : ℤ
  pub oci_concurrency : ℤ
  pub shasum : Text
  pub verify : Text
  pub public_key_path : Text
  pub skip_values_schema_validation : Bool
  pub skip_version_check : Bool

pub record RemoveRequest : Type 0 where
  pub components : Text
  pub namespace_override : Text
  pub timeout : ℤ
  pub set_values : Map Text Text
  pub values : Map Text Json
  pub skip_version_check : Bool

-- the dot in front of a path
unfoldable pub value_path : Text → Text
value_path key = if has_prefix key (lit ".") then key else b'.' ∷ key

-- What the package returns as errors; those of Zarf are one.
pub data ZarfError : Type 0 where
  no_source no_cache_path no_package no_deploy no_cluster no_list zarf_failed : ZarfError
  invalid_verify unable_to_set : Text → ZarfError

pub data Fallible {ℓ} (A : Type ℓ) : Type ℓ where
  ok : A → Fallible A
  err : ZarfError → Fallible A

infixl 5 ◌>>=◌
abbrev pub ◌>>=◌ {ℓ κ} : {A : Type ℓ} {B : Type κ} → Fallible A → (A → Fallible B) → Fallible B
ok a >>= f = f a
err e >>= f = err e

abbrev pub settled : Text → Option (Map Text Json) → Fallible (Map Text Json)
settled key none = err (unable_to_set key)
settled key (some out) = ok out

-- the loop of `buildValues` over `setValues`
unfoldable pub set_all : ValueLib → Map Text Json → Map Text Text → Fallible (Map Text Json)
unfolding value_path
set_all lib out [] = ok out
set_all lib out ((key, val) ∷ rest) = do
  out' ← settled key (lib.set out (value_path key) (lib.infer_type val))
  set_all lib out' rest

-- `buildValues`: the first loop copies the map
unfoldable pub build_values : ValueLib → Map Text Json → Map Text Text → Fallible (Map Text Json)
unfolding set_all
build_values lib values set_values = set_all lib values set_values

-- a string leaf is typed by inference
abbrev pub typed : ValueLib → Json → Json
typed lib (string s) = lib.infer_type s
typed lib val = val

unfoldable pub override_chart : ValueLib → Map Text Json → Map Text Json → Fallible (Map Text Json)
unfolding value_path
override_chart lib vals [] = ok vals
override_chart lib vals ((key, val) ∷ rest) = do
  vals' ← settled key (lib.set vals (value_path key) (typed lib val))
  override_chart lib vals' rest

unfoldable pub override_charts :
    ValueLib → Map Text (Map Text Json) → Fallible (Map Text (Map Text Json))
unfolding override_chart
override_charts lib [] = ok []
override_charts lib ((chart, kvs) ∷ rest) = do
  vals ← override_chart lib [] kvs
  out ← override_charts lib rest
  ok ((chart, vals) ∷ out)

unfoldable pub override_components :
    ValueLib → Map Text (Map Text (Map Text Json)) → Fallible (Map Text (Map Text (Map Text Json)))
unfolding override_charts
override_components lib [] = ok []
override_components lib ((component, charts) ∷ rest) = do
  vals ← override_charts lib charts
  out ← override_components lib rest
  ok ((component, vals) ∷ out)

-- `buildOverrides`; `none` is a nil map
unfoldable pub build_overrides :
    ValueLib
    → Map Text (Map Text (Map Text Json))
    → Fallible (Option (Map Text (Map Text (Map Text Json))))
unfolding override_components
build_overrides lib [] = ok none
build_overrides lib (entry ∷ rest) = do out ← override_components lib (entry ∷ rest); ok (some out)

unfoldable pub verify_strategy : Text → Fallible Verification
verify_strategy mode =
    if mode == lit "" || mode == lit "if-possible"
    then ok verify_if_possible
    else if mode == lit "never"
    then ok verify_never
    else if mode == lit "always"
    then ok verify_always
    else err (invalid_verify mode)
