-- ===== src/Prelude/Texts.antt =====
-- Go strings and byte slices as lists of byte values.
use Prim.Native.Nat.{ℕ}
use Prim.Native.Char.{code}
use Prim.Native.String.{String}
use mathlib.Core.Bool.{Bool, true, false, ◌&&◌}
use mathlib.Core.List.{List, [], ◌∷◌, reverse}
use zarf_api.Prelude.Tests.{if◌then◌else◌}
use zarf_api.Prelude.Equality.{◌==◌, nat_eq}

abbrev pub Text : Type 0
Text = List ℕ

-- A string literal of the source, all of which are ASCII.
abbrev pub lit : String → Text
lit String.[] = []
lit (String.◌∷◌ c s) = code c ∷ lit s

-- `strings.HasPrefix`
abbrev pub has_prefix : Text → Text → Bool
has_prefix s [] = true
has_prefix [] (p ∷ ps) = false
has_prefix (c ∷ s) (p ∷ ps) = c == p && has_prefix s ps

-- `strings.HasSuffix`
abbrev pub has_suffix : Text → Text → Bool
has_suffix s p = has_prefix (reverse s) (reverse p)

-- `strings.TrimPrefix`
abbrev pub strip : Text → Text → Text
strip s [] = s
strip [] (p ∷ ps) = []
strip (c ∷ s) (p ∷ ps) = strip s ps

abbrev pub trim_prefix : Text → Text → Text
trim_prefix s p = if has_prefix s p then strip s p else s

-- `strings.ContainsAny` and `bytes.IndexByte`: does one of the bytes stand in the text?
abbrev pub contains : ℕ → Text → Bool
contains c [] = false
contains c (d ∷ s) = if d == c then true else contains c s

abbrev pub contains_any : Text → Text → Bool
contains_any [] cs = false
contains_any (c ∷ s) cs = if contains c cs then true else contains_any s cs
