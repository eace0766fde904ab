-- ===== src/Regex.antt =====
-- package regexp, for the anchored patterns of the store: a matcher by derivatives, and what a
-- pattern means.
pub mod Meaning
use zarf_api.Prelude.{
  ℕ, zero, suc, Bool, true, false, ◌&&◌, ◌||◌, List, [], ◌∷◌, Text, if◌then◌else◌,
}

pub data Regex : Type 0 where
  fails : Regex  -- no text
  empty : Regex  -- the empty text
  one : (ℕ → Bool) → Regex  -- one byte of a class
  seq : Regex → Regex → Regex
  alt : Regex → Regex → Regex
  star : Regex → Regex

unfoldable pub nullable : Regex → Bool
nullable fails = false
nullable empty = true
nullable (one p) = false
nullable (seq r q) = nullable r && nullable q
nullable (alt r q) = nullable r || nullable q
nullable (star r) = true

unfoldable pub derive : ℕ → Regex → Regex
unfolding nullable
derive c fails = fails
derive c empty = fails
derive c (one p) = if p c then empty else fails
derive c (seq r q) =
    let first = seq (derive c r) q in
    let both = alt first (derive c q) in if nullable r then both else first
derive c (alt r q) = alt (derive c r) (derive c q)
derive c (star r) = seq (derive c r) (star r)

-- `MatchString` of a pattern between `^` and `$`
unfoldable pub matches : Regex → Text → Bool
unfolding derive
matches r [] = nullable r
matches r (c ∷ s) = matches (derive c r) s

-- `x?`
abbrev pub maybe : Regex → Regex
maybe r = alt r empty

-- a text of the pattern
abbrev pub exactly : Text → Regex
exactly [] = empty
exactly (c ∷ s) =
    seq
      (one (λ d. elim (Prim.Native.Nat.compare d c) [
        | Prim.Native.Nat.Ordering.eq ↦ true
        | _ ↦ false
      ]))
      (exactly s)

-- `x{n}`
abbrev pub times : ℕ → Regex → Regex
times zero r = empty
times (suc n) r = seq r (times n r)
