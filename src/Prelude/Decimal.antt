-- ===== src/Prelude/Decimal.antt =====
-- package strconv: `Itoa` on numbers that are not negative, and `Atoi` for a 64-bit `int`.
use Prim.Native.Nat.{ℕ, zero, suc, ◌+◌, ◌-◌, ◌*◌, ◌/◌, ◌%◌, ◌^◌, ◌<◌}
use mathlib.Core.Path.{◌≡◌, sym, ap, ◌∙◌}
use mathlib.Core.Logic.{◌≢◌, inl, inr}
use mathlib.Core.Bool.{Bool, true, ◌&&◌}
use mathlib.Core.List.{[], ◌∷◌, ◌++◌}
use mathlib.Core.Option.{Option, none, some}
use native.Mathlib.Omega.{arith}
use zarf_api.Prelude.Tests.{ltb, leb, if◌then◌else◌, Bool-cases, ◌==◌}
use zarf_api.Prelude.Lists.{all, all-append}
use zarf_api.Prelude.Int.{ℤ, pos, negsuc}
use zarf_api.Prelude.Texts.{Text}

-- The fuel is more than the number, which each round divides by ten.
decimal_from : ℕ → ℕ → Text
decimal_from zero n = []
decimal_from (suc fuel) n =
    let front = decimal_from fuel (n / 10) in
    if ltb n 10 then (48 + n) ∷ [] else front ++ (48 + n % 10) ∷ []

unfoldable pub decimal : ℕ → Text
unfolding decimal_from
decimal n = decimal_from (suc n) n

abbrev pub is_digit : ℕ → Bool
is_digit c = leb 48 c && leb c 57

digits : ℕ → Text → Option ℕ
digits n [] = some n
digits n (c ∷ s) = let rest = digits (n * 10 + (c - 48)) s in if is_digit c then rest else none

-- the magnitude after the sign, which has a digit at least
magnitude : Text → Option ℕ
magnitude [] = none
magnitude (c ∷ s) = digits 0 (c ∷ s)

abbrev positive : Option ℕ → Option ℤ
positive none = none
positive (some n) = if ltb n (2 ^ 63) then some (pos n) else none

abbrev negative : Option ℕ → Option ℤ
negative none = none
negative (some zero) = some (pos 0)
negative (some (suc n)) = if ltb n (2 ^ 63) then some (negsuc n) else none

unfoldable pub atoi : Text → Option ℤ
unfolding magnitude digits
atoi [] = none
atoi (c ∷ s) =
    if c == b'-'
    then negative (magnitude s)
    else if c == b'+'
    then positive (magnitude s)
    else positive (magnitude (c ∷ s))

digits-append :
    (n k : ℕ) (s : Text) (d : ℕ)
    → digits n s ≡ some k
    → d < 10
    → digits n (s ++ (48 + d) ∷ []) ≡ some (k * 10 + d)
unfolding digits
digits-append n k [] d h lt = ground arith
digits-append n k (c ∷ s) d h lt = ground (arith, digits-append (n * 10 + (c - 48)) k s d)

digits-decimal_from : (fuel n : ℕ) → n < fuel → digits 0 (decimal_from fuel n) ≡ some n
unfolding digits decimal_from
digits-decimal_from zero n h = elim h [ ]
digits-decimal_from (suc fuel) n h = elim (Bool-cases (ltb n 10)) [
  | inl small ↦ rw small (ground (arith, small))
  | inr large ↦ rw large (
      rw
        (digits-append 0 (n / 10) (decimal_from fuel (n / 10)) (n % 10)
          (digits-decimal_from fuel (n / 10) (ground (arith, large))) (omega arith))
        (ground arith))
]

decimal_from-all :
    (fuel n : ℕ)
    → n < fuel
    → (all is_digit (decimal_from fuel n) ≡ true) × (decimal_from fuel n ≢ [])
unfolding decimal_from
decimal_from-all zero n h = elim h [ ]
decimal_from-all (suc fuel) n h = elim (Bool-cases (ltb n 10)) [
  | inl small ↦ rw small (ground (arith, small), λ e. cc)
  | inr large ↦
      let (k, filled) = decimal_from-all fuel (n / 10) (ground (arith, large)) in
      rw large (
        rw (all-append is_digit (decimal_from fuel (n / 10)) ((48 + n % 10) ∷ []), k)
            (ground arith),
        λ e. no_snoc (decimal_from fuel (n / 10)) _ e,
      )
]
  where
    no_snoc : (s : Text) (d : ℕ) → s ++ d ∷ [] ≡ [] → ⊥
    no_snoc [] d e = cc
    no_snoc (c ∷ s) d e = cc

-- The text of a number is made of digits, and is not empty.
pub decimal_digits : (n : ℕ) → (all is_digit (decimal n) ≡ true) × (decimal n ≢ [])
unfolding decimal
decimal_digits n = decimal_from-all (suc n) n (omega arith)

-- Different numbers have different texts.
pub decimal_injective : (m n : ℕ) → decimal m ≡ decimal n → m ≡ n
unfolding decimal
decimal_injective m n e =
    let p : some m ≡ some n =
      sym (digits-decimal_from (suc m) m (omega arith))
      ∙ ap (digits 0) e
      ∙ digits-decimal_from (suc n) n (omega arith) in
    cc
