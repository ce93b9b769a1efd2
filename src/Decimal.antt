-- ===== src/Decimal.antt =====
-- Python's `decimal.Decimal`, as the program uses it: finite values, the 28-digit half-even context
-- of application/decimal_context.py (which is also the default context that the indicators run
-- under). A value is a mantissa and a number of decimal places. Only the value is modelled: two
-- spellings of one value print the same text once trailing zeros are stripped. Exponents stay far
-- from the context's limits, so overflow and underflow of the exponent are not modelled.
pub mod Int
pub mod Order
use smc_ict_engine.Prelude.{
  ℕ, zero, suc, ◌+◌, ◌-◌, ◌*◌, ◌/◌, ◌%◌, ◌^◌, ◌≤◌, Bool, true, false, not, List, [], ◌∷◌, ltb, leb,
  ◌==◌, if◌then◌else◌, Result, ok, err, division_by_zero,
}
use Int.{ℤ, pos, negsuc, pos_part, neg_part, sub_ℕ, ◌+ℤ◌, ◌*ℤ◌, neg, magnitude, is_negative, signed}

pub record Decimal : Type 0 where
  pub mantissa : ℤ
  pub scale : ℕ

-- DETERMINISTIC_DECIMAL_PRECISION
abbrev pub precision : ℕ
precision = 28

-- A whole number, `Decimal(n)`.
abbrev pub whole : ℕ → Decimal
whole n = record { mantissa = pos n; scale = 0 }

-- `a <= b` and `a < b` are exact, whatever the precision.
abbrev pub left_side : Decimal → Decimal → ℕ
left_side a b = pos_part a.mantissa * 10 ^ b.scale + neg_part b.mantissa * 10 ^ a.scale

infix 50 ◌≼◌
abbrev pub ◌≼◌ : Decimal → Decimal → Type 0
a ≼ b = left_side a b ≤ left_side b a

unfoldable pub dec_leb : Decimal → Decimal → Bool
dec_leb a b = leb (left_side a b) (left_side b a)

unfoldable pub dec_ltb : Decimal → Decimal → Bool
unfolding dec_leb
dec_ltb a b = not (dec_leb b a)

unfoldable pub dec_eqb : Decimal → Decimal → Bool
dec_eqb a b = left_side a b == left_side b a

-- `max(a, b)` and `min(a, b)` keep the first of equals.
unfoldable pub dec_max : Decimal → Decimal → Decimal
dec_max a b = if dec_ltb a b then b else a

unfoldable pub dec_min : Decimal → Decimal → Decimal
dec_min a b = if dec_ltb b a then b else a

-- The number of decimal digits, at least one. Every round divides by ten, so `n` rounds are enough.
count_digits : ℕ → ℕ → ℕ
count_digits zero n = 1
count_digits (suc fuel) n =
    let rest = suc (count_digits fuel (n / 10)) in if ltb n 10 then 1 else rest

unfoldable pub digit_count : ℕ → ℕ
unfolding count_digits
digit_count n = count_digits n n

-- `n / 10 ^ d`, to the nearest, a half to the even neighbour.
unfoldable pub half_even : ℕ → ℕ → ℕ
half_even n d =
    let q = n / 10 ^ d in
    let r = 2 * (n % 10 ^ d) in
    if ltb r (10 ^ d) then q else if ltb (10 ^ d) r then q + 1 else q + q % 2

-- The context's rounding of an exact result.
unfoldable pub round : ℤ → ℕ → Decimal
unfolding digit_count half_even
round m s =
    let extra = digit_count (magnitude m) - precision in
    let q = signed (is_negative m) (half_even (magnitude m) extra) in
    if extra == 0
    then record { mantissa = m; scale = s }
    else if leb extra s
    then record { mantissa = q; scale = s - extra }
    else record { mantissa = q *ℤ pos (10 ^ (extra - s)); scale = 0 }

infixl 65 ◌⊕◌ ◌⊖◌
infixl 70 ◌⊗◌
-- `a + b`
unfoldable pub ◌⊕◌ : Decimal → Decimal → Decimal
unfolding round ◌+ℤ◌ ◌*ℤ◌
a ⊕ b =
    round (a.mantissa *ℤ pos (10 ^ b.scale) +ℤ b.mantissa *ℤ pos (10 ^ a.scale)) (a.scale + b.scale)

-- `-a`
unfoldable pub negate : Decimal → Decimal
unfolding round
negate a = round (neg a.mantissa) a.scale

-- `a - b`
unfoldable pub ◌⊖◌ : Decimal → Decimal → Decimal
unfolding ◌⊕◌
a ⊖ b = a ⊕ record { mantissa = neg b.mantissa; scale = b.scale }

-- `abs(a)`
unfoldable pub absolute : Decimal → Decimal
unfolding round
absolute a = round (pos (magnitude a.mantissa)) a.scale

-- `a * b`
unfoldable pub ◌⊗◌ : Decimal → Decimal → Decimal
unfolding round ◌*ℤ◌
a ⊗ b = round (a.mantissa *ℤ b.mantissa) (a.scale + b.scale)

-- The quotient of n by d with more digits than the precision keeps, and a last digit that is 1 if
-- a remainder is left: rounding it is rounding the exact quotient.
unfoldable pub quotient : Bool → ℕ → ℕ → Decimal
unfolding round
quotient negative n d =
    let places = precision + digit_count d in
    let q = n * 10 ^ places / d in
    let sticky = if n * 10 ^ places % d == 0 then 0 else 1 in
    round (signed negative (10 * q + sticky)) (places + 1)

-- `a / b`. Division by zero raises, 0 / 0 too.
unfoldable pub divide : Decimal → Decimal → Result Decimal
unfolding quotient
divide a b =
    if magnitude b.mantissa == 0
    then err division_by_zero
    else ok (
        quotient (is_negative (a.mantissa *ℤ b.mantissa)) (magnitude a.mantissa * 10 ^ b.scale)
          (magnitude b.mantissa * 10 ^ a.scale))

-- `sum(values, Decimal(0))`
unfoldable pub dec_sum : Decimal → List Decimal → Decimal
dec_sum acc [] = acc
dec_sum acc (x ∷ xs) = dec_sum (acc ⊕ x) xs
