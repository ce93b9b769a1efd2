-- ===== src/Domain/DecimalPrint.antt =====
-- domain/values.py and indicators/base.py: `decimal_text`, the canonical text of a decimal. The zeros
-- at the end are taken off the number, before it is written.
use Prim.Native.Char.{Char}
use smc_ict_engine.Prelude.{
  ℕ, zero, suc, ◌+◌, ◌/◌, ◌%◌, String, List, [], ◌∷◌, ◌++◌, ◌==◌, ltb, if◌then◌else◌,
}
use smc_ict_engine.Decimal.{Decimal}
use smc_ict_engine.Decimal.Int.{magnitude, is_negative}

-- The code point of a digit, the point and the sign
abbrev pub char_of : ℕ → Char
char_of c =
    if c == b'1'
    then "1"
    else if c == b'2'
    then "2"
    else if c == b'3'
    then "3"
    else if c == b'4'
    then "4"
    else if c == b'5'
    then "5"
    else if c == b'6'
    then "6"
    else if c == b'7'
    then "7"
    else if c == b'8'
    then "8"
    else if c == b'9'
    then "9"
    else if c == b'.'
    then "."
    else if c == b'-'
    then "-"
    else "0"

abbrev pub text_of : List ℕ → String
text_of [] = ""
text_of (c ∷ cs) = String.◌∷◌ (char_of c) (text_of cs)

-- The digits of a whole number. Every round divides by ten, so `n` rounds are enough.
unfoldable pub whole_codes : (fuel n : ℕ) → List ℕ
whole_codes zero n = (b'0' + n) ∷ []
whole_codes (suc fuel) n =
    let front = whole_codes fuel (n / 10) in
    if ltb n 10 then (b'0' + n) ∷ [] else front ++ (b'0' + n % 10) ∷ []

-- The whole part, the point, and as many digits as there are places
unfoldable pub pointed_codes : (places n : ℕ) → List ℕ
unfolding whole_codes
pointed_codes zero n = whole_codes n n ++ b'.' ∷ []
pointed_codes (suc places) n = pointed_codes places (n / 10) ++ (b'0' + n % 10) ∷ []

-- `rstrip("0")` on the digits behind the point: the mantissa and the places that are left.
unfoldable pub strip : (places mantissa : ℕ) → ℕ × ℕ
strip zero m = (m, 0)
strip (suc places) m =
    let rest = strip places (m / 10) in if m % 10 == 0 then rest else (m, suc places)

-- There is a point if there are places.
unfoldable pub number_codes : (mantissa places : ℕ) → List ℕ
unfolding whole_codes pointed_codes
number_codes m zero = whole_codes m m
number_codes m (suc places) = pointed_codes (suc places) m

unfoldable pub decimal_codes : Decimal → List ℕ
unfolding number_codes strip
decimal_codes d =
    let kept = strip d.scale (magnitude d.mantissa) in
    let written = number_codes kept.0 kept.1 in
    if is_negative d.mantissa then b'-' ∷ written else written

-- `decimal_text`
unfoldable pub decimal_text : Decimal → String
unfolding decimal_codes
decimal_text d = text_of (decimal_codes d)
