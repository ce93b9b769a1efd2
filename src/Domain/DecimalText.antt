-- ===== src/Domain/DecimalText.antt =====
-- domain/values.py: `DecimalText`, the syntax of a non-negative fixed-point number, read to its value.
use smc_ict_engine.Prelude.{
  ℕ, ◌+◌, ◌-◌, ◌*◌, Bool, true, false, ◌&&◌, Option, none, some, String, List, [], ◌∷◌, leb, ◌==◌,
  if◌then◌else◌, length,
}
use smc_ict_engine.Decimal.{Decimal}
use smc_ict_engine.Decimal.Int.{pos}
use smc_ict_engine.Domain.Values.{codes}

unfoldable pub is_digit : ℕ → Bool
is_digit c = leb b'0' c && leb c b'9'

-- `[0-9]+` after a point, `some_digit` telling whether one has been read.
unfoldable pub read_fraction : (some_digit : Bool) → (mantissa scale : ℕ) → List ℕ → Option Decimal
unfolding is_digit
read_fraction true m s [] = some (record { mantissa = pos m; scale = s })
read_fraction false m s [] = none
read_fraction some_digit m s (c ∷ cs) =
    let rest = read_fraction true (10 * m + (c - b'0')) (s + 1) cs in
    if is_digit c then rest else none

-- `[0-9]+(\.[0-9]+)?`
unfoldable pub read_number : (some_digit : Bool) → (mantissa : ℕ) → List ℕ → Option Decimal
unfolding is_digit read_fraction
read_number true m [] = some (record { mantissa = pos m; scale = 0 })
read_number false m [] = none
read_number some_digit m (c ∷ cs) =
    let rest = read_number true (10 * m + (c - b'0')) cs in
    let fraction = read_fraction false m 0 cs in
    if is_digit c then rest else if c == b'.' && some_digit then fraction else none

-- `DecimalText(text).decimal`; `none` is the ValueError.
unfoldable pub decimal_of_text : String → Option Decimal
unfolding read_number
decimal_of_text text =
    if leb (length (codes text)) 64 then read_number false 0 (codes text) else none
