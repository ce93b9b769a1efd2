-- ===== src/Domain/Tests.antt =====
-- The text of a decimal at an input.
use smc_ict_engine.Prelude.{◌≡◌, some, arith}
use smc_ict_engine.Decimal.{Decimal, ◌≼◌}
use smc_ict_engine.Decimal.Int.{pos}
use smc_ict_engine.Domain.DecimalText.{decimal_of_text}
use smc_ict_engine.Domain.DecimalPrint.{decimal_text}
use smc_ict_engine.Domain.RoundTrip.{decimal_text_round}

-- 12.50
abbrev twelve_and_a_half : Decimal
twelve_and_a_half = record { mantissa = pos 1250; scale = 2 }

decimal_text_round_example :
    (r : Decimal) × (decimal_of_text (decimal_text twelve_and_a_half) ≡ some r)
    × (r ≼ twelve_and_a_half)
    × (twelve_and_a_half ≼ r)
unfolding decimal_text
decimal_text_round_example = decimal_text_round 1250 2 (omega arith)
