-- ===== src/Domain/Values.antt =====
-- domain/values.py: identifiers and timeframes. Each check says whether the constructor accepts.
use Prim.Native.Char.{code}
use smc_ict_engine.Prelude.{
  ℕ, ◌+◌, Bool, true, false, ◌&&◌, ◌||◌, Option, none, some, String, List, [], ◌∷◌, leb, ◌==◌,
  if◌then◌else◌, length,
}

-- The code points of a text. `String` has its own `[]` and `∷`.
abbrev pub codes : String → List ℕ
codes String.[] = []
codes (String.◌∷◌ c s) = code c ∷ codes s

-- `[A-Z0-9]`
unfoldable pub is_identifier_code : ℕ → Bool
is_identifier_code c = (leb b'A' c && leb c b'Z') || (leb b'0' c && leb c b'9')

-- Reads `[A-Z0-9]+(-[A-Z0-9]+)*` to the end, `open_group` telling whether the group that is being
-- read has a code already, and counts the groups that follow a dash.
unfoldable pub count_groups : Bool → ℕ → List ℕ → Option ℕ
unfolding is_identifier_code
count_groups true n [] = some n
count_groups false n [] = none
count_groups open_group n (c ∷ cs) =
    let next_code = count_groups true n cs in
    let next_group = count_groups false (n + 1) cs in
    if is_identifier_code c then next_code else if c == b'-' && open_group then next_group else none

-- `InstrumentId`: 1 to 64 code points, and 2 to 5 groups after the first.
unfoldable pub is_instrument_id : String → Bool
unfolding count_groups
is_instrument_id s =
    leb 1 (length (codes s))
    && leb (length (codes s)) 64
    && elim (count_groups false 0 (codes s)) [ none ↦ false | some n ↦ leb 2 n && leb n 5 ]

-- `Timeframe`: the closed set of identifiers.
pub data Timeframe : Type 0 where
  m1 m5 m15 h1 h4 : Timeframe

-- `_TIMEFRAME_MINUTES` and `duration_minutes`
unfoldable pub duration_minutes : Timeframe → ℕ
duration_minutes Timeframe.m1 = 1
duration_minutes Timeframe.m5 = 5
duration_minutes Timeframe.m15 = 15
duration_minutes Timeframe.h1 = 60
duration_minutes Timeframe.h4 = 240

unfoldable pub timeframe_eqb : Timeframe → Timeframe → Bool
unfolding duration_minutes
timeframe_eqb a b = duration_minutes a == duration_minutes b
