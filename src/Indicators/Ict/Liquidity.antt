-- ===== src/Indicators/Ict/Liquidity.antt =====
-- indicators/ict.py: `_matching_liquidity_points` and `_liquidity_zones`.
use smc_ict_engine.Prelude.{
  ℕ, ◌-◌, Bool, true, false, not, ◌&&◌, ◌||◌, ltb, leb, ◌==◌, any, Option, none, some, List, [],
  ◌∷◌, map, take, last, length, if◌then◌else◌, Result, ok, err, index_error, ◌>>=◌,
}
use smc_ict_engine.Prelude.Sort.{sort}
use smc_ict_engine.Decimal.{Decimal, whole, dec_ltb, divide, ◌⊕◌, ◌⊖◌, ◌⊗◌}
use smc_ict_engine.Resampling.{DerivedCandle}
use smc_ict_engine.Indicators.Averages.{wilder_atr}
use smc_ict_engine.Indicators.Loop.{element, enumerate_from}
use smc_ict_engine.Indicators.Smc.Legs.{highest, lowest}
use smc_ict_engine.Indicators.Smc.Swing.{PivotKind, high_pivot, low_pivot}
use smc_ict_engine.Indicators.Ict.Zigzag.{
  ZigzagPoint, pivot_candidates, directions_at, same_direction, update_zigzag, point_at,
}

pub data Side : Type 0 where
  buyside sellside : Side

pub data ZoneState : Type 0 where
  active partial full : ZoneState

-- `_LiquidityZone`
pub record LiquidityZone : Type 0 where
  pub side : Side
  pub lower : Decimal
  pub upper : Decimal
  pub level : Decimal
  pub event_index : ℕ
  pub known_index : ℕ
  pub anchor_index : ℕ
  pub state : ZoneState
  pub opposing_level : Option Decimal
  pub swept_extreme : Option Decimal

-- Beyond the margin, on the far side
abbrev pub outside : PivotKind → (point level margin : Decimal) → Bool
outside high_pivot point level margin = dec_ltb (level ⊕ margin) point
outside low_pivot point level margin = dec_ltb point (level ⊖ margin)

-- The loop of `_matching_liquidity_points`
unfoldable pub matching_from :
    PivotKind → (level margin : Decimal) → List ZigzagPoint → List ZigzagPoint
unfolding dec_ltb ◌⊕◌ ◌⊖◌
matching_from d level margin [] = []
matching_from d level margin (p ∷ ps) =
    let rest = matching_from d level margin ps in
    if not (same_direction p.direction d)
    then rest
    else if outside d p.level level margin
    then []
    else if dec_ltb (level ⊖ margin) p.level && dec_ltb p.level (level ⊕ margin)
    then p ∷ rest
    else rest

-- `_matching_liquidity_points`
unfoldable pub matching_points :
    List ZigzagPoint → PivotKind → (level margin : Decimal) → List ZigzagPoint
unfolding matching_from
matching_points points d level margin = matching_from d level margin (take 50 points)

-- The variables of `_liquidity_zones`
pub record Liquidity : Type 0 where
  pub points : List ZigzagPoint
  pub zones : List LiquidityZone
  pub seen : List (Side × List ℕ)

abbrev pub no_liquidity : Liquidity
no_liquidity = record { points = []; zones = []; seen = [] }

abbrev pub side_eqb : Side → Side → Bool
side_eqb buyside buyside = true
side_eqb sellside sellside = true
side_eqb _ _ = false

abbrev pub indices_eqb : List ℕ → List ℕ → Bool
indices_eqb [] [] = true
indices_eqb (x ∷ xs) (y ∷ ys) = x == y && indices_eqb xs ys
indices_eqb _ _ = false

abbrev pub cluster_side : PivotKind → Side
cluster_side high_pivot = buyside
cluster_side low_pivot = sellside

abbrev pub is_seen : Side → List ℕ → List (Side × List ℕ) → Bool
is_seen side indices seen = any (λ k. side_eqb k.0 side && indices_eqb k.1 indices) seen

abbrev pub is_full : ZoneState → Bool
is_full full = true
is_full _ = false

-- `next((zone for zone in zones if zone.side == side), None)`
abbrev pub first_of : Side → List LiquidityZone → Option LiquidityZone
first_of side [] = none
first_of side (z ∷ zs) = if side_eqb z.side side then some z else first_of side zs

-- The latest zone of the side is the one of the anchor, and is not full.
abbrev pub extends : ℕ → Option LiquidityZone → Bool
extends anchor none = false
extends anchor (some z) = not (is_full z.state) && z.anchor_index == anchor

-- The first zone of the side, in its new place
abbrev pub replace_first :
    Side → (lower upper : Decimal) → (event known : ℕ) → List LiquidityZone → List LiquidityZone
replace_first side lower upper event known [] = []
replace_first side lower upper event known (z ∷ zs) =
    if side_eqb z.side side
    then record z { lower = lower; upper = upper; event_index = event; known_index = known } ∷ zs
    else z ∷ replace_first side lower upper event known zs

abbrev pub zone_of :
    Side → (lower upper : Decimal) → (event known : ℕ) → (anchor : ZigzagPoint) → LiquidityZone
zone_of side lower upper event known anchor = record {
  side = side;
  lower = lower;
  upper = upper;
  level = anchor.level;
  event_index = event;
  known_index = known;
  anchor_index = anchor.index;
  state = active;
  opposing_level = none;
  swept_extreme = none;
}

-- A new cluster: the latest zone moves, or a zone is added.
unfoldable pub add_cluster :
    (index : ℕ)
    → PivotKind
    → (margin : Decimal) → (first : ZigzagPoint) → (rest : List ZigzagPoint) → Liquidity
    → Result Liquidity
unfolding highest lowest divide ◌⊕◌ ◌⊖◌
add_cluster index d margin first rest s = do
  bottom ← lowest (map (λ p. p.level) (first ∷ rest))
  top ← highest (map (λ p. p.level) (first ∷ rest))
  center ← divide (bottom ⊕ top) (whole 2)
  let side = cluster_side d
  let anchor = last first rest
  let t = record s { seen = (side, map (λ p. p.index) (first ∷ rest)) ∷ s.seen }
  if extends anchor.index (first_of side s.zones)
      then ok (record t {
        zones = replace_first side (center ⊖ margin) (center ⊕ margin) (index - 1) index s.zones;
      })
      else ok (record t {
        zones = zone_of side (center ⊖ margin) (center ⊕ margin) (index - 1) index anchor ∷ s.zones;
      })

abbrev pub with_matching :
    (index : ℕ)
    → PivotKind
    → (minimum : ℕ) → (margin : Decimal) → List ZigzagPoint
    → Liquidity
    → Result Liquidity
with_matching index d minimum margin [] s = if ltb 0 minimum then ok s else err index_error
with_matching index d minimum margin (first ∷ rest) s =
    if ltb (length (first ∷ rest)) minimum
      || is_seen (cluster_side d) (map (λ p. p.index) (first ∷ rest)) s.seen
    then ok s
    else add_cluster index d margin first rest s

abbrev pub with_average :
    (index : ℕ)
    → PivotKind
    → (minimum : ℕ) → (fraction level : Decimal) → Option Decimal
    → Liquidity
    → Result Liquidity
with_average index d minimum fraction level none s = ok s
with_average index d minimum fraction level (some atr) s =
    with_matching index d minimum (atr ⊗ fraction)
      (matching_points s.points d level (atr ⊗ fraction)) s

abbrev pub with_points :
    (averages : List (Option Decimal))
    → (index : ℕ) → PivotKind
    → (minimum : ℕ) → (fraction level : Decimal) → Option (List ZigzagPoint)
    → Liquidity
    → Result Liquidity
with_points averages index d minimum fraction level none s = ok s
with_points averages index d minimum fraction level (some points) s =
    element averages index >>= λ atr.
    with_average index d minimum fraction level atr (record s { points = points })

-- The body of the loop over the directions of a bar
unfoldable pub cluster :
    List DerivedCandle
    → (averages : List (Option Decimal)) → (minimum : ℕ) → (fraction : Decimal) → (index : ℕ)
    → PivotKind
    → Liquidity
    → Result Liquidity
unfolding update_zigzag matching_points add_cluster ◌⊗◌
cluster candles averages minimum fraction index d s = do
  c ← element candles (index - 1)
  let p = point_at index d c
  with_points averages index d minimum fraction p.level (update_zigzag s.points p) s

unfoldable pub cluster_each :
    List DerivedCandle
    → (averages : List (Option Decimal)) → (minimum : ℕ) → (fraction : Decimal) → (index : ℕ)
    → List PivotKind
    → Liquidity
    → Result Liquidity
unfolding cluster
cluster_each candles averages minimum fraction index [] s = ok s
cluster_each candles averages minimum fraction index (d ∷ ds) s =
    cluster candles averages minimum fraction index d s
    >>= cluster_each candles averages minimum fraction index ds

abbrev pub other_side : Side → Side
other_side buyside = sellside
other_side sellside = buyside

-- `None if opposing is None else opposing.level`
abbrev pub level_of : Option LiquidityZone → Option Decimal
level_of none = none
level_of (some z) = some z.level

abbrev pub is_partial : Decimal → LiquidityZone → Bool
is_partial close z = elim z.side [
  | buyside ↦ dec_ltb z.lower close
  | sellside ↦ dec_ltb close z.upper
]

abbrev pub is_traversed : Decimal → LiquidityZone → Bool
is_traversed close z = elim z.side [
  | buyside ↦ dec_ltb z.upper close
  | sellside ↦ dec_ltb close z.lower
]

abbrev pub is_active : ZoneState → Bool
is_active active = true
is_active _ = false

-- The body of the loop over the zones. It changes no side and no level, which it reads of the others.
unfoldable pub traverse :
    (index : ℕ) → DerivedCandle → List LiquidityZone → LiquidityZone → LiquidityZone
unfolding dec_ltb
traverse index c zones z =
    if is_full z.state
    then z
    else if is_traversed c.closing z
    then record z {
      state = full;
      known_index = index;
      swept_extreme = some (elim z.side [ buyside ↦ c.high | sellside ↦ c.low ]);
      opposing_level = level_of (first_of (other_side z.side) zones);
    }
    else if is_partial c.closing z && is_active z.state
    then record z { state = partial; known_index = index }
    else z

-- The body of the loop over the candles
unfoldable pub zone_step :
    List DerivedCandle
    → (averages : List (Option Decimal)) → (found : List (ℕ × PivotKind)) → (minimum : ℕ)
    → (fraction : Decimal) → ℕ
    → DerivedCandle
    → Liquidity
    → Result Liquidity
unfolding cluster_each traverse
zone_step candles averages found minimum fraction index c s = do
  t ← cluster_each candles averages minimum fraction index (directions_at index found) s
  ok (record t { zones = map (traverse index c t.zones) t.zones })

-- The later known first, then the later event
abbrev pub zone_precedes : LiquidityZone → LiquidityZone → Bool
zone_precedes a b =
    ltb b.known_index a.known_index
    || (a.known_index == b.known_index && leb b.event_index a.event_index)

-- `_liquidity_zones`
unfoldable pub liquidity_zones :
    List DerivedCandle → (left minimum : ℕ) → (fraction : Decimal) → Result (List LiquidityZone)
unfolding wilder_atr pivot_candidates zone_step enumerate_from sort
liquidity_zones candles left minimum fraction = do
  averages ← wilder_atr candles 10
  found ← pivot_candidates candles left
  s ← enumerate_from (zone_step candles averages found minimum fraction) 0 candles no_liquidity
  ok (sort zone_precedes s.zones)
