-- ===== src/Domain/Observations.antt =====
-- domain/observations.py: what an indicator reports. The levels are the values of their texts.
use smc_ict_engine.Prelude.{
  ℕ, Bool, true, false, not, ◌&&◌, ◌||◌, Option, none, some, String, List, leb, ltb, ◌==◌, length,
  all, str_eq, Result, ok, value_error, ◌>>◌, raise_if,
}
use smc_ict_engine.Decimal.{Decimal}
use smc_ict_engine.Domain.Values.{codes, is_instrument_id, Timeframe}

pub data ObservationStatus : Type 0 where
  pass fail unavailable : ObservationStatus

-- A value of the evidence in a payload. Nested mappings and sequences, which no decision reads, are
-- left out.
pub data Evidence : Type 0 where
  text : String → Evidence
  number : ℕ → Evidence
  boolean : Bool → Evidence
  null : Evidence

-- Python's `==`, which takes True for 1
abbrev pub bit : Bool → ℕ
bit true = 1
bit false = 0

unfoldable pub evidence_eqb : Evidence → Evidence → Bool
evidence_eqb (Evidence.text a) (Evidence.text b) = str_eq a b
evidence_eqb (Evidence.number a) (Evidence.number b) = a == b
evidence_eqb (Evidence.number a) (Evidence.boolean b) = a == bit b
evidence_eqb (Evidence.boolean a) (Evidence.number b) = bit a == b
evidence_eqb (Evidence.boolean a) (Evidence.boolean b) = bit a == bit b
evidence_eqb Evidence.null Evidence.null = true
evidence_eqb _ _ = false

-- `payload.get(...)` gives None for a key that is absent.
abbrev pub or_null : Option Evidence → Evidence
or_null none = Evidence.null
or_null (some v) = v

pub record Observation : Type 0 where
  pub signal_id : String
  pub instrument_id : String
  pub timeframe : Timeframe
  pub status : ObservationStatus
  pub event_type : Option String
  pub direction : Option String
  pub event_time_ms : Option ℕ
  pub known_time_ms : Option ℕ
  pub state : String
  pub dependency_ids : List String
  pub parameter_hash : String
  pub source_manifest_ids : List String
  pub payload_schema_version : ℕ
  pub bounded_reason : String
  pub payload : List (String × Evidence)
  pub level : Option Decimal
  pub lower : Option Decimal
  pub upper : Option Decimal

abbrev pub is_hex_code : ℕ → Bool
is_hex_code c = (leb b'0' c && leb c b'9') || (leb b'a' c && leb c b'f')

-- 64 lower-case hexadecimal digits
unfoldable pub is_sha256 : String → Bool
is_sha256 s = length (codes s) == 64 && all is_hex_code (codes s)

-- Both times or none, and what is known is not known before it happened.
unfoldable pub has_valid_times : Option ℕ → Option ℕ → Bool
has_valid_times none none = true
has_valid_times (some event) (some known) = leb event known
has_valid_times _ _ = false

-- `Observation.__post_init__`
unfoldable pub checked_observation : Observation → Result Observation
unfolding has_valid_times is_sha256
checked_observation o = do
  raise_if (not (is_instrument_id o.instrument_id)) value_error
  raise_if (not (has_valid_times o.event_time_ms o.known_time_ms)) value_error
  raise_if (not (is_sha256 o.parameter_hash)) value_error
  raise_if (ltb o.payload_schema_version 1) value_error
  raise_if
      (not (leb 1 (length (codes o.bounded_reason)) && leb (length (codes o.bounded_reason)) 1000))
      value_error
  ok o
