-- ===== src/Domain.antt =====
-- domain/: the immutable values that the components exchange.
mod Values
mod DecimalText
mod DecimalPrint
pub mod RoundTrip
mod Tests
mod Candles
mod Observations
mod Tracing
mod Decisions
unfoldable pub use Values.*
unfoldable pub use DecimalText.*
unfoldable pub use DecimalPrint.*
unfoldable pub use Candles.*
unfoldable pub use Observations.*
unfoldable pub use Tracing.*
unfoldable pub use Decisions.*
