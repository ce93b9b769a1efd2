-- ===== src/Lib.antt =====
-- A verification library for the trading research engine: a Python program that evaluates
-- strategies over closed one-minute candles, and backtests them, with deterministic results.
--
-- The parts, and the files that model them (paths from the repository's root):
--   Decimal       decimal arithmetic as the program uses it: 28 digits, half-even
--                 (src/trading_research/application/decimal_context.py)
--   Domain        identifiers, timeframes, candles, observations, decisions, evaluations
--                 (src/trading_research/domain)
--   Simulator     the execution of ready decisions against candles
--                 (src/trading_research/application/execution_simulator.py)
--   Sync          filling the candle store from a provider, page by page
--                 (src/trading_research/application/market_sync.py, historical_sync.py)
--   Graph         the order of the configured nodes and their run
--                 (src/trading_research/application/graph.py)
--   Policy        the decision over the observations of a run
--                 (src/trading_research/application/decision_policy.py)
--   Resampling    complete candles of higher timeframes
--                 (src/trading_research/application/resampling.py)
--   Indicators    the mechanics of the indicators, the averages, and the levels of a trade; Smc: the
--                 swings, the equal highs and lows and the order blocks; Ict: the clusters of
--                 liquidity, the market structure and the fair value gaps
--                 (src/trading_research/indicators/base.py, risk.py, smc.py, ict.py)
--   Replay        the evaluation of a strategy at each closed execution bar of a period
--                 (src/trading_research/application/backtesting.py)
--   Runtime       one run of the engine: lock, synchronization, evaluation, commit, notifications
--                 (src/trading_research/application/runtime.py, evidence.py)
--   Persistence   the tables of the runs and their evidence, of the candles and of how far a market is
--                 complete, as transactions
--                 (src/trading_research/adapters/persistence/sqlite.py)
--   Scheduler     the retries of a job and the attempts that are recorded, in any interleaving
--                 (src/trading_research/application/scheduler.py)
--   Metrics       the summary of the trades and the decisions, with its groups
--                 (src/trading_research/application/metrics.py)
--   Notifications the router of events to destinations: deduplication, queues, flushes
--                 (src/trading_research/application/notifications.py)
--   Prelude       what the files share: tests, lists, texts as keys, results, the stable sort
-- The synchronization stores the candles, the graph evaluates its plugins over them, and the
-- simulator executes the decisions. A replay gives the simulator its evaluations, and candles with
-- no gap between them.
--
-- Conventions. Times are natural numbers of milliseconds, since every constructor refuses negative
-- ones; prices are the decimals that their texts denote; a closed set of texts is a data type, an
-- open one (an identifier, a hash) a text. A raise is an `err` with the kind of exception. Loops
-- over a sequence are recursions on it. Hashes are SHA-256 digests over JSON: a value carries its
-- digest, and how it is computed is not modelled.
-- Fuel: the pagination has a round for each millisecond of a range, since a round that goes on
-- shortens the bounds; the order of the graph has a round for each node, since a round places one.
--
-- Not modelled: the digests, which are parameters or fields; the exception texts; the libraries
-- that the program calls (SQLite, HTTP, YAML, APScheduler), whose users are given records of
-- operations that may answer anything or raise; configuration, reporting, the transports of
-- notifications and the command line.
pub mod Prelude
pub mod Decimal
pub mod Domain
pub mod Simulator
pub mod Sync
pub mod Graph
pub mod Policy
pub mod Resampling
pub mod Indicators
pub mod Replay
pub mod Runtime
pub mod Persistence
pub mod Scheduler
pub mod Metrics
pub mod Notifications
