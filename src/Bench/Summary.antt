-- ===== src/Bench/Summary.antt =====
-- `cmd_summarize` of scripts/bench.py and what it calls: the summary of a campaign and its gates.
pub mod Metrics
pub mod Startup
pub mod Gates
pub mod Keys
pub mod Tables
pub mod Run
pub mod Verdicts
pub mod Passes
pub mod Lanes
mod Examples
