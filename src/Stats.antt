-- ===== src/Stats.antt =====
-- The statistics of scripts/bench.py and scripts/d0070-pcap-pass.py, over sorted natural numbers. A
-- percentile is kept fourfold and a median twofold, so that no fraction arises.
pub mod Percentile
pub mod Signed
pub mod PercentileLaws
pub mod Stability
pub mod StabilityLaws
mod Examples
