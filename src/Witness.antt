-- ===== src/Witness.antt =====
-- scripts/regime-witness.py: the regimes of the recorded campaigns, from their rows.
pub mod Rows
pub mod Join
pub mod Campaign
pub mod Classify
pub mod Summary
pub mod Positions
pub mod Finding
pub mod Covers
pub mod Sources
pub mod Structure
mod Examples
