-- ===== src/Bench.antt =====
-- scripts/bench.py: the benchmark harness.
pub mod Failure
pub mod Arms
pub mod Launch
pub mod Schedule
pub mod Journal
pub mod Recorded
pub mod Ended
pub mod Order
pub mod PhaseRow
pub mod Phases
pub mod Dump
pub mod Intervals
pub mod Cpus
pub mod Online
pub mod Host
pub mod Control
pub mod Probe
pub mod Trial
pub mod Sound
pub mod Connect
pub mod Span
pub mod Groups
pub mod RowGates
pub mod Aggregate
pub mod ManifestLine
pub mod Manifest
pub mod Hashes
pub mod Artifacts
pub mod Uniform
pub mod Signature
pub mod Losses
pub mod GateSignature
pub mod Summary
mod Examples
mod TrialExamples
mod RowExamples
mod ManifestExamples
mod JournalExamples
mod SignatureExamples
