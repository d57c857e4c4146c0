-- ===== src/Pass.antt =====
-- scripts/d0070-pcap-pass.py: the pass over the captures of three recorded campaigns.
pub mod Campaign
pub mod Pinned
pub mod Analyze
pub mod Verdict
pub mod Run
pub mod Confirmed
pub mod Arrival
mod Frames
mod Checksum
mod PcapFile
mod PcapFormat
mod RoundTrip
mod SelfTest
mod Examples
mod FrameExamples
