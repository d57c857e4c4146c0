-- ===== src/Exhibits.antt =====
-- scripts/report-exhibits.py: the gates that a campaign passes before an exhibit is made of it.
pub mod Rows
pub mod Lanes
pub mod Gates
pub mod Validate
pub mod Initcalls
pub mod Reading
pub mod Sections
pub mod LabelLines
pub mod LabelFile
pub mod Firmware
pub mod Passes
pub mod Steady
pub mod Bound
pub mod Systems
pub mod Unprobed
pub mod Window
mod Examples
mod SystemExamples
mod LabelExamples
