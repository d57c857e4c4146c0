-- ===== src/Merge.antt =====
-- scripts/linux-merge-warnings.py: what the kernel's config merge reports, against the fragment.
pub mod Kconfig
pub mod Classify
pub mod Laws
pub mod Fuel
pub mod Keeps
mod Examples
