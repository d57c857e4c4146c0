-- ===== src/Label.antt =====
-- scripts/label-linux-initcalls.py: initcall addresses of a serial log resolved against System.map.
pub mod SystemMap
pub mod Resolve
pub mod Serial
pub mod Run
pub mod Laws
pub mod Examples
pub mod Table
