-- ===== src/Pcap.antt =====
-- scripts/pcap_http.py: the intervals of an HTTP exchange and the gates on a capture. Running tshark
-- and Python's `float` are parameters.
pub mod Tshark
pub mod Extract
pub mod Grid
pub mod Order
pub mod Anchor
pub mod Columns
pub mod Capture
mod Examples
