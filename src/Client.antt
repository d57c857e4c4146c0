-- ===== src/Client.antt =====
-- scripts/bench-client.py: the client that connects once a millisecond until the guest answers.
pub mod Net
pub mod Wait
pub mod Attempt
pub mod Receive
pub mod Loop
pub mod Calibrate
pub mod Pace
pub mod Report
mod Examples
