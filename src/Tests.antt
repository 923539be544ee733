-- ===== src/Tests.antt =====
-- Runs of the model on concrete inputs, and the theorems applied there.
mod Fixture
mod Layout
mod Cells
mod Wire
mod Tcp
mod Udp
mod Socks
mod Associations
mod Process
mod Life
mod Endpoint
mod Monitor
mod Queue
