-- ===== src/Dhcp.antt =====
-- dhcp_server.py: the options of a datagram, and the entry that it leaves.
pub mod Options
pub mod Datagram
mod Tests
