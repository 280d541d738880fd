-- ===== src/Net.antt =====
-- include/net and net: addresses, the tables of `ArpDriver`, and its handlers.
pub mod Address
pub mod Map
pub mod Arp
mod Tests
