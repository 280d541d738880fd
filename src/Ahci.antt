-- ===== src/Ahci.antt =====
-- device/ahci.cpp: reading sectors through a port of the AHCI controller.
pub mod Slots
pub mod Command
pub mod Read
pub mod Wait
pub mod Bytes
pub mod Samples
mod Tests
