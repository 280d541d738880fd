-- ===== src/Rtl8139.antt =====
-- device/rtl8139.cpp: the driver of the network card.
pub mod Crc
pub mod Rx
pub mod Tx
pub mod Link
pub mod Irq
pub mod Served
pub mod Sender
pub mod Hand
pub mod InOrder
mod Tests
