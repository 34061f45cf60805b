-- ===== src/Board.antt =====
-- common/VControlServer.cpp: the boards' serial numbers, MACs, options and module memories.
pub mod Bit
pub mod Hex
pub mod Host
pub mod Ftdi
pub mod Usb
pub mod Password
pub mod Net
pub mod Panel
pub mod Memory
pub mod Access
pub mod Tests
mod Runs
