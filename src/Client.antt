-- ===== src/Client.antt =====
-- clientbase/clientbase.cpp: the frames of the protocol, the state of a connection, and the thread
-- that receives.
pub mod Frame
pub mod Link
pub mod Receiver
pub mod Handshake
pub mod Exchange
pub mod Session
pub mod Executer
mod Tests
mod Runs
