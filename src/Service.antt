-- ===== src/Service.antt =====
-- The requests that a connected client sends, and the threads that work on them: common/CommonServer.cpp.
pub mod State
pub mod Safety
pub mod Directory
pub mod Sends
pub mod Download
pub mod Command
pub mod Upload
pub mod Loading
pub mod Modules
pub mod Files
pub mod Catalog
pub mod AllFiles
pub mod Dispatch
pub mod Listen
mod Tests
mod Runs
pub mod Script
