-- ===== src/Md5.antt =====
-- clientbase/md5checksum.cpp and md5checksum.h: the MD5 digest. `UINT4` is a 32-bit word.
pub mod Words
pub mod Transform
pub mod Codec
pub mod Context
pub mod Blocks
pub mod Streaming
pub mod Digest
mod Tests
