-- ===== src/Util.antt =====
-- util.go: the CRC-16/IBM checksum and the byte reader.
pub mod Crc
pub mod ByteReader
