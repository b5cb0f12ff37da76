-- ===== src/Utils.antt =====
-- utils/utils.go: conversions of byte slices, and the decoder of fixed layouts.
pub mod Bytes
pub mod Endian
pub mod Unmarshal
