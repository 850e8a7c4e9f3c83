-- ===== src/Pdu.antt =====
-- The buffers and byte streams of packets (base/util_pdu.cc).
pub mod Buffer
pub mod Bytes
pub mod Url
