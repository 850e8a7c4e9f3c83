-- ===== src/Util.antt =====
-- The text helpers of base/util.cc.
pub mod Encoding
pub mod Explode
pub mod Marks
