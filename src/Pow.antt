-- ===== src/Pow.antt =====
-- The proof-of-work captcha: src/pow and the hex and random helpers of src/main.cpp.
pub mod Crypto
pub mod Hex
pub mod Base64
pub mod Decimal
pub mod Digest
pub mod Compare
pub mod Challenge
