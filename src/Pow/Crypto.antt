-- ===== src/Pow/Crypto.antt =====
-- What src/pow/sha256.cpp takes from OpenSSL. `sha256` and `hmac_sha256` there only call the library
-- and copy its 32 bytes out, so both are parameters; a failing call (out of memory) is left out.
use deltafeedback.Prelude.{◌≡◌, Bytes, IsBytes, length}

pub record Crypto : Type 0 where
  pub sha256 : Bytes → Bytes
  pub hmac_sha256 : Bytes → Bytes → Bytes
  pub length-sha256 : (m : Bytes) → length (sha256 m) ≡ 32
  pub sha256-IsBytes : (m : Bytes) → IsBytes (sha256 m)
  pub length-hmac_sha256 : (key m : Bytes) → length (hmac_sha256 key m) ≡ 32
  pub hmac_sha256-IsBytes : (key m : Bytes) → IsBytes (hmac_sha256 key m)
