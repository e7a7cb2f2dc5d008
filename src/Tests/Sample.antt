-- ===== src/Tests/Sample.antt =====
-- The inputs that the tests share.
use deltafeedback.Prelude.{
  ℕ, zero, suc, ◌%◌, ◌≡◌, refl, [], ◌∷◌, none, some, Bytes, IsBytes, length, codes, arith, pos,
}
use deltafeedback.Pow.Crypto.{Crypto}
use deltafeedback.Pow.Challenge.{ChallengeIssuer}
use deltafeedback.Db.Schema.{TicketRow, MessageRow, Database}

abbrev pub zeros : ℕ → Bytes
zeros zero = []
zeros (suc n) = 0 ∷ zeros n

pub length-zeros : (n : ℕ) → length (zeros n) ≡ n
length-zeros zero = refl
length-zeros (suc n) = omega (arith, length-zeros n)

pub zeros-IsBytes : (n : ℕ) → IsBytes (zeros n)
zeros-IsBytes zero = tt
zeros-IsBytes (suc n) = (omega arith, zeros-IsBytes n)

-- A checksum in place of a digest: it has eight leading zero bits, and tells texts by length.
abbrev pub checksum : Bytes → Bytes
checksum m = 0 ∷ length m % 256 ∷ zeros 30

pub length-checksum : (m : Bytes) → length (checksum m) ≡ 32
length-checksum m = omega (arith, length-zeros 30)

pub checksum-IsBytes : (m : Bytes) → IsBytes (checksum m)
checksum-IsBytes m = (omega arith, (omega arith, zeros-IsBytes 30))

abbrev pub toy_crypto : Crypto
toy_crypto = record {
  sha256 = checksum;
  hmac_sha256 = λ key m. checksum m;
  length-sha256 = length-checksum;
  sha256-IsBytes = checksum-IsBytes;
  length-hmac_sha256 = λ key m. length-checksum m;
  hmac_sha256-IsBytes = λ key m. checksum-IsBytes m;
}

abbrev pub issuer : ChallengeIssuer
issuer = record { secret = codes "k"; difficulty_bits = 8; ttl = pos 300 }

abbrev pub open_row : TicketRow
open_row = record {
  id = codes "A3F2K9";
  read_token_hash = checksum (codes "token");
  name = codes "Ann";
  locale = codes "en";
  status = codes "awaiting_visitor";
  created_at = pos 1000;
  closed_at = none;
}

abbrev pub closed_row : TicketRow
closed_row = record {
  id = codes "B7C0D1";
  read_token_hash = checksum (codes "other");
  name = [];
  locale = codes "ru";
  status = codes "closed";
  created_at = pos 500;
  closed_at = some (pos 900);
}

abbrev pub asked : MessageRow
asked = record {
  id = 1;
  ticket_id = codes "A3F2K9";
  sender = codes "visitor";
  body = codes "hello";
  created_at = pos 1000;
  visitor_ip = none;
  dc_msg_id = some 77;
}

abbrev pub two_tickets : Database
two_tickets = record {
  state = [];
  tickets = open_row ∷ closed_row ∷ [];
  messages = asked ∷ [];
  pow_replay = [];
  last_message_id = 1;
}
