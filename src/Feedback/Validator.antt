-- ===== src/Feedback/Validator.antt =====
-- src/feedback/validator.h and validator.cpp.
pub mod Utf8
pub mod Report
use deltafeedback.Prelude.{
  ℕ, ◌+◌, Bool, true, false, not, ◌&&◌, [], ◌∷◌, Bytes, codes, bytes_eq, is_empty, bit_and, ◌==◌,
  ltb, if◌then◌else◌, ℤ, pos, ltb_ℤ,
}

pub record Limits : Type 0 where
  pub message_max_chars : ℕ
  pub name_max_chars : ℕ
  pub min_fill_time_ms : ℤ

abbrev pub default_limits : Limits
default_limits = record {
  message_max_chars = 500;
  name_max_chars = 40;
  min_fill_time_ms = pos 1500;
}

pub data FieldError : Type 0 where
  ok empty too_long bad_chars bad_locale honeypot_tripped filled_too_fast : FieldError

-- `== FieldError::Ok`.
abbrev pub is_ok : FieldError → Bool
is_ok FieldError.ok = true
is_ok _ = false

pub record ValidationReport : Type 0 where
  pub name : FieldError
  pub message : FieldError
  pub locale : FieldError
  pub honeypot : FieldError
  pub timing : FieldError

-- `ValidationReport::ok`.
unfoldable pub report_ok : ValidationReport → Bool
report_ok r =
    is_ok r.name && is_ok r.message && is_ok r.locale && is_ok r.honeypot && is_ok r.timing

pub record SubmissionInput : Type 0 where
  pub name : Bytes
  pub message : Bytes
  pub locale : Bytes
  pub honeypot : Bytes
  pub fill_time_ms : ℤ

-- The loop of `utf8_codepoint_count`; the count is at most the length, and does not wrap.
unfoldable pub utf8_codepoint_count : Bytes → ℕ
utf8_codepoint_count [] = 0
utf8_codepoint_count (c ∷ s) =
    (if not (bit_and c 0xC0 == 0x80) then 1 else 0) + utf8_codepoint_count s

unfoldable pub has_disallowed_control_chars : Bytes → Bool
has_disallowed_control_chars [] = false
has_disallowed_control_chars (c ∷ s) =
    if ltb c 0x20 && not (c == b'\t') && not (c == b'\n') && not (c == b'\r')
    then true
    else if c == 0x7F
    then true
    else has_disallowed_control_chars s

unfoldable pub check_text : Bytes → ℕ → Bool → FieldError
check_text s max_chars allow_empty =
    if is_empty s
    then (if allow_empty then FieldError.ok else FieldError.empty)
    else if has_disallowed_control_chars s
    then FieldError.bad_chars
    else if ltb max_chars (utf8_codepoint_count s)
    then FieldError.too_long
    else FieldError.ok

unfoldable pub validate : Limits → SubmissionInput → ValidationReport
validate limits input = record {
  name = check_text input.name limits.name_max_chars true;
  message = check_text input.message limits.message_max_chars false;
  locale =
      if not (bytes_eq input.locale (codes "ru")) && not (bytes_eq input.locale (codes "en"))
      then FieldError.bad_locale
      else FieldError.ok;
  honeypot = if not (is_empty input.honeypot) then FieldError.honeypot_tripped else FieldError.ok;
  timing =
      if ltb_ℤ input.fill_time_ms limits.min_fill_time_ms
      then FieldError.filled_too_fast
      else FieldError.ok;
}

unfoldable pub validate_reply : Limits → Bytes → FieldError
validate_reply limits text = check_text text limits.message_max_chars false
