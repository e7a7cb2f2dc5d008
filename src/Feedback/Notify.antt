-- ===== src/Feedback/Notify.antt =====
-- `format_admin_notification` of src/feedback/service.cpp.
pub mod Marked
use deltafeedback.Prelude.{
  ℕ, ◌+◌, ◌/◌, ◌%◌, Bool, true, false, not, [], ◌∷◌, ◌++◌, Bytes, codes, is_empty, if◌then◌else◌, ℤ,
  pos, negsuc,
}
use deltafeedback.Pow.Decimal.{to_string, i64_to_str}

-- What `gmtime_r` fills in, as far as it is printed; `year` counts from 0, as %Y does.
pub record Tm : Type 0 where
  pub year : ℤ
  pub mon : ℕ
  pub mday : ℕ
  pub hour : ℕ
  pub min : ℕ

-- A conversion of `strftime` of two digits.
abbrev two_digits : ℕ → Bytes
two_digits n = (b'0' + n / 10 % 10) ∷ (b'0' + n % 10) ∷ []

abbrev middle_dot : Bytes
middle_dot = b' ' ∷ 0xC2 ∷ 0xB7 ∷ b' ' ∷ []

-- `gmtime` is the C library's calendar.
module _ (gmtime : ℤ → Tm) where
  unfoldable pub format_iso8601_utc : ℤ → Bytes
  format_iso8601_utc t =
      let tm = gmtime t in
      i64_to_str tm.year
      ++ (b'-'
          ∷ (two_digits (tm.mon + 1)
              ++ (b'-'
                  ∷ (two_digits tm.mday
                      ++ (b' '
                          ∷ (two_digits tm.hour
                              ++ (b':' ∷ (two_digits tm.min ++ codes " UTC"))))))))

  unfoldable pub format_admin_notification :
      Bytes → Bytes → ℤ → Bytes → Bytes → Bytes → Bool → Bytes
  unfolding format_iso8601_utc
  format_admin_notification ticket_id visitor_ip when_unix locale name body is_reply =
      let head =
        b'['
        ∷ (ticket_id
            ++ (b']'
                ∷ (b' '
                    ∷ ((if is_empty visitor_ip then codes "?" else visitor_ip)
                        ++ (middle_dot ++ (format_iso8601_utc when_unix ++ b'\n' ∷ [])))))) in
      let second =
        if is_reply
        then b'\n' ∷ []
        else (if not (is_empty name) then name else codes "(anonymous)")
          ++ (middle_dot ++ (locale ++ (b'\n' ∷ b'\n' ∷ []))) in
      head ++ (second ++ body)
