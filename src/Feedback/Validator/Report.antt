-- ===== src/Feedback/Validator/Report.antt =====
-- What the validator accepts, described without its loops and branches.
use deltafeedback.Prelude.{
  ℕ, ◌≤◌, ◌≡◌, ◌≢◌, ◌↔◌, ◌⊎◌, refl, inl, inr, Bool, true, false, [], ◌∷◌, Bytes, codes,
  bytes_eq_iff, is_empty, All, arith, ◌≤ℤ◌,
}
use deltafeedback.Feedback.Validator.{
  Limits, FieldError, SubmissionInput, report_ok, utf8_codepoint_count,
  has_disallowed_control_chars, check_text, validate, is_ok,
}

-- Not a control character, but for tab, line feed and carriage return; and not DEL.
abbrev pub Printable : ℕ → Type 0
Printable c = ((0x20 ≤ c) ⊎ ((c ≡ b'\t') ⊎ ((c ≡ b'\n') ⊎ (c ≡ b'\r')))) × (c ≢ 0x7F)

has_disallowed-Printable_iff :
    (s : Bytes) → (has_disallowed_control_chars s ≡ false) ↔ All Printable s
unfolding has_disallowed_control_chars
has_disallowed-Printable_iff [] = (λ _. tt, λ _. refl)
has_disallowed-Printable_iff (c ∷ s) = ground (arith, has_disallowed-Printable_iff s)

-- A text that a field takes.
abbrev pub FitsField : Bytes → ℕ → Type 0
FitsField s max_chars = All Printable s × (utf8_codepoint_count s ≤ max_chars)

-- `check_text` finds no error exactly in the empty text where that is allowed, and in a text of
-- printable characters that is not too long.
pub check_text_iff :
    (s : Bytes) (max_chars : ℕ) (allow_empty : Bool)
    → (check_text s max_chars allow_empty ≡ FieldError.ok)
      ↔ (((s ≡ []) × (allow_empty ≡ true)) ⊎ ((s ≢ []) × FitsField s max_chars))
unfolding check_text
check_text_iff [] max_chars allow_empty = ground arith
check_text_iff (c ∷ s) max_chars allow_empty = ground (arith, has_disallowed-Printable_iff (c ∷ s))

-- A submission that passes.
pub record IsAcceptable (l : Limits) (i : SubmissionInput) : Type 0 where
  pub honeypot : i.honeypot ≡ []
  pub timing : l.min_fill_time_ms ≤ℤ i.fill_time_ms
  pub name : (i.name ≡ []) ⊎ ((i.name ≢ []) × FitsField i.name l.name_max_chars)
  pub message : (i.message ≢ []) × FitsField i.message l.message_max_chars
  pub locale : (i.locale ≡ codes "ru") ⊎ (i.locale ≡ codes "en")

is_empty_iff : (s : Bytes) → (is_empty s ≡ true) ↔ (s ≡ [])
is_empty_iff [] = ground arith
is_empty_iff (c ∷ s) = ground arith

is_ok_iff : (e : FieldError) → (is_ok e ≡ true) ↔ (e ≡ FieldError.ok)
is_ok_iff FieldError.ok = ground arith
is_ok_iff _ = ground arith

-- The report of `validate` has no error exactly for a submission with an empty honeypot, that took the least
-- time or longer to fill in, with the locale ru or en, and with a message, and a name or none, that are
-- not too long and hold no DEL and no control character but tab, line feed and carriage return; the
-- comments of validator.h name only the first two of these three.
pub validate-IsAcceptable_iff :
    (l : Limits) (i : SubmissionInput) → (report_ok (validate l i) ≡ true) ↔ IsAcceptable l i
unfolding validate report_ok
validate-IsAcceptable_iff l i =
    let name = check_text_iff i.name l.name_max_chars true in
    let message = check_text_iff i.message l.message_max_chars false in
    let name_ok = is_ok_iff (check_text i.name l.name_max_chars true) in
    let message_ok = is_ok_iff (check_text i.message l.message_max_chars false) in
    let empty = is_empty_iff i.honeypot in
    let ru = bytes_eq_iff i.locale (codes "ru") in
    let en = bytes_eq_iff i.locale (codes "en") in
    (
      (λ r.
          let n : check_text i.name l.name_max_chars true ≡ FieldError.ok = ground arith in
          let m : check_text i.message l.message_max_chars false ≡ FieldError.ok = ground arith in
          record {
            honeypot = ground arith;
            timing = ground arith;
            name = elim (name.0 n) [ inl e ↦ inl e.0 | inr f ↦ inr f ];
            message = elim (message.0 m) [ inl e ↦ absurd (ground arith) | inr f ↦ f ];
            locale = ground arith;
          }),
      (λ a.
          let n = name.1 (elim a.name [ inl e ↦ inl (e, refl) | inr f ↦ inr f ]) in
          let m = message.1 (inr a.message) in
          rw (n, m, a.honeypot) (ground (arith, a.timing, a.locale))),
    )
