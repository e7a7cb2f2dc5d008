-- ===== src/Dc/Bot/Configure.antt =====
-- `configure_if_needed`, `set_displayname` and `print_invite_qr` of src/dc/bot.cpp, and the loop
-- `wait_configure` of src/main.cpp. The events that the library will give are a list, whose end is a
-- null event.
use deltafeedback.Prelude.{
  ◌⊎◌, ℕ, ◌≡◌, refl, ap, ◌∙◌, ◌↔◌, inl, inr, Bool, true, false, List, [], ◌∷◌, ◌++◌, Option, none,
  some, Bytes, codes, is_empty, All, ◌==◌, if◌then◌else◌, ℤ, pos, negsuc, Bool-cases, arith,
}

pub data ConfigureEvent : Type 0 where
  configure_progress : ℤ → ConfigureEvent
  other_event : ConfigureEvent

abbrev pub is_int : ℕ → ℤ → Bool
is_int n (pos k) = k == n
is_int n _ = false

-- Both loops: until a progress of 1000 or 0, or the end of the events.
unfoldable pub wait_configure : List ConfigureEvent → Bool
wait_configure [] = false
wait_configure (other_event ∷ es) = wait_configure es
wait_configure (configure_progress p ∷ es) =
    if is_int 1000 p then true else if is_int 0 p then false else wait_configure es

-- A setting of the account that `dc_set_config` gets.
abbrev pub Setting : Type 0
Setting = Bytes × Bytes

-- What the library answers: whether it is configured, and its event emitter with its events.
pub record Account : Type 0 where
  pub is_configured : Bool
  pub emitter : Option (List ConfigureEvent)

abbrev waited : Option (List ConfigureEvent) → Bool
waited none = false
waited (some es) = wait_configure es

-- The answer, and the settings that are made.
unfoldable pub configure_if_needed : Account → Bytes → Bytes → Bool × List Setting
unfolding wait_configure
configure_if_needed account addr mail_pw = if account.is_configured then (true, []) else (
  waited account.emitter,
  (codes "addr", addr)
      ∷ (codes "mail_pw", mail_pw)
      ∷ (codes "bot", codes "1")
      ∷ (codes "e2ee_enabled", codes "1")
      ∷ (codes "mdns_enabled", codes "1")
      ∷ [],
)

unfoldable pub set_displayname : Bytes → List Setting
set_displayname name = if is_empty name then [] else (codes "displayname", name) ∷ []

-- The lines that are printed.
unfoldable pub print_invite_qr : Option Bytes → List Bytes
print_invite_qr none = []
print_invite_qr (some qr) =
    []
    ∷ codes "========== Invite the admin via this URL =========="
    ∷ qr
    ∷ codes "==================================================="
    ∷ []
    ∷ []

-- An event that ends the loop.
abbrev pub Ends : ConfigureEvent → Type 0
Ends (configure_progress p) = (p ≡ pos 1000) ⊎ (p ≡ pos 0)
Ends other_event = ⊥

-- The events up to a progress of 1000, none of which ends the loop.
pub record Succeeds (es : List ConfigureEvent) : Type 0 where
  pub before : List ConfigureEvent
  pub after : List ConfigureEvent
  pub goes_on : All (λ e. ¬ Ends e) before
  pub splits : es ≡ before ++ configure_progress (pos 1000) ∷ after

is_int_iff : (n : ℕ) (p : ℤ) → (is_int n p ≡ true) ↔ (p ≡ pos n)
is_int_iff n (pos k) = ground arith
is_int_iff n (negsuc k) = ((λ e. cc), λ e. absurd (ground arith))

-- An event that does not end the loop is passed over.
wait_configure_step :
    (e : ConfigureEvent) (es : List ConfigureEvent)
    → ¬ Ends e
    → wait_configure (e ∷ es) ≡ wait_configure es
unfolding wait_configure
wait_configure_step other_event es h = refl
wait_configure_step (configure_progress p) es h = elim (Bool-cases (is_int 1000 p)) [
  | inl full ↦ absurd (h (inl ((is_int_iff 1000 p).0 full)))
  | inr more ↦ elim (Bool-cases (is_int 0 p)) [
    | inl none_left ↦ absurd (h (inr ((is_int_iff 0 p).0 none_left)))
    | inr more_left ↦ rw (more, more_left) refl
  ]
]

pass : (e : ConfigureEvent) (es : List ConfigureEvent) → ¬ Ends e → Succeeds es → Succeeds (e ∷ es)
pass e es on r = record {
  before = e ∷ r.before;
  after = r.after;
  goes_on = (on, r.goes_on);
  splits = ap (◌∷◌ e) r.splits;
}

wait_configure-Succeeds : (es : List ConfigureEvent) → wait_configure es ≡ true → Succeeds es
unfolding wait_configure
wait_configure-Succeeds [] h = absurd (ground arith)
wait_configure-Succeeds (other_event ∷ es) h =
    pass other_event es (λ e. e) (wait_configure-Succeeds es h)
wait_configure-Succeeds (configure_progress p ∷ es) h = elim (Bool-cases (is_int 1000 p)) [
  | inl full ↦ record {
    before = [];
    after = es;
    goes_on = tt;
    splits = ap (λ q. configure_progress q ∷ es) ((is_int_iff 1000 p).0 full);
  }
  | inr more ↦ elim (Bool-cases (is_int 0 p)) [
    | inl none_left ↦ absurd (ground arith)
    | inr more_left ↦
        pass (configure_progress p) es (λ e. ground (arith, is_int_iff 1000 p, is_int_iff 0 p))
          (wait_configure-Succeeds es (rw (more, more_left) at h))
  ]
]

Succeeds-wait_configure :
    (before after : List ConfigureEvent)
    → All (λ e. ¬ Ends e) before
    → wait_configure (before ++ configure_progress (pos 1000) ∷ after) ≡ true
Succeeds-wait_configure [] after h = unfold wait_configure in refl
Succeeds-wait_configure (e ∷ before) after (on, h) =
    wait_configure_step e (before ++ configure_progress (pos 1000) ∷ after) on
    ∙ Succeeds-wait_configure before after h

-- The loop ends on every list of events. It answers true exactly when a progress of 1000 comes before
-- any of 0 and before the end of the events.
pub wait_configure-Succeeds_iff :
    (es : List ConfigureEvent) → (wait_configure es ≡ true) ↔ Succeeds es
wait_configure-Succeeds_iff es = (
  wait_configure-Succeeds es,
  λ r. ap wait_configure r.splits ∙ Succeeds-wait_configure r.before r.after r.goes_on,
)
