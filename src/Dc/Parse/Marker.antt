-- ===== src/Dc/Parse/Marker.antt =====
-- The scan of `parse_admin_message` finds the first marker of a text.
use deltafeedback.Prelude.{
  ℕ, ◌≡◌, refl, sym, ◌∙◌, ap, subst, inl, inr, ◌≤◌, true, [], ◌∷◌, ◌++◌, Option, none, some, Bytes,
  length, append_assoc, append-nil, arith, Option-cases,
}
use deltafeedback.Dc.Parse.{is_id_char, marker_at, Found, scan}

-- Six characters of A-Z and 0-9.
abbrev pub IsId : Bytes → Type 0
IsId (a ∷ b ∷ c ∷ d ∷ e ∷ f ∷ []) =
    (is_id_char a ≡ true)
    × (is_id_char b ≡ true)
    × (is_id_char c ≡ true)
    × (is_id_char d ≡ true)
    × (is_id_char e ≡ true)
    × (is_id_char f ≡ true)
IsId _ = ⊥

abbrev pub bracketed : Bytes → Bytes → Bytes
bracketed id after = b'[' ∷ (id ++ (b']' ∷ after))

-- A marker stands in `s` behind `before`.
pub record Marks (s before id after : Bytes) : Type 0 where
  pub is_id : IsId id
  pub splits : s ≡ before ++ bracketed id after

-- The outcome names the first marker, or there is none.
abbrev pub IsFirstMarker : Bytes → Option Found → Type 0
IsFirstMarker s none = (before id after : Bytes) → Marks s before id after → ⊥
IsFirstMarker s (some f) =
    Marks s f.before f.id f.after
    × ((before id after : Bytes) → Marks s before id after → length f.before ≤ length before)

pub marker_at-bracketed :
    (id after : Bytes) → IsId id → marker_at (bracketed id after) ≡ some (id, after)
unfolding marker_at
marker_at-bracketed (a ∷ b ∷ c ∷ d ∷ e ∷ f ∷ []) after (ha, hb, hc, hd, he, hf) = ground arith
marker_at-bracketed [] after h = elim h [ ]
marker_at-bracketed (_ ∷ []) after h = elim h [ ]
marker_at-bracketed (_ ∷ _ ∷ []) after h = elim h [ ]
marker_at-bracketed (_ ∷ _ ∷ _ ∷ []) after h = elim h [ ]
marker_at-bracketed (_ ∷ _ ∷ _ ∷ _ ∷ []) after h = elim h [ ]
marker_at-bracketed (_ ∷ _ ∷ _ ∷ _ ∷ _ ∷ []) after h = elim h [ ]
marker_at-bracketed (_ ∷ _ ∷ _ ∷ _ ∷ _ ∷ _ ∷ _ ∷ _) after h = elim h [ ]

-- What the test reads off a text.
record Sound (s id after : Bytes) : Type 0 where
  is_id : IsId id
  splits : s ≡ bracketed id after

marker_at-Sound : (s id after : Bytes) → marker_at s ≡ some (id, after) → Sound s id after
unfolding marker_at
marker_at-Sound (o ∷ a ∷ b ∷ c ∷ d ∷ e ∷ f ∷ z ∷ rest) id after h =
    let eqs : (o ≡ b'[') × (z ≡ b']') × (id ≡ a ∷ b ∷ c ∷ d ∷ e ∷ f ∷ []) × (after ≡ rest) =
      ground arith in
    let k : IsId (a ∷ b ∷ c ∷ d ∷ e ∷ f ∷ []) = ground arith in
    record { is_id = subst IsId (sym eqs.2) k; splits = rw (eqs.0, eqs.1, eqs.2, eqs.3) refl }
marker_at-Sound s id after h = absurd (ground arith)

-- The outcome of the scan from `before` on, for the rest `s` of the text.
abbrev ScansFrom : Bytes → Bytes → Option Found → Type 0
ScansFrom before s none = (front id after : Bytes) → Marks s front id after → ⊥
ScansFrom before s (some f) =
    (front : Bytes) × (f.before ≡ before ++ front)
    × Marks s front f.id f.after
    × ((other id after : Bytes) → Marks s other id after → length front ≤ length other)

no-Marks : (front id after : Bytes) → Marks [] front id after → ⊥
no-Marks [] id after m = ground (arith, m.splits)
no-Marks (c ∷ front) id after m = ground (arith, m.splits)

-- Past a position without a marker.
step-Marks :
    (c : ℕ) (s front id after : Bytes)
    → marker_at (c ∷ s) ≡ none
    → Marks (c ∷ s) front id after
    → (rest : Bytes) × (front ≡ c ∷ rest) × Marks s rest id after
step-Marks c s [] id after none_here m =
    let e = sym none_here ∙ ap marker_at m.splits ∙ marker_at-bracketed id after m.is_id in
    absurd (ground arith)
step-Marks c s (d ∷ front) id after none_here m =
    let hd : d ≡ c = ground (arith, m.splits) in
    let tl : s ≡ front ++ bracketed id after = ground (arith, m.splits) in
    (front, ap (λ x. x ∷ front) hd, record { is_id = m.is_id; splits = tl })

scan_step :
    (c : ℕ) (before s : Bytes) (r : Option Found)
    → marker_at (c ∷ s) ≡ none
    → ScansFrom (before ++ c ∷ []) s r
    → ScansFrom before (c ∷ s) r
scan_step c before s none none_here h = λ front id after m.
    let (rest, e, m1) = step-Marks c s front id after none_here m in h rest id after m1
scan_step c before s (some f) none_here (front, e, m, least) = (
  c ∷ front,
  e ∙ append_assoc before (c ∷ []) front,
  record { is_id = m.is_id; splits = ap (◌∷◌ c) m.splits },
  λ other id after m1.
      let (rest, e1, m2) = step-Marks c s other id after none_here m1 in
      let le = least rest id after m2 in
      subst (λ o. length (c ∷ front) ≤ length o) (sym e1) (omega arith),
)

scan-ScansFrom : (before s : Bytes) → ScansFrom before s (scan before s)
unfolding scan
scan-ScansFrom before [] = no-Marks
scan-ScansFrom before (c ∷ s) = elim (Option-cases (marker_at (c ∷ s))) [
  | inl none_here ↦
      rw (none_here, scan)
        (scan_step c before s (scan (before ++ c ∷ []) s) none_here
          (scan-ScansFrom (before ++ c ∷ []) s))
  | inr ((id, after), e) ↦
      let sound = marker_at-Sound (c ∷ s) id after e in
      rw (e, scan)
        (
          [],
          sym (append-nil before),
          record { is_id = sound.is_id; splits = sound.splits },
          λ other id after m. omega arith,
        )
]

-- The scan finds a marker, six id characters in brackets, with no marker before it, or there is no
-- marker in the text.
pub scan-IsFirstMarker : (s : Bytes) → IsFirstMarker s (scan [] s)
scan-IsFirstMarker s = from (scan [] s) (scan-ScansFrom [] s)
  where
    from : (r : Option Found) → ScansFrom [] s r → IsFirstMarker s r
    from none h = h
    from (some f) (front, e, m, least) = (
      record { is_id = m.is_id; splits = m.splits ∙ ap (λ b. b ++ bracketed f.id f.after) (sym e) },
      λ other id after m1. subst (λ b. length b ≤ length other) (sym e) (least other id after m1),
    )
