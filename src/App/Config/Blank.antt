-- ===== src/App/Config/Blank.antt =====
-- Trimming: what it leaves has no blank at its ends and no new characters, and is trimmed to itself.
use deltafeedback.Prelude.{ℕ, ◌≡◌, refl, ap, ◌∙◌, inl, inr, false, [], ◌∷◌, Bytes, All, Bool-cases}
use deltafeedback.App.Config.{is_blank, drop_blank, keep_before, drop_blank_end, trim}

abbrev pub StartsBare : Bytes → Type 0
StartsBare [] = Unit
StartsBare (c ∷ s) = is_blank c ≡ false

abbrev pub EndsBare : Bytes → Type 0
EndsBare [] = Unit
EndsBare (c ∷ []) = is_blank c ≡ false
EndsBare (c ∷ d ∷ s) = EndsBare (d ∷ s)

-- Nothing to trim.
pub record IsBare (s : Bytes) : Type 0 where
  pub starts : StartsBare s
  pub ends : EndsBare s

drop_blank_bare : (s : Bytes) → StartsBare s → drop_blank s ≡ s
unfolding drop_blank
drop_blank_bare [] h = refl
drop_blank_bare (c ∷ s) h = rw h

drop_blank_end_bare : (s : Bytes) → EndsBare s → drop_blank_end s ≡ s
unfolding drop_blank_end keep_before
drop_blank_end_bare [] h = refl
drop_blank_end_bare (c ∷ []) h = rw h
drop_blank_end_bare (c ∷ d ∷ s) h = rw (drop_blank_end_bare (d ∷ s) h, keep_before)

pub trim_bare : (s : Bytes) → IsBare s → trim s ≡ s
unfolding trim
trim_bare s h = ap drop_blank_end (drop_blank_bare s h.starts) ∙ drop_blank_end_bare s h.ends

drop_blank-StartsBare : (s : Bytes) → StartsBare (drop_blank s)
unfolding drop_blank
drop_blank-StartsBare [] = tt
drop_blank-StartsBare (c ∷ s) = elim (Bool-cases (is_blank c)) [
  | inl blank ↦ rw blank (drop_blank-StartsBare s)
  | inr other ↦ rw (other, drop_blank) other
]

keep_before-EndsBare : (c : ℕ) (s : Bytes) → EndsBare s → EndsBare (keep_before c s)
unfolding keep_before
keep_before-EndsBare c [] h = elim (Bool-cases (is_blank c)) [
  | inl blank ↦ rw (blank, keep_before) tt
  | inr other ↦ rw (other, keep_before) other
]
keep_before-EndsBare c (d ∷ s) h = h

drop_blank_end-EndsBare : (s : Bytes) → EndsBare (drop_blank_end s)
unfolding drop_blank_end
drop_blank_end-EndsBare [] = tt
drop_blank_end-EndsBare (c ∷ s) =
    keep_before-EndsBare c (drop_blank_end s) (drop_blank_end-EndsBare s)

keep_before-StartsBare : (c : ℕ) (s : Bytes) → is_blank c ≡ false → StartsBare (keep_before c s)
unfolding keep_before
keep_before-StartsBare c [] h = rw (h, keep_before) h
keep_before-StartsBare c (d ∷ s) h = h

drop_blank_end-StartsBare : (s : Bytes) → StartsBare s → StartsBare (drop_blank_end s)
unfolding drop_blank_end
drop_blank_end-StartsBare [] h = tt
drop_blank_end-StartsBare (c ∷ s) h = keep_before-StartsBare c (drop_blank_end s) h

pub trim-IsBare : (s : Bytes) → IsBare (trim s)
unfolding trim
trim-IsBare s = record {
  starts = drop_blank_end-StartsBare (drop_blank s) (drop_blank-StartsBare s);
  ends = drop_blank_end-EndsBare (drop_blank s);
}

module _ (P : ℕ → Type 0) where
  drop_blank-All : (s : Bytes) → All P s → All P (drop_blank s)
  unfolding drop_blank
  drop_blank-All [] h = tt
  drop_blank-All (c ∷ s) (hc, h) = elim (Bool-cases (is_blank c)) [
    | inl blank ↦ rw (blank, drop_blank) (drop_blank-All s h)
    | inr other ↦ rw (other, drop_blank) (hc, h)
  ]

  keep_before-All : (c : ℕ) (s : Bytes) → P c → All P s → All P (keep_before c s)
  unfolding keep_before
  keep_before-All c [] hc h = elim (Bool-cases (is_blank c)) [
    | inl blank ↦ rw (blank, keep_before) tt
    | inr other ↦ rw (other, keep_before) (hc, tt)
  ]
  keep_before-All c (d ∷ s) hc h = (hc, h)

  drop_blank_end-All : (s : Bytes) → All P s → All P (drop_blank_end s)
  unfolding drop_blank_end
  drop_blank_end-All [] h = tt
  drop_blank_end-All (c ∷ s) (hc, h) =
      keep_before-All c (drop_blank_end s) hc (drop_blank_end-All s h)

  pub trim-All : (s : Bytes) → All P s → All P (trim s)
  unfolding trim
  trim-All s h = drop_blank_end-All (drop_blank s) (drop_blank-All s h)

-- A bare text keeps its first character, or is empty.
pub trim_head : (c : ℕ) (s : Bytes) → is_blank c ≡ false → (r : Bytes) × (trim (c ∷ s) ≡ c ∷ r)
unfolding trim drop_blank drop_blank_end
trim_head c s h = rw (h, drop_blank_end) (head (drop_blank_end s))
  where
    head : (t : Bytes) → (r : Bytes) × (keep_before c t ≡ c ∷ r)
    head [] = ([], unfold keep_before in rw h)
    head (d ∷ t) = (d ∷ t, unfold keep_before in refl)
