-- ===== src/Dc/Parse/Trim.antt =====
-- `trim` takes the longest runs of spaces off both ends, and nothing else.
use deltafeedback.Prelude.{
  ℕ, ◌≡◌, refl, ◌∙◌, ap, subst, ◌↔◌, inl, inr, true, false, [], ◌∷◌, ◌++◌, Bytes, All, Bool-cases,
}
use deltafeedback.Dc.Parse.{is_space, put_before, drop_space, drop_space_end, trim}

abbrev pub IsBlank : Bytes → Type 0
IsBlank = All (λ c. is_space c ≡ true)

-- Empty, or with no space in front; the same for the end.
abbrev pub StartsBare : Bytes → Type 0
StartsBare [] = Unit
StartsBare (c ∷ s) = is_space c ≡ false

abbrev pub EndsBare : Bytes → Type 0
EndsBare [] = Unit
EndsBare (c ∷ []) = is_space c ≡ false
EndsBare (c ∷ d ∷ s) = EndsBare (d ∷ s)

-- `s` is `core` between two blank texts.
pub record Trims (s core : Bytes) : Type 0 where
  pub front : Bytes
  pub back : Bytes
  pub front_blank : IsBlank front
  pub back_blank : IsBlank back
  pub splits : s ≡ front ++ (core ++ back)
  pub starts : StartsBare core
  pub ends : EndsBare core

drop_space-blank : (front s : Bytes) → IsBlank front → drop_space (front ++ s) ≡ drop_space s
unfolding drop_space
drop_space-blank [] s h = refl
drop_space-blank (c ∷ front) s (hc, h) = rw hc (drop_space-blank front s h)

drop_space_blank : (back : Bytes) → IsBlank back → drop_space back ≡ []
unfolding drop_space
drop_space_blank [] h = refl
drop_space_blank (c ∷ back) (hc, h) = rw hc (drop_space_blank back h)

drop_space_bare : (s : Bytes) → StartsBare s → drop_space s ≡ s
unfolding drop_space
drop_space_bare [] h = refl
drop_space_bare (c ∷ s) h = rw h

drop_space_end-blank : (back : Bytes) → IsBlank back → drop_space_end back ≡ []
unfolding drop_space_end put_before
drop_space_end-blank [] h = refl
drop_space_end-blank (c ∷ back) (hc, h) = rw (drop_space_end-blank back h, put_before) (rw hc)

drop_space_end-append :
    (s back : Bytes) → IsBlank back → drop_space_end (s ++ back) ≡ drop_space_end s
unfolding drop_space_end
drop_space_end-append [] back h = drop_space_end-blank back h
drop_space_end-append (c ∷ s) back h = ap (put_before c) (drop_space_end-append s back h)

drop_space_end_bare : (s : Bytes) → EndsBare s → drop_space_end s ≡ s
unfolding drop_space_end put_before
drop_space_end_bare [] h = refl
drop_space_end_bare (c ∷ []) h = rw h
drop_space_end_bare (c ∷ d ∷ s) h = rw (drop_space_end_bare (d ∷ s) h, put_before)

-- What the first loop leaves, and what it takes.
drop_space_split :
    (s : Bytes)
    → (front : Bytes) × IsBlank front × (s ≡ front ++ drop_space s) × StartsBare (drop_space s)
unfolding drop_space
drop_space_split [] = ([], tt, refl, tt)
drop_space_split (c ∷ s) = elim (Bool-cases (is_space c)) [
  | inl space ↦
      let (front, blank, split, bare) = drop_space_split s in
      rw (space, drop_space) (c ∷ front, (space, blank), ap (◌∷◌ c) split, bare)
  | inr other ↦ rw (other, drop_space) ([], tt, refl, other)
]

-- What is cut off the end, for a text that is `kept` and then `back`.
record CutsEnd (s kept : Bytes) : Type 0 where
  back : Bytes
  blank : IsBlank back
  split : s ≡ kept ++ back
  ends : EndsBare kept

put_before-CutsEnd : (c : ℕ) (s kept : Bytes) → CutsEnd s kept → CutsEnd (c ∷ s) (put_before c kept)
unfolding put_before
put_before-CutsEnd c s [] h = elim (Bool-cases (is_space c)) [
  | inl space ↦
      rw (space, put_before)
        (record {
          back = c ∷ h.back;
          blank = (space, h.blank);
          split = ap (◌∷◌ c) h.split;
          ends = tt;
        })
  | inr other ↦
      rw (other, put_before)
        (record { back = h.back; blank = h.blank; split = ap (◌∷◌ c) h.split; ends = other })
]
put_before-CutsEnd c s (d ∷ kept) h = record {
  back = h.back;
  blank = h.blank;
  split = ap (◌∷◌ c) h.split;
  ends = h.ends;
}

drop_space_end-CutsEnd : (s : Bytes) → CutsEnd s (drop_space_end s)
unfolding drop_space_end
drop_space_end-CutsEnd [] = record { back = []; blank = tt; split = refl; ends = tt }
drop_space_end-CutsEnd (c ∷ s) =
    put_before-CutsEnd c s (drop_space_end s) (drop_space_end-CutsEnd s)

put_before-StartsBare : (c : ℕ) (r : Bytes) → is_space c ≡ false → StartsBare (put_before c r)
unfolding put_before
put_before-StartsBare c [] h = rw (h, put_before) h
put_before-StartsBare c (d ∷ r) h = h

drop_space_end-StartsBare : (s : Bytes) → StartsBare s → StartsBare (drop_space_end s)
unfolding drop_space_end
drop_space_end-StartsBare [] h = tt
drop_space_end-StartsBare (c ∷ s) h = put_before-StartsBare c (drop_space_end s) h

pub trim-Trims : (s : Bytes) → Trims s (trim s)
unfolding trim
trim-Trims s =
    let (front, blank, split, starts) = drop_space_split s in
    let cut = drop_space_end-CutsEnd (drop_space s) in
    record {
      front = front;
      back = cut.back;
      front_blank = blank;
      back_blank = cut.blank;
      splits = split ∙ ap (◌++◌ front) cut.split;
      starts = drop_space_end-StartsBare (drop_space s) starts;
      ends = cut.ends;
    }

-- A blank text is trimmed to nothing, and a bare core is what is left between blanks.
trim_core :
    (front core back : Bytes)
    → IsBlank front
    → IsBlank back
    → StartsBare core
    → EndsBare core
    → trim (front ++ (core ++ back)) ≡ core
unfolding trim
trim_core front [] back f b s e =
    ap drop_space_end (drop_space-blank front back f ∙ drop_space_blank back b)
    ∙ drop_space_end-blank [] tt
trim_core front (c ∷ core) back f b s e =
    ap drop_space_end
      (drop_space-blank front (c ∷ core ++ back) f ∙ drop_space_bare (c ∷ core ++ back) s)
    ∙ drop_space_end-append (c ∷ core) back b
    ∙ drop_space_end_bare (c ∷ core) e

-- `trim` gives the one text without spaces at its ends that stands between blanks in `s`.
pub trim-Trims_iff : (s core : Bytes) → (trim s ≡ core) ↔ Trims s core
trim-Trims_iff s core = (
  λ e. subst (Trims s) e (trim-Trims s),
  λ t. ap trim t.splits ∙ trim_core t.front core t.back t.front_blank t.back_blank t.starts t.ends,
)
