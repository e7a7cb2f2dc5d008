-- ===== src/Pow/Challenge/Split.antt =====
-- Splitting a token and joining its fields are inverse.
use deltafeedback.Prelude.{
  ℕ, ◌+◌, ◌≡◌, refl, sym, ap, subst, ◌∙◌, ◌≢◌, inl, inr, [], ◌∷◌, ◌++◌, List, Option, none, some,
  append-nil, append_assoc, Bytes, Lacks, ◌==◌, ==_iff, Bool-cases, arith, All, All-append,
}
use deltafeedback.Pow.Challenge.{Fields, payload_of, split_loop, split_fields, four}

abbrev pub join : Fields → Bytes
join f = payload_of f.id_b64 f.expires f.difficulty ++ (b'.' ∷ f.sig_b64)

-- No field holds a dot.
pub record IsSplit (f : Fields) : Type 0 where
  pub id_b64 : Lacks b'.' f.id_b64
  pub expires : Lacks b'.' f.expires
  pub difficulty : Lacks b'.' f.difficulty
  pub sig_b64 : Lacks b'.' f.sig_b64

-- The loop takes a field without dots whole.
split_loop-Lacks :
    (idx : ℕ) (s rest cur : Bytes) (parts : List Bytes)
    → Lacks b'.' s
    → split_loop idx (s ++ rest) cur parts ≡ split_loop idx rest (cur ++ s) parts
unfolding split_loop
split_loop-Lacks idx [] rest cur parts h = rw append-nil
split_loop-Lacks idx (c ∷ s) rest cur parts (ne, h) =
    ground (arith, split_loop-Lacks idx s rest (cur ++ c ∷ []) parts h, append_assoc cur (c ∷ []) s)

split_loop_dot :
    (idx : ℕ) (rest cur : Bytes) (parts : List Bytes)
    → idx ≢ 3
    → split_loop idx (b'.' ∷ rest) cur parts ≡ split_loop (idx + 1) rest [] (parts ++ cur ∷ [])
unfolding split_loop
split_loop_dot idx rest cur parts h = ground arith

split_loop_last :
    (idx : ℕ) (s : Bytes) (parts : List Bytes)
    → Lacks b'.' s
    → split_loop idx s [] parts ≡ some (parts ++ s ∷ [])
split_loop_last idx s parts h =
    let e : s ++ [] ≡ s = append-nil s in
    ap (λ t. split_loop idx t [] parts) (sym e)
    ∙ split_loop-Lacks idx s [] [] parts h
    ∙ unfold split_loop in refl

split_loop-join :
    (f : Fields)
    → IsSplit f
    → split_loop 0 (join f) [] [] ≡ some (f.id_b64 ∷ f.expires ∷ f.difficulty ∷ f.sig_b64 ∷ [])
split_loop-join f h = simp append_assoc (
    split_loop-Lacks 0 f.id_b64 _ [] [] h.id_b64
    ∙ split_loop_dot 0 _ _ [] (λ e. omega arith)
    ∙ split_loop-Lacks 1 f.expires _ [] _ h.expires
    ∙ split_loop_dot 1 _ _ _ (λ e. omega arith)
    ∙ split_loop-Lacks 2 f.difficulty _ [] _ h.difficulty
    ∙ split_loop_dot 2 _ _ _ (λ e. omega arith)
    ∙ split_loop_last 3 f.sig_b64 _ h.sig_b64)

-- Splitting gives back the four fields that were joined.
pub split_fields-join : (f : Fields) → IsSplit f → split_fields (join f) ≡ some f
unfolding split_fields
split_fields-join f h = ap four (split_loop-join f h)

abbrev dotted : List Bytes → Bytes
dotted [] = []
dotted (x ∷ []) = x
dotted (x ∷ y ∷ r) = x ++ (b'.' ∷ dotted (y ∷ r))

-- What the loop adds to `parts`, at success.
record Adds (cur s : Bytes) (parts ps : List Bytes) : Type 0 where
  head : Bytes
  rest : List Bytes
  added : ps ≡ parts ++ head ∷ rest
  text : dotted (head ∷ rest) ≡ cur ++ s
  lacks : All (Lacks b'.') (head ∷ rest)

Adds-dot :
    (cur s : Bytes) (parts ps : List Bytes)
    → Lacks b'.' cur
    → Adds [] s (parts ++ cur ∷ []) ps
    → Adds cur (b'.' ∷ s) parts ps
Adds-dot cur s parts ps h a = record {
  head = cur;
  rest = a.head ∷ a.rest;
  added = a.added ∙ append_assoc parts (cur ∷ []) (a.head ∷ a.rest);
  text = rw a.text;
  lacks = (h, a.lacks);
}

Adds-byte :
    (cur s : Bytes) (c : ℕ) (parts ps : List Bytes)
    → Adds (cur ++ c ∷ []) s parts ps
    → Adds cur (c ∷ s) parts ps
Adds-byte cur s c parts ps a = record {
  head = a.head;
  rest = a.rest;
  added = a.added;
  text = a.text ∙ append_assoc cur (c ∷ []) s;
  lacks = a.lacks;
}

split_loop-Adds :
    (idx : ℕ) (s cur : Bytes) (parts ps : List Bytes)
    → Lacks b'.' cur
    → split_loop idx s cur parts ≡ some ps
    → Adds cur s parts ps
unfolding split_loop
split_loop-Adds idx [] cur parts ps h e = record {
  head = cur;
  rest = [];
  added = cc;
  text = sym (append-nil cur);
  lacks = (h, tt);
}
split_loop-Adds idx (c ∷ s) cur parts ps h e = elim (Bool-cases (c == b'.')) [
  | inl dot ↦
      let at_dot = rw dot at e in
      elim (Bool-cases (idx == 3)) [
        | inl last ↦ absurd (cc (rw last at at_dot))
        | inr more ↦
            rw ((==_iff c b'.').0 dot) (
              Adds-dot cur s parts ps h
                (split_loop-Adds (idx + 1) s [] _ ps tt (rw more at at_dot)))
      ]
  | inr other ↦
      let ne : c ≢ b'.' = ground arith in
      Adds-byte cur s c parts ps (
        split_loop-Adds idx s (cur ++ c ∷ []) parts ps (All-append _ cur _ h (ne, tt))
          (rw other at e))
]

four_fields :
    (ps : List Bytes) (f : Fields)
    → four (some ps) ≡ some f
    → ps ≡ f.id_b64 ∷ f.expires ∷ f.difficulty ∷ f.sig_b64 ∷ []
four_fields (a ∷ b ∷ c ∷ d ∷ []) f e = ground arith
four_fields _ f e = absurd (ground arith)

split_fields-Adds :
    (token : Bytes) (f : Fields) (r : Option (List Bytes))
    → split_loop 0 token [] [] ≡ r
    → four r ≡ some f
    → Adds [] token [] (f.id_b64 ∷ f.expires ∷ f.difficulty ∷ f.sig_b64 ∷ [])
split_fields-Adds token f none p e = absurd (ground arith)
split_fields-Adds token f (some ps) p e =
    subst (Adds [] token []) (four_fields ps f e) (split_loop-Adds 0 token [] [] ps tt p)

-- What was split is the join of its fields, and no field holds a dot.
pub split_fields-IsSplit :
    (token : Bytes) (f : Fields) → split_fields token ≡ some f → IsSplit f × (token ≡ join f)
unfolding split_fields
split_fields-IsSplit token f e =
    let a = split_fields-Adds token f (split_loop 0 token [] []) refl e in
    let text = subst (λ ps. dotted ps ≡ token) (sym a.added) a.text in
    let lacks = subst (All (Lacks b'.')) (sym a.added) a.lacks in
    (
      record {
        id_b64 = lacks.0;
        expires = lacks.1.0;
        difficulty = lacks.1.1.0;
        sig_b64 = lacks.1.1.1.0;
      },
      sym text ∙ simp append_assoc,
    )
