-- ===== src/Server/Files/Revalidate.antt =====
-- The tags of `file_response`, and how a client's copy is compared by them.
use deltafeedback.Prelude.{
  ℕ, suc, ◌≡◌, ◌≢◌, ◌↔◌, refl, sym, ap, subst, ◌∙◌, inl, inr, false, List, [], ◌∷◌, ◌++◌, Option,
  none, some, Bytes, Lacks, bytes_eq, bytes_eq_iff, is_empty, if◌then◌else◌, ℤ, pos, negsuc, Result,
  Bool-cases, arith,
}
use mathlib.Core.Path.{ap₂}
use deltafeedback.Pow.Decimal.{to_string, i64_to_str}
use deltafeedback.Pow.Decimal.RoundTrip.{to_string-Lacks_below, to_string-injective, to_string-cons}
use deltafeedback.Server.Files.{
  Files, FileResponse, Header, path_join, outside, etag_name, etag_of, served, size_or_max,
  answer_file, file_response,
}
use deltafeedback.Server.Files.Guard.{outside_iff, FoundFile, Answered, file_response-Answered}

-- The text in front of the first `b` is determined, and so is what follows.
first_unique :
    (b : ℕ) (xs ys us vs : Bytes)
    → Lacks b xs
    → Lacks b ys
    → xs ++ b ∷ us ≡ ys ++ b ∷ vs
    → (xs ≡ ys) × (us ≡ vs)
first_unique b [] [] us vs hx hy e = ground arith
first_unique b [] (y ∷ ys) us vs hx hy e = ground arith
first_unique b (x ∷ xs) [] us vs hx hy e = ground arith
first_unique b (x ∷ xs) (y ∷ ys) us vs (_, hx) (_, hy) e =
    ground (arith, first_unique b xs ys us vs hx hy)

numbers_unique :
    (a b n m : ℕ)
    → to_string a ++ b'-' ∷ (to_string n ++ b'"' ∷ [])
      ≡ to_string b ++ b'-' ∷ (to_string m ++ b'"' ∷ [])
    → (a ≡ b) × (n ≡ m)
numbers_unique a b n m e =
    let (front, back) =
      first_unique b'-' (to_string a) (to_string b) (to_string n ++ b'"' ∷ [])
        (to_string m ++ b'"' ∷ []) (to_string-Lacks_below b'-' a (omega arith))
        (to_string-Lacks_below b'-' b (omega arith)) e in
    let (size, _) =
      first_unique b'"' (to_string n) (to_string m) [] []
        (to_string-Lacks_below b'"' n (omega arith)) (to_string-Lacks_below b'"' m (omega arith))
        back in
    (to_string-injective a b front, to_string-injective n m size)

-- A number does not begin with a minus.
no_minus : (n : ℕ) (us vs : Bytes) → to_string n ++ us ≢ b'-' ∷ vs
no_minus n us vs e =
    let (c, s, q) = to_string-cons n in
    let lacks : Lacks b'-' (c ∷ s) =
      subst (Lacks b'-') q (to_string-Lacks_below b'-' n (omega arith)) in
    let h : c ∷ s ++ us ≡ b'-' ∷ vs = ap (λ x. x ++ us) (sym q) ∙ e in lacks.0 (ground arith)

rest_eq : {x y : ℕ} {xs ys : Bytes} → x ∷ xs ≡ y ∷ ys → xs ≡ ys
rest_eq e = ground arith

-- The tag tells apart the times and the sizes.
etag_of-injective : (s t : ℤ) (n m : ℕ) → etag_of s n ≡ etag_of t m → (s ≡ t) × (n ≡ m)
unfolding etag_of i64_to_str
etag_of-injective (pos a) (pos b) n m e =
    let (ticks, size) = numbers_unique a b n m (rest_eq e) in (ap pos ticks, size)
etag_of-injective (negsuc a) (negsuc b) n m e =
    let (ticks, size) = numbers_unique (suc a) (suc b) n m (rest_eq (rest_eq e)) in
    (ap negsuc (omega arith), size)
etag_of-injective (pos a) (negsuc b) n m e = absurd (
    no_minus a (b'-' ∷ (to_string n ++ b'"' ∷ []))
      (to_string (suc b) ++ b'-' ∷ (to_string m ++ b'"' ∷ [])) (rest_eq e))
etag_of-injective (negsuc a) (pos b) n m e = absurd (
    no_minus b (b'-' ∷ (to_string m ++ b'"' ∷ []))
      (to_string (suc a) ++ b'-' ∷ (to_string n ++ b'"' ∷ [])) (sym (rest_eq e)))

-- The first header of a name, as a client keeps it.
abbrev pub header : Bytes → List Header → Bytes
header name [] = []
header name ((k, v) ∷ hs) = if bytes_eq k name then v else header name hs

abbrev pub tag_in : Result FileResponse → Bytes
tag_in Result.throw = []
tag_in (Result.ok r) = header etag_name r.headers

abbrev pub status_of : Result FileResponse → ℕ
status_of Result.throw = 500
status_of (Result.ok r) = r.status

-- A file that was sent whole carries its tag.
sent_FoundFile :
    (fs : Files) (root rel inm : Bytes) (x : Result FileResponse)
    → Answered fs root rel inm x
    → status_of x ≡ 200
    → (full : Bytes) × FoundFile fs root rel full (tag_in x)
sent_FoundFile fs root rel inm x (Answered.unresolved why) e = ground arith
sent_FoundFile fs root rel inm x (Answered.nothing why) e = ground arith
sent_FoundFile fs root rel inm x (Answered.current full found) e = ground arith
sent_FoundFile fs root rel inm x (Answered.whole full etag text found ne read) e =
    (full, unfold bytes_eq in found)

served_status : (full etag : Bytes) (o : Option Bytes) → (served full etag o).status ≢ 304
served_status full etag none e = ground arith
served_status full etag (some text) e = ground arith

some_eq : {a b : Bytes} → some a ≡ some b → a ≡ b
some_eq e = ground arith

module _ (now : Files) (full : Bytes) where
  -- The answer to a request that holds a tag.
  answer_file_tag :
      (ticks : ℤ) (size : ℕ) (w : Option ℤ)
      → ((answer_file now full (etag_of ticks size) w).status ≡ 304)
        ↔ ((w ≡ some ticks) × (size_or_max (now.file_size full) ≡ size))
  unfolding answer_file
  answer_file_tag ticks size none = (λ e. ground arith, λ (e, _). ground arith)
  answer_file_tag ticks size (some t) = rw tag_there (elim (Bool-cases (bytes_eq tag present)) [
    | inl same ↦
        let (ts, ns) =
          etag_of-injective ticks t size (size_or_max (now.file_size full))
            ((bytes_eq_iff tag present).0 same) in
        rw same (λ e. (ap some (sym ts), sym ns), λ e. refl)
    | inr other ↦ rw other (
      λ e. absurd (served_status full present (now.contents full) e),
      λ (w, n). absurd (differ other w n),
    )
  ])
    where
      present : Bytes
      present = etag_of t (size_or_max (now.file_size full))

      tag : Bytes
      tag = etag_of ticks size

      tag_there : is_empty tag ≡ false
      tag_there = unfold etag_of in refl

      same_tag : some t ≡ some ticks → size_or_max (now.file_size full) ≡ size → tag ≡ present
      same_tag w n = ap₂ etag_of (sym (ground arith)) (sym n)

      differ :
          bytes_eq tag present ≡ false
          → some t ≡ some ticks
          → size_or_max (now.file_size full) ≡ size
          → ⊥
      differ other w n = ground (arith, bytes_eq_iff tag present, same_tag w n)

module _ (fs now : Files) (root rel inm : Bytes) where
  now_at :
      (full root_path : Bytes)
      → now.weakly_canonical (path_join root rel) ≡ some full
      → now.weakly_canonical root ≡ some root_path
      → outside full root_path ≡ false
      → (held : Bytes)
      → file_response now root rel held
        ≡ Result.ok (answer_file now full held (now.last_write_time full))
  unfolding file_response
  now_at full root_path r1 r2 inside held = rw (r1, r2, inside) refl

  asked_again :
      ((p : Bytes) → now.weakly_canonical p ≡ fs.weakly_canonical p)
      → (full held : Bytes) → FoundFile fs root rel full held
      → (status_of (file_response now root rel held) ≡ 304) ↔ (
          (now.last_write_time full ≡ fs.last_write_time full)
          × (size_or_max (now.file_size full) ≡ size_or_max (fs.file_size full)))
  asked_again paths full held found =
      let inside = (outside_iff full found.root_path).1 (found.rest, found.prefixed) in
      let answer =
        now_at full found.root_path (paths (path_join root rel) ∙ found.resolved)
          (paths root ∙ found.root_resolved) inside held in
      rw (answer, found.tag, found.written)
        (answer_file_tag now full found.ticks (size_or_max (fs.file_size full))
          (now.last_write_time full))

  -- A client that was sent a file, and asks later with the tag that came with it, is answered 304 exactly
  -- if the file's time and size are the same still (a size that could not be read counts as the
  -- largest). The paths resolve to the same files as before.
  pub file_response-revalidates :
      let sent = file_response fs root rel inm in
      status_of sent ≡ 200
      → ((p : Bytes) → now.weakly_canonical p ≡ fs.weakly_canonical p)
      → (full : Bytes) → fs.weakly_canonical (path_join root rel) ≡ some full
      → (status_of (file_response now root rel (tag_in sent)) ≡ 304) ↔ (
          (now.last_write_time full ≡ fs.last_write_time full)
          × (size_or_max (now.file_size full) ≡ size_or_max (fs.file_size full)))
  file_response-revalidates whole paths full at =
      let (f, found) =
        sent_FoundFile fs root rel inm (file_response fs root rel inm)
          (file_response-Answered fs root rel inm) whole in
      subst
        (λ f.
          (status_of (file_response now root rel (tag_in (file_response fs root rel inm))) ≡ 304)
          ↔ ((now.last_write_time f ≡ fs.last_write_time f)
              × (size_or_max (now.file_size f) ≡ size_or_max (fs.file_size f))))
        (some_eq (sym found.resolved ∙ at))
        (asked_again paths f (tag_in (file_response fs root rel inm)) found)
