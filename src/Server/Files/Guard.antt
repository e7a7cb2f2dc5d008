-- ===== src/Server/Files/Guard.antt =====
-- What `file_response` answers, and from which files.
use deltafeedback.Prelude.{
  ℕ, ◌≡◌, ◌≢◌, ◌↔◌, refl, sym, ap, subst, ◌∙◌, ◌⊎◌, inl, inr, Bool, true, false, not, ◌&&◌, [], ◌∷◌,
  ◌++◌, Option, none, some, Bytes, bytes_eq, bytes_eq_iff, is_empty, if◌then◌else◌, ◌==◌, ℤ, Result,
  Bool-cases, Option-cases, arith,
}
use deltafeedback.Server.Files.{
  Files, FileResponse, path_join, outside, not_found, etag_of, not_modified, served, size_or_max,
  answer_file, file_response,
}

outside-cons :
    (c d : ℕ) (full root : Bytes)
    → outside (c ∷ full) (d ∷ root) ≡ (if c == d then outside full root else true)
unfolding outside bytes_eq
outside-cons c d full root = ground arith

outside-append : (root rest : Bytes) → outside (root ++ rest) root ≡ false
outside-append [] rest = unfold outside in unfold bytes_eq in ground arith
outside-append (d ∷ root) rest =
    outside-cons d d (root ++ rest) root ∙ ground (arith, outside-append root rest)

inside-append :
    (full root : Bytes) → outside full root ≡ false → (rest : Bytes) × (full ≡ root ++ rest)
inside-append full [] h = (full, refl)
inside-append [] (d ∷ root) h = unfold outside in ground arith
inside-append (c ∷ full) (d ∷ root) h = elim (Bool-cases (c == d)) [
  | inl e ↦
      let (rest, q) = inside-append full root (ground (arith, outside-cons c d full root)) in
      (rest, ground arith)
  | inr e ↦ ground (arith, outside-cons c d full root)
]

-- The test lets through the paths whose text begins with the root's.
pub outside_iff :
    (full root : Bytes) → (outside full root ≡ false) ↔ ((rest : Bytes) × (full ≡ root ++ rest))
outside_iff full root = (
  inside-append full root,
  λ (rest, e). subst (λ f. outside f root ≡ false) (sym e) (outside-append root rest),
)

-- The file that is asked for, and its tag. Its path's text begins with the root's text, which a path below
-- the root has, and so has the path of a sibling such as /srv/web-old beside /srv/web.
pub record FoundFile (fs : Files) (root rel full etag : Bytes) : Type 0 where
  pub root_path : Bytes
  pub rest : Bytes
  pub ticks : ℤ
  pub resolved : fs.weakly_canonical (path_join root rel) ≡ some full
  pub root_resolved : fs.weakly_canonical root ≡ some root_path
  pub prefixed : full ≡ root_path ++ rest
  pub written : fs.last_write_time full ≡ some ticks
  pub tag : etag ≡ etag_of ticks (size_or_max (fs.file_size full))

-- Why there is nothing to answer of.
pub data NoFile (fs : Files) (root rel : Bytes) : Type 0 where
  not_prefixed :
      (full root_path : Bytes)
      → fs.weakly_canonical (path_join root rel) ≡ some full
      → fs.weakly_canonical root ≡ some root_path
      → ((rest : Bytes) → full ≢ root_path ++ rest)
      → NoFile fs root rel
  absent :
      (full : Bytes)
      → fs.weakly_canonical (path_join root rel) ≡ some full
      → (fs.last_write_time full ≡ none) ⊎ (fs.contents full ≡ none)
      → NoFile fs root rel

-- An answer: the whole file, or that the client's copy is the present one, or nothing of a file.
pub data Answered (fs : Files) (root rel inm : Bytes) : Result FileResponse → Type 0 where
  unresolved :
      (fs.weakly_canonical (path_join root rel) ≡ none) ⊎ (fs.weakly_canonical root ≡ none)
      → Answered fs root rel inm Result.throw
  nothing : NoFile fs root rel → Answered fs root rel inm (Result.ok not_found)
  current :
      (full : Bytes)
      → FoundFile fs root rel full inm
      → Answered fs root rel inm (Result.ok (not_modified inm))
  whole :
      (full etag text : Bytes)
      → FoundFile fs root rel full etag
      → inm ≢ etag
      → fs.contents full ≡ some text
      → Answered fs root rel inm (Result.ok (served full etag (some text)))

and_false : (b : Bool) → (b && false) ≡ false
and_false b = ground arith

tag_full : (inm : Bytes) (ticks : ℤ) (size : ℕ) → inm ≡ etag_of ticks size → is_empty inm ≡ false
tag_full inm ticks size e = rw e (unfold etag_of in refl)

module _ (fs : Files) (root rel inm : Bytes) where
  answer_file-Answered :
      (full root_path : Bytes)
      → fs.weakly_canonical (path_join root rel) ≡ some full
      → fs.weakly_canonical root ≡ some root_path
      → outside full root_path ≡ false
      → (w : Option ℤ) → fs.last_write_time full ≡ w
      → Answered fs root rel inm (Result.ok (answer_file fs full inm w))
  unfolding answer_file
  answer_file-Answered full root_path r1 r2 inside none w = nothing (NoFile.absent full r1 (inl w))
  answer_file-Answered full root_path r1 r2 inside (some ticks) w =
      elim (Bool-cases (bytes_eq inm etag)) [
        | inl same ↦
            let e = (bytes_eq_iff inm etag).0 same in
            subst (λ r. Answered fs root rel inm (Result.ok r))
              (ap not_modified e ∙ rw (same, tag_full inm ticks size e) refl)
              (current full (found inm e))
        | inr other ↦
            rw other (
              whole_or_nothing (fs.contents full) refl (λ e. ground (arith, bytes_eq_iff inm etag)))
      ]
    where
      size : ℕ
      size = size_or_max (fs.file_size full)

      etag : Bytes
      etag = etag_of ticks size

      found : (tag : Bytes) → tag ≡ etag → FoundFile fs root rel full tag
      found tag e =
          let (rest, prefixed) = (outside_iff full root_path).0 inside in
          record {
            root_path = root_path;
            rest = rest;
            ticks = ticks;
            resolved = r1;
            root_resolved = r2;
            prefixed = prefixed;
            written = w;
            tag = e;
          }

      whole_or_nothing :
          (o : Option Bytes)
          → fs.contents full ≡ o
          → inm ≢ etag
          → Answered fs root rel inm (
              Result.ok
                (if not (is_empty inm) && false then not_modified etag else served full etag o))
      whole_or_nothing none e ne = rw and_false (nothing (NoFile.absent full r1 (inr e)))
      whole_or_nothing (some text) e ne = rw and_false (whole full etag text (found etag refl) ne e)

  pub file_response-Answered : Answered fs root rel inm (file_response fs root rel inm)
  unfolding file_response
  file_response-Answered = elim (Option-cases (fs.weakly_canonical (path_join root rel))) [
    | inl lost ↦ rw lost (unresolved (inl lost))
    | inr (full, r1) ↦ elim (Option-cases (fs.weakly_canonical root)) [
      | inl lost ↦ rw (r1, lost) (unresolved (inr lost))
      | inr (root_path, r2) ↦
          rw (r1, r2)
            (elim (Bool-cases (outside full root_path)) [
              | inl out ↦ rw out (
                  nothing (
                    NoFile.not_prefixed full root_path r1 r2
                      (λ rest e. ground (arith, out, (outside_iff full root_path).1 (rest, e)))))
              | inr inside ↦
                  rw inside (
                    answer_file-Answered full root_path r1 r2 inside (fs.last_write_time full) refl)
            ])
    ]
  ]
