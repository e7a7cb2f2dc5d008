-- ===== src/Server/RateLimit/Keys.antt =====
-- The requests of one key are answered as if there were no others.
use deltafeedback.Prelude.{
  ℕ, ◌≡◌, refl, sym, subst, ap, ◌∙◌, inl, inr, Bool, true, false, List, [], ◌∷◌, some, Bytes,
  bytes_eq, bytes_eq_iff, bytes_eq_refl, if◌then◌else◌, Bool-cases, arith,
}
use mathlib.Core.Path.{ap₂}
use deltafeedback.Server.RateLimit.{
  Double, Bucket, Buckets, find_bucket, store_bucket, draw, bucket_or_new, allow,
}

pub find_bucket-store_bucket :
    {W : Type 0} (j key : Bytes) (b : Bucket W) (bs : Buckets W)
    → find_bucket j (store_bucket key b bs) ≡ (if bytes_eq key j then some b else find_bucket j bs)
unfolding find_bucket store_bucket
find_bucket-store_bucket j key b [] = refl
find_bucket-store_bucket j key b ((k, c) ∷ bs) = ground (
  arith,
  find_bucket-store_bucket j key b bs,
  bytes_eq_iff k key,
  bytes_eq_iff k j,
  bytes_eq_iff key j,
)

-- A request is its key and its time.
abbrev pub Asked : Type 0
Asked = Bytes × ℕ

abbrev pub only : Bytes → List Asked → List Asked
only key [] = []
only key ((k, t) ∷ rs) = if bytes_eq k key then (k, t) ∷ only key rs else only key rs

module _ {W : Type 0} (d : Double W) (rate burst : W) where
  -- The answers to the requests of `key`, among all requests.
  unfoldable pub answers : Bytes → List Asked → Buckets W → List Bool
  answers key [] bs = []
  answers key ((k, t) ∷ rs) bs =
      let rest = answers key rs (allow d rate burst k t bs).1 in
      if bytes_eq k key then (allow d rate burst k t bs).0 ∷ rest else rest

  abbrev pub after : Bytes → ℕ → Buckets W → Buckets W
  after k t bs = (allow d rate burst k t bs).1

  pub answers_own :
      (key k : Bytes) (t : ℕ) (rs : List Asked) (bs : Buckets W)
      → bytes_eq k key ≡ true
      → answers key ((k, t) ∷ rs) bs ≡ (allow d rate burst k t bs).0 ∷ answers key rs (after k t bs)
  unfolding answers
  answers_own key k t rs bs own = rw own refl

  pub answers_other :
      (key k : Bytes) (t : ℕ) (rs : List Asked) (bs : Buckets W)
      → bytes_eq k key ≡ false
      → answers key ((k, t) ∷ rs) bs ≡ answers key rs (after k t bs)
  unfolding answers
  answers_other key k t rs bs other = rw other refl

  pub allow_own :
      (k : Bytes) (t : ℕ) (bs : Buckets W)
      → find_bucket k (after k t bs)
        ≡ some (draw d rate burst t (bucket_or_new d rate burst (find_bucket k bs))).1
  unfolding allow
  allow_own k t bs = find_bucket-store_bucket k k _ bs ∙ rw bytes_eq_refl refl

  -- The answer and the new bucket depend on the old bucket alone.
  allow_same :
      (k : Bytes) (t : ℕ) (bs cs : Buckets W)
      → find_bucket k bs ≡ find_bucket k cs
      → ((allow d rate burst k t bs).0 ≡ (allow d rate burst k t cs).0)
        × (find_bucket k (after k t bs) ≡ find_bucket k (after k t cs))
  unfolding allow
  allow_same k t bs cs same = (
    ap (λ o. (draw d rate burst t (bucket_or_new d rate burst o)).0) same,
    allow_own k t bs
        ∙ ap (λ o. some (draw d rate burst t (bucket_or_new d rate burst o)).1) same
        ∙ sym (allow_own k t cs),
  )

  pub allow_other :
      (key k : Bytes) (t : ℕ) (bs : Buckets W)
      → bytes_eq k key ≡ false
      → find_bucket key (after k t bs) ≡ find_bucket key bs
  unfolding allow
  allow_other key k t bs other = find_bucket-store_bucket key k _ bs ∙ rw other refl

  -- Buckets that hold the same for a key answer it the same.
  answers-only_from :
      (key : Bytes) (rs : List Asked) (bs cs : Buckets W)
      → find_bucket key bs ≡ find_bucket key cs
      → answers key rs bs ≡ answers key (only key rs) cs
  answers-only_from key [] bs cs same = unfold answers in refl
  answers-only_from key ((k, t) ∷ rs) bs cs same = elim (Bool-cases (bytes_eq k key)) [
    | inl own ↦
        let e : k ≡ key = (bytes_eq_iff k key).0 own in
        let same_k = subst (λ j. find_bucket j bs ≡ find_bucket j cs) (sym e) same in
        let (answer, bucket) = allow_same k t bs cs same_k in
        let later =
          answers-only_from key rs (after k t bs) (after k t cs)
            (subst (λ j. find_bucket j (after k t bs) ≡ find_bucket j (after k t cs)) e bucket) in
        answers_own key k t rs bs own
        ∙ ap₂ (λ x xs. x ∷ xs) answer later
        ∙ rw own (sym (answers_own key k t (only key rs) cs own))
    | inr other ↦
        answers_other key k t rs bs other
        ∙ answers-only_from key rs (after k t bs) cs (allow_other key k t bs other ∙ same)
        ∙ rw other refl
  ]

  -- The limiter answers the requests of one key as it does without the requests of all other keys,
  -- wherever these stand and whatever their times.
  pub answers-only :
      (key : Bytes) (rs : List Asked) (bs : Buckets W)
      → answers key rs bs ≡ answers key (only key rs) bs
  answers-only key rs bs = answers-only_from key rs bs bs refl
