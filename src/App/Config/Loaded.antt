-- ===== src/App/Config/Loaded.antt =====
-- What was loaded from any text can be saved and loaded again.
use deltafeedback.Prelude.{
  ℕ, ◌≡◌, ◌≢◌, sym, ap, subst, ◌∙◌, inl, inr, false, List, [], ◌∷◌, ◌++◌, Option, none, some, Bytes,
  All, Lacks, ◌==◌, bytes_eq, ==_iff, Bool-cases, arith,
}
use deltafeedback.App.Config.{
  Entry, bytes_lt, put, trim, cons_line, read_lines, cons_key, split_at_eq, is_comment, put_trimmed,
  read_line, read_all, load, print,
}
use deltafeedback.App.Config.Order.{put-IsSorted}
use deltafeedback.App.Config.Blank.{StartsBare, IsBare, trim-IsBare, trim-All, trim_head, trim_bare}
use deltafeedback.App.Config.RoundTrip.{IsClean, IsLoadable, load-print}

put-All :
    (P : Entry → Type 0) (k v : Bytes) (m : List Entry) → P (k, v) → All P m → All P (put k v m)
unfolding put
put-All P k v [] p h = (p, tt)
put-All P k v ((j, w) ∷ m) p (pj, h) = elim (Bool-cases (bytes_eq k j)) [
  | inl same ↦ rw (same, put) (p, h)
  | inr other ↦ elim (Bool-cases (bytes_lt k j)) [
    | inl lt ↦ rw (other, lt, put) (p, (pj, h))
    | inr ge ↦ rw (other, ge, put) (pj, put-All P k v m p h)
  ]
]

pub put-IsLoadable :
    (k v : Bytes) (m : List Entry) → IsClean (k, v) → IsLoadable m → IsLoadable (put k v m)
put-IsLoadable k v m clean h = record {
  clean = put-All IsClean k v m clean h.clean;
  sorted = put-IsSorted k v m h.sorted;
}

cons_line-Lacks :
    (c : ℕ) (ls : List Bytes) → c ≢ 10 → All (Lacks 10) ls → All (Lacks 10) (cons_line c ls)
cons_line-Lacks c [] ne h = ((ne, tt), tt)
cons_line-Lacks c (l ∷ ls) ne (hl, h) = ((ne, hl), h)

read_lines-Lacks : (s : Bytes) → All (Lacks 10) (read_lines s)
unfolding read_lines
read_lines-Lacks [] = tt
read_lines-Lacks (c ∷ s) = elim (Bool-cases (c == 10)) [
  | inl feed ↦ rw feed (tt, read_lines-Lacks s)
  | inr other ↦ rw other (cons_line-Lacks c (read_lines s) (λ e. ground arith) (read_lines-Lacks s))
]

-- The two parts of a line, of which the first holds no `=`.
record Splits (t : Bytes) (e : Entry) : Type 0 where
  whole : t ≡ e.0 ++ b'=' ∷ e.1
  first : Lacks b'=' e.0

abbrev SplitsIf : Bytes → Option Entry → Type 0
SplitsIf t none = Unit
SplitsIf t (some e) = Splits t e

cons_key-Splits :
    (c : ℕ) (s : Bytes) (o : Option Entry)
    → c ≢ b'='
    → SplitsIf s o
    → SplitsIf (c ∷ s) (cons_key c o)
cons_key-Splits c s none ne p = tt
cons_key-Splits c s (some (k, v)) ne p = record {
  whole = ap (◌∷◌ c) p.whole;
  first = (ne, p.first);
}

split_at_eq-Splits : (t : Bytes) → SplitsIf t (split_at_eq t)
unfolding split_at_eq
split_at_eq-Splits [] = tt
split_at_eq-Splits (c ∷ s) = elim (Bool-cases (c == b'=')) [
  | inl equal ↦ rw equal (record { whole = ap (λ x. x ∷ s) ((==_iff c b'=').0 equal); first = tt })
  | inr other ↦
      rw other (cons_key-Splits c s (split_at_eq s) (λ e. ground arith) (split_at_eq-Splits s))
]

All-split : (P : ℕ → Type 0) (k v : Bytes) (c : ℕ) → All P (k ++ c ∷ v) → All P k × All P v
All-split P [] v c h = (tt, h.1)
All-split P (x ∷ k) v c (hx, h) = let (hk, hv) = All-split P k v c h in ((hx, hk), hv)

-- A key begins as its line does.
key_comment :
    (k v : Bytes)
    → StartsBare (k ++ b'=' ∷ v)
    → is_comment (k ++ b'=' ∷ v) ≡ false
    → trim k ≢ []
    → is_comment (trim k) ≡ false
key_comment [] v s h ne = absurd (ne (trim_bare [] (record { starts = tt; ends = tt })))
key_comment (c ∷ k) v s h ne = let (r, e) = trim_head c k s in rw e h

module _ (t : Bytes) (bare : IsBare t) (line : Lacks 10 t) (proper : is_comment t ≡ false) where
  split-IsClean : (k v : Bytes) → Splits t (k, v) → IsClean (trim k, trim v)
  split-IsClean k v p =
      let (no_feed_key, no_feed_value) =
        All-split (λ c. c ≢ 10) k v b'=' (subst (Lacks 10) p.whole line) in
      record {
        key_bare = trim-IsBare k;
        value_bare = trim-IsBare v;
        no_eq = trim-All (λ c. c ≢ b'=') k p.first;
        key_line = trim-All (λ c. c ≢ 10) k no_feed_key;
        value_line = trim-All (λ c. c ≢ 10) v no_feed_value;
        no_comment =
            key_comment k v (subst StartsBare p.whole bare.starts)
              (sym (ap is_comment p.whole) ∙ proper);
      }

  put_trimmed-IsLoadable :
      (o : Option Entry) (m : List Entry)
      → SplitsIf t o
      → IsLoadable m
      → IsLoadable (put_trimmed o m)
  put_trimmed-IsLoadable none m p h = h
  put_trimmed-IsLoadable (some (k, v)) m p h =
      put-IsLoadable (trim k) (trim v) m (split-IsClean k v p) h

read_line-IsLoadable :
    (m : List Entry) (l : Bytes) → Lacks 10 l → IsLoadable m → IsLoadable (read_line m l)
unfolding read_line
read_line-IsLoadable m l line h = elim (Bool-cases (is_comment (trim l))) [
  | inl comment ↦ rw (comment, read_line) h
  | inr proper ↦
      rw (proper, read_line)
        (put_trimmed-IsLoadable (trim l) (trim-IsBare l) (trim-All (λ c. c ≢ 10) l line) proper
          (split_at_eq (trim l)) m (split_at_eq-Splits (trim l)) h)
]

read_all-IsLoadable :
    (m : List Entry) (ls : List Bytes)
    → All (Lacks 10) ls
    → IsLoadable m
    → IsLoadable (read_all m ls)
unfolding read_all
read_all-IsLoadable m [] lines h = h
read_all-IsLoadable m (l ∷ ls) (line, lines) h =
    read_all-IsLoadable (read_line m l) ls lines (read_line-IsLoadable m l line h)

pub load-IsLoadable : (text : Bytes) → IsLoadable (load text).kv
unfolding load
load-IsLoadable text =
    read_all-IsLoadable [] (read_lines text) (read_lines-Lacks text)
      (record { clean = tt; sorted = tt })

-- Whatever text was loaded, comments, blank lines and repeated keys included: what is saved of it is
-- loaded as the same configuration.
pub load-print-load : (text : Bytes) → load (print (load text).kv) ≡ load text
load-print-load text = load-print (load text).kv (load-IsLoadable text)
