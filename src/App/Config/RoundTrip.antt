-- ===== src/App/Config/RoundTrip.antt =====
-- Reading back what `save` wrote.
use deltafeedback.Prelude.{
  ◌≡◌, ◌≢◌, refl, sym, ap, ◌∙◌, true, false, List, [], ◌∷◌, ◌++◌, append-nil, append_assoc, some,
  Bytes, All, All-append, Lacks, arith,
}
use deltafeedback.App.Config.{
  Entry, bytes_lt, put, is_blank, read_lines, split_at_eq, is_comment, read_line, read_all, load,
  print,
}
use deltafeedback.App.Config.Order.{IsSorted, Before, After}
use deltafeedback.App.Config.Dictionary.{put_last}
use deltafeedback.App.Config.Blank.{EndsBare, IsBare, trim_bare}

-- An entry that a line holds as it is.
pub record IsClean (e : Entry) : Type 0 where
  pub key_bare : IsBare e.0
  pub value_bare : IsBare e.1
  pub no_eq : Lacks b'=' e.0
  pub key_line : Lacks 10 e.0
  pub value_line : Lacks 10 e.1
  pub no_comment : (e.0 ≢ []) → is_comment e.0 ≡ false

pub record IsLoadable (m : List Entry) : Type 0 where
  pub clean : All IsClean m
  pub sorted : IsSorted m

abbrev line_of : Entry → Bytes
line_of (k, v) = k ++ b'=' ∷ v

read_lines-line : (l rest : Bytes) → Lacks 10 l → read_lines (l ++ 10 ∷ rest) ≡ l ∷ read_lines rest
unfolding read_lines
read_lines-line [] rest h = refl
read_lines-line (c ∷ l) rest (ne, h) = ground (arith, read_lines-line l rest h)

split_at_eq-join : (k v : Bytes) → Lacks b'=' k → split_at_eq (k ++ b'=' ∷ v) ≡ some (k, v)
unfolding split_at_eq
split_at_eq-join [] v h = refl
split_at_eq-join (c ∷ k) v (ne, h) = ground (arith, split_at_eq-join k v h)

line_ends : (k v : Bytes) → EndsBare v → EndsBare (k ++ b'=' ∷ v)
unfolding is_blank
line_ends [] [] h = refl
line_ends [] (c ∷ v) h = h
line_ends (c ∷ []) v h = line_ends [] v h
line_ends (c ∷ d ∷ k) v h = line_ends (d ∷ k) v h

line-IsBare : (k v : Bytes) → IsBare k → EndsBare v → IsBare (k ++ b'=' ∷ v)
unfolding is_blank
line-IsBare [] v kb vb = record { starts = refl; ends = line_ends [] v vb }
line-IsBare (c ∷ k) v kb vb = record { starts = kb.starts; ends = line_ends (c ∷ k) v vb }

line_comment :
    (k v : Bytes) → ((k ≢ []) → is_comment k ≡ false) → is_comment (k ++ b'=' ∷ v) ≡ false
line_comment [] v h = refl
line_comment (c ∷ k) v h = h (λ e. ground arith)

read_line-clean :
    (m : List Entry) (k v : Bytes) → IsClean (k, v) → read_line m (line_of (k, v)) ≡ put k v m
unfolding read_line
read_line-clean m k v h =
    rw
      (
        trim_bare (line_of (k, v)) (line-IsBare k v h.key_bare h.value_bare.ends),
        line_comment k v h.no_comment,
        split_at_eq-join k v h.no_eq,
        trim_bare k h.key_bare,
        trim_bare v h.value_bare,
      )
      refl

line-Lacks : (k v : Bytes) → Lacks 10 k → Lacks 10 v → Lacks 10 (line_of (k, v))
line-Lacks k v hk hv = All-append (λ c. c ≢ 10) k (b'=' ∷ v) hk ((λ e. ground arith), hv)

read_lines-print :
    (k v : Bytes) (m : List Entry)
    → IsClean (k, v)
    → read_lines (print ((k, v) ∷ m)) ≡ line_of (k, v) ∷ read_lines (print m)
unfolding print
read_lines-print k v m h =
    ap read_lines (sym (append_assoc k (b'=' ∷ v) (10 ∷ print m)))
    ∙ read_lines-line (line_of (k, v)) (print m) (line-Lacks k v h.key_line h.value_line)

-- The entries are put behind those that were read before.
read_all-print :
    (acc m : List Entry)
    → IsLoadable m
    → All (λ e. After e.0 acc) m
    → read_all acc (read_lines (print m)) ≡ acc ++ m
unfolding read_all
read_all-print acc [] h a = unfold read_lines print in sym (append-nil acc)
read_all-print acc ((k, v) ∷ m) h (behind, a) =
    ap (read_all acc) (read_lines-print k v m h.clean.0)
    ∙ (unfold read_all in
        ap (λ x. read_all x (read_lines (print m)))
          (read_line-clean acc k v h.clean.0 ∙ put_last k v acc behind))
    ∙ read_all-print (acc ++ (k, v) ∷ []) m (record { clean = h.clean.1; sorted = h.sorted.1 })
        (behind_all m h.sorted.0 a)
    ∙ append_assoc acc ((k, v) ∷ []) m
  where
    behind_all :
        (n : List Entry)
        → Before k n
        → All (λ e. After e.0 acc) n
        → All (λ e. After e.0 (acc ++ (k, v) ∷ [])) n
    behind_all [] b s = tt
    behind_all ((j, w) ∷ n) (lt, b) (s, ss) =
        (All-append (λ e. bytes_lt e.0 j ≡ true) acc ((k, v) ∷ []) s (lt, tt), behind_all n b ss)

All-After_none : (m : List Entry) → All (λ e. After e.0 []) m
All-After_none [] = tt
All-After_none (e ∷ m) = (tt, All-After_none m)

pub load-print : (m : List Entry) → IsLoadable m → load (print m) ≡ record { kv = m }
unfolding load
load-print m h = ap (λ x. record { kv = x }) (read_all-print [] m h (All-After_none m))
