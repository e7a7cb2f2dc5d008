-- ===== src/Server/Headers/Address.antt =====
-- Whose address the notification shows.
use deltafeedback.Prelude.{
  ℕ, suc, append-nil, All-append, sym, ◌+◌, ◌≤◌, ◌≡◌, ◌≢◌, refl, ap, ◌⊎◌, true, false, [], ◌∷◌,
  ◌++◌, Bytes, take, length, Lacks, All, ◌==◌, arith,
}
use deltafeedback.Dc.Parse.{trim, is_space}
use deltafeedback.Dc.Parse.Trim.{EndsBare, trim-Trims_iff}
use deltafeedback.Server.Headers.{up_to, count, strip_port, take_first, visitor_ip}

up_to-Lacks : (c : ℕ) (s : Bytes) → Lacks c (up_to c s)
unfolding up_to
up_to-Lacks c [] = tt
up_to-Lacks c (x ∷ s) = ground (arith, up_to-Lacks c s)

up_to-append : (c : ℕ) (s rest : Bytes) → Lacks c s → up_to c (s ++ c ∷ rest) ≡ s
unfolding up_to
up_to-append c [] rest h = ground arith
up_to-append c (x ∷ s) rest (hx, h) = ground (arith, up_to-append c s rest h)

count_lem : (c : ℕ) (s : Bytes) → Lacks c s → count c s ≡ 0
unfolding count
count_lem c [] h = refl
count_lem c (x ∷ s) (hx, h) = ground (arith, count_lem c s h)

count-append : (c : ℕ) (s t : Bytes) → count c (s ++ t) ≡ count c s + count c t
unfolding count
count-append c [] t = omega arith
count-append c (x ∷ s) t = omega (arith, count-append c s t)

length-take : (n : ℕ) (s : Bytes) → length (take n s) ≤ n
length-take ℕ.zero s = omega arith
length-take (suc n) [] = omega arith
length-take (suc n) (x ∷ s) = omega (arith, length-take n s)

-- A character of an address: no space, and none of the marks that separate.
abbrev pub AddressChar : ℕ → Type 0
AddressChar c = (is_space c ≡ false) × (c ≢ b',') × (c ≢ b':') × (c ≢ b'[')

abbrev pub IsAddress : Bytes → Type 0
IsAddress = All AddressChar

All-Lacks : (s : Bytes) → IsAddress s → Lacks b',' s × Lacks b':' s
All-Lacks [] h = (tt, tt)
All-Lacks (c ∷ s) (hc, h) = let (commas, colons) = All-Lacks s h in ((hc.1, commas), (hc.2, colons))

ends_bare : (s : Bytes) → All (λ c. is_space c ≡ false) s → EndsBare s
ends_bare [] h = tt
ends_bare (c ∷ []) (hc, h) = hc
ends_bare (c ∷ d ∷ s) (hc, h) = ends_bare (d ∷ s) h

trim_bare : (c : ℕ) (s : Bytes) → All (λ c. is_space c ≡ false) (c ∷ s) → trim (c ∷ s) ≡ c ∷ s
trim_bare c s h = (trim-Trims_iff (c ∷ s) (c ∷ s)).1 (record {
  front = [];
  back = [];
  front_blank = tt;
  back_blank = tt;
  splits = ap (◌∷◌ c) (sym (append-nil s));
  starts = h.0;
  ends = ends_bare (c ∷ s) h;
})

no_spaces : (s : Bytes) → IsAddress s → All (λ c. is_space c ≡ false) s
no_spaces [] h = tt
no_spaces (c ∷ s) (hc, h) = (hc.0, no_spaces s h)

strip_port_host : (s : Bytes) → IsAddress s → strip_port s ≡ s
unfolding strip_port
strip_port_host [] h = refl
strip_port_host (c ∷ s) h = ground (arith, h.0.3, count_lem b':' (c ∷ s) (All-Lacks (c ∷ s) h).1)

strip_port-append :
    (c : ℕ) (s port : Bytes)
    → IsAddress (c ∷ s)
    → IsAddress port
    → strip_port (c ∷ (s ++ b':' ∷ port)) ≡ c ∷ s
unfolding strip_port
strip_port-append c s port h p =
    let no_bracket : (c == b'[') ≡ false = ground (arith, h.0) in
    let one : (count b':' (c ∷ (s ++ b':' ∷ port)) == 1) ≡ true = one_colon in
    rw no_bracket (rw one (up_to-append b':' (c ∷ s) port (All-Lacks (c ∷ s) h).1))
  where
    one_colon : (count b':' (c ∷ (s ++ b':' ∷ port)) == 1) ≡ true
    one_colon =
        let before = count_lem b':' (c ∷ s) (All-Lacks (c ∷ s) h).1 in
        let behind = count_lem b':' port (All-Lacks port p).1 in
        let sum = count-append b':' (c ∷ s) (b':' ∷ port) in
        let here : count b':' (b':' ∷ port) ≡ 1 + count b':' port = unfold count in refl in
        ground (arith, before, behind, sum, here)

-- Behind a proxy the first address of X-Forwarded-For is shown, without its port, and cut to 64 bytes;
-- a list of later proxies and the other headers do not matter.
pub visitor_ip_leftmost :
    (c : ℕ) (s port proxies xri remote : Bytes)
    → IsAddress (c ∷ s)
    → IsAddress port
    → (visitor_ip ((c ∷ s) ++ b',' ∷ proxies) xri remote ≡ take 64 (c ∷ s))
      × (visitor_ip (((c ∷ s) ++ b':' ∷ port) ++ b',' ∷ proxies) xri remote ≡ take 64 (c ∷ s))
unfolding visitor_ip take_first
visitor_ip_leftmost c s port proxies xri remote h p = (
  rw (up_to-append b',' (c ∷ s) proxies (All-Lacks (c ∷ s) h).0)
      (rw (trim_bare c s (no_spaces (c ∷ s) h)) (ap (take 64) (strip_port_host (c ∷ s) h))),
  rw (up_to-append b',' (c ∷ (s ++ b':' ∷ port)) proxies commas)
      (rw (trim_bare c (s ++ b':' ∷ port) bare) (ap (take 64) (strip_port-append c s port h p))),
)
  where
    commas : Lacks b',' (c ∷ (s ++ b':' ∷ port))
    commas =
        All-append _ (c ∷ s) (b':' ∷ port) (All-Lacks (c ∷ s) h).0
          ((λ e. omega arith), (All-Lacks port p).0)

    bare : All (λ x. is_space x ≡ false) (c ∷ (s ++ b':' ∷ port))
    bare =
        All-append _ (c ∷ s) (b':' ∷ port) (no_spaces (c ∷ s) h)
          ((unfold is_space in refl), no_spaces port p)

-- An address taken from a header is at most 64 bytes long.
pub visitor_ip_bounded :
    (xff xri remote : Bytes) → (xff ≢ []) ⊎ (xri ≢ []) → length (visitor_ip xff xri remote) ≤ 64
unfolding visitor_ip take_first
visitor_ip_bounded xff xri remote h = ground (
  arith,
  length-take 64 (strip_port (trim (up_to b',' xff))),
  length-take 64 (strip_port (trim (up_to b',' xri))),
)
