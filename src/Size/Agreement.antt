-- ===== src/Size/Agreement.antt =====
-- The three parsers of sizes against each other, on any text.
use bhyve_mcp.Size.Digits.{value, parse_uint-value}
use bhyve_mcp.Common.{
  ◌≢◌, sym, Option-cases, some, ℕ, ℤ, pos, negsuc, ◌-◌, ◌*◌, ◌^◌, ◌<◌, ◌≡◌, refl, ap, inl, inr,
  List, [], ◌∷◌, arith, Bool, ltb, if◌then◌else◌, true, false,
}
use bhyve_mcp.Size.{
  Parsed, number, refused, out_of_range, u64, i64, scale, digits_loop, parse_uint, parse_int,
  times_u64, times_i64, parse_size_u64, parse_size_i64, split_unit, to_upper, trim_space,
}

-- An integer of 64 bits.
abbrev pub IsI64 : ℤ → Type 0
IsI64 (pos n) = n < 2 ^ 63
IsI64 (negsuc n) = n < 2 ^ 63

u64-lt : (n : ℕ) → u64 n < 2 ^ 64
u64-lt n = omega arith

u64-u64 : (n : ℕ) → u64 (u64 n) ≡ u64 n
u64-u64 n = omega arith

i64-u64 : (n : ℕ) → i64 (pos (u64 n)) ≡ i64 (pos n)
unfolding i64
i64-u64 n = rw (u64-u64 n) refl

pos_or_less-IsI64 :
    (m : ℕ) (b : Bool) → ltb m (2 ^ 63) ≡ b → IsI64 (if b then pos m else negsuc (2 ^ 64 - m - 1))
pos_or_less-IsI64 m true e = ground arith
pos_or_less-IsI64 m false e = ground arith

less_or_pos-IsI64 :
    (m : ℕ) (b : Bool) → ltb m (2 ^ 63) ≡ b → IsI64 (if b then negsuc m else pos (2 ^ 64 - m - 1))
less_or_pos-IsI64 m true e = ground arith
less_or_pos-IsI64 m false e = ground arith

i64-IsI64 : (z : ℤ) → IsI64 (i64 z)
unfolding i64
i64-IsI64 (pos n) = pos_or_less-IsI64 (u64 n) _ refl
i64-IsI64 (negsuc n) = less_or_pos-IsI64 (u64 n) _ refl

parse_int-parse_uint :
    (s : List ℕ) (m : ℕ)
    → parse_uint s ≡ number m
    → parse_int s ≡ (if ltb m (2 ^ 63) then number (pos m) else refused out_of_range)
unfolding parse_int parse_uint digits_loop
parse_int-parse_uint [] m e = ground arith
parse_int-parse_uint (c ∷ s) m e = ground arith

empty_refused : (m : ℕ) → parse_uint [] ≢ number m
unfolding parse_uint
empty_refused m e = cc

parse_uint-number :
    (s : List ℕ) (m : ℕ) → parse_uint s ≡ number m → (value 0 s ≡ some m) × (m < 2 ^ 64)
parse_uint-number [] m e = absurd (empty_refused m e)
parse_uint-number (c ∷ s) m e = elim (Option-cases (value 0 (c ∷ s))) [
  | inl f ↦ ground (arith, parse_uint-value c s)
  | inr (v, f) ↦ ground (arith, parse_uint-value c s)
]

times-number :
    (p : Parsed ℕ) (k n : ℕ)
    → times_u64 p k ≡ number n
    → (m : ℕ) × (p ≡ number m) × (n ≡ u64 (m * k))
times-number (number m) k n e = (m, refl, ground arith)
times-number (refused r) k n e = cc

times_i64-test :
    (b : Bool) (q : Parsed ℤ) (m k n : ℕ)
    → q ≡ (if b then number (pos m) else refused out_of_range)
    → n ≡ u64 (m * k)
    → times_i64 q k ≡ (if b then number (i64 (pos n)) else refused out_of_range)
unfolding scale
times_i64-test true q m k n f e = rw (f, e) (ap number (sym (i64-u64 (m * k))))
times_i64-test false q m k n f e = rw f refl

-- A text that the disk manager reads as the size `n` is, without spaces around it and in upper case,
-- digits of a number `m` below 2 ^ 64 and the unit `k`, and `n` is their product modulo 2 ^ 64. The
-- console manager and the ISO downloader read the same 64 bits as a signed integer, which is in its
-- range, if `m` is below 2 ^ 63, and refuse the text as out of range if it is not.
pub parse_size-agree :
    (s : List ℕ) (n : ℕ)
    → parse_size_u64 s ≡ number n
    → (t : List ℕ) × (k m : ℕ) × (split_unit (to_upper (trim_space s)) ≡ (t, k))
      × (value 0 t ≡ some m)
      × (m < 2 ^ 64)
      × (n ≡ u64 (m * k))
      × IsI64 (i64 (pos n))
      × (parse_size_i64 s ≡ (if ltb m (2 ^ 63) then number (i64 (pos n)) else refused out_of_range))
unfolding parse_size_u64 parse_size_i64
parse_size-agree s n e =
    let (t, k) = split_unit (to_upper (trim_space s)) in
    let (m, f, g) = times-number (parse_uint t) k n e in
    let (v, l) = parse_uint-number t m f in
    (
      t,
      k,
      m,
      refl,
      v,
      l,
      g,
      i64-IsI64 (pos n),
      times_i64-test (ltb m (2 ^ 63)) (parse_int t) m k n (parse_int-parse_uint t m f) g,
    )
