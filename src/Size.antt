-- ===== src/Size.antt =====
-- Size texts such as "10G": the three functions `parseSize`, of internal/disk/manager.go (uint64),
-- internal/console/manager.go and internal/iso/downloader.go (int64, twice the same), with the parts
-- of strings and strconv that they use.
pub mod Digits
pub mod Units
pub mod Agreement
use bhyve_mcp.Common.Words.{is_space}
use bhyve_mcp.Common.{
  ℕ, zero, suc, ℤ, pos, negsuc, ◌+◌, ◌-◌, ◌*◌, ◌%◌, ◌^◌, Bool, true, false, ◌||◌, ◌&&◌, Option,
  none, some, List, [], ◌∷◌, ltb, leb, ◌==◌, if◌then◌else◌, String, codes, not,
}

trim_left : List ℕ → List ℕ
trim_left [] = []
trim_left (c ∷ s) = let rest = trim_left s in if is_space c then rest else c ∷ s

abbrev keep_unless_space : ℕ → List ℕ → List ℕ
keep_unless_space c [] = if is_space c then [] else c ∷ []
keep_unless_space c (d ∷ s) = c ∷ d ∷ s

trim_right : List ℕ → List ℕ
trim_right [] = []
trim_right (c ∷ s) = keep_unless_space c (trim_right s)

-- `strings.TrimSpace`
unfoldable pub trim_space : List ℕ → List ℕ
unfolding is_space trim_left trim_right
trim_space s = trim_right (trim_left s)

-- `strings.ToUpper` on ASCII. No other character has an upper case that is a digit, a sign or one of
-- the units, so leaving it alone changes no result: the number is refused either way.
unfoldable pub to_upper : List ℕ → List ℕ
to_upper [] = []
to_upper (c ∷ s) = (if leb b'a' c && leb c b'z' then c - 32 else c) ∷ to_upper s

abbrev keep_front : ℕ → Option (List ℕ) → Option (List ℕ)
keep_front c none = none
keep_front c (some s) = some (c ∷ s)

-- What stands before a unit letter at the end: `HasSuffix` and `TrimSuffix` in one.
unfoldable pub before_unit : ℕ → List ℕ → Option (List ℕ)
before_unit u [] = none
before_unit u (c ∷ []) = if c == u then some [] else none
before_unit u (c ∷ d ∷ s) = keep_front c (before_unit u (d ∷ s))

-- The cases of `*strconv.NumError`.
pub data NumError : Type 0 where
  invalid_syntax out_of_range : NumError

pub data Parsed {ℓ} (A : Type ℓ) : Type ℓ where
  number : A → Parsed A
  refused : NumError → Parsed A

abbrev pub u64 : ℕ → ℕ
u64 n = n % 2 ^ 64

abbrev pub is_digit : ℕ → Bool
is_digit c = leb b'0' c && leb c b'9'

-- The largest value that can be multiplied by ten, and one.
abbrev cutoff : ℕ
cutoff = 1844674407370955162

-- The loop of `strconv.ParseUint` in base 10, for 64 bits. The sum wraps as a `uint64`.
unfoldable pub digits_loop : ℕ → List ℕ → Parsed ℕ
digits_loop n [] = number n
digits_loop n (c ∷ s) =
    let m = u64 (n * 10) in
    let n' = u64 (m + (c - b'0')) in
    let rest = digits_loop n' s in
    if is_digit c
    then if leb cutoff n
      then refused out_of_range
      else if ltb n' m
      then refused out_of_range
      else rest
    else refused invalid_syntax

unfoldable pub parse_uint : List ℕ → Parsed ℕ
parse_uint [] = refused invalid_syntax
parse_uint (c ∷ s) = digits_loop 0 (c ∷ s)

abbrev signed : Bool → Parsed ℕ → Parsed ℤ
signed true (number n) =
    if leb n (2 ^ 63)
    then if n == 0 then number (pos 0) else number (negsuc (n - 1))
    else refused out_of_range
signed false (number n) = if ltb n (2 ^ 63) then number (pos n) else refused out_of_range
signed _ (refused e) = refused e

-- `strconv.ParseInt` in base 10, for 64 bits
unfoldable pub parse_int : List ℕ → Parsed ℤ
unfolding parse_uint
parse_int [] = refused invalid_syntax
parse_int (c ∷ s) =
    if c == b'+'
    then signed false (parse_uint s)
    else if c == b'-'
    then signed true (parse_uint s)
    else signed false (parse_uint (c ∷ s))

-- A product of `int64`, with its wrap-around.
unfoldable pub i64 : ℤ → ℤ
i64 (pos n) = let m = u64 n in if ltb m (2 ^ 63) then pos m else negsuc (2 ^ 64 - m - 1)
i64 (negsuc n) = let m = u64 n in if ltb m (2 ^ 63) then negsuc m else pos (2 ^ 64 - m - 1)

unfoldable pub scale : ℤ → ℕ → ℤ
scale (pos n) k = pos (n * k)
scale (negsuc n) k = if k == 0 then pos 0 else negsuc (suc n * k - 1)

-- The number and the multiplier.
unfoldable pub split_unit : List ℕ → List ℕ × ℕ
unfolding before_unit
split_unit s = elim (before_unit b'G' s) [
  | some t ↦ (t, 1024 * 1024 * 1024)
  | none ↦ elim (before_unit b'M' s) [
    | some t ↦ (t, 1024 * 1024)
    | none ↦ elim (before_unit b'K' s) [ some t ↦ (t, 1024) | none ↦ (s, 1) ]
  ]
]

abbrev pub times_u64 : Parsed ℕ → ℕ → Parsed ℕ
times_u64 (number n) k = number (u64 (n * k))
times_u64 (refused e) k = refused e

abbrev pub times_i64 : Parsed ℤ → ℕ → Parsed ℤ
times_i64 (number n) k = number (i64 (scale n k))
times_i64 (refused e) k = refused e

-- `parseSize` of the disk manager.
unfoldable pub parse_size_u64 : List ℕ → Parsed ℕ
unfolding split_unit to_upper trim_space parse_uint
parse_size_u64 s =
    let (digits, k) = split_unit (to_upper (trim_space s)) in times_u64 (parse_uint digits) k

-- `parseSize` of the console manager and of the ISO downloader.
unfoldable pub parse_size_i64 : List ℕ → Parsed ℤ
unfolding split_unit to_upper trim_space parse_int i64 scale
parse_size_i64 s =
    let (digits, k) = split_unit (to_upper (trim_space s)) in times_i64 (parse_int digits) k
