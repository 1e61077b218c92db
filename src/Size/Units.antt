-- ===== src/Size/Units.antt =====
-- `parseSize` on a printed number and a unit.
use bhyve_mcp.Common.{
  ℕ, ◌*◌, ◌^◌, ◌<◌, ◌≡◌, refl, arith, Bool, true, false, none, some, List, [], ◌∷◌, ◌++◌, ◌==◌,
  if◌then◌else◌, codes, show_ℕ, All, pos,
}
use mathlib.Core.List.{append-nil}
use bhyve_mcp.Common.Words.{is_space}
use bhyve_mcp.Size.{
  number, is_digit, trim_left, trim_right, trim_space, to_upper, before_unit, split_unit,
  parse_uint, parse_int, parse_size_u64, parse_size_i64, u64, i64,
}
use bhyve_mcp.Size.Digits.{value, parse_uint-value, has_digit, value-show_ℕ, value-AllDigits}

pub data SizeUnit : Type 0 where
  giga mega kilo plain : SizeUnit

abbrev pub multiplier : SizeUnit → ℕ
multiplier giga = 1024 * 1024 * 1024
multiplier mega = 1024 * 1024
multiplier kilo = 1024
multiplier plain = 1

-- The letter of a unit, in upper or in lower case.
abbrev pub letter : Bool → SizeUnit → List ℕ
letter true giga = b'g' ∷ []
letter false giga = b'G' ∷ []
letter true mega = b'm' ∷ []
letter false mega = b'M' ∷ []
letter true kilo = b'k' ∷ []
letter false kilo = b'K' ∷ []
letter _ plain = []

abbrev AllDigits : List ℕ → Type 0
AllDigits = All (λ c. is_digit c ≡ true)

abbrev NoSpace : List ℕ → Type 0
NoSpace = All (λ c. is_space c ≡ false)

trim_left_id : (s : List ℕ) → NoSpace s → trim_left s ≡ s
unfolding trim_left
trim_left_id [] h = refl
trim_left_id (c ∷ s) h = ground (arith, trim_left_id s h.1)

trim_right_id : (s : List ℕ) → NoSpace s → trim_right s ≡ s
unfolding trim_right
trim_right_id [] h = refl
trim_right_id (c ∷ []) h = ground arith
trim_right_id (c ∷ d ∷ s) h = rw (trim_right_id (d ∷ s) h.1)

trim_space_id : (s : List ℕ) → NoSpace s → trim_space s ≡ s
unfolding trim_space
trim_space_id s h = rw (trim_left_id s h) (trim_right_id s h)

digit-space : (c : ℕ) → is_digit c ≡ true → is_space c ≡ false
unfolding is_space
digit-space c h = ground arith

All-append {ℓ κ} : {A : Type ℓ} (P : A → Type κ) (s t : List A) → All P s → All P t → All P (s ++ t)
All-append P [] t h k = k
All-append P (c ∷ s) t h k = (h.0, All-append P s t h.1 k)

AllDigits-NoSpace : (s : List ℕ) → AllDigits s → NoSpace s
AllDigits-NoSpace [] h = tt
AllDigits-NoSpace (c ∷ s) h = (digit-space c h.0, AllDigits-NoSpace s h.1)

letter-NoSpace : (low : Bool) (u : SizeUnit) → NoSpace (letter low u)
unfolding is_space
letter-NoSpace true giga = (refl, tt)
letter-NoSpace true mega = (refl, tt)
letter-NoSpace true kilo = (refl, tt)
letter-NoSpace false giga = (refl, tt)
letter-NoSpace false mega = (refl, tt)
letter-NoSpace false kilo = (refl, tt)
letter-NoSpace true plain = tt
letter-NoSpace false plain = tt

to_upper-digits : (s t : List ℕ) → AllDigits s → to_upper (s ++ t) ≡ s ++ to_upper t
unfolding to_upper
to_upper-digits [] t h = refl
to_upper-digits (c ∷ s) t h = ground (arith, to_upper-digits s t h.1)

to_upper-letter : (low : Bool) (u : SizeUnit) → to_upper (letter low u) ≡ letter false u
unfolding to_upper
to_upper-letter true giga = refl
to_upper-letter true mega = refl
to_upper-letter true kilo = refl
to_upper-letter false giga = refl
to_upper-letter false mega = refl
to_upper-letter false kilo = refl
to_upper-letter true plain = refl
to_upper-letter false plain = refl

before_unit-snoc :
    (u c : ℕ) (s : List ℕ) → before_unit u (s ++ (c ∷ [])) ≡ (if c == u then some s else none)
unfolding before_unit
before_unit-snoc u c [] = refl
before_unit-snoc u c (d ∷ []) = ground arith
before_unit-snoc u c (d ∷ e ∷ s) = ground (arith, before_unit-snoc u c (e ∷ s))

before_unit-digits :
    (u : ℕ) (s : List ℕ) → is_digit u ≡ false → AllDigits s → before_unit u s ≡ none
unfolding before_unit
before_unit-digits u [] n h = refl
before_unit-digits u (d ∷ []) n h = ground arith
before_unit-digits u (d ∷ e ∷ s) n h = ground (arith, before_unit-digits u (e ∷ s) n h.1)

split_unit-letter :
    (s : List ℕ) (u : SizeUnit) → AllDigits s → split_unit (s ++ letter false u) ≡ (s, multiplier u)
unfolding split_unit
split_unit-letter s giga h = rw (before_unit-snoc b'G' b'G' s, split_unit)
split_unit-letter s mega h =
    rw (before_unit-snoc b'G' b'M' s, before_unit-snoc b'M' b'M' s, split_unit)
split_unit-letter s kilo h = rw (
  before_unit-snoc b'G' b'K' s,
  before_unit-snoc b'M' b'K' s,
  before_unit-snoc b'K' b'K' s,
  split_unit,
)
split_unit-letter s plain h = simp (
  append-nil,
  before_unit-digits b'G' s refl h,
  before_unit-digits b'M' s refl h,
  before_unit-digits b'K' s refl h,
  split_unit,
)

-- The number and the multiplier that `parseSize` goes on with.
pub split-letter :
    (low : Bool) (u : SizeUnit) (s : List ℕ)
    → AllDigits s
    → split_unit (to_upper (trim_space (s ++ letter low u))) ≡ (s, multiplier u)
split-letter low u s h =
    rw
      (
        trim_space_id (s ++ letter low u)
            (All-append _ s _ (AllDigits-NoSpace s h) (letter-NoSpace low u)),
        to_upper-digits s (letter low u) h,
        to_upper-letter low u,
      )
      (split_unit-letter s u h)

parse_uint-digits :
    (s : List ℕ) (v : ℕ)
    → has_digit s ≡ true
    → value 0 s ≡ some v
    → v < 2 ^ 64
    → parse_uint s ≡ number v
parse_uint-digits [] v d e h = cc
parse_uint-digits (c ∷ s) v d e h = ground (arith, parse_uint-value c s)

parse_int-digits :
    (s : List ℕ) (v : ℕ)
    → has_digit s ≡ true
    → AllDigits s
    → value 0 s ≡ some v
    → v < 2 ^ 63
    → parse_int s ≡ number (pos v)
unfolding parse_int
parse_int-digits [] v d a e h = cc
parse_int-digits (c ∷ s) v d a e h =
    ground (arith, a.0, parse_uint-digits (c ∷ s) v d e (omega arith))

abbrev pub size_text : Bool → SizeUnit → ℕ → List ℕ
size_text low u n = codes (show_ℕ n) ++ letter low u

module _ (low : Bool) (u : SizeUnit) (n : ℕ) where
  digits : AllDigits (codes (show_ℕ n))
  digits = value-AllDigits 0 (codes (show_ℕ n)) (value-show_ℕ n).0

  -- A printed number below 2 ^ 64 with a unit letter in either case, or with none, is parsed as
  -- the number times the unit, modulo 2 ^ 64.
  pub parse_size_u64-size_text :
      n < 2 ^ 64 → parse_size_u64 (size_text low u n) ≡ number (u64 (n * multiplier u))
  unfolding parse_size_u64
  parse_size_u64-size_text h =
      rw (split-letter low u (codes (show_ℕ n)) digits, parse_size_u64)
        (rw (parse_uint-digits (codes (show_ℕ n)) n (value-show_ℕ n).1 (value-show_ℕ n).0 h))

  -- The same for the signed parser, on a printed number below 2 ^ 63.
  pub parse_size_i64-size_text :
      n < 2 ^ 63 → parse_size_i64 (size_text low u n) ≡ number (i64 (pos (n * multiplier u)))
  unfolding parse_size_i64
  parse_size_i64-size_text h =
      rw (split-letter low u (codes (show_ℕ n)) digits, parse_size_i64)
        (rw (parse_int-digits (codes (show_ℕ n)) n (value-show_ℕ n).1 digits (value-show_ℕ n).0 h))
