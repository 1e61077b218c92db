-- ===== src/Size/Digits.antt =====
-- `ParseUint` against the value of a numeral, and the numerals that `%d` writes.
use Prim.Native.Char.{code}
use text.Mathlib.TextLemmas.{nil-append, cons-append}
use bhyve_mcp.Common.{
  ℕ, zero, suc, ◌+◌, ◌-◌, ◌*◌, ◌/◌, ◌%◌, ◌^◌, ◌<◌, ◌≤◌, ◌≡◌, refl, ◌∙◌, ap, arith, Bool, true,
  false, Option, none, some, List, [], ◌∷◌, ◌++◌, ltb, leb, ltb→lt, if◌then◌else◌, Bool-cases, inl,
  inr, String, ◌<>◌, codes, show_ℕ, show_digit, show_fuel, All,
}
use bhyve_mcp.Size.{Parsed, number, refused, is_digit, digits_loop, parse_uint, u64, cutoff}

-- The number that a list of decimal digits writes, after the digits of `n`.
unfoldable pub value : ℕ → List ℕ → Option ℕ
value n [] = some n
value n (c ∷ s) = let rest = value (n * 10 + (c - b'0')) s in if is_digit c then rest else none

abbrev pub fits : Option ℕ → Option ℕ
fits none = none
fits (some v) = if ltb v (2 ^ 64) then some v else none

abbrev pub parsed {ℓ} : {A : Type ℓ} → Parsed A → Option A
parsed (number n) = some n
parsed (refused _) = none

-- Further digits make a number no smaller.
value-fits : (n : ℕ) (s : List ℕ) → 2 ^ 64 ≤ n → fits (value n s) ≡ none
unfolding value
value-fits n [] h = ground arith
value-fits n (c ∷ s) h = ground (arith, value-fits (n * 10 + (c - b'0')) s)

-- The test that follows the wrapped sum: it passes exactly when the sum has wrapped.
sum_wraps :
    (m d : ℕ)
    → m < 2 ^ 64
    → d < 10
    → ltb (u64 (m + d)) m ≡ (if ltb (m + d) (2 ^ 64) then false else true)
sum_wraps m d h k = ground arith

digits_loop-value : (n : ℕ) (s : List ℕ) → n < 2 ^ 64 → parsed (digits_loop n s) ≡ fits (value n s)
unfolding value digits_loop
digits_loop-value n [] h = ground arith
digits_loop-value n (c ∷ s) h = elim (Bool-cases (leb cutoff n)) [
  | inl big ↦ ground (arith, value-fits (n * 10 + (c - b'0')) s)
  | inr small ↦
      let exact : u64 (n * 10) ≡ n * 10 = ground arith in
      rw exact (elim (Bool-cases (ltb (n * 10 + (c - b'0')) (2 ^ 64))) [
        | inl inside ↦
            let same : u64 (n * 10 + (c - b'0')) ≡ n * 10 + (c - b'0') = ground arith in
            rw same (ground (arith, digits_loop-value (n * 10 + (c - b'0')) s))
        | inr outside ↦
            ground (arith, sum_wraps (n * 10) (c - b'0'), value-fits (n * 10 + (c - b'0')) s)
      ])
]

-- `ParseUint` reads exactly the nonempty lists of digits whose number is below 2 ^ 64.
pub parse_uint-value : (c : ℕ) (s : List ℕ) → parsed (parse_uint (c ∷ s)) ≡ fits (value 0 (c ∷ s))
unfolding parse_uint
parse_uint-value c s = digits_loop-value 0 (c ∷ s) (omega arith)

pub value-append :
    (n : ℕ) (s t : List ℕ) {m : ℕ} → value n s ≡ some m → value n (s ++ t) ≡ value m t
unfolding value
value-append n [] t {m} h = cc
value-append n (c ∷ s) t {m} h = ground (arith, value-append (n * 10 + (c - b'0')) s t {m = m})

codes-append : (s t : String) → codes (s <> t) ≡ codes s ++ codes t
codes-append String.[] t = rw nil-append
codes-append (String.◌∷◌ c s) t =
    rw cons-append (ap (λ (r : List ℕ). code c ∷ r) (codes-append s t))

show_digit_value : (d : ℕ) → d < 10 → codes (show_digit d) ≡ (b'0' + d) ∷ []
unfolding show_digit
show_digit_value zero h = refl
show_digit_value (suc zero) h = refl
show_digit_value (suc (suc zero)) h = refl
show_digit_value (suc (suc (suc zero))) h = refl
show_digit_value (suc (suc (suc (suc zero)))) h = refl
show_digit_value (suc (suc (suc (suc (suc zero))))) h = refl
show_digit_value (suc (suc (suc (suc (suc (suc zero)))))) h = refl
show_digit_value (suc (suc (suc (suc (suc (suc (suc zero))))))) h = refl
show_digit_value (suc (suc (suc (suc (suc (suc (suc (suc zero)))))))) h = refl
show_digit_value (suc (suc (suc (suc (suc (suc (suc (suc (suc zero))))))))) h = refl
show_digit_value (suc (suc (suc (suc (suc (suc (suc (suc (suc (suc d)))))))))) h =
    absurd (omega arith)

abbrev pub has_digit : List ℕ → Bool
has_digit [] = false
has_digit (c ∷ s) = true

digit_value : (n d : ℕ) → d < 10 → value n ((b'0' + d) ∷ []) ≡ some (n * 10 + d)
unfolding value
digit_value n d h = ground arith

has_digit-append : (s t : List ℕ) → has_digit t ≡ true → has_digit (s ++ t) ≡ true
has_digit-append [] t h = h
has_digit-append (c ∷ s) t h = refl

show_fuel_digits :
    (f n : ℕ)
    → n < f
    → (value 0 (codes (show_fuel f n)) ≡ some n) × (has_digit (codes (show_fuel f n)) ≡ true)
unfolding show_fuel
show_fuel_digits zero n h = absurd (omega arith)
show_fuel_digits (suc f) n h = elim (Bool-cases (ltb n 10)) [
  | inl small ↦
      rw (small, show_digit_value n (ltb→lt _ _ small))
        (digit_value 0 n (ltb→lt _ _ small) ∙ ap some (omega arith), refl)
  | inr large ↦
      let last : n % 10 < 10 = omega arith in
      let ih = show_fuel_digits f (n / 10) (ground arith) in
      rw (large, codes-append, show_digit_value (n % 10) last)
        (
          (value-append 0 _ _ ih.0 ∙ digit_value (n / 10) (n % 10) last) ∙ ap some (omega arith),
          has_digit-append (codes (show_fuel f (n / 10))) _ refl,
        )
]

-- A printed number reads back.
pub value-show_ℕ :
    (n : ℕ) → (value 0 (codes (show_ℕ n)) ≡ some n) × (has_digit (codes (show_ℕ n)) ≡ true)
unfolding show_ℕ
value-show_ℕ n = show_fuel_digits (suc n) n (omega arith)

pub value-AllDigits :
    (n : ℕ) (s : List ℕ) {v : ℕ} → value n s ≡ some v → All (λ c. is_digit c ≡ true) s
unfolding value
value-AllDigits n [] h = tt
value-AllDigits n (c ∷ s) {v} h = elim (Bool-cases (is_digit c)) [
  | inl d ↦ (d, value-AllDigits (n * 10 + (c - b'0')) s {v = v} (ground arith))
  | inr d ↦ absurd (ground arith)
]
