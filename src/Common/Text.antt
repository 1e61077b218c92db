-- ===== src/Common/Text.antt =====
-- Texts: code points, decimal numerals, and the standard library's functions on paths.
use Prim.Native.Nat.{ℕ, zero, suc, ◌/◌, ◌%◌}
use Prim.Native.Char.{code}
use Prim.Native.String.{String, ◌++◌ as ◌<>◌}
use mathlib.Core.List.{List, [], ◌∷◌}
use bhyve_mcp.Common.Tests.{ltb, if◌then◌else◌}
use bhyve_mcp.Common.Int.{ℤ, pos, negsuc}

-- The code points of a text.
abbrev pub codes : String → List ℕ
codes String.[] = []
codes (String.◌∷◌ c s) = code c ∷ codes s

-- One decimal digit.
unfoldable pub show_digit : ℕ → String
show_digit zero = "0"
show_digit (suc zero) = "1"
show_digit (suc (suc zero)) = "2"
show_digit (suc (suc (suc zero))) = "3"
show_digit (suc (suc (suc (suc zero)))) = "4"
show_digit (suc (suc (suc (suc (suc zero))))) = "5"
show_digit (suc (suc (suc (suc (suc (suc zero)))))) = "6"
show_digit (suc (suc (suc (suc (suc (suc (suc zero))))))) = "7"
show_digit (suc (suc (suc (suc (suc (suc (suc (suc zero)))))))) = "8"
show_digit _ = "9"

-- `n` has at most `n + 1` digits, which is the fuel.
unfoldable pub show_fuel : ℕ → ℕ → String
show_fuel zero n = ""
show_fuel (suc f) n =
    let front = show_fuel f (n / 10) in
    if ltb n 10 then show_digit n else front <> show_digit (n % 10)

-- `fmt.Sprintf("%d", n)`
unfoldable pub show_ℕ : ℕ → String
unfolding show_fuel show_digit
show_ℕ n = show_fuel (suc n) n

unfoldable pub show_ℤ : ℤ → String
unfolding show_ℕ
show_ℤ (pos n) = show_ℕ n
show_ℤ (negsuc n) = "-" <> show_ℕ (suc n)
