-- ===== src/Common/Words.antt =====
-- The functions of the standard library's package strings that take a text apart.
use Prim.Native.Char.{code}
use Prim.Native.String.{String, ◌++◌ as ◌<>◌}
use mathlib.Core.Path.{◌≡◌, refl}
use Prim.Native.Nat.{ℕ}
use mathlib.Core.Bool.{Bool, true, false, ◌||◌, ◌&&◌}
use mathlib.Core.Option.{Option, none, some}
use mathlib.Core.List.{List, [], ◌∷◌}
use bhyve_mcp.Common.Tests.{◌==◌, leb, ◌=ₛ◌, if◌then◌else◌}

-- A character put before the first of the texts.
abbrev prepend : String → List String → List String
prepend c [] = c ∷ []
prepend c (e ∷ es) = (c <> e) ∷ es

-- `strings.Split` at a single character
unfoldable pub split : ℕ → String → List String
split sep String.[] = "" ∷ []
split sep (String.◌∷◌ c s) =
    let rest = split sep s in if code c == sep then "" ∷ rest else prepend (String.◌∷◌ c "") rest

-- `unicode.IsSpace`
unfoldable pub is_space : ℕ → Bool
is_space c =
    (leb 9 c && leb c 13)
    || (c == 32)
    || (c == 0x85)
    || (c == 0xa0)
    || (c == 0x1680)
    || (leb 0x2000 c && leb c 0x200a)
    || (c == 0x2028)
    || (c == 0x2029)
    || (c == 0x202f)
    || (c == 0x205f)
    || (c == 0x3000)

-- The pieces between single white space characters.
pieces : String → List String
pieces String.[] = "" ∷ []
pieces (String.◌∷◌ c s) =
    let rest = pieces s in if is_space (code c) then "" ∷ rest else prepend (String.◌∷◌ c "") rest

nonempty : List String → List String
nonempty [] = []
nonempty (e ∷ es) = let rest = nonempty es in if e =ₛ "" then rest else e ∷ rest

-- `strings.Fields`
unfoldable pub fields : String → List String
unfolding pieces nonempty is_space ◌=ₛ◌
fields s = nonempty (pieces s)

-- `strings.TrimSpace`
trim_left : String → String
trim_left String.[] = ""
trim_left (String.◌∷◌ c s) =
    let rest = trim_left s in if is_space (code c) then rest else String.◌∷◌ c s

abbrev keep_unless_space : ℕ → String → String → String
keep_unless_space n c String.[] = if is_space n then "" else c
keep_unless_space n c (String.◌∷◌ d s) = c <> String.◌∷◌ d s

trim_right : String → String
trim_right String.[] = ""
trim_right (String.◌∷◌ c s) = keep_unless_space (code c) (String.◌∷◌ c "") (trim_right s)

unfoldable pub trim_space : String → String
unfolding trim_left trim_right is_space
trim_space s = trim_right (trim_left s)

-- What is left after a prefix: `HasPrefix` and `TrimPrefix` in one.
unfoldable pub after_prefix : String → String → Option String
after_prefix String.[] s = some s
after_prefix (String.◌∷◌ c p) String.[] = none
after_prefix (String.◌∷◌ c p) (String.◌∷◌ d s) =
    let rest = after_prefix p s in if code c == code d then rest else none

abbrev keep_front : String → Option String → Option String
keep_front c none = none
keep_front c (some s) = some (c <> s)

-- What stands before a suffix: `HasSuffix` and `TrimSuffix` in one.
unfoldable pub before_suffix : String → String → Option String
unfolding ◌=ₛ◌
before_suffix t String.[] = if t =ₛ "" then some "" else none
before_suffix t (String.◌∷◌ c s) =
    let rest = keep_front (String.◌∷◌ c "") (before_suffix t s) in
    if t =ₛ String.◌∷◌ c s then some "" else rest

abbrev is_prefix : String → String → Bool
is_prefix p s = elim (after_prefix p s) [ none ↦ false | some _ ↦ true ]

-- `strings.Contains`
unfoldable pub contains : String → String → Bool
unfolding after_prefix
contains String.[] p = is_prefix p ""
contains (String.◌∷◌ c s) p = is_prefix p (String.◌∷◌ c s) || contains s p

fields_runs : fields "  member: em0  flags=143 " ≡ "member:" ∷ "em0" ∷ "flags=143" ∷ []
unfolding fields
fields_runs = refl

suffix_runs : before_suffix ".raw" "disk.raw" ≡ some "disk"
unfolding before_suffix
suffix_runs = refl

trim_runs : trim_space " tap0\n" ≡ "tap0"
unfolding trim_space
trim_runs = refl

split_runs : split 10 "a\nb" ≡ "a" ∷ "b" ∷ []
unfolding split
split_runs = refl

contains_runs : contains "\tmember: em0" "member:" ≡ true
unfolding contains
contains_runs = refl
