-- ===== src/Prelude/Text.antt =====
-- Texts as lists of code points, and the standard library's operations on them.
use Prim.Native.Nat.{ℕ, zero, suc, ◌+◌, ◌/◌, ◌%◌}
use Prim.Native.Char.{code}
use Prim.Native.String.{String, ◌++◌, slice}
use mathlib.Core.Bool.{Bool, ◌&&◌, ◌||◌}
use mathlib.Core.List.{List, [], ◌∷◌}
use logos_accounts.Prelude.Tests.{ltb, leb, nat_beq, if◌then◌else◌}

abbrev pub codes : String → List ℕ
codes String.[] = []
codes (String.◌∷◌ c s) = code c ∷ codes s

-- How many bytes UTF-8 takes for a code point.
unfoldable pub utf8_width : ℕ → ℕ
utf8_width c = if ltb c 0x80 then 1 else if ltb c 0x800 then 2 else if ltb c 0x10000 then 3 else 4

-- `str::len`
unfoldable pub byte_len : List ℕ → ℕ
unfolding utf8_width
byte_len [] = 0
byte_len (c ∷ s) = utf8_width c + byte_len s

abbrev between : ℕ → ℕ → ℕ → Bool
between lo hi c = leb lo c && leb c hi

-- `char::is_whitespace`
unfoldable pub is_whitespace : ℕ → Bool
is_whitespace c =
    between 9 13 c
    || nat_beq c 0x20
    || nat_beq c 0x85
    || nat_beq c 0xA0
    || nat_beq c 0x1680
    || between 0x2000 0x200A c
    || between 0x2028 0x2029 c
    || nat_beq c 0x202F
    || nat_beq c 0x205F
    || nat_beq c 0x3000

unfoldable pub trim_start : List ℕ → List ℕ
unfolding is_whitespace
trim_start [] = []
trim_start (c ∷ s) = let rest = trim_start s in if is_whitespace c then rest else c ∷ s

-- A whitespace character goes if nothing is left behind it.
unfoldable pub drop_if_last : ℕ → List ℕ → List ℕ
unfolding is_whitespace
drop_if_last c [] = if is_whitespace c then [] else c ∷ []
drop_if_last c (d ∷ s) = c ∷ d ∷ s

unfoldable pub trim_end : List ℕ → List ℕ
unfolding drop_if_last
trim_end [] = []
trim_end (c ∷ s) = drop_if_last c (trim_end s)

-- `str::trim`
unfoldable pub trim : List ℕ → List ℕ
unfolding trim_start trim_end
trim s = trim_end (trim_start s)

-- The digits of a number, least first, in at most as many rounds as the fuel says.
abbrev pub decimal_from : ℕ → ℕ → String → String
decimal_from zero n out = out
decimal_from (suc fuel) n out =
    let digit = slice "0123456789" (n % 10) (n % 10 + 1) ++ out in
    let rest = decimal_from fuel (n / 10) digit in if ltb n 10 then digit else rest

-- `to_string` of a `usize`. A number has at most as many digits as it counts, or one.
unfoldable pub decimal : ℕ → String
decimal n = decimal_from (suc n) n ""
