-- ===== src/Encoding/Hex/Decode.antt =====
-- rust-lib/src/encoding.rs: `decode_hex` and `decode_hex32`. A slice that cuts a character in two
-- panics.
pub mod Digits
pub mod RoundTrip
pub mod Panics
pub mod Cut
pub mod Length
use Prim.Native.String.{◌++◌}
use logos_accounts.Prelude.{
  ℕ, zero, suc, ◌+◌, ◌-◌, ◌*◌, ◌%◌, String, Bool, true, false, ◌&&◌, Option, none, some, List, [],
  ◌∷◌, Result, ok, err, leb, nat_beq, length, if◌then◌else◌,
}
use logos_accounts.Prelude.Text.{codes, byte_len, utf8_width, trim, decimal}
use logos_accounts.Error.{Error, encoding}
use logos_accounts.Externals.{Bytes}

-- What a call that may panic comes to.
pub data Outcome (A : Type 0) : Type 0 where
  returned : Result A Error → Outcome A
  panicked : Outcome A

-- `char::to_digit(16)`
unfoldable pub hex_value : ℕ → Option ℕ
hex_value c =
    if leb b'0' c && leb c b'9'
    then some (c - b'0')
    else if leb b'a' c && leb c b'f'
    then some (c - b'a' + 10)
    else if leb b'A' c && leb c b'F'
    then some (c - b'A' + 10)
    else none

abbrev two_digits : Option ℕ → Option ℕ → Option ℕ
two_digits (some h) (some l) = some (h * 16 + l)
two_digits (some h) none = none
two_digits none l = none

-- `u8::from_str_radix(_, 16)` on two ASCII characters: a plus sign may stand before the digits.
unfoldable pub parse_pair : ℕ → ℕ → Option ℕ
unfolding hex_value
parse_pair a b = if nat_beq a b'+' then hex_value b else two_digits (hex_value a) (hex_value b)

abbrev pub invalid_hex : Error
invalid_hex = encoding "invalid hex: invalid digit found in string"

-- The byte that a slice reads as, before those of the rest: an error or a panic comes before all
-- that follows it.
abbrev push_byte : Option ℕ → Outcome Bytes → Outcome Bytes
push_byte none rest = returned (err invalid_hex)
push_byte (some b) panicked = panicked
push_byte (some b) (returned (err e)) = returned (err e)
push_byte (some b) (returned (ok bs)) = returned (ok (b ∷ bs))

-- The slices of two bytes, by the width of the character at their start: two ASCII characters, one
-- of two bytes, which is no digit, or a part of a wider one.
unfoldable pub decode_pairs : List ℕ → Outcome Bytes
unfolding parse_pair utf8_width
decode_pairs [] = returned (ok [])
decode_pairs (a ∷ []) = if nat_beq (utf8_width a) 2 then returned (err invalid_hex) else panicked
decode_pairs (a ∷ b ∷ rest) =
    let later = push_byte (parse_pair a b) (decode_pairs rest) in
    if nat_beq (utf8_width a) 2
    then returned (err invalid_hex)
    else if nat_beq (utf8_width a) 1 && nat_beq (utf8_width b) 1
    then later
    else panicked

abbrev without_0x : List ℕ → List ℕ
without_0x [] = []
without_0x (a ∷ []) = a ∷ []
without_0x (a ∷ b ∷ rest) = if nat_beq a b'0' && nat_beq b b'x' then rest else a ∷ b ∷ rest

-- `s.trim().strip_prefix("0x").unwrap_or(s.trim())`
unfoldable pub hex_body : String → List ℕ
unfolding trim
hex_body s = without_0x (trim (codes s))

unfoldable pub decode_body : List ℕ → Outcome Bytes
unfolding decode_pairs byte_len
decode_body body =
    if nat_beq (byte_len body % 2) 0
    then decode_pairs body
    else returned (err (encoding "hex string has odd length"))

unfoldable pub decode_hex : String → Outcome Bytes
unfolding hex_body decode_body
decode_hex s = decode_body (hex_body s)

-- `try_into` of the bytes to `[u8; 32]`
unfoldable pub expect_32 : Outcome Bytes → Outcome Bytes
unfolding decimal
expect_32 panicked = panicked
expect_32 (returned (err e)) = returned (err e)
expect_32 (returned (ok v)) =
    if nat_beq (length v) 32
    then returned (ok v)
    else returned (err (encoding ("expected 32 bytes, got " ++ decimal (length v))))

unfoldable pub decode_hex32 : String → Outcome Bytes
unfolding decode_hex expect_32
decode_hex32 s = expect_32 (decode_hex s)
