-- ===== src/Encoding/Hex.antt =====
-- rust-lib/src/encoding.rs, `encode_hex`; rust-lib/src/vlad_hash.rs.
pub mod Decode
use Prim.Native.Char.{code}
use Prim.Native.String.{slice, ◌++◌}
use logos_accounts.Prelude.{ℕ, zero, suc, ◌+◌, ◌/◌, ◌%◌, String, List, [], ◌∷◌, ltb, if◌then◌else◌}
use logos_accounts.Externals.{Externals, Bytes, Vlad}
use logos_accounts.Encoding.{encode_vlad}

-- One hexadecimal digit, in lower case.
unfoldable pub hex_digit : ℕ → String
hex_digit n = slice "0123456789abcdef" n (n + 1)

-- `{b:02x}` of a byte.
unfoldable pub hex_byte : ℕ → String
unfolding hex_digit
hex_byte b = hex_digit (b / 16) ++ hex_digit (b % 16)

unfoldable pub encode_hex : Bytes → String
unfolding hex_byte
encode_hex [] = ""
encode_hex (b ∷ bs) = hex_byte b ++ encode_hex bs

-- `full.chars().take(n).collect()`
unfoldable pub take_chars : ℕ → String → String
take_chars zero s = ""
take_chars (suc n) String.[] = ""
take_chars (suc n) (String.◌∷◌ c s) = String.◌∷◌ c (take_chars n s)

-- The UTF-8 bytes of a code point.
abbrev utf8_char : ℕ → List ℕ
utf8_char c =
    if ltb c 0x80
    then c ∷ []
    else if ltb c 0x800
    then (0xC0 + c / 64) ∷ (0x80 + c % 64) ∷ []
    else if ltb c 0x10000
    then (0xE0 + c / 4096) ∷ (0x80 + c / 64 % 64) ∷ (0x80 + c % 64) ∷ []
    else (0xF0 + c / 262144) ∷ (0x80 + c / 4096 % 64) ∷ (0x80 + c / 64 % 64) ∷ (0x80 + c % 64) ∷ []

abbrev append_bytes : List ℕ → List ℕ → List ℕ
append_bytes [] ys = ys
append_bytes (x ∷ xs) ys = x ∷ append_bytes xs ys

-- `str::as_bytes`
unfoldable pub as_bytes : String → Bytes
as_bytes String.[] = []
as_bytes (String.◌∷◌ c s) = append_bytes (utf8_char (code c)) (as_bytes s)

abbrev pub vlad_hash_len : ℕ
vlad_hash_len = 32

module _ ⦃x : Externals⦄ where
  open x use {sha256}

  unfoldable pub vlad_hash_from_multibase : String → Bytes
  unfolding as_bytes
  vlad_hash_from_multibase vlad_multibase = sha256 (as_bytes vlad_multibase)

  unfoldable pub vlad_hash : Vlad → Bytes
  unfolding vlad_hash_from_multibase
  vlad_hash vlad = vlad_hash_from_multibase (encode_vlad vlad)
