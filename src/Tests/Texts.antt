-- ===== src/Tests/Texts.antt =====
-- The theorems on hexadecimal texts, on short ones.
use Prim.Native.String.{◌++◌ as ◌+++◌}
use logos_accounts.Prelude.{◌≡◌, refl, ◌↔◌, ◌%◌, [], ◌∷◌, ok, length, arith}
use logos_accounts.Prelude.Text.{byte_len}
use logos_accounts.Externals.{Bytes}
use logos_accounts.Encoding.Hex.{encode_hex}
use logos_accounts.Encoding.Hex.Decode.{returned, panicked, hex_body, decode_hex, decode_hex32}
use logos_accounts.Encoding.Hex.Decode.RoundTrip.{AreBytes, decode_hex-encode_hex}
use logos_accounts.Encoding.Hex.Decode.Panics.{decode_hex32_bounds}
use logos_accounts.Encoding.Hex.Decode.Cut.{CutAfterPairs, after_ascii, decode_hex_panics}
use logos_accounts.Encoding.Hex.Decode.{decode_pairs}

decode_hex-encode_hex_example :
    (decode_hex (encode_hex (10 ∷ 255 ∷ [])) ≡ returned (ok (10 ∷ 255 ∷ [])))
    × (decode_hex ("0x" +++ encode_hex (10 ∷ 255 ∷ [])) ≡ returned (ok (10 ∷ 255 ∷ [])))
decode_hex-encode_hex_example =
    decode_hex-encode_hex (10 ∷ 255 ∷ []) ((omega arith), ((omega arith), tt))

abbrev key_bytes : Bytes
key_bytes =
    0 ∷ 1 ∷ 2 ∷ 3 ∷ 4 ∷ 5 ∷ 6 ∷ 7 ∷ 8 ∷ 9 ∷ 10 ∷ 11 ∷ 12 ∷ 13 ∷ 14 ∷ 15 ∷ 240 ∷ 241 ∷ 242 ∷ 243
    ∷ 244 ∷ 245 ∷ 246 ∷ 247 ∷ 248 ∷ 249 ∷ 250 ∷ 251 ∷ 252 ∷ 253 ∷ 254 ∷ 255 ∷ []

decode_hex32_bounds_example :
    (decode_hex "0x000102030405060708090a0b0c0d0e0ff0f1f2f3f4f5f6f7f8f9fafbfcfdfeff"
      ≡ returned (ok key_bytes))
    × (length key_bytes ≡ 32)
    × AreBytes key_bytes
    × (byte_len (hex_body "0x000102030405060708090a0b0c0d0e0ff0f1f2f3f4f5f6f7f8f9fafbfcfdfeff")
        ≡ 64)
unfolding decode_hex32
decode_hex32_bounds_example =
    decode_hex32_bounds "0x000102030405060708090a0b0c0d0e0ff0f1f2f3f4f5f6f7f8f9fafbfcfdfeff"
      key_bytes refl

decode_hex_panics_example :
    (decode_hex "61aéb" ≡ panicked)
    ↔ ((byte_len (hex_body "61aéb") % 2 ≡ 0) × CutAfterPairs (hex_body "61aéb"))
decode_hex_panics_example = decode_hex_panics "61aéb"

-- The reading that the statement allows for: two digits, and then the cut.
cut_text : decode_hex "61aéb" ≡ panicked
unfolding hex_body byte_len decode_pairs
cut_text = (decode_hex_panics "61aéb").1 (
  refl,
  record {
    pairs = 54 ∷ 49 ∷ [];
    rest = 97 ∷ 233 ∷ 98 ∷ [];
    bytes = 97 ∷ [];
    parts = refl;
    read = refl;
    cut = after_ascii (omega arith) (omega arith);
  },
)
