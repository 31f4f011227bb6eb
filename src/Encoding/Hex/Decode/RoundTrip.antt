-- ===== src/Encoding/Hex/Decode/RoundTrip.antt =====
-- The decoding of encoded bytes.
use Prim.Native.String.{◌++◌ as ◌+++◌}
use logos_accounts.Prelude.{
  ℕ, ◌*◌, ◌/◌, ◌%◌, ◌<◌, ◌≡◌, refl, ◌∙◌, false, List, [], ◌∷◌, ok, All, length, arith,
}
use logos_accounts.Prelude.Text.{
  codes, byte_len, utf8_width, is_whitespace, trim, trim_start, trim_end,
}
use logos_accounts.Externals.{Bytes}
use logos_accounts.Encoding.Hex.{encode_hex, hex_byte}
use logos_accounts.Encoding.Hex.Decode.{
  returned, decode_pairs, decode_body, decode_hex, hex_body, without_0x,
}
use logos_accounts.Encoding.Hex.Decode.Digits.{
  codes-append, digit_code, codes-hex_byte, parse_pair-digit_code, IsDigit, digit_code-IsDigit,
}

abbrev pub AreBytes : Bytes → Type 0
AreBytes = All (λ b. b < 256)

-- The digits of encoded bytes.
abbrev digits : Bytes → List ℕ
digits [] = []
digits (b ∷ bs) = digit_code (b / 16) ∷ digit_code (b % 16) ∷ digits bs

codes-encode_hex : (bs : Bytes) → AreBytes bs → codes (encode_hex bs) ≡ digits bs
unfolding encode_hex
codes-encode_hex [] h = refl
codes-encode_hex (b ∷ bs) (fits, rest) =
    codes-append (hex_byte b) (encode_hex bs)
    ∙ (rw (codes-hex_byte b fits, codes-encode_hex bs rest) refl)

digits-IsDigit : (bs : Bytes) → AreBytes bs → All IsDigit (digits bs)
digits-IsDigit [] h = tt
digits-IsDigit (b ∷ bs) (fits, rest) = (
  digit_code-IsDigit (b / 16) (omega arith),
  (digit_code-IsDigit (b % 16) (omega arith), digits-IsDigit bs rest),
)

abbrev AllVisible : List ℕ → Type 0
AllVisible = All (λ c. is_whitespace c ≡ false)

digits-AllVisible : (s : List ℕ) → All IsDigit s → AllVisible s
digits-AllVisible [] h = tt
digits-AllVisible (c ∷ s) (d, rest) = (d.visible, digits-AllVisible s rest)

trim_start_visible : (s : List ℕ) → AllVisible s → trim_start s ≡ s
unfolding trim_start
trim_start_visible [] h = refl
trim_start_visible (c ∷ s) (v, rest) = rw v refl

trim_end_visible : (s : List ℕ) → AllVisible s → trim_end s ≡ s
unfolding trim_end
trim_end_visible [] h = refl
trim_end_visible (c ∷ []) (v, rest) = rw v refl
trim_end_visible (c ∷ c' ∷ s) (v, rest) = rw (trim_end_visible (c' ∷ s) rest) refl

trim_visible : (s : List ℕ) → AllVisible s → trim s ≡ s
unfolding trim
trim_visible s h = rw (trim_start_visible s h) (trim_end_visible s h)

without_0x-digits : (s : List ℕ) → All IsDigit s → without_0x s ≡ s
without_0x-digits [] h = refl
without_0x-digits (a ∷ []) h = refl
without_0x-digits (a ∷ b ∷ rest) h = ground (arith, h.1.0.no_x)

pub width_one : (c : ℕ) → c < 0x80 → utf8_width c ≡ 1
unfolding utf8_width
width_one c h = ground arith

decode_pairs-digits : (bs : Bytes) → AreBytes bs → decode_pairs (digits bs) ≡ returned (ok bs)
unfolding decode_pairs
decode_pairs-digits [] h = refl
decode_pairs-digits (b ∷ bs) (fits, rest) =
    rw
      (
        width_one (digit_code (b / 16)) (digit_code-IsDigit (b / 16) (omega arith)).ascii,
        width_one (digit_code (b % 16)) (digit_code-IsDigit (b % 16) (omega arith)).ascii,
        parse_pair-digit_code b fits,
        decode_pairs-digits bs rest,
      )
      refl

byte_len-digits : (bs : Bytes) → AreBytes bs → byte_len (digits bs) ≡ 2 * length bs
unfolding byte_len
byte_len-digits [] h = refl
byte_len-digits (b ∷ bs) (fits, rest) = omega (
  arith,
  width_one (digit_code (b / 16)) (digit_code-IsDigit (b / 16) (omega arith)).ascii,
  width_one (digit_code (b % 16)) (digit_code-IsDigit (b % 16) (omega arith)).ascii,
  byte_len-digits bs rest,
)

decode_body-digits : (bs : Bytes) → AreBytes bs → decode_body (digits bs) ≡ returned (ok bs)
unfolding decode_body
decode_body-digits bs h =
    let even : byte_len (digits bs) % 2 ≡ 0 = omega (arith, byte_len-digits bs h) in
    rw even (decode_pairs-digits bs h)

visible_0x : (s : List ℕ) → AllVisible s → AllVisible (b'0' ∷ b'x' ∷ s)
unfolding is_whitespace
visible_0x s v = (refl, (refl, v))

-- Bytes, encoded, decode to themselves, with and without a `0x` before them.
pub decode_hex-encode_hex :
    (bs : Bytes)
    → AreBytes bs
    → (decode_hex (encode_hex bs) ≡ returned (ok bs))
      × (decode_hex ("0x" +++ encode_hex bs) ≡ returned (ok bs))
unfolding decode_hex hex_body
decode_hex-encode_hex bs h =
    let s = digits bs in
    let d : All IsDigit s = digits-IsDigit bs h in
    let v : AllVisible s = digits-AllVisible s d in
    (
      (rw (codes-encode_hex bs h, trim_visible s v, without_0x-digits s d)
          (decode_body-digits bs h)),
      (rw
          (
            codes-append "0x" (encode_hex bs),
            codes-encode_hex bs h,
            trim_visible (b'0' ∷ b'x' ∷ s) (visible_0x s v),
          )
          (decode_body-digits bs h)),
    )
