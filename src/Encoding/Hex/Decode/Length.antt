-- ===== src/Encoding/Hex/Decode/Length.antt =====
-- The length in the error of `decode_hex32`, and the fuel of `decimal`.
use Prim.Native.String.{◌++◌ as ◌+++◌, slice}
use logos_accounts.Prelude.{
  ℕ, zero, suc, ◌+◌, ◌-◌, ◌*◌, ◌/◌, ◌%◌, ◌<◌, String, ◌≡◌, refl, ap, ◌∙◌, ◌≢◌, Bool-cases, inl, inr,
  false, List, [], ◌∷◌, ok, err, ltb, length, nat_beq, nat_beq_iff, list_beq, list_beq_iff, arith,
}
use logos_accounts.Prelude.Text.{codes, decimal, decimal_from}
use logos_accounts.Error.{encoding}
use logos_accounts.Externals.{Bytes}
use logos_accounts.Encoding.Hex.Decode.{returned, decode_hex, expect_32, decode_hex32}
use logos_accounts.Encoding.Hex.Decode.Digits.{codes-append, all_below_at}

-- The number that decimal digits say, after `n`.
abbrev read_digits : ℕ → List ℕ → ℕ
read_digits n [] = n
read_digits n (c ∷ cs) = read_digits (n * 10 + (c - b'0')) cs

abbrev digit_text : ℕ → String
digit_text d = slice "0123456789" d (d + 1)

codes-digit_text : (d : ℕ) → d < 10 → codes (digit_text d) ≡ (b'0' + d) ∷ []
codes-digit_text d h =
    (list_beq_iff (codes (digit_text d)) ((b'0' + d) ∷ [])).0
      (all_below_at 10 (λ k. list_beq (codes (digit_text k)) ((b'0' + k) ∷ [])) d refl h)

read_digits-digit :
    (n : ℕ) (out : String)
    → read_digits (n / 10) (codes (digit_text (n % 10) +++ out)) ≡ read_digits n (codes out)
read_digits-digit n out =
    let value : n / 10 * 10 + (b'0' + n % 10 - b'0') ≡ n = omega arith in
    rw (codes-append (digit_text (n % 10)) out, codes-digit_text (n % 10) (omega arith))
      (ap (λ k. read_digits k (codes out)) value)

read_digits-decimal_from :
    (fuel n : ℕ) (out : String)
    → n < fuel
    → read_digits 0 (codes (decimal_from fuel n out)) ≡ read_digits n (codes out)
read_digits-decimal_from zero n out h = absurd (omega (arith, h))
read_digits-decimal_from (suc fuel) n out h = elim (Bool-cases (ltb n 10)) [
  | inl small ↦
      let none_left : n / 10 ≡ 0 = ground (arith, small) in
      rw small (rw none_left at (read_digits-digit n out))
  | inr large ↦
      let fewer : n / 10 < fuel = ground (arith, large, h) in
      rw large (
        read_digits-decimal_from fuel (n / 10) (digit_text (n % 10) +++ out) fewer
        ∙ read_digits-digit n out)
]

read_digits-decimal : (n : ℕ) → read_digits 0 (codes (decimal n)) ≡ n
unfolding decimal
read_digits-decimal n = read_digits-decimal_from (suc n) n "" (omega arith)

-- If a text decodes to a number of bytes other than 32, then `decode_hex32` fails, and its message
-- ends with that number in decimal digits.
decode_hex32-decimal :
    (s : String) (v : Bytes)
    → decode_hex s ≡ returned (ok v)
    → length v ≢ 32
    → (t : String) × (decode_hex32 s ≡ returned (err (encoding ("expected 32 bytes, got " +++ t))))
      × (read_digits 0 (codes t) ≡ length v)
unfolding decode_hex32 expect_32
decode_hex32-decimal s v decoded other =
    let differs : nat_beq (length v) 32 ≡ false =
      ground (arith, other, nat_beq_iff (length v) 32) in
    (decimal (length v), (rw (decoded, differs) refl), read_digits-decimal (length v))
