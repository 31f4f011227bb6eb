-- ===== src/Encoding/Hex/Decode/Digits.antt =====
-- One digit and one byte: what is printed reads back.
use Prim.Native.Char.{code}
use Prim.Native.String.{◌++◌ as ◌+++◌}
use Prim.Native.String.append
use logos_accounts.Prelude.{
  ℕ, zero, suc, ◌+◌, ◌-◌, ◌/◌, ◌%◌, ◌<◌, String, ◌≡◌, refl, ap, ◌≢◌, ◌∙◌, Bool, true, false, ◌&&◌,
  some, [], ◌∷◌, ◌++◌, ltb, list_beq, list_beq_iff, arith, if◌then◌else◌, Option-cases, inl, inr,
}
use logos_accounts.Prelude.Text.{codes, is_whitespace}
use logos_accounts.Encoding.Hex.{hex_digit, hex_byte}
use logos_accounts.Encoding.Hex.Decode.{hex_value, parse_pair}

pub codes-append : (s t : String) → codes (s +++ t) ≡ codes s ++ codes t
codes-append String.[] t = λ i. codes (append.nil t i)
codes-append (String.◌∷◌ c s) t =
    (λ i. codes (append.cons c s t i)) ∙ ap (λ l. code c ∷ l) (codes-append s t)

abbrev pub digit_code : ℕ → ℕ
digit_code n = if ltb n 10 then b'0' + n else b'a' + (n - 10)

abbrev pub all_below : ℕ → (ℕ → Bool) → Bool
all_below zero p = true
all_below (suc n) p = p n && all_below n p

pub all_below_at : (n : ℕ) (p : ℕ → Bool) (x : ℕ) → all_below n p ≡ true → x < n → p x ≡ true
all_below_at zero p x h lt = absurd (omega arith)
all_below_at (suc n) p x h lt = ground (arith, all_below_at n p x)

digit_table : all_below 16 (λ n. list_beq (codes (hex_digit n)) (digit_code n ∷ [])) ≡ true
unfolding hex_digit
digit_table = refl

codes-hex_digit : (n : ℕ) → n < 16 → codes (hex_digit n) ≡ digit_code n ∷ []
codes-hex_digit n h =
    (list_beq_iff (codes (hex_digit n)) (digit_code n ∷ [])).0
      (all_below_at 16 (λ k. list_beq (codes (hex_digit k)) (digit_code k ∷ [])) n digit_table h)

pub codes-hex_byte :
    (b : ℕ) → b < 256 → codes (hex_byte b) ≡ digit_code (b / 16) ∷ digit_code (b % 16) ∷ []
unfolding hex_byte
codes-hex_byte b h =
    codes-append (hex_digit (b / 16)) (hex_digit (b % 16))
    ∙ (rw (codes-hex_digit (b / 16) (omega arith), codes-hex_digit (b % 16) (omega arith)) refl)

hex_value-digit_code : (n : ℕ) → n < 16 → hex_value (digit_code n) ≡ some n
unfolding hex_value
hex_value-digit_code n h = ground arith

pub parse_pair-digit_code :
    (b : ℕ) → b < 256 → parse_pair (digit_code (b / 16)) (digit_code (b % 16)) ≡ some b
unfolding parse_pair
parse_pair-digit_code b h = ground (
  arith,
  hex_value-digit_code (b / 16) (omega arith),
  hex_value-digit_code (b % 16) (omega arith),
)

-- What a digit of a printed byte can be.
pub record IsDigit (c : ℕ) : Type 0 where
  pub ascii : c < 0x80
  pub no_sign : c ≢ b'+'
  pub no_x : c ≢ b'x'
  pub visible : is_whitespace c ≡ false

pub digit_code-IsDigit : (n : ℕ) → n < 16 → IsDigit (digit_code n)
unfolding is_whitespace
digit_code-IsDigit n h = ground arith

pub hex_value-lt : (c n : ℕ) → hex_value c ≡ some n → n < 16
unfolding hex_value
hex_value-lt c n h = ground arith

pub parse_pair-lt : (a b n : ℕ) → parse_pair a b ≡ some n → n < 256
unfolding parse_pair
parse_pair-lt a b n h = elim (Option-cases (hex_value b)) [
  | inl absent ↦ elim (Option-cases (hex_value a)) [
    | inl none_too ↦ absurd (ground (arith, h, absent, none_too))
    | inr (u, high) ↦ absurd (ground (arith, h, absent, high))
  ]
  | inr (v, low) ↦ elim (Option-cases (hex_value a)) [
    | inl absent ↦ ground (arith, h, absent, low, hex_value-lt b v)
    | inr (u, high) ↦ ground (arith, h, high, low, hex_value-lt a u, hex_value-lt b v)
  ]
]
