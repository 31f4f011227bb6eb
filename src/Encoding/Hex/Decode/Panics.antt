-- ===== src/Encoding/Hex/Decode/Panics.antt =====
-- What an accepted text holds, and that a text of ASCII characters does not panic.
use logos_accounts.Prelude.{
  ℕ, ◌*◌, ◌%◌, ◌<◌, String, ◌≡◌, refl, ap, ◌≢◌, Bool-cases, true, inl, inr, Option, none, some,
  List, [], ◌∷◌, ok, err, All, length, nat_beq, nat_beq_iff, arith, ◌&&◌,
}
use logos_accounts.Prelude.Text.{
  codes, byte_len, utf8_width, is_whitespace, trim, trim_start, trim_end, drop_if_last,
}
use logos_accounts.Externals.{Bytes}
use logos_accounts.Encoding.Hex.Decode.{
  Outcome, returned, panicked, push_byte, parse_pair, decode_pairs, decode_body, decode_hex,
  expect_32, decode_hex32, hex_body, without_0x,
}
use logos_accounts.Encoding.Hex.Decode.Digits.{parse_pair-lt}
use logos_accounts.Encoding.Hex.Decode.RoundTrip.{AreBytes, width_one}

pub push_byte-eq-ok :
    (o : Option ℕ) (r : Outcome Bytes) (bs : Bytes)
    → push_byte o r ≡ returned (ok bs)
    → (b : ℕ) × (t : Bytes) × (o ≡ some b) × (r ≡ returned (ok t)) × (b ∷ t ≡ bs)
push_byte-eq-ok none r bs h = absurd (cc)
push_byte-eq-ok (some b) panicked bs h = absurd (cc)
push_byte-eq-ok (some b) (returned (err e)) bs h = absurd (cc)
push_byte-eq-ok (some b) (returned (ok t)) bs h = (b, t, refl, refl, (cc))

-- The text is pairs that read as the bytes.
abbrev Reads : List ℕ → Bytes → Type 0
Reads s bs = AreBytes bs × (byte_len s ≡ 2 * length bs)

one_wide : (c : ℕ) → nat_beq (utf8_width c) 1 ≡ true → utf8_width c ≡ 1
one_wide c h = (nat_beq_iff (utf8_width c) 1).0 h

decode_pairs-Reads : (s : List ℕ) (bs : Bytes) → decode_pairs s ≡ returned (ok bs) → Reads s bs
unfolding decode_pairs byte_len
decode_pairs-Reads [] bs h = let is : [] ≡ bs = ground (arith, h) in rw (← is) (tt, refl)
decode_pairs-Reads (a ∷ []) bs h = absurd (ground (arith, h))
decode_pairs-Reads (a ∷ b ∷ rest) bs h = elim (Bool-cases (nat_beq (utf8_width a) 2)) [
  | inl two ↦ absurd (ground (arith, h, two))
  | inr other ↦ elim (Bool-cases (nat_beq (utf8_width a) 1 && nat_beq (utf8_width b) 1)) [
    | inr cut ↦ absurd (ground (arith, h, other, cut))
    | inl narrow ↦
        let joined : push_byte (parse_pair a b) (decode_pairs rest) ≡ returned (ok bs) =
          rw (other, narrow) at h in
        let (v, t, paired, later, is) =
          push_byte-eq-ok (parse_pair a b) (decode_pairs rest) bs joined in
        let (fit, long) = decode_pairs-Reads rest t later in
        rw (← is) (
          (parse_pair-lt a b v paired, fit),
          omega (
            arith,
            long,
            one_wide a (ground (arith, narrow)),
            one_wide b (ground (arith, narrow)),
          ),
        )
  ]
]

decode_hex-Reads :
    (s : String) (bs : Bytes) → decode_hex s ≡ returned (ok bs) → Reads (hex_body s) bs
unfolding decode_hex decode_body
decode_hex-Reads s bs h = elim (Bool-cases (nat_beq (byte_len (hex_body s) % 2) 0)) [
  | inl even ↦ decode_pairs-Reads (hex_body s) bs (rw even at h)
  | inr odd ↦ absurd (ground (arith, h, odd))
]

expect_32-eq-ok :
    (o : Outcome Bytes) (v : Bytes)
    → expect_32 o ≡ returned (ok v)
    → (o ≡ returned (ok v)) × (length v ≡ 32)
unfolding expect_32
expect_32-eq-ok panicked v h = absurd (cc)
expect_32-eq-ok (returned (err e)) v h = absurd (cc)
expect_32-eq-ok (returned (ok w)) v h = elim (Bool-cases (nat_beq (length w) 32)) [
  | inl fits ↦
      let is : w ≡ v = ground (arith, h, fits) in
      (ap (λ b. returned (ok b)) is, (rw (← is) ((nat_beq_iff (length w) 32).0 fits)))
  | inr other ↦ absurd (ground (arith, h, other))
]

-- What `decode_hex32` returns is what `decode_hex` returns: 32 numbers below 256, read from a text
-- that takes 64 bytes without the whitespace around it and a leading `0x`.
pub decode_hex32_bounds :
    (s : String) (v : Bytes)
    → decode_hex32 s ≡ returned (ok v)
    → (decode_hex s ≡ returned (ok v)) × (length v ≡ 32) × AreBytes v × (byte_len (hex_body s) ≡ 64)
unfolding decode_hex32
decode_hex32_bounds s v h =
    let (decoded, long) = expect_32-eq-ok (decode_hex s) v h in
    let (fit, width) = decode_hex-Reads s v decoded in
    (decoded, long, fit, omega (arith, long, width))

-- The characters of ASCII.
abbrev pub IsAscii : List ℕ → Type 0
IsAscii = All (λ c. c < 0x80)

push_byte-ne-panicked : (o : Option ℕ) (r : Outcome Bytes) → r ≢ panicked → push_byte o r ≢ panicked
push_byte-ne-panicked none r h e = cc
push_byte-ne-panicked (some b) panicked h e = h refl
push_byte-ne-panicked (some b) (returned (ok t)) h e = cc
push_byte-ne-panicked (some b) (returned (err e')) h e = cc

decode_pairs-IsAscii : (s : List ℕ) → IsAscii s → byte_len s % 2 ≡ 0 → decode_pairs s ≢ panicked
unfolding decode_pairs byte_len
decode_pairs-IsAscii [] a even = λ e. cc
decode_pairs-IsAscii (c ∷ []) (a, _) even = absurd (omega (arith, width_one c a))
decode_pairs-IsAscii (c ∷ d ∷ rest) (a, (b, more)) even =
    rw (width_one c a, width_one d b)
      (push_byte-ne-panicked (parse_pair c d) (decode_pairs rest)
        (decode_pairs-IsAscii rest more (omega (arith, even, width_one c a, width_one d b))))

trim_start-IsAscii : (s : List ℕ) → IsAscii s → IsAscii (trim_start s)
unfolding trim_start
trim_start-IsAscii [] h = tt
trim_start-IsAscii (c ∷ s) h = elim (Bool-cases (is_whitespace c)) [
  | inl blank ↦ rw blank (trim_start-IsAscii s h.1)
  | inr shown ↦ rw shown h
]

drop_if_last-IsAscii : (c : ℕ) (s : List ℕ) → c < 0x80 → IsAscii s → IsAscii (drop_if_last c s)
unfolding drop_if_last
drop_if_last-IsAscii c [] a h = elim (Bool-cases (is_whitespace c)) [
  | inl blank ↦ rw blank tt
  | inr shown ↦ rw shown (a, tt)
]
drop_if_last-IsAscii c (d ∷ s) a h = (a, h)

trim_end-IsAscii : (s : List ℕ) → IsAscii s → IsAscii (trim_end s)
unfolding trim_end
trim_end-IsAscii [] h = tt
trim_end-IsAscii (c ∷ s) h = drop_if_last-IsAscii c (trim_end s) h.0 (trim_end-IsAscii s h.1)

without_0x-IsAscii : (s : List ℕ) → IsAscii s → IsAscii (without_0x s)
without_0x-IsAscii [] h = tt
without_0x-IsAscii (a ∷ []) h = h
without_0x-IsAscii (a ∷ b ∷ rest) h = elim (Bool-cases (nat_beq a b'0' && nat_beq b b'x')) [
  | inl prefixed ↦ rw prefixed h.1.1
  | inr bare ↦ rw bare h
]

-- On a text of ASCII characters `decode_hex` never panics.
pub decode_hex-IsAscii : (s : String) → IsAscii (codes s) → decode_hex s ≢ panicked
unfolding decode_hex decode_body hex_body trim
decode_hex-IsAscii s h =
    let body = without_0x (trim (codes s)) in
    let a : IsAscii body =
      without_0x-IsAscii (trim (codes s))
        (trim_end-IsAscii (trim_start (codes s)) (trim_start-IsAscii (codes s) h)) in
    elim (Bool-cases (nat_beq (byte_len body % 2) 0)) [
      | inl even ↦
          rw even (decode_pairs-IsAscii body a ((nat_beq_iff (byte_len body % 2) 0).0 even))
      | inr odd ↦ rw odd λ e. cc
    ]
