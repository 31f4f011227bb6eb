-- ===== src/Encoding/Hex/Decode/Cut.antt =====
-- The texts on which the decoder panics.
use logos_accounts.Prelude.{
  ℕ, ◌%◌, ◌≤◌, ◌<◌, String, ◌≡◌, ◌≢◌, refl, ap, ◌∙◌, sym, ◌↔◌, Bool-cases, true, false, inl, inr,
  Option, none, some, List, [], ◌∷◌, ◌++◌, ok, err, nat_beq, nat_beq_iff, arith,
}
use logos_accounts.Prelude.Text.{byte_len, utf8_width}
use logos_accounts.Externals.{Bytes}
use logos_accounts.Encoding.Hex.Decode.{
  Outcome, returned, panicked, push_byte, parse_pair, decode_pairs, decode_body, decode_hex,
  hex_body, invalid_hex,
}
use logos_accounts.Encoding.Hex.Decode.Panics.{push_byte-eq-ok}

-- A slice of two bytes at the start ends inside a character: one that takes three bytes or more, or
-- the one after a character of ASCII.
pub data StartsCut : List ℕ → Type 0 where
  wide : {c : ℕ} {rest : List ℕ} → 0x800 ≤ c → StartsCut (c ∷ rest)
  after_ascii : {a b : ℕ} {rest : List ℕ} → a < 0x80 → 0x80 ≤ b → StartsCut (a ∷ b ∷ rest)

-- The text is pairs of digits up to a place where a slice is cut.
pub record CutAfterPairs (s : List ℕ) : Type 0 where
  pub pairs : List ℕ
  pub rest : List ℕ
  pub bytes : Bytes
  pub parts : s ≡ pairs ++ rest
  pub read : decode_pairs pairs ≡ returned (ok bytes)
  pub cut : StartsCut rest

width_ascii : (c : ℕ) → (utf8_width c ≡ 1) ↔ (c < 0x80)
unfolding utf8_width
width_ascii c = ground arith

width_wide : (c : ℕ) → 0x80 ≤ c → nat_beq (utf8_width c) 2 ≡ false → 0x800 ≤ c
unfolding utf8_width
width_wide c h other = ground (arith, h, other)

wide_width :
    (c : ℕ) → 0x800 ≤ c → (nat_beq (utf8_width c) 2 ≡ false) × (nat_beq (utf8_width c) 1 ≡ false)
unfolding utf8_width
wide_width c h = ground (arith, h)

push_byte-eq-panicked :
    (o : Option ℕ) (r : Outcome Bytes)
    → push_byte o r ≡ panicked
    → (b : ℕ) × (o ≡ some b) × (r ≡ panicked)
push_byte-eq-panicked none r h = absurd (cc)
push_byte-eq-panicked (some b) panicked h = (b, refl, refl)
push_byte-eq-panicked (some b) (returned (ok t)) h = absurd (cc)
push_byte-eq-panicked (some b) (returned (err e)) h = absurd (cc)

-- Two characters of ASCII are one slice.
decode_pairs_narrow :
    (a b : ℕ) (rest : List ℕ)
    → a < 0x80
    → b < 0x80
    → decode_pairs (a ∷ b ∷ rest) ≡ push_byte (parse_pair a b) (decode_pairs rest)
unfolding decode_pairs
decode_pairs_narrow a b rest ha hb = rw ((width_ascii a).1 ha, (width_ascii b).1 hb) refl

narrow_width : (c : ℕ) → 0x80 ≤ c → nat_beq (utf8_width c) 1 ≡ false
unfolding utf8_width
narrow_width c h = ground (arith, h)

not_narrow : (c : ℕ) → nat_beq (utf8_width c) 1 ≡ false → 0x80 ≤ c
unfolding utf8_width
not_narrow c h = ground (arith, h)

narrow : (c : ℕ) → nat_beq (utf8_width c) 1 ≡ true → c < 0x80
unfolding utf8_width
narrow c h = ground (arith, h)

StartsCut-panicked : (s : List ℕ) → StartsCut s → decode_pairs s ≡ panicked
unfolding decode_pairs
StartsCut-panicked [] cut = elim cut [ ]
StartsCut-panicked (c ∷ []) (wide h) = rw (wide_width c h).0 refl
StartsCut-panicked (c ∷ d ∷ rest) (wide h) = rw ((wide_width c h).0, (wide_width c h).1) refl
StartsCut-panicked (a ∷ b ∷ rest) (after_ascii ha hb) =
    rw ((width_ascii a).1 ha, narrow_width b hb) refl

abbrev cut_here : (s : List ℕ) → StartsCut s → CutAfterPairs s
cut_here s c = record {
  pairs = [];
  rest = s;
  bytes = [];
  parts = refl;
  read = unfold decode_pairs in refl;
  cut = c;
}

-- A slice that reads as a byte, before a text that is cut later.
one_more :
    (a b v : ℕ) (s : List ℕ)
    → a < 0x80
    → b < 0x80
    → parse_pair a b ≡ some v
    → CutAfterPairs s
    → CutAfterPairs (a ∷ b ∷ s)
one_more a b v s ha hb digits c = record {
  pairs = a ∷ b ∷ c.pairs;
  rest = c.rest;
  bytes = v ∷ c.bytes;
  parts = ap (λ l. a ∷ b ∷ l) c.parts;
  read = decode_pairs_narrow a b c.pairs ha hb ∙ rw (digits, c.read) refl;
  cut = c.cut;
}

-- The characters of a slice: a wide one, one of two bytes, two of ASCII, or one of ASCII alone.
data Slice (a b : ℕ) : Type 0 where
  is_wide : 0x800 ≤ a → Slice a b
  is_two : nat_beq (utf8_width a) 2 ≡ true → Slice a b
  is_pair : a < 0x80 → b < 0x80 → Slice a b
  is_split : a < 0x80 → 0x80 ≤ b → Slice a b

pair_cases : (a b : ℕ) → Slice a b
pair_cases a b = elim (Bool-cases (nat_beq (utf8_width a) 2)) [
  | inl two ↦ is_two two
  | inr other ↦ elim (Bool-cases (nat_beq (utf8_width a) 1)) [
    | inr more ↦ is_wide (width_wide a (not_narrow a more) other)
    | inl one ↦ elim (Bool-cases (nat_beq (utf8_width b) 1)) [
      | inl ascii ↦ is_pair (narrow a one) (narrow b ascii)
      | inr beyond ↦ is_split (narrow a one) (not_narrow b beyond)
    ]
  ]
]

decode_pairs_two :
    (a b : ℕ) (rest : List ℕ)
    → nat_beq (utf8_width a) 2 ≡ true
    → decode_pairs (a ∷ b ∷ rest) ≡ returned (err invalid_hex)
unfolding decode_pairs
decode_pairs_two a b rest two = rw two refl

decode_pairs_alone :
    (a : ℕ)
    → byte_len (a ∷ []) % 2 ≡ 0
    → decode_pairs (a ∷ []) ≡ panicked
    → (nat_beq (utf8_width a) 2 ≡ false) × (nat_beq (utf8_width a) 1 ≡ false)
unfolding decode_pairs byte_len
decode_pairs_alone a even h = (ground (arith, h), ground (arith, even))

decode_pairs_one : (a : ℕ) (bytes : Bytes) → decode_pairs (a ∷ []) ≢ returned (ok bytes)
unfolding decode_pairs
decode_pairs_one a bytes h = ground (arith, h)

panicked_or_ok : (o : Outcome Bytes) (bytes : Bytes) → o ≡ panicked → o ≢ returned (ok bytes)
panicked_or_ok o bytes p r = cc

panicked-CutAfterPairs :
    (s : List ℕ) → byte_len s % 2 ≡ 0 → decode_pairs s ≡ panicked → CutAfterPairs s
panicked-CutAfterPairs [] even h = absurd (unfold decode_pairs in ground (arith, h))
panicked-CutAfterPairs (a ∷ []) even h =
    let (other, more) = decode_pairs_alone a even h in
    cut_here (a ∷ []) (wide (width_wide a (not_narrow a more) other))
panicked-CutAfterPairs (a ∷ b ∷ rest) even h = elim (pair_cases a b) [
  | is_wide w ↦ cut_here (a ∷ b ∷ rest) (wide w)
  | is_split ha hb ↦ cut_here (a ∷ b ∷ rest) (after_ascii ha hb)
  | is_two two ↦ absurd (ground (arith, decode_pairs_two a b rest two, h))
  | is_pair ha hb ↦
      let (v, digits, later) =
        push_byte-eq-panicked (parse_pair a b) (decode_pairs rest)
          (sym (decode_pairs_narrow a b rest ha hb) ∙ h) in
      one_more a b v rest ha hb digits (
        panicked-CutAfterPairs rest
          (unfold byte_len in omega (arith, even, (width_ascii a).1 ha, (width_ascii b).1 hb))
          later)
]

CutAfterPairs-panicked :
    (pairs rest : List ℕ) (bytes : Bytes)
    → decode_pairs pairs ≡ returned (ok bytes)
    → StartsCut rest
    → decode_pairs (pairs ++ rest) ≡ panicked
CutAfterPairs-panicked [] rest bytes read cut = StartsCut-panicked rest cut
CutAfterPairs-panicked (a ∷ []) rest bytes read cut = absurd (decode_pairs_one a bytes read)
CutAfterPairs-panicked (a ∷ b ∷ pairs) rest bytes read cut = elim (pair_cases a b) [
  | is_wide w ↦ absurd (
      panicked_or_ok (decode_pairs (a ∷ b ∷ pairs)) bytes
        (StartsCut-panicked (a ∷ b ∷ pairs) (wide w)) read)
  | is_split ha hb ↦ absurd (
      panicked_or_ok (decode_pairs (a ∷ b ∷ pairs)) bytes
        (StartsCut-panicked (a ∷ b ∷ pairs) (after_ascii ha hb)) read)
  | is_two two ↦ absurd (ground (arith, decode_pairs_two a b pairs two, read))
  | is_pair ha hb ↦
      let (v, t, digits, later, _) =
        push_byte-eq-ok (parse_pair a b) (decode_pairs pairs) bytes
          (sym (decode_pairs_narrow a b pairs ha hb) ∙ read) in
      decode_pairs_narrow a b (pairs ++ rest) ha hb
      ∙ rw (digits, CutAfterPairs-panicked pairs rest t later cut) refl
]

-- `decode_hex` panics exactly on the texts that take an even number of bytes, without the
-- whitespace around them and a leading `0x`, and in which, after pairs that read as bytes, a slice
-- of two bytes ends inside a character: either a character of three bytes or more stands there, or
-- one of ASCII with one beyond ASCII behind it.
pub decode_hex_panics :
    (s : String)
    → (decode_hex s ≡ panicked) ↔ ((byte_len (hex_body s) % 2 ≡ 0) × CutAfterPairs (hex_body s))
unfolding decode_hex decode_body
decode_hex_panics s = elim (Bool-cases (nat_beq (byte_len (hex_body s) % 2) 0)) [
  | inl even ↦ rw even (
    (λ h. (
      (nat_beq_iff (byte_len (hex_body s) % 2) 0).0 even,
      panicked-CutAfterPairs (hex_body s) ((nat_beq_iff (byte_len (hex_body s) % 2) 0).0 even) h,
    )),
    (λ c. rw c.1.parts (CutAfterPairs-panicked c.1.pairs c.1.rest c.1.bytes c.1.read c.1.cut)),
  )
  | inr odd ↦ rw odd (
    (λ h. absurd (ground (arith, h))),
    (λ c. absurd (ground (arith, odd, (nat_beq_iff (byte_len (hex_body s) % 2) 0).1 c.0))),
  )
]
