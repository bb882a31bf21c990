-- ===== src/Names/Utf8.antt =====
-- UTF-8 as truncateToBytes.ts uses it: widths, and reading back what was encoded.
use open_archiver.Prelude.{
  ℕ, suc, ◌+◌, ◌-◌, ◌*◌, ◌/◌, ◌%◌, ◌≤◌, ◌<◌, ◌≡◌, refl, ap, ◌∙◌, inl, inr, [], ◌∷◌, ◌++◌, Text, ltb,
  ltb-true, ltb-false, ltb→lt, Bool-cases, arith,
}
use open_archiver.Names.{bytes_left, bits_read, completed, encode_char, encode, decode_from, decode}

-- A code point.
abbrev pub IsChar : ℕ → Type 0
IsChar c = c < 0x110000

-- What a leading byte says of its character: how many bytes follow, and its first bits.
lead-two : (a : ℕ) → a < 32 → (bytes_left 0 (0xc0 + a) ≡ 1) × (bits_read 0 0 (0xc0 + a) ≡ a)
lead-two a h = (
  rw (ltb-false (0xc0 + a) 0x80 (omega arith), ltb-true (0xc0 + a) 0xe0 (omega arith)) refl,
  rw (ltb-false (0xc0 + a) 0x80 (omega arith), ltb-true (0xc0 + a) 0xe0 (omega arith))
      (omega arith),
)

lead-three : (a : ℕ) → a < 16 → (bytes_left 0 (0xe0 + a) ≡ 2) × (bits_read 0 0 (0xe0 + a) ≡ a)
lead-three a h = (
  rw
      (
        ltb-false (0xe0 + a) 0x80 (omega arith),
        ltb-false (0xe0 + a) 0xe0 (omega arith),
        ltb-true (0xe0 + a) 0xf0 (omega arith),
      )
      refl,
  rw
      (
        ltb-false (0xe0 + a) 0x80 (omega arith),
        ltb-false (0xe0 + a) 0xe0 (omega arith),
        ltb-true (0xe0 + a) 0xf0 (omega arith),
      )
      (omega arith),
)

lead-four : (a : ℕ) → (bytes_left 0 (0xf0 + a) ≡ 3) × (bits_read 0 0 (0xf0 + a) ≡ a)
lead-four a = (
  rw
      (
        ltb-false (0xf0 + a) 0x80 (omega arith),
        ltb-false (0xf0 + a) 0xe0 (omega arith),
        ltb-false (0xf0 + a) 0xf0 (omega arith),
      )
      refl,
  rw
      (
        ltb-false (0xf0 + a) 0x80 (omega arith),
        ltb-false (0xf0 + a) 0xe0 (omega arith),
        ltb-false (0xf0 + a) 0xf0 (omega arith),
      )
      (omega arith),
)

minus_plus : (b : ℕ) → 0x80 + b - 0x80 ≡ b
minus_plus b = omega arith

completed-lead : (b : ℕ) (rest : Text) → 0x80 ≤ b → completed 0 0 b rest ≡ rest
completed-lead b rest h = rw (ltb-false b 0x80 h) refl

-- Reading a leading byte, a byte in the middle and the last one.
decode_from-lead :
    (b n a : ℕ) (bytes : Text)
    → 0x80 ≤ b
    → (bytes_left 0 b ≡ n) × (bits_read 0 0 b ≡ a)
    → decode_from 0 0 (b ∷ bytes) ≡ decode_from n a bytes
unfolding decode_from
decode_from-lead b n a bytes h (e, f) =
    completed-lead b (decode_from (bytes_left 0 b) (bits_read 0 0 b) bytes) h
    ∙ ap (λ k. decode_from k (bits_read 0 0 b) bytes) e
    ∙ ap (λ k. decode_from n k bytes) f

decode_from-middle :
    (n a b : ℕ) (bytes : Text)
    → decode_from (suc (suc n)) a ((0x80 + b) ∷ bytes) ≡ decode_from (suc n) (a * 64 + b) bytes
unfolding decode_from
decode_from-middle n a b bytes = ap (λ k. decode_from (suc n) (a * 64 + k) bytes) (minus_plus b)

decode_from-restart : (a : ℕ) (bytes : Text) → decode_from 0 a bytes ≡ decode_from 0 0 bytes
unfolding decode_from
decode_from-restart a [] = refl
decode_from-restart a (b ∷ bytes) = refl

decode_from-last :
    (a b : ℕ) (bytes : Text)
    → decode_from 1 a ((0x80 + b) ∷ bytes) ≡ (a * 64 + b) ∷ decode_from 0 0 bytes
unfolding decode_from
decode_from-last a b bytes =
    ap (λ t. (a * 64 + (0x80 + b - 0x80)) ∷ t)
      (decode_from-restart (a * 64 + (0x80 + b - 0x80)) bytes)
    ∙ ap (λ k. (a * 64 + k) ∷ decode_from 0 0 bytes) (minus_plus b)

-- A character of two, three or four bytes is read back from its bits.
decode-two :
    (a b : ℕ) (rest : Text)
    → a < 32
    → decode_from 0 0 ((0xc0 + a) ∷ (0x80 + b) ∷ rest) ≡ (a * 64 + b) ∷ decode_from 0 0 rest
decode-two a b rest h =
    decode_from-lead (0xc0 + a) 1 a ((0x80 + b) ∷ rest) (omega arith) (lead-two a h)
    ∙ decode_from-last a b rest

decode-three :
    (a b c : ℕ) (rest : Text)
    → a < 16
    → decode_from 0 0 ((0xe0 + a) ∷ (0x80 + b) ∷ (0x80 + c) ∷ rest)
      ≡ ((a * 64 + b) * 64 + c) ∷ decode_from 0 0 rest
decode-three a b c rest h =
    decode_from-lead (0xe0 + a) 2 a ((0x80 + b) ∷ (0x80 + c) ∷ rest) (omega arith) (lead-three a h)
    ∙ decode_from-middle 0 a b ((0x80 + c) ∷ rest)
    ∙ decode_from-last (a * 64 + b) c rest

decode-four :
    (a b c d : ℕ) (rest : Text)
    → decode_from 0 0 ((0xf0 + a) ∷ (0x80 + b) ∷ (0x80 + c) ∷ (0x80 + d) ∷ rest)
      ≡ (((a * 64 + b) * 64 + c) * 64 + d) ∷ decode_from 0 0 rest
decode-four a b c d rest =
    decode_from-lead (0xf0 + a) 3 a ((0x80 + b) ∷ (0x80 + c) ∷ (0x80 + d) ∷ rest) (omega arith)
      (lead-four a)
    ∙ decode_from-middle 1 a b ((0x80 + c) ∷ (0x80 + d) ∷ rest)
    ∙ decode_from-middle 0 (a * 64 + b) c ((0x80 + d) ∷ rest)
    ∙ decode_from-last ((a * 64 + b) * 64 + c) d rest

-- The digits of a code point in base 64.
two_digits : (c : ℕ) → c / 64 * 64 + c % 64 ≡ c
two_digits c = omega arith

three_digits : (c : ℕ) → (c / 4096 * 64 + c / 64 % 64) * 64 + c % 64 ≡ c
three_digits c = omega arith

four_digits : (c : ℕ) → ((c / 262144 * 64 + c / 4096 % 64) * 64 + c / 64 % 64) * 64 + c % 64 ≡ c
four_digits c = omega arith

high-two : (c : ℕ) → c < 0x800 → c / 64 < 32
high-two c h = omega arith

high-three : (c : ℕ) → c < 0x10000 → c / 4096 < 16
high-three c h = omega arith

decode-encode_char :
    (c : ℕ) (rest : Text) → decode_from 0 0 (encode_char c ++ rest) ≡ c ∷ decode_from 0 0 rest
unfolding decode_from encode_char
decode-encode_char c rest = elim (Bool-cases (ltb c 0x80)) [
  | inl one ↦ ground arith
  | inr more ↦ elim (Bool-cases (ltb c 0x800)) [
    | inl two ↦
        rw (more, two)
          (decode-two (c / 64) (c % 64) rest (high-two c (ltb→lt c 0x800 two))
            ∙ ap (λ x. x ∷ decode_from 0 0 rest) (two_digits c))
    | inr more' ↦ elim (Bool-cases (ltb c 0x10000)) [
      | inl three ↦
          rw (more, more', three)
            (decode-three (c / 4096) (c / 64 % 64) (c % 64) rest
                (high-three c (ltb→lt c 0x10000 three))
              ∙ ap (λ x. x ∷ decode_from 0 0 rest) (three_digits c))
      | inr four ↦
          rw (more, more', four)
            (decode-four (c / 262144) (c / 4096 % 64) (c / 64 % 64) (c % 64) rest
              ∙ ap (λ x. x ∷ decode_from 0 0 rest) (four_digits c))
    ]
  ]
]

pub decode-encode : (t : Text) → decode (encode t) ≡ t
unfolding decode encode decode_from
decode-encode [] = refl
decode-encode (c ∷ t) = decode-encode_char c (encode t) ∙ ap (λ t. c ∷ t) (decode-encode t)
