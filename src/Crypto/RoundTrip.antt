-- ===== src/Crypto/RoundTrip.antt =====
-- CryptoService.ts: decrypting what was encrypted.
use open_archiver.Prelude.{
  ℕ, ◌+◌, ◌*◌, ◌/◌, ◌%◌, ◌<◌, ◌≡◌, refl, ◌∙◌, some, [], ◌∷◌, ◌++◌, Text, All, All-append, length,
  take, drop, take-append, drop-append, drop-drop, arith, map, ap, sym, subst, inl, inr, Bool-cases,
  ltb, ltb→lt,
}
use open_archiver.Crypto.{
  Primitives, IsSound, IsByte, iv_length, salt_length, hex_digit, to_hex, hex_value, from_hex,
  encrypt, decrypt, IsScalar, without_surrogate, to_utf8, opened_text,
}
use open_archiver.Names.{encode_char, encode, decode}
use open_archiver.Names.Utf8.{decode-encode}

hex_value-hex_digit : (n : ℕ) → n < 16 → hex_value (hex_digit n) ≡ some n
unfolding hex_value hex_digit
hex_value-hex_digit n h = ground arith

byte_parts : (b : ℕ) → b / 16 * 16 + b % 16 ≡ b
byte_parts b = omega arith

from_hex-to_hex : (bs : Text) → All IsByte bs → from_hex (to_hex bs) ≡ bs
unfolding from_hex to_hex
from_hex-to_hex [] h = refl
from_hex-to_hex (b ∷ bs) (h, hs) = rw (
  hex_value-hex_digit (b / 16) (omega arith),
  hex_value-hex_digit (b % 16) (omega arith),
  byte_parts b,
  from_hex-to_hex bs hs,
)

-- The parts of four buffers put together, read back by their offsets.
module _ (n m k : ℕ) (a b c d : Text) (ha : length a ≡ n) (hb : length b ≡ m)
    (hc : length c ≡ k) where
  second_part : take m (drop n (a ++ (b ++ (c ++ d)))) ≡ b
  second_part = rw (drop-append n a (b ++ (c ++ d)) ha) (take-append m b (c ++ d) hb)

  after_second : drop (n + m) (a ++ (b ++ (c ++ d))) ≡ c ++ d
  after_second =
      drop-drop n m (a ++ (b ++ (c ++ d)))
      ∙ rw (drop-append n a (b ++ (c ++ d)) ha) (drop-append m b (c ++ d) hb)

  third_part : take k (drop (n + m) (a ++ (b ++ (c ++ d)))) ≡ c
  third_part = rw after_second (take-append k c d hc)

  last_part : drop (n + m + k) (a ++ (b ++ (c ++ d))) ≡ d
  last_part = drop-drop (n + m) k (a ++ (b ++ (c ++ d))) ∙ rw after_second (drop-append k c d hc)

encode_char-IsByte : (c : ℕ) → c < 0x110000 → All IsByte (encode_char c)
unfolding encode_char
encode_char-IsByte c h = elim (Bool-cases (ltb c 0x80)) [
  | inl one ↦ rw one (omega (arith, ltb→lt c 0x80 one), tt)
  | inr more ↦ elim (Bool-cases (ltb c 0x800)) [
    | inl two ↦ rw (more, two) (two_bytes c (ltb→lt c 0x800 two))
    | inr more' ↦ elim (Bool-cases (ltb c 0x10000)) [
      | inl three ↦ rw (more, more', three) (three_bytes c (ltb→lt c 0x10000 three))
      | inr four ↦
          rw (more, more', four) (omega arith, (omega arith, (omega arith, (omega arith, tt))))
    ]
  ]
]
  where
    two_bytes : (c : ℕ) → c < 0x800 → All IsByte ((0xc0 + c / 64) ∷ (0x80 + c % 64) ∷ [])
    two_bytes c h = (omega arith, (omega arith, tt))

    three_bytes :
        (c : ℕ)
        → c < 0x10000
        → All IsByte ((0xe0 + c / 4096) ∷ (0x80 + c / 64 % 64) ∷ (0x80 + c % 64) ∷ [])
    three_bytes c h = (omega arith, (omega arith, (omega arith, tt)))

encode-IsByte : (t : Text) → All IsScalar t → All IsByte (encode t)
unfolding encode
encode-IsByte [] h = tt
encode-IsByte (c ∷ t) (h, hs) =
    All-append IsByte (encode_char c) (encode t) (encode_char-IsByte c h.0) (encode-IsByte t hs)

without-surrogates : (t : Text) → All IsScalar t → map without_surrogate t ≡ t
without-surrogates [] h = refl
without-surrogates (c ∷ t) ((_, e), hs) = rw e (ap (λ t. c ∷ t) (without-surrogates t hs))

to_utf8-encode : (t : Text) → All IsScalar t → to_utf8 t ≡ encode t
unfolding to_utf8
to_utf8-encode t h = ap encode (without-surrogates t h)

-- Whatever the salt and the initialisation vector drawn (of their lengths), decrypting an
-- encrypted text without lone surrogates gives the text back.
pub decrypt-encrypt :
    (p : Primitives)
    → IsSound p
    → (salt iv value : Text) → length salt ≡ salt_length
    → length iv ≡ iv_length
    → All IsByte salt
    → All IsByte iv
    → All IsScalar value
    → decrypt p (encrypt p salt iv value) ≡ some value
unfolding decrypt encrypt
decrypt-encrypt p sound salt iv value hs hi bs bi scalars =
    let utf8 = to_utf8 value in
    let plain : utf8 ≡ encode value = to_utf8-encode value scalars in
    let bv = subst (All IsByte) (sym plain) (encode-IsByte value scalars) in
    let key = p.scrypt salt in
    let tag = (p.seal key iv utf8).1 in
    let body = (p.seal key iv utf8).0 in
    let tl = sound.tag_length key iv utf8 in
    let bytes = All-append IsByte salt _ bs (
      All-append IsByte iv _ bi (
        All-append IsByte tag body (sound.tag_bytes key iv utf8)
          (sound.sealed_bytes key iv utf8 bv))) in
    rw
      (
        decrypt,
        encrypt,
        from_hex-to_hex _ bytes,
        take-append 64 salt (iv ++ (tag ++ body)) hs,
        second_part 64 16 16 salt iv tag body hs hi tl,
        third_part 64 16 16 salt iv tag body hs hi tl,
        last_part 64 16 16 salt iv tag body hs hi tl,
      )
      (ap opened_text (sound.open_seal key iv utf8)
        ∙ ap some (ap decode plain ∙ decode-encode value))
