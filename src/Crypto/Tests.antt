-- ===== src/Crypto/Tests.antt =====
-- Runs of CryptoService on a toy cipher, and the round trip at concrete values.
use open_archiver.Prelude.{ℕ, zero, suc, ◌≡◌, refl, some, [], ◌∷◌, Text, codes, arith}
use open_archiver.Crypto.{
  Primitives, IsSound, to_hex, from_hex, encrypt, decrypt, to_utf8, hex_digit, hex_value,
}
use open_archiver.Names.{encode, encode_char, decode, decode_from}
use open_archiver.Crypto.RoundTrip.{decrypt-encrypt}

abbrev zeros : ℕ → Text
zeros zero = []
zeros (suc n) = 0 ∷ zeros n

-- Sealing leaves the value as it is, with a tag of sixteen zero bytes.
abbrev toy : Primitives
toy = record {
  scrypt = λ salt. salt;
  seal = λ key iv v. (v, zeros 16);
  open_sealed = λ key iv tag v. some v;
}

toy-IsSound : IsSound toy
toy-IsSound = record {
  sealed_bytes = λ key iv v h. h;
  tag_bytes = λ key iv v. omega arith;
  tag_length = λ key iv v. refl;
  open_seal = λ key iv v. refl;
}

hex_test : to_hex (codes "~k") ≡ codes "7e6b"
unfolding to_hex
hex_test = refl

half_byte_test : from_hex (codes "7E6") ≡ 126 ∷ []
unfolding from_hex
half_byte_test = refl

-- A letter of two bytes, the euro sign and an emoji.
abbrev accented : Text
accented = 0xe9 ∷ 0x20ac ∷ 0x1f600 ∷ []

-- A lone surrogate is not kept.
surrogate_test : decrypt toy (encrypt toy (zeros 64) (zeros 16) (0xd83d ∷ [])) ≡ some (0xfffd ∷ [])
unfolding decrypt encrypt to_utf8 encode encode_char decode decode_from to_hex from_hex hex_digit
    hex_value
surrogate_test = refl

decrypt-encrypt_example : decrypt toy (encrypt toy (zeros 64) (zeros 16) accented) ≡ some accented
decrypt-encrypt_example =
    decrypt-encrypt toy toy-IsSound (zeros 64) (zeros 16) accented refl refl (omega arith)
      (omega arith) ((omega arith, refl), ((omega arith, refl), ((omega arith, refl), tt)))
