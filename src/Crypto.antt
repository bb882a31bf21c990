-- ===== src/Crypto.antt =====
-- packages/backend/src/services/CryptoService.ts: encrypt and decrypt. A buffer is the list of its
-- bytes, and a value the list of its code points, in which a surrogate is a lone one. Node's scrypt
-- and AES-256-GCM are parameters. UTF-8 is that of Names: `decode` reads whole characters, which is
-- what the seal of an encrypted value gives back; for other bytes toString differs.
pub mod RoundTrip
mod Tests
use open_archiver.Prelude.{
  ℕ, zero, suc, ◌+◌, ◌-◌, ◌*◌, ◌/◌, ◌%◌, ◌<◌, ◌≡◌, Bool, ◌&&◌, Option, none, some, List, [], ◌∷◌,
  ◌++◌, Text, All, length, take, drop, ltb, leb, if◌then◌else◌, map, false,
}
use open_archiver.Names.{encode, decode}

-- Node's functions: the key for a salt (the master key is fixed), sealing to a ciphertext with its
-- tag, and opening, which throws (`none`) on a tag that does not fit.
pub record Primitives : Type 0 where
  pub scrypt : Text → Text
  pub seal : Text → Text → Text → Text × Text
  pub open_sealed : Text → Text → Text → Text → Option Text

abbrev pub IsByte : ℕ → Type 0
IsByte b = b < 256

-- What Node documents of them.
pub record IsSound (p : Primitives) : Type 0 where
  pub sealed_bytes : (key iv v : Text) → All IsByte v → All IsByte (p.seal key iv v).0
  pub tag_bytes : (key iv v : Text) → All IsByte (p.seal key iv v).1
  pub tag_length : (key iv v : Text) → length (p.seal key iv v).1 ≡ 16
  pub open_seal :
      (key iv v : Text) → p.open_sealed key iv (p.seal key iv v).1 (p.seal key iv v).0 ≡ some v

abbrev pub iv_length : ℕ
iv_length = 16

abbrev pub salt_length : ℕ
salt_length = 64

abbrev pub tag_length : ℕ
tag_length = 16

-- `toString('hex')`
unfoldable pub hex_digit : ℕ → ℕ
hex_digit n = if ltb n 10 then 48 + n else 87 + n

unfoldable pub to_hex : Text → Text
unfolding hex_digit
to_hex [] = []
to_hex (b ∷ bs) = hex_digit (b / 16) ∷ hex_digit (b % 16) ∷ to_hex bs

unfoldable pub hex_value : ℕ → Option ℕ
hex_value c =
    if leb 48 c && leb c 57
    then some (c - 48)
    else if leb 97 c && leb c 102
    then some (c - 87)
    else if leb 65 c && leb c 70
    then some (c - 55)
    else none

abbrev pub with_byte : Option ℕ → Option ℕ → Text → Text
with_byte (some hi) (some lo) rest = (hi * 16 + lo) ∷ rest
with_byte _ _ rest = []

-- `Buffer.from(text, 'hex')`: it stops at the first pair that is no byte.
unfoldable pub from_hex : Text → Text
unfolding hex_value
from_hex (a ∷ b ∷ cs) = with_byte (hex_value a) (hex_value b) (from_hex cs)
from_hex _ = []

-- A value as UTF-8 bytes, `cipher.update(value, 'utf8')`: a lone surrogate becomes U+FFFD.
abbrev pub is_surrogate : ℕ → Bool
is_surrogate c = leb 0xd800 c && ltb c 0xe000

abbrev pub without_surrogate : ℕ → ℕ
without_surrogate c = if is_surrogate c then 0xfffd else c

unfoldable pub to_utf8 : Text → Text
unfolding encode
to_utf8 value = encode (map without_surrogate value)

-- A code point that is no surrogate.
abbrev pub IsScalar : ℕ → Type 0
IsScalar c = (c < 0x110000) × (is_surrogate c ≡ false)

abbrev pub opened_text : Option Text → Option Text
opened_text none = none
opened_text (some bytes) = some (decode bytes)

module _ (p : Primitives) where
  -- The random salt and initialisation vector are arguments.
  unfoldable pub encrypt : Text → Text → Text → Text
  unfolding to_utf8
  encrypt salt iv value =
      let key = p.scrypt salt in
      let (encrypted, tag) = p.seal key iv (to_utf8 value) in
      to_hex (salt ++ (iv ++ (tag ++ encrypted)))

  unfoldable pub decrypt : Text → Option Text
  decrypt encrypted =
      let bytes = from_hex encrypted in
      let salt = take salt_length bytes in
      let iv = take iv_length (drop salt_length bytes) in
      let tag = take tag_length (drop (salt_length + iv_length) bytes) in
      let encrypted_value = drop (salt_length + iv_length + tag_length) bytes in
      opened_text (p.open_sealed (p.scrypt salt) iv tag encrypted_value)
