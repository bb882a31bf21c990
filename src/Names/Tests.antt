-- ===== src/Names/Tests.antt =====
-- Runs of the name builders on concrete texts, with a digest of zeros.
use open_archiver.Names.Partial.{partial_name-Fits}
use open_archiver.Prelude.{
  arith, false, leb, ◌+◌, ℕ, zero, suc, ◌≡◌, refl, [], ◌∷◌, Text, codes, All,
}
use open_archiver.Names.{
  encode, byte_length, partial_name, has_separator, encode_char, utf16_length, byte_length,
  truncate_to_bytes, build_email_file_name, build_attachment_file_name, email_object_name,
}
use open_archiver.Names.Truncate.{fit, truncate_to_bytes-fit}
use open_archiver.Names.Sizes.{IsDigest, IsHex}

abbrev zeros : ℕ → Text
zeros zero = []
zeros (suc n) = 0x30 ∷ zeros n

abbrev toy : Text → Text
toy t = zeros 64

toy-IsDigest : IsDigest toy
toy-IsDigest = record { digest_length = λ t. refl; digest_hex = λ t. zeros-hex 64 }
  where
    zeros-hex : (n : ℕ) → All IsHex (zeros n)
    zeros-hex zero = tt
    zeros-hex (suc n) = (refl, zeros-hex n)

-- `aé😀b` in seven bytes, and in three: the emoji is dropped whole.
abbrev mixed : Text
mixed = 0x61 ∷ 0xe9 ∷ 0x1f600 ∷ 0x62 ∷ []

cut_test : truncate_to_bytes mixed 6 ≡ 0x61 ∷ 0xe9 ∷ []
unfolding truncate_to_bytes utf16_length encode_char
cut_test = refl

whole_test : truncate_to_bytes mixed 8 ≡ mixed
unfolding truncate_to_bytes utf16_length encode_char
whole_test = refl

attachment_test : build_attachment_file_name toy (codes "../a\\b") ≡ codes ".._a_b"
unfolding build_attachment_file_name encode_char
attachment_test = refl

unsafe_id_test : build_email_file_name toy (codes "a/b") ≡ zeros 64
unfolding build_email_file_name encode_char
unsafe_id_test = refl

object_test : email_object_name toy (codes "INBOX/") (codes "<1@x>") ≡ codes "INBOX/<1@x>.eml"
unfolding email_object_name encode_char
object_test = refl

truncate_to_bytes-fit_example : truncate_to_bytes mixed 6 ≡ fit mixed 6
truncate_to_bytes-fit_example = truncate_to_bytes-fit mixed 6

-- A folder of 90 bytes and an id of 120 bytes.
partial_name-Fits_example :
    leb (byte_length (partial_name (email_object_name toy (zeros 90) (zeros 120)) (zeros 36))) 255
    ≡ leb (byte_length (zeros 90) + byte_length (zeros 120)) 205
unfolding byte_length encode encode_char has_separator
partial_name-Fits_example =
    partial_name-Fits toy (zeros 90) (zeros 120) (zeros 36) (omega arith) refl (omega arith) refl
      refl

too_long_test : leb (byte_length (zeros 90) + byte_length (zeros 120)) 205 ≡ false
unfolding byte_length encode encode_char
too_long_test = refl
