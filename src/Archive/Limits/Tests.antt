-- ===== src/Archive/Limits/Tests.antt =====
-- Names at their limits, with a digest of zeros, and the theorem at concrete names.
use open_archiver.Prelude.{ℕ, zero, suc, ◌≤◌, ◌≡◌, refl, [], ◌∷◌, Text, codes, text_eq, All, arith}
use open_archiver.Names.{
  byte_length, encode, encode_char, has_separator, bound_message_key, build_attachment_file_name,
  email_object_name, truncate_to_bytes, utf16_length,
}
use open_archiver.Names.Sizes.{IsDigest, IsHex, IsSafe}
use open_archiver.Names.Paths.{IsBounded}
use open_archiver.Archive.Model.{attachment_object, name_below}
use open_archiver.Archive.Store.{disambiguated, strip_eml}
use open_archiver.Archive.Limits.{stored_names-IsBounded}

abbrev zeros : ℕ → Text
zeros zero = []
zeros (suc n) = 0x30 ∷ zeros n

abbrev toy : Text → Text
toy t = zeros 64

zeros-IsHex : (n : ℕ) → All IsHex (zeros n)
zeros-IsHex zero = tt
zeros-IsHex (suc n) = (refl, zeros-IsHex n)

toy-IsDigest : IsDigest toy
toy-IsDigest = record { digest_length = λ t. refl; digest_hex = λ t. zeros-IsHex 64 }

-- A folder of 120 bytes and an id of 140 bytes, disambiguated: more than a file name may take.
too_long_test :
    byte_length (disambiguated (email_object_name toy (zeros 120) (zeros 140)) (toy [])) ≡ 262
unfolding byte_length encode encode_char has_separator disambiguated email_object_name
    truncate_to_bytes utf16_length strip_eml text_eq
too_long_test = refl

stored_names-IsBounded_example :
    (byte_length (bound_message_key toy (zeros 1200)) ≤ 998)
    × IsBounded 253 (email_object_name toy (codes "INBOX/Sent") (codes "a/b"))
    × IsBounded 262
        (disambiguated (email_object_name toy (codes "INBOX/Sent") (codes "a/b")) (toy []))
    × (byte_length (
          name_below (
            attachment_object
              (codes "s")
              (zeros 7)
              (build_attachment_file_name toy (codes "../report.pdf"))))
        ≤ 188)
    × All IsSafe (
        name_below (
          attachment_object
            (codes "s")
            (zeros 7)
            (build_attachment_file_name toy (codes "../report.pdf"))))
stored_names-IsBounded_example =
    stored_names-IsBounded toy-IsDigest (zeros 1200) (codes "INBOX/Sent") (codes "a/b") []
      (codes "s") (zeros 7) (codes "../report.pdf") (omega arith) (zeros-IsHex 7)
