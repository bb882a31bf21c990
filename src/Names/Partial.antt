-- ===== src/Names/Partial.antt =====
-- services/storage/LocalFileSystemProvider.ts: the temporary name of an e-mail's file.
use open_archiver.Prelude.{
  ◌+◌, ◌≤◌, ◌≡◌, refl, ap, ◌∙◌, false, [], ◌∷◌, ◌++◌, map, Text, codes, join, leb, arith,
}
use open_archiver.Names.{
  encode_char, encode, byte_length, has_separator, build_email_file_name, clamp_path_segment,
  clamp_path, email_object_name, partial_name,
}
use open_archiver.Names.Sizes.{byte_length-append, has_separator-IsInside, byte_length-eml}
use open_archiver.Names.Paths.{split_on-one}

byte_length-dot : byte_length (codes ".") ≡ 1
unfolding byte_length encode encode_char
byte_length-dot = refl

byte_length-partial : byte_length (codes ".partial") ≡ 8
unfolding byte_length encode encode_char
byte_length-partial = refl

byte_length-partial_name :
    (basename uuid : Text)
    → byte_length uuid ≡ 36
    → byte_length (partial_name basename uuid) ≡ byte_length basename + 46
unfolding partial_name
byte_length-partial_name basename uuid h = omega (
  arith,
  byte_length-append (codes ".") (basename ++ (codes "." ++ (uuid ++ codes ".partial"))),
  byte_length-append basename (codes "." ++ (uuid ++ codes ".partial")),
  byte_length-append (codes ".") (uuid ++ codes ".partial"),
  byte_length-append uuid (codes ".partial"),
  byte_length-dot,
  byte_length-partial,
)

-- A folder and an id that need no change are kept as they are.
module _ (sha256 : Text → Text) where
  plain_segment :
      (segment : Text) → byte_length segment ≤ 100 → clamp_path_segment sha256 segment ≡ segment
  unfolding clamp_path_segment
  plain_segment segment h = ground arith

  plain_id :
      (id : Text)
      → byte_length id ≤ 140
      → has_separator id ≡ false
      → build_email_file_name sha256 id ≡ id
  unfolding build_email_file_name
  plain_id id h k = ground arith

  plain_object :
      (segment id : Text)
      → byte_length segment ≤ 100
      → has_separator segment ≡ false
      → byte_length id ≤ 140
      → has_separator id ≡ false
      → email_object_name sha256 segment id ≡ segment ++ (id ++ codes ".eml")
  unfolding email_object_name clamp_path
  plain_object segment id h k l m =
      ap
        (λ parts.
          join (0x2f ∷ []) (map (clamp_path_segment sha256) parts)
          ++ (build_email_file_name sha256 id ++ codes ".eml"))
        (split_on-one 0x2f segment (has_separator-IsInside segment k))
      ∙ ap (λ s. s ++ (build_email_file_name sha256 id ++ codes ".eml")) (plain_segment segment h)
      ∙ ap (λ i. segment ++ (i ++ codes ".eml")) (plain_id id l m)

  -- For a folder of at most 100 bytes and an id of at most 140 bytes without separators, which both
  -- stay as they are in the name of the object, and a uuid of 36 bytes: the temporary name of the
  -- file fits in 255 bytes exactly if the two take at most 205 bytes together.
  pub partial_name-Fits :
      (segment id uuid : Text)
      → byte_length segment ≤ 100
      → has_separator segment ≡ false
      → byte_length id ≤ 140
      → has_separator id ≡ false
      → byte_length uuid ≡ 36
      → leb (byte_length (partial_name (email_object_name sha256 segment id) uuid)) 255
        ≡ leb (byte_length segment + byte_length id) 205
  partial_name-Fits segment id uuid h k l m u =
      ap (λ n. leb (byte_length (partial_name n uuid)) 255) (plain_object segment id h k l m)
      ∙ ground (
        arith,
        byte_length-partial_name (segment ++ (id ++ codes ".eml")) uuid u,
        byte_length-append segment (id ++ codes ".eml"),
        byte_length-append id (codes ".eml"),
        byte_length-eml,
      )
