-- ===== src/Names.antt =====
-- packages/backend/src/helpers/truncateToBytes.ts and the names that IngestionService.ts builds
-- with it. A text here is the list of its code points, none of them a surrogate.
use open_archiver.Prelude.{
  ℕ, zero, suc, ◌+◌, ◌-◌, ◌*◌, ◌/◌, ◌%◌, Bool, true, false, ◌&&◌, not, is_empty, Option, some, none,
  ◌||◌, List, [], ◌∷◌, ◌++◌, map, Text, codes, length, take, any, join, ltb, leb, ◌==◌,
  if◌then◌else◌,
}
pub mod Utf8
pub mod Truncate
pub mod Sizes
pub mod Paths
pub mod Limits
pub mod Partial
mod Tests

-- `Buffer.from(text, 'utf8')`
unfoldable pub encode_char : ℕ → Text
encode_char c =
    if ltb c 0x80
    then c ∷ []
    else (if ltb c 0x800
        then (0xc0 + c / 64) ∷ (0x80 + c % 64) ∷ []
        else (if ltb c 0x10000
            then (0xe0 + c / 4096) ∷ (0x80 + c / 64 % 64) ∷ (0x80 + c % 64) ∷ []
            else (0xf0 + c / 262144)
              ∷ (0x80 + c / 4096 % 64)
              ∷ (0x80 + c / 64 % 64)
              ∷ (0x80 + c % 64)
              ∷ []))

unfoldable pub encode : Text → Text
encode [] = []
encode (c ∷ t) = encode_char c ++ encode t

-- `Buffer.byteLength(text)`
unfoldable pub byte_length : Text → ℕ
unfolding encode
byte_length t = length (encode t)

-- `text.length`, in UTF-16 code units
unfoldable pub utf16_length : Text → ℕ
utf16_length [] = 0
utf16_length (c ∷ t) = (if ltb c 0x10000 then 1 else 2) + utf16_length t

-- `toString('utf8')` of whole characters, with `n` bytes of the current one to come: what a byte
-- completes, and the state after it.
abbrev pub bytes_left : ℕ → ℕ → ℕ
bytes_left zero b =
    if ltb b 0x80 then 0 else (if ltb b 0xe0 then 1 else (if ltb b 0xf0 then 2 else 3))
bytes_left (suc n) b = n

abbrev pub bits_read : ℕ → ℕ → ℕ → ℕ
bits_read zero acc b =
    if ltb b 0x80
    then 0
    else (if ltb b 0xe0 then b - 0xc0 else (if ltb b 0xf0 then b - 0xe0 else b - 0xf0))
bits_read (suc n) acc b = acc * 64 + (b - 0x80)

abbrev pub completed : ℕ → ℕ → ℕ → Text → Text
completed zero acc b rest = if ltb b 0x80 then b ∷ rest else rest
completed (suc zero) acc b rest = (acc * 64 + (b - 0x80)) ∷ rest
completed (suc (suc n)) acc b rest = rest

unfoldable pub decode_from : ℕ → ℕ → Text → Text
decode_from n acc [] = []
decode_from n acc (b ∷ bytes) =
    completed n acc b (decode_from (bytes_left n b) (bits_read n acc b) bytes)

unfoldable pub decode : Text → Text
unfolding decode_from
decode bytes = decode_from 0 0 bytes

-- `buf[i]`
abbrev pub byte_at : Text → ℕ → ℕ
byte_at [] i = 0
byte_at (b ∷ bytes) zero = b
byte_at (b ∷ bytes) (suc i) = byte_at bytes i

-- `(b & 0xc0) === 0x80`, of a byte
abbrev pub is_continuation : ℕ → Bool
is_continuation b = leb 0x80 b && ltb b 0xc0

-- The loop that backs off over continuation bytes.
unfoldable pub back_off : Text → ℕ → ℕ
back_off buf zero = 0
back_off buf (suc end) =
    let rest = back_off buf end in if is_continuation (byte_at buf (suc end)) then rest else suc end

unfoldable pub truncate_to_bytes : Text → ℕ → Text
unfolding byte_length back_off decode
truncate_to_bytes text max_bytes =
    if max_bytes == 0
    then []
    else (if leb (4 * utf16_length text) max_bytes
        then text
        else (if leb (byte_length text) max_bytes
            then text
            else decode (take (back_off (encode text) max_bytes) (encode text))))

-- `dotIndex = sanitized.lastIndexOf('.')`: what stands before the last dot, and what starts at it.
unfoldable pub at_last_dot : Text → Option (Text × Text)
at_last_dot [] = none
at_last_dot (c ∷ t) =
    let rest = at_last_dot t in
    elim rest [
      | some (base, ext) ↦ some (c ∷ base, ext)
      | none ↦ if c == 0x2e then some ([], c ∷ t) else none
    ]

-- `.replace(/[/\\\u0000-\u001f]/g, '_')`
unfoldable pub sanitize_char : ℕ → ℕ
sanitize_char c = if c == 0x2f || c == 0x5c || ltb c 0x20 then 0x5f else c

unfoldable pub sanitize : Text → Text
unfolding sanitize_char
sanitize filename = map sanitize_char filename

-- `id.match(/[/\\]/)`
unfoldable pub has_separator : Text → Bool
has_separator t = any (λ c. c == 0x2f || c == 0x5c) t

abbrev before_first : ℕ → List Text → List Text
before_first c [] = (c ∷ []) ∷ []
before_first c (part ∷ parts) = (c ∷ part) ∷ parts

-- `path.split('/')`
unfoldable pub split_on : ℕ → Text → List Text
split_on sep [] = [] ∷ []
split_on sep (c ∷ t) =
    let rest = split_on sep t in if c == sep then [] ∷ rest else before_first c rest

-- The name without its extension and the extension, where one of at most 16 bytes follows a name.
unfoldable pub split_extension : Text → Text × Text
unfolding byte_length at_last_dot
split_extension sanitized = elim (at_last_dot sanitized) [
  | some (base, ext) ↦
      if not (is_empty base) && leb (byte_length ext) 16 then (base, ext) else (sanitized, [])
  | none ↦ (sanitized, [])
]

-- The names that IngestionService.ts builds; the argument is the digest in hexadecimal.
module _ (sha256 : Text → Text) where
  unfoldable pub build_email_file_name : Text → Text
  unfolding byte_length has_separator
  build_email_file_name id =
      if leb (byte_length id) 140 && not (has_separator id) then id else sha256 id

  unfoldable pub bound_message_key : Text → Text
  unfolding byte_length truncate_to_bytes utf16_length
  bound_message_key value =
      if leb (byte_length value) 998
      then value
      else truncate_to_bytes value (998 - utf16_length (sha256 value) - 1) ++ (0x2d ∷ sha256 value)

  unfoldable pub clamp_path_segment : Text → Text
  unfolding byte_length truncate_to_bytes
  clamp_path_segment segment =
      if leb (byte_length segment) 100
      then segment
      else truncate_to_bytes segment 100 ++ (0x2d ∷ take 8 (sha256 segment))

  unfoldable pub long_attachment_name : Text → Text × Text → Text
  unfolding byte_length truncate_to_bytes
  long_attachment_name filename (base, ext) =
      let hash_suffix = take 8 (sha256 filename) in
      truncate_to_bytes base (180 - byte_length (0x2d ∷ (hash_suffix ++ ext)))
      ++ (0x2d ∷ (hash_suffix ++ ext))

  unfoldable pub build_attachment_file_name : Text → Text
  unfolding byte_length sanitize split_extension long_attachment_name
  build_attachment_file_name filename =
      if leb (byte_length (sanitize filename)) 180
      then sanitize filename
      else long_attachment_name filename (split_extension (sanitize filename))

  -- `path.split('/').map(clampPathSegment).join('/')`
  unfoldable pub clamp_path : Text → Text
  unfolding clamp_path_segment split_on
  clamp_path path = join (0x2f ∷ []) (map clamp_path_segment (split_on 0x2f path))

  -- The name of an e-mail's object below the folder of its source. An empty path has one empty
  -- segment, which stays empty.
  unfoldable pub email_object_name : Text → Text → Text
  unfolding clamp_path build_email_file_name
  email_object_name path id = clamp_path path ++ (build_email_file_name id ++ codes ".eml")

-- The temporary name that LocalFileSystemProvider.putIfAbsent writes a file under, in its folder.
unfoldable pub partial_name : Text → Text → Text
partial_name basename uuid = codes "." ++ (basename ++ (codes "." ++ (uuid ++ codes ".partial")))
