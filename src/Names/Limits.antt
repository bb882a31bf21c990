-- ===== src/Names/Limits.antt =====
-- IngestionService.ts names files and keys within the limits of a file system and of a database
-- index: buildEmailFileName, boundMessageKey, clampPathSegment, buildAttachmentFileName.
use open_archiver.Prelude.{
  ℕ, ◌+◌, ◌-◌, ◌≤◌, ◌≡◌, refl, sym, ap, subst, ◌∙◌, inl, inr, Bool, true, not, ◌&&◌, Option-cases,
  List, [], ◌∷◌, ◌++◌, map, Text, take, codes, is_empty, All, All-append, leb, leb→le, Bool-cases,
  arith, append-nil,
}
use open_archiver.Names.{
  byte_length, utf16_length, truncate_to_bytes, at_last_dot, sanitize, has_separator, split_on,
  build_email_file_name, bound_message_key, clamp_path_segment, split_extension,
  long_attachment_name, build_attachment_file_name, clamp_path, email_object_name,
}
use open_archiver.Names.Sizes.{
  All-append-inv, All-take, All-weaken, IsDigest, IsHex, IsInside, IsSafe, byte_length-append,
  byte_length-dash, byte_length-eml, byte_length-hex, has_separator-IsInside, hex-IsInside,
  hex-IsSafe, if-All, length-take, rejoin, rejoin-at_last_dot, sanitize-IsSafe,
  truncate_to_bytes-All, truncate_to_bytes-AtMost, utf16_length-hex,
}
use open_archiver.Names.Paths.{IsBounded, IsPart, join-IsBounded, split_on-IsInside}

-- What the name of an attachment's object is to satisfy.
unfoldable pub IsAttachmentName : Text → Type 0
IsAttachmentName name = (byte_length name ≤ 180) × All IsSafe name

module _ {sha256 : Text → Text} (d : IsDigest sha256) where
  byte_length-digest : (t : Text) → byte_length (sha256 t) ≡ 64
  byte_length-digest t = byte_length-hex (sha256 t) (d.digest_hex t) ∙ d.digest_length t

  pub suffix-IsHex : (t : Text) → All IsHex (take 8 (sha256 t))
  suffix-IsHex t = All-take IsHex 8 (sha256 t) (d.digest_hex t)

  pub byte_length-suffix : (t : Text) → byte_length (take 8 (sha256 t)) ≡ 8
  byte_length-suffix t =
      byte_length-hex (take 8 (sha256 t)) (suffix-IsHex t)
      ∙ length-take 8 (sha256 t) (omega (arith, d.digest_length t))

  pub bound_message_key-AtMost : (value : Text) → byte_length (bound_message_key sha256 value) ≤ 998
  unfolding bound_message_key
  bound_message_key-AtMost value = ground (
    arith,
    byte_length-append (truncate_to_bytes value (998 - utf16_length (sha256 value) - 1))
        (0x2d ∷ sha256 value),
    byte_length-append (0x2d ∷ []) (sha256 value),
    byte_length-dash,
    byte_length-digest value,
    truncate_to_bytes-AtMost value (998 - utf16_length (sha256 value) - 1),
    utf16_length-hex (sha256 value) (d.digest_hex value),
    d.digest_length value,
  )

  clamp_path_segment-AtMost :
      (segment : Text) → byte_length (clamp_path_segment sha256 segment) ≤ 109
  unfolding clamp_path_segment
  clamp_path_segment-AtMost segment = ground (
    arith,
    byte_length-append (truncate_to_bytes segment 100) (0x2d ∷ take 8 (sha256 segment)),
    byte_length-append (0x2d ∷ []) (take 8 (sha256 segment)),
    byte_length-dash,
    byte_length-suffix segment,
    truncate_to_bytes-AtMost segment 100,
  )

  clamp_path_segment-IsInside :
      (segment : Text)
      → All (IsInside 0x2f) segment
      → All (IsInside 0x2f) (clamp_path_segment sha256 segment)
  unfolding clamp_path_segment
  clamp_path_segment-IsInside segment h =
      if-All (IsInside 0x2f) (leb (byte_length segment) 100) segment
        (truncate_to_bytes segment 100 ++ (0x2d ∷ take 8 (sha256 segment))) (λ _. h)
        (All-append (IsInside 0x2f) (truncate_to_bytes segment 100) (0x2d ∷ take 8 (sha256 segment))
          (truncate_to_bytes-All (IsInside 0x2f) segment 100 h)
          (refl, All-weaken hex-IsInside (take 8 (sha256 segment)) (suffix-IsHex segment)))

  pub build_email_file_name-AtMost :
      (id : Text) → byte_length (build_email_file_name sha256 id) ≤ 140
  unfolding build_email_file_name
  build_email_file_name-AtMost id = ground (arith, byte_length-digest id)

  pub build_email_file_name-IsInside :
      (id : Text) → All (IsInside 0x2f) (build_email_file_name sha256 id)
  unfolding build_email_file_name
  build_email_file_name-IsInside id =
      elim (Bool-cases (leb (byte_length id) 140 && not (has_separator id))) [
        | inl plain ↦ rw plain (has_separator-IsInside id (ground arith))
        | inr other ↦ rw other (All-weaken hex-IsInside (sha256 id) (d.digest_hex id))
      ]

  and_le : (b : Bool) (n : ℕ) → (b && leb n 16) ≡ true → n ≤ 16
  and_le b n h = ground arith

  abbrev parts_of : Text × Text → Text
  parts_of (base, ext) = base ++ ext

  split_extension-parts :
      (t : Text) → (parts_of (split_extension t) ≡ t) × (byte_length (split_extension t).1 ≤ 16)
  unfolding split_extension
  split_extension-parts t = elim (Option-cases (at_last_dot t)) [
    | inl e ↦ rw (e, split_extension) (append-nil t, omega arith)
    | inr (x, e) ↦
        rw (e, split_extension)
          (elim (Bool-cases (not (is_empty x.0) && leb (byte_length x.1) 16)) [
            | inl short ↦ rw short (
              ap (λ o. rejoin o t) (sym e) ∙ rejoin-at_last_dot t,
              and_le (not (is_empty x.0)) (byte_length x.1) short,
            )
            | inr long ↦ rw long (append-nil t, omega arith)
          ])
  ]

  long_attachment_name-IsAttachmentName :
      (filename base ext : Text)
      → byte_length ext ≤ 16
      → All IsSafe base
      → All IsSafe ext
      → IsAttachmentName (long_attachment_name sha256 filename (base, ext))
  unfolding long_attachment_name IsAttachmentName
  long_attachment_name-IsAttachmentName filename base ext h k l = (
    ground (
      arith,
      byte_length-append
          (truncate_to_bytes base (180 - byte_length (0x2d ∷ (take 8 (sha256 filename) ++ ext))))
          (0x2d ∷ (take 8 (sha256 filename) ++ ext)),
      byte_length-append (0x2d ∷ []) (take 8 (sha256 filename) ++ ext),
      byte_length-append (take 8 (sha256 filename)) ext,
      byte_length-dash,
      byte_length-suffix filename,
      truncate_to_bytes-AtMost base (180 - byte_length (0x2d ∷ (take 8 (sha256 filename) ++ ext))),
    ),
    All-append IsSafe
        (truncate_to_bytes base (180 - byte_length (0x2d ∷ (take 8 (sha256 filename) ++ ext))))
        (0x2d ∷ (take 8 (sha256 filename) ++ ext))
        (truncate_to_bytes-All IsSafe base
          (180 - byte_length (0x2d ∷ (take 8 (sha256 filename) ++ ext))) k)
        (
          refl,
          All-append IsSafe (take 8 (sha256 filename)) ext
              (All-weaken hex-IsSafe (take 8 (sha256 filename)) (suffix-IsHex filename)) l,
        ),
  )

  pub build_attachment_file_name-IsAttachmentName :
      (filename : Text) → IsAttachmentName (build_attachment_file_name sha256 filename)
  unfolding build_attachment_file_name IsAttachmentName
  build_attachment_file_name-IsAttachmentName filename =
      elim (Bool-cases (leb (byte_length (sanitize filename)) 180)) [
        | inl short ↦
            rw short (leb→le (byte_length (sanitize filename)) 180 short, sanitize-IsSafe filename)
        | inr long ↦ rw long (
            let parts = split_extension-parts (sanitize filename) in
            let safe =
              All-append-inv IsSafe (split_extension (sanitize filename)).0
                (split_extension (sanitize filename)).1
                (subst (All IsSafe) (sym parts.0) (sanitize-IsSafe filename)) in
            long_attachment_name-IsAttachmentName filename (split_extension (sanitize filename)).0
              (split_extension (sanitize filename)).1 parts.1 safe.0 safe.1)
      ]

module _ {sha256 : Text → Text} (d : IsDigest sha256) where
  clamped-IsPart :
      (segments : List Text)
      → All (All (IsInside 0x2f)) segments
      → All IsPart (map (clamp_path_segment sha256) segments)
  unfolding IsPart
  clamped-IsPart [] h = tt
  clamped-IsPart (x ∷ xs) (h, hs) =
      ((clamp_path_segment-IsInside d x h, clamp_path_segment-AtMost d x), clamped-IsPart xs hs)

  -- A name after the clamped folders, with no separator in it.
  pub clamped-IsBounded :
      (m : ℕ) (path name : Text)
      → All (IsInside 0x2f) name
      → byte_length name ≤ m
      → IsBounded (109 + m) (clamp_path sha256 path ++ name)
  unfolding clamp_path
  clamped-IsBounded m path name h k =
      join-IsBounded m (map (clamp_path_segment sha256) (split_on 0x2f path)) name
        (clamped-IsPart (split_on 0x2f path) (split_on-IsInside 0x2f path)) h k

  pub email_object_name-IsBounded :
      (path id : Text) → IsBounded 253 (email_object_name sha256 path id)
  unfolding email_object_name
  email_object_name-IsBounded path id =
      clamped-IsBounded 144 path (build_email_file_name sha256 id ++ codes ".eml")
        (All-append (IsInside 0x2f) (build_email_file_name sha256 id) (codes ".eml")
          (build_email_file_name-IsInside d id) (refl, (refl, (refl, (refl, tt)))))
        (omega (
          arith,
          byte_length-append (build_email_file_name sha256 id) (codes ".eml"),
          build_email_file_name-AtMost d id,
          byte_length-eml,
        ))
