-- ===== src/Archive/Limits.antt =====
-- IngestionService.ts: how long the keys and the names are that processEmail stores under, whatever a
-- mail server or a sender supplies.
mod Tests
use open_archiver.Prelude.{
  ℕ, ◌+◌, ◌≤◌, ◌≡◌, refl, sym, ap, ◌∙◌, subst, inl, inr, false, [], ◌∷◌, ◌++◌, Text, codes, take,
  All, All-append, length, length-append, text_eq, text_eq_iff, Bool-cases, append_assoc, arith,
}
use open_archiver.Names.{
  byte_length, encode, build_email_file_name, bound_message_key, build_attachment_file_name,
  clamp_path, email_object_name,
}
use open_archiver.Names.Sizes.{
  All-weaken, IsDigest, IsHex, IsInside, IsSafe, byte_length-append, byte_length-dash,
  byte_length-eml, byte_length-hex, hex-IsInside, hex-IsSafe,
}
use open_archiver.Names.Paths.{IsBounded}
use open_archiver.Names.Limits.{
  IsAttachmentName, suffix-IsHex, byte_length-suffix, bound_message_key-AtMost,
  build_email_file_name-AtMost, build_email_file_name-IsInside, clamped-IsBounded,
  email_object_name-IsBounded, build_attachment_file_name-IsAttachmentName,
}
use open_archiver.Archive.Model.{attachment_object, name_below}
use open_archiver.Archive.Store.{strip_eml, disambiguated}

longer-ne : (c : ℕ) (t : Text) → text_eq (c ∷ (t ++ codes ".eml")) (codes ".eml") ≡ false
longer-ne c t = elim (Bool-cases (text_eq (c ∷ (t ++ codes ".eml")) (codes ".eml"))) [
  | inl same ↦ absurd (
      omega (
        arith,
        ap length ((text_eq_iff (c ∷ (t ++ codes ".eml")) (codes ".eml")).0 same),
        length-append t (codes ".eml"),
      ))
  | inr other ↦ other
]

strip_eml-append : (t : Text) → strip_eml (t ++ codes ".eml") ≡ t
unfolding strip_eml text_eq
strip_eml-append [] = refl
strip_eml-append (c ∷ t) = rw (longer-ne c t, strip_eml-append t) refl

module _ {sha256 : Text → Text} (d : IsDigest sha256) where
  disambiguated_parts :
      (path id content : Text)
      → disambiguated (email_object_name sha256 path id) (sha256 content)
        ≡ clamp_path sha256 path
          ++ (build_email_file_name sha256 id
              ++ (codes "-" ++ (take 8 (sha256 content) ++ codes ".eml")))
  unfolding disambiguated email_object_name
  disambiguated_parts path id content =
      let folders = clamp_path sha256 path in
      let file = build_email_file_name sha256 id in
      let suffix = codes "-" ++ (take 8 (sha256 content) ++ codes ".eml") in
      ap (λ t. strip_eml t ++ suffix) (sym (append_assoc folders file (codes ".eml")))
      ∙ ap (λ t. t ++ suffix) (strip_eml-append (folders ++ file))
      ∙ append_assoc folders file suffix

  disambiguated-IsBounded :
      (path id content : Text)
      → IsBounded 262 (disambiguated (email_object_name sha256 path id) (sha256 content))
  disambiguated-IsBounded path id content =
      let file = build_email_file_name sha256 id in
      let hash = take 8 (sha256 content) in
      subst (IsBounded 262) (sym (disambiguated_parts path id content)) (
        clamped-IsBounded d 153 path (file ++ (codes "-" ++ (hash ++ codes ".eml")))
          (All-append (IsInside 0x2f) file (codes "-" ++ (hash ++ codes ".eml"))
            (build_email_file_name-IsInside d id)
            (
              refl,
              All-append (IsInside 0x2f) hash (codes ".eml")
                  (All-weaken hex-IsInside hash (suffix-IsHex d content))
                  (refl, (refl, (refl, (refl, tt)))),
            ))
          (omega (
            arith,
            byte_length-append file (codes "-" ++ (hash ++ codes ".eml")),
            byte_length-append (codes "-") (hash ++ codes ".eml"),
            byte_length-append hash (codes ".eml"),
            byte_length-dash,
            byte_length-eml,
            byte_length-suffix d content,
            build_email_file_name-AtMost d id,
          )))

  attachment_name-AtMost :
      (source unique name : Text)
      → length unique ≤ 7
      → All IsHex unique
      → IsAttachmentName name
      → (byte_length (name_below (attachment_object source unique name)) ≤ 188)
        × All IsSafe (name_below (attachment_object source unique name))
  unfolding name_below IsAttachmentName
  attachment_name-AtMost source unique name l h (b, s) = (
    omega (
      arith,
      byte_length-append unique (codes "-" ++ name),
      byte_length-append (codes "-") name,
      byte_length-dash,
      byte_length-hex unique h,
    ),
    All-append IsSafe unique (codes "-" ++ name) (All-weaken hex-IsSafe unique h) (refl, s),
  )

-- Whatever a mail server or a sender supplies, for a digest of 64 hexadecimal characters, and where
-- the first characters of a random id (7 of them) are hexadecimal: a deduplication key takes at most
-- 998 bytes; every component of the path of an e-mail's object takes at most 253 bytes, the last with
-- the file name and `.eml` on it; with the part of a content's hash that disambiguates it, at most
-- 262; and the name of an attachment's object, with the part of the random id in front, takes at most
-- 188 bytes and has no separator and no control character in it.
pub stored_names-IsBounded :
    {sha256 : Text → Text} (d : IsDigest sha256)
    (value path id content source unique filename : Text)
    → length unique ≤ 7
    → All IsHex unique
    → (byte_length (bound_message_key sha256 value) ≤ 998)
      × IsBounded 253 (email_object_name sha256 path id)
      × IsBounded 262 (disambiguated (email_object_name sha256 path id) (sha256 content))
      × (byte_length (
            name_below
              (attachment_object source unique (build_attachment_file_name sha256 filename)))
          ≤ 188)
      × All IsSafe (
          name_below (attachment_object source unique (build_attachment_file_name sha256 filename)))
stored_names-IsBounded d value path id content source unique filename l h =
    let name =
      attachment_name-AtMost d source unique _ l h
        (build_attachment_file_name-IsAttachmentName d filename) in
    (
      bound_message_key-AtMost d value,
      email_object_name-IsBounded d path id,
      disambiguated-IsBounded d path id content,
      name.0,
      name.1,
    )
