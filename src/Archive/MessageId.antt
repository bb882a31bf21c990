-- ===== src/Archive/MessageId.antt =====
-- IngestionService.ts: messageIdHeaderOf, dedupKeyFor, and messageIdOfRawEml with its regular
-- expressions written out. An .eml is the list of its bytes, which latin1 reads as characters.
use open_archiver.Prelude.{
  ℕ, zero, suc, Bool, true, false, ◌&&◌, ◌||◌, Option, none, some, [], ◌∷◌, ◌++◌, Text, codes, take,
  drop, length, text_eq, ◌==◌, if◌then◌else◌,
}
use open_archiver.Address.{to_lower_case, trim}
use open_archiver.Names.{bound_message_key}
use open_archiver.Archive.Model.{HeaderValue, absent, other, one, several, EmailObject}

unfoldable pub message_id_header_of : HeaderValue → Option Text
message_id_header_of (one header) = some header
message_id_header_of (several (header ∷ _)) = header
message_id_header_of (several []) = none
message_id_header_of absent = none
message_id_header_of other = none

-- `if (header)` of an optional string: an empty one counts as missing.
abbrev pub truthy : Option Text → Option Text
truthy (some (c ∷ t)) = some (c ∷ t)
truthy _ = none

unfoldable pub dedup_key_for : (Text → Text) → EmailObject → Bool → Text
unfolding message_id_header_of
dedup_key_for sha256 email collapse_generated =
    elim (truthy (message_id_header_of email.message_id)) [
      | some header ↦ bound_message_key sha256 header
      | none ↦ if collapse_generated then codes "keyless" else codes "id:" ++ email.id
    ]

-- `\r?\n` at the start of a text, and what follows it.
abbrev pub after_line_end : Text → Option Text
after_line_end [] = none
after_line_end (c ∷ []) = if c == 10 then some [] else none
after_line_end (c ∷ d ∷ t) =
    if c == 10 then some (d ∷ t) else (if c == 13 && d == 10 then some t else none)

-- `\r?\n\r?\n` at the start of a text.
abbrev pub starts_blank : Text → Bool
starts_blank t = elim (after_line_end t) [
  | none ↦ false
  | some rest ↦ elim (after_line_end rest) [ none ↦ false | some _ ↦ true ]
]

-- `head.split(/\r?\n\r?\n/, 1)[0]`
unfoldable pub header_block : Text → Text
header_block [] = []
header_block (c ∷ t) = let rest = header_block t in if starts_blank (c ∷ t) then [] else c ∷ rest

abbrev pub is_line_terminator : ℕ → Bool
is_line_terminator c = c == 10 || c == 13

abbrev pub is_blank_char : ℕ → Bool
is_blank_char c = c == 32 || c == 9

abbrev pub starts_with_blank : Text → Bool
starts_with_blank [] = false
starts_with_blank (c ∷ t) = is_blank_char c

-- `((?:.|\r?\n[ \t])*)$`: up to the end of the last folded line. A line end is taken where a blank
-- follows it.
unfoldable pub folded_value : Text → Text
folded_value [] = []
folded_value (c ∷ []) = if is_line_terminator c then [] else c ∷ []
folded_value (c ∷ d ∷ t) =
    let rest = folded_value (d ∷ t) in
    if is_line_terminator c
    then (if c == 10
        then (if is_blank_char d then c ∷ rest else [])
        else (if d == 10 && starts_with_blank t then c ∷ rest else []))
    else c ∷ rest

unfoldable pub skip_blanks : Text → Text
skip_blanks [] = []
skip_blanks (c ∷ t) = let rest = skip_blanks t in if is_blank_char c then rest else c ∷ t

-- `.replace(/\r?\n[ \t]+/g, ' ')`, on fuel: a replacement takes two characters at least.
unfoldable pub unfold_from : ℕ → Text → Text
unfolding skip_blanks
unfold_from zero t = t
unfold_from (suc f) [] = []
unfold_from (suc f) (c ∷ t) = elim (after_line_end (c ∷ t)) [
  | none ↦ c ∷ unfold_from f t
  | some rest ↦
      if starts_with_blank rest then 32 ∷ unfold_from f (skip_blanks rest) else c ∷ unfold_from f t
]

-- `message-id:` in any case at the start of a text, and what follows it.
unfoldable pub after_name : Text → Option Text
unfolding to_lower_case
after_name t =
    if text_eq (to_lower_case (take 11 t)) (codes "message-id:") then some (drop 11 t) else none

-- The first line that begins with the name: `start` says whether a line begins here.
unfoldable pub find_message_id : Bool → Text → Option Text
unfolding after_name
find_message_id start [] = none
find_message_id start (c ∷ t) =
    let rest = find_message_id (is_line_terminator c) t in
    elim (if start then after_name (c ∷ t) else none) [ some value ↦ some value | none ↦ rest ]

unfoldable pub message_id_of_raw_eml : Text → Option Text
unfolding header_block find_message_id folded_value unfold_from skip_blanks
message_id_of_raw_eml eml = elim (find_message_id true (header_block (take 65536 eml))) [
  | none ↦ none
  | some line ↦
      let value = folded_value (skip_blanks line) in some (trim (unfold_from (length value) value))
]
