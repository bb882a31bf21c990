-- ===== src/Address.antt =====
-- packages/backend/src/helpers/emailAddress.ts: the canonical form of a mailbox address, and
-- lookups by it. String.prototype.toLowerCase is the parameter
-- `lower_case`.
pub mod Normal
pub mod Tests
use open_archiver.Prelude.{
  ℕ, ◌+◌, Bool, true, false, ◌||◌, ◌&&◌, Option, none, some, List, [], ◌∷◌, ◌++◌, map, Text,
  text_eq, lookup, leb, ◌==◌, if◌then◌else◌,
}

-- What String.prototype.trim takes off.
unfoldable pub is_space : ℕ → Bool
is_space c =
    leb 9 c && leb c 13
    || c == 32
    || c == 160
    || c == 0x1680
    || leb 0x2000 c && leb c 0x200a
    || c == 0x2028
    || c == 0x2029
    || c == 0x202f
    || c == 0x205f
    || c == 0x3000
    || c == 0xfeff

unfoldable pub trim_start : Text → Text
trim_start [] = []
trim_start (c ∷ t) = if is_space c then trim_start t else c ∷ t

-- A character in front of a text whose end is trimmed.
abbrev pub keep_front : ℕ → Text → Text
keep_front c [] = if is_space c then [] else c ∷ []
keep_front c (d ∷ t) = c ∷ d ∷ t

unfoldable pub trim_end : Text → Text
trim_end [] = []
trim_end (c ∷ t) = keep_front c (trim_end t)

abbrev pub trim : Text → Text
trim t = trim_end (trim_start t)

-- Lower case of ASCII letters, for names that have no others.
abbrev pub lower : ℕ → ℕ
lower c = if leb 65 c && leb c 90 then c + 32 else c

unfoldable pub to_lower_case : Text → Text
to_lower_case [] = []
to_lower_case (c ∷ t) = lower c ∷ to_lower_case t

unfoldable pub normalize_email_address : (Text → Text) → Text → Text
normalize_email_address lower_case value = lower_case (trim value)

module _ {ℓ} {T : Type ℓ} (lower_case : Text → Text) where
  -- The scan over the entries of findByEmailKey.
  unfoldable pub find_normalized : Text → List (Text × T) → Option T
  find_normalized normal [] = none
  find_normalized normal ((key, value) ∷ bag) =
      if text_eq (normalize_email_address lower_case key) normal
      then some value
      else find_normalized normal bag

  unfoldable pub find_by_email_key : Option (List (Text × T)) → Text → Option T
  find_by_email_key none email = none
  find_by_email_key (some bag) email = elim (lookup email bag) [
    | some value ↦ some value
    | none ↦ find_normalized (normalize_email_address lower_case email) bag
  ]
