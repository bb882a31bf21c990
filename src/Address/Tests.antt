-- ===== src/Address/Tests.antt =====
-- Addresses as they come in, and the theorem at them.
use open_archiver.Prelude.{
  ℕ, ◌≡◌, refl, none, some, [], ◌∷◌, ◌++◌, List, Text, codes, text_eq, lookup,
}
use open_archiver.Address.{
  is_space, trim_start, trim_end, to_lower_case, normalize_email_address, find_by_email_key,
}
use open_archiver.Address.Normal.{find_by_email_key-spelled}

normalize_test : normalize_email_address to_lower_case (codes " Bob@X.org ") ≡ codes "bob@x.org"
unfolding normalize_email_address trim_start trim_end to_lower_case is_space
normalize_test = refl

abbrev eve : List (Text × ℕ)
eve = (codes "Eve@x.org", 1) ∷ []

find_by_email_key-spelled_example :
    (find_by_email_key {T = ℕ} to_lower_case
        (some (eve ++ ((codes "BOB@x.org", 5) ∷ [])))
        (codes "bob@X.ORG ")
      ≡ some 5)
    × (find_by_email_key {T = ℕ} to_lower_case (some eve) (codes "bob@X.ORG ") ≡ none)
unfolding normalize_email_address trim_start trim_end to_lower_case is_space text_eq lookup
find_by_email_key-spelled_example =
    find_by_email_key-spelled to_lower_case (codes "bob@X.ORG ") (codes "BOB@x.org") 5 eve [] refl
      (refl, tt) refl
