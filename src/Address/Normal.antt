-- ===== src/Address/Normal.antt =====
-- emailAddress.ts: what findByEmailKey finds.
use open_archiver.Prelude.{
  ◌≡◌, refl, false, none, some, List, [], ◌∷◌, ◌++◌, Text, All, arith, text_eq, text_eq_iff,
  text_eq_refl, lookup,
}
use open_archiver.Address.{normalize_email_address, find_by_email_key, find_normalized}

module _ {ℓ} {T : Type ℓ} (lower_case : Text → Text) where
  -- The key has another normal form.
  abbrev pub IsOther : Text → Text × T → Type 0
  IsOther email entry =
      text_eq (normalize_email_address lower_case entry.0)
        (normalize_email_address lower_case email)
      ≡ false

  find_normalized-first :
      (email stored : Text) (value : T) (before after : List (Text × T))
      → normalize_email_address lower_case stored ≡ normalize_email_address lower_case email
      → All (IsOther email) before
      → find_normalized lower_case
          (normalize_email_address lower_case email)
          (before ++ ((stored, value) ∷ after))
        ≡ some value
  unfolding find_normalized
  find_normalized-first email stored value [] after e h =
      rw (e, text_eq_refl (normalize_email_address lower_case email)) refl
  find_normalized-first email stored value (entry ∷ before) after e (h, hs) =
      rw h (find_normalized-first email stored value before after e hs)

  find_normalized-other :
      (email : Text) (bag : List (Text × T))
      → All (IsOther email) bag
      → find_normalized lower_case (normalize_email_address lower_case email) bag ≡ none
  unfolding find_normalized
  find_normalized-other email [] h = refl
  find_normalized-other email (entry ∷ bag) (h, hs) = rw h (find_normalized-other email bag hs)

  lookup-other :
      (email : Text) (bag : List (Text × T)) → All (IsOther email) bag → lookup email bag ≡ none
  unfolding lookup
  lookup-other email [] h = refl
  lookup-other email ((key, w) ∷ bag) (h, hs) = ground (
    arith,
    text_eq_iff key email,
    text_eq_refl (normalize_email_address lower_case email),
    lookup-other email bag hs,
  )

  -- Whatever toLowerCase does: a value stored under a key that is some spelling of the address, the
  -- first such key of the bag, is found by the address in another spelling, one that is itself no key
  -- of the bag; and in a bag with no spelling of the address nothing is found.
  pub find_by_email_key-spelled :
      (email stored : Text) (value : T) (before after : List (Text × T))
      → normalize_email_address lower_case stored ≡ normalize_email_address lower_case email
      → All (IsOther email) before
      → lookup email (before ++ ((stored, value) ∷ after)) ≡ none
      → (find_by_email_key lower_case (some (before ++ ((stored, value) ∷ after))) email
          ≡ some value)
        × (find_by_email_key lower_case (some before) email ≡ none)
  unfolding find_by_email_key
  find_by_email_key-spelled email stored value before after e h absent = (
    rw (absent, find_by_email_key) (find_normalized-first email stored value before after e h),
    rw (lookup-other email before h, find_by_email_key) (find_normalized-other email before h),
  )
