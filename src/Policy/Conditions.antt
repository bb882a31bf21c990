-- ===== src/Policy/Conditions.antt =====
-- normalize-conditions.ts: which texts of a policy are addresses, read off independently of the
-- normalization.
use open_archiver.Prelude.{
  ℕ, ◌+◌, ◌≤◌, ◌≡◌, refl, false, none, some, List, [], ◌∷◌, ◌++◌, Text, text_eq, decimal,
  decimal-All, All, arith, if◌then◌else◌,
}
use open_archiver.Audit.Canonical.{
  Value, undef, null, bool, num, str, arr, obj, Values, nil, cons, Fields, end, field,
}
use open_archiver.Policy.{is_logical, is_not, is_email_key, unit_entries, index_entries, CaslPolicy}
use open_archiver.Policy.Operands.{operand_texts, texts_in, operator_texts}

-- The addresses in conditions: those in the operands of userEmail, in the conditions of $or, $and and
-- $nor, and in the condition of $not.
unfoldable mutual
  unfolding operand_texts

  pub emails_in : Fields → List Text
  emails_in end = []
  emails_in (field key v fields) = emails_at key v ++ emails_in fields

  pub emails_at : Text → Value → List Text
  emails_at key (arr items) =
      let within = item_emails items in
      if is_logical key
      then within
      else (if is_not key then [] else (if is_email_key key then texts_in items else []))
  emails_at key (obj fields) =
      let within = emails_in fields in
      if is_logical key
      then []
      else (if is_not key then within else (if is_email_key key then operator_texts fields else []))
  emails_at key (str t) =
      if is_logical key
      then []
      else (if is_not key then [] else (if is_email_key key then t ∷ [] else []))
  emails_at key v = []

  pub item_emails : Values → List Text
  item_emails nil = []
  item_emails (cons v items) = emails_of v ++ item_emails items

  pub emails_of : Value → List Text
  emails_of (obj fields) = emails_in fields
  emails_of v = []

unfoldable pub policy_emails : List CaslPolicy → List Text
unfolding emails_in
policy_emails [] = []
policy_emails (policy ∷ policies) =
    elim policy.conditions [ none ↦ [] | some c ↦ emails_in c ] ++ policy_emails policies

abbrev IsDigit : ℕ → Type 0
IsDigit c = (48 ≤ c) × (c ≤ 57)

-- A key that is none of those that the normalization looks at.
abbrev IsOther : Text → Type 0
IsOther key = (is_logical key ≡ false) × (is_not key ≡ false) × (is_email_key key ≡ false)

digits-IsOther : (t : Text) → All IsDigit t → IsOther t
unfolding text_eq
digits-IsOther [] h = (refl, refl, refl)
digits-IsOther (c ∷ t) h = ground (arith, h)

decimal-IsOther : (n : ℕ) → IsOther (decimal n)
decimal-IsOther n = digits-IsOther (decimal n) (decimal-All IsDigit (λ d h. ground (arith, h)) n)

at_other : (key : Text) (v : Value) → IsOther key → emails_at key v ≡ []
unfolding emails_at
at_other key undef h = refl
at_other key null h = refl
at_other key (bool b) h = refl
at_other key (num n) h = refl
at_other key (str t) (a, b, c) = ground (arith, a, b, c)
at_other key (arr items) (a, b, c) = ground (arith, a, b, c)
at_other key (obj fields) (a, b, c) = ground (arith, a, b, c)

pub emails_in-index : (n : ℕ) (items : Values) → emails_in (index_entries n items) ≡ []
unfolding emails_in index_entries
emails_in-index n nil = refl
emails_in-index n (cons v items) =
    rw (at_other (decimal n) v (decimal-IsOther n), emails_in-index (n + 1) items) refl

pub emails_in-unit : (n : ℕ) (t : Text) → emails_in (unit_entries n t) ≡ []
unfolding emails_in unit_entries
emails_in-unit n [] = refl
emails_in-unit n (c ∷ t) =
    rw (at_other (decimal n) (str (c ∷ [])) (decimal-IsOther n), emails_in-unit (n + 1) t) refl
