-- ===== src/Policy/Emails.antt =====
-- normalize-conditions.ts: what becomes of the addresses of policies.
use open_archiver.Prelude.{
  subst, ◌≡◌, refl, sym, inl, inr, true, false, Option, none, some, List, [], ◌∷◌, ◌++◌, map, Text,
  Bool-cases, Option-cases, arith,
}
use open_archiver.Address.{normalize_email_address}
use open_archiver.Audit.Canonical.{
  Value, undef, null, bool, num, str, arr, obj, Values, nil, cons, Fields, end, field,
}
use open_archiver.Policy.{
  on_some, is_logical, is_not, is_email_key, normalize, normalize_email_operand, index_entries,
  normalize_fields, normalize_value, normalize_items, normalize_item, CaslPolicy, normalize_policy,
  normalize_email_conditions,
}
use open_archiver.Policy.Operands.{
  normals, normals-append, texts_in-normalize_all, operator_texts-normalize,
}
use open_archiver.Policy.Conditions.{
  emails_in, emails_at, item_emails, emails_of, policy_emails, emails_in-index, emails_in-unit,
}

module _ (lower_case : Text → Text) where
  -- The result, where there is one, has the normal forms of these addresses.
  abbrev Reads : {A : Type 0} → (A → List Text) → List Text → Option A → Type 0
  Reads emails texts none = Unit {0}
  Reads emails texts (some a) = emails a ≡ normals lower_case texts

  field-Reads :
      (key : Text) (texts more : List Text) (r : Option Value) (q : Option Fields)
      → Reads (emails_at key) texts r
      → Reads emails_in more q
      → Reads emails_in (texts ++ more) (elim r [ none ↦ none | some v ↦ on_some (field key v) q ])
  unfolding emails_in
  field-Reads key texts more none q h k = tt
  field-Reads key texts more (some v) none h k = tt
  field-Reads key texts more (some v) (some fields) h k =
      rw (h, k) (sym (normals-append lower_case texts more))

  cons-Reads :
      (texts more : List Text) (r : Option Value) (q : Option Values)
      → Reads emails_of texts r
      → Reads item_emails more q
      → Reads item_emails (texts ++ more) (elim r [ none ↦ none | some v ↦ on_some (cons v) q ])
  unfolding item_emails
  cons-Reads texts more none q h k = tt
  cons-Reads texts more (some v) none h k = tt
  cons-Reads texts more (some v) (some items) h k =
      rw (h, k) (sym (normals-append lower_case texts more))

  item_obj-Reads :
      (texts : List Text) (q : Option Fields)
      → Reads emails_in texts q
      → Reads emails_of texts (on_some obj q)
  unfolding emails_of
  item_obj-Reads texts none h = tt
  item_obj-Reads texts (some fields) h = h

  logical-Reads :
      (key : Text) (texts : List Text) (q : Option Values)
      → is_logical key ≡ true
      → Reads item_emails texts q
      → Reads (emails_at key) texts (on_some arr q)
  unfolding emails_at
  logical-Reads key texts none e h = tt
  logical-Reads key texts (some items) e h = rw e h

  not-Reads :
      (key : Text) (texts : List Text) (q : Option Fields)
      → is_logical key ≡ false
      → is_not key ≡ true
      → Reads emails_in texts q
      → Reads (emails_at key) texts (on_some obj q)
  unfolding emails_at
  not-Reads key texts none e n h = tt
  not-Reads key texts (some fields) e n h = rw (e, n) h

  arr-Reads :
      (key : Text) (items : Values)
      → Reads item_emails (item_emails items) (normalize_items lower_case items)
      → Reads
          (emails_at key)
          (emails_at key (arr items))
          (normalize_value lower_case key (arr items))
  unfolding normalize_value normalize_email_operand emails_at
  arr-Reads key items h = elim (Bool-cases (is_logical key)) [
    | inl e ↦ rw e (logical-Reads key (item_emails items) (normalize_items lower_case items) e h)
    | inr e ↦ elim (Bool-cases (is_not key)) [
      | inl n ↦
          rw (e, n) (not-Reads key [] (some (index_entries 0 items)) e n (emails_in-index 0 items))
      | inr n ↦ elim (Bool-cases (is_email_key key)) [
        | inl m ↦ rw (e, n, m) (ground (arith, e, n, m, texts_in-normalize_all lower_case items))
        | inr m ↦ rw (e, n, m) (ground (arith, e, n, m))
      ]
    ]
  ]

  obj-Reads :
      (key : Text) (fields : Fields)
      → Reads emails_in (emails_in fields) (normalize_fields lower_case fields)
      → Reads
          (emails_at key)
          (emails_at key (obj fields))
          (normalize_value lower_case key (obj fields))
  unfolding normalize_value normalize_email_operand emails_at
  obj-Reads key fields h = elim (Bool-cases (is_logical key)) [
    | inl e ↦ rw e (ground (arith, e))
    | inr e ↦ elim (Bool-cases (is_not key)) [
      | inl n ↦
          rw (e, n) (not-Reads key (emails_in fields) (normalize_fields lower_case fields) e n h)
      | inr n ↦ elim (Bool-cases (is_email_key key)) [
        | inl m ↦ rw (e, n, m) (ground (arith, e, n, m, operator_texts-normalize lower_case fields))
        | inr m ↦ rw (e, n, m) (ground (arith, e, n, m))
      ]
    ]
  ]

  str-Reads :
      (key : Text) (t : Text)
      → Reads (emails_at key) (emails_at key (str t)) (normalize_value lower_case key (str t))
  unfolding normalize_value normalize_email_operand normalize emails_at
  str-Reads key t = ground arith

  mutual
    unfolding normalize_fields emails_in

    fields-Reads :
        (fields : Fields) → Reads emails_in (emails_in fields) (normalize_fields lower_case fields)
    fields-Reads end = refl
    fields-Reads (field key v fields) =
        field-Reads key (emails_at key v) (emails_in fields) (normalize_value lower_case key v)
          (normalize_fields lower_case fields) (value-Reads key v) (fields-Reads fields)

    value-Reads :
        (key : Text) (v : Value)
        → Reads (emails_at key) (emails_at key v) (normalize_value lower_case key v)
    value-Reads key (arr items) = arr-Reads key items (items-Reads items)
    value-Reads key (obj fields) = obj-Reads key fields (fields-Reads fields)
    value-Reads key (str t) = str-Reads key t
    value-Reads key undef = refl
    value-Reads key null = refl
    value-Reads key (bool b) = refl
    value-Reads key (num n) = refl

    items-Reads :
        (items : Values) → Reads item_emails (item_emails items) (normalize_items lower_case items)
    items-Reads nil = refl
    items-Reads (cons v items) =
        cons-Reads (emails_of v) (item_emails items) (normalize_item lower_case v)
          (normalize_items lower_case items) (item-Reads v) (items-Reads items)

    item-Reads : (v : Value) → Reads emails_of (emails_of v) (normalize_item lower_case v)
    item-Reads undef = tt
    item-Reads null = tt
    item-Reads (bool b) = refl
    item-Reads (num n) = refl
    item-Reads (str t) = emails_in-unit 0 t
    item-Reads (arr items) = emails_in-index 0 items
    item-Reads (obj fields) =
        item_obj-Reads (emails_in fields) (normalize_fields lower_case fields) (fields-Reads fields)

  conditions-Reads :
      (rest : Fields) (texts more : List Text) (q : Option Fields) (r : Option (List CaslPolicy))
      → Reads emails_in texts q
      → Reads policy_emails more r
      → Reads policy_emails
          (texts ++ more)
          (elim (on_some (λ c. record { conditions = some c; rest = rest }) q) [
            | none ↦ none
            | some p ↦ on_some (λ ps. p ∷ ps) r
          ])
  unfolding policy_emails
  conditions-Reads rest texts more none r h k = tt
  conditions-Reads rest texts more (some c) none h k = tt
  conditions-Reads rest texts more (some c) (some ps) h k =
      rw (h, k) (sym (normals-append lower_case texts more))

  plain_policy-Reads :
      (rest : Fields) (more : List Text) (r : Option (List CaslPolicy))
      → Reads policy_emails more r
      → Reads policy_emails more (on_some (λ ps. record { conditions = none; rest = rest } ∷ ps) r)
  unfolding policy_emails
  plain_policy-Reads rest more none h = tt
  plain_policy-Reads rest more (some ps) h = h

  policies-Reads :
      (policies : List CaslPolicy)
      → Reads policy_emails
          (policy_emails policies)
          (normalize_email_conditions lower_case policies)
  unfolding normalize_email_conditions normalize_policy policy_emails
  policies-Reads [] = refl
  policies-Reads (policy ∷ policies) = elim (Option-cases policy.conditions) [
    | inl e ↦ rw e (
        plain_policy-Reads policy.rest (policy_emails policies)
          (normalize_email_conditions lower_case policies) (policies-Reads policies))
    | inr (c, e) ↦ rw e (
        conditions-Reads policy.rest (emails_in c) (policy_emails policies)
          (normalize_fields lower_case c) (normalize_email_conditions lower_case policies)
          (fields-Reads c) (policies-Reads policies))
  ]

  -- Where normalizing policies gives a result, its addresses are the normal forms of those of the
  -- policies, in the same order and number: the operands of userEmail, its $eq, $ne, $in and $nin
  -- among them, at any depth of $or, $and, $nor and $not.
  pub normalize_email_conditions-emails :
      (policies normalized : List CaslPolicy)
      → normalize_email_conditions lower_case policies ≡ some normalized
      → policy_emails normalized ≡ map (normalize_email_address lower_case) (policy_emails policies)
  normalize_email_conditions-emails policies normalized e =
      subst (Reads policy_emails (policy_emails policies)) e (policies-Reads policies)
