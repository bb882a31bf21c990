-- ===== src/Policy.antt =====
-- packages/backend/src/iam-policy/normalize-conditions.ts, on JSON values. `none` stands for the
-- TypeError of Object.entries at null or undefined. String.prototype.toLowerCase is the parameter `lower_case`.
use open_archiver.Prelude.{
  ℕ, ◌+◌, Bool, true, false, ◌||◌, Option, none, some, List, [], ◌∷◌, Text, codes, text_eq, decimal,
  if◌then◌else◌,
}
use open_archiver.Address.{normalize_email_address}
use open_archiver.Audit.Canonical.{
  Value, undef, null, bool, num, str, arr, obj, Values, nil, cons, Fields, end, field,
}
pub mod Operands
pub mod Conditions
pub mod Emails
pub mod Tests

abbrev pub on_some : {A B : Type 0} → (A → B) → Option A → Option B
on_some f none = none
on_some f (some a) = some (f a)

abbrev pub is_logical : Text → Bool
is_logical key =
    text_eq key (codes "$or") || (text_eq key (codes "$and") || text_eq key (codes "$nor"))

abbrev pub is_not : Text → Bool
is_not key = text_eq key (codes "$not")

abbrev pub is_email_key : Text → Bool
is_email_key key = text_eq key (codes "userEmail")

abbrev pub is_value_operator : Text → Bool
is_value_operator key = text_eq key (codes "$eq") || text_eq key (codes "$ne")

abbrev pub is_array_operator : Text → Bool
is_array_operator key = text_eq key (codes "$in") || text_eq key (codes "$nin")

-- What Object.entries lists for a text and for an array: an entry for each index.
unfoldable pub unit_entries : ℕ → Text → Fields
unit_entries n [] = end
unit_entries n (c ∷ t) = field (decimal n) (str (c ∷ [])) (unit_entries (n + 1) t)

unfoldable pub index_entries : ℕ → Values → Fields
index_entries n nil = end
index_entries n (cons v items) = field (decimal n) v (index_entries (n + 1) items)

pub record CaslPolicy : Type 0 where
  pub conditions : Option Fields
  pub rest : Fields

module _ (lower_case : Text → Text) where
  unfoldable pub normalize : Value → Value
  normalize (str t) = str (normalize_email_address lower_case t)
  normalize v = v

  unfoldable pub normalize_all : Values → Values
  unfolding normalize
  normalize_all nil = nil
  normalize_all (cons v items) = cons (normalize v) (normalize_all items)

  -- `Array.isArray(value) ? value.map(normalize) : normalize(value)`
  unfoldable pub normalize_list : Value → Value
  normalize_list (arr items) = arr (normalize_all items)
  normalize_list v = normalize v

  unfoldable pub normalize_operators : Fields → Fields
  normalize_operators end = end
  normalize_operators (field key v fields) =
      field key
        (if is_value_operator key
          then normalize v
          else (if is_array_operator key then normalize_list v else v))
        (normalize_operators fields)

  unfoldable pub normalize_email_operand : Value → Value
  normalize_email_operand (arr items) = arr (normalize_all items)
  normalize_email_operand (obj fields) = obj (normalize_operators fields)
  normalize_email_operand v = normalize v

  -- normalizeConditions. An entry with an index for its key passes as it is.
  unfoldable mutual
    unfolding normalize_email_operand index_entries unit_entries

    pub normalize_fields : Fields → Option Fields
    normalize_fields end = some end
    normalize_fields (field key v fields) = elim (normalize_value key v) [
      | none ↦ none
      | some v' ↦ on_some (field key v') (normalize_fields fields)
    ]

    pub normalize_value : Text → Value → Option Value
    normalize_value key (arr items) =
        let within = normalize_items items in
        if is_logical key
        then on_some arr within
        else (if is_not key
            then some (obj (index_entries 0 items))
            else (if is_email_key key
                then some (normalize_email_operand (arr items))
                else some (arr items)))
    normalize_value key (obj fields) =
        let within = normalize_fields fields in
        if is_logical key
        then some (obj fields)
        else (if is_not key
            then on_some obj within
            else (if is_email_key key
                then some (normalize_email_operand (obj fields))
                else some (obj fields)))
    normalize_value key (str t) =
        if is_logical key
        then some (str t)
        else (if is_not key
            then some (str t)
            else (if is_email_key key
                then some (normalize_email_operand (str t))
                else some (str t)))
    normalize_value key v = some v

    -- `value.map(normalizeConditions)`
    pub normalize_items : Values → Option Values
    normalize_items nil = some nil
    normalize_items (cons v items) = elim (normalize_item v) [
      | none ↦ none
      | some v' ↦ on_some (cons v') (normalize_items items)
    ]

    pub normalize_item : Value → Option Value
    normalize_item undef = none
    normalize_item null = none
    normalize_item (bool b) = some (obj end)
    normalize_item (num n) = some (obj end)
    normalize_item (str t) = some (obj (unit_entries 0 t))
    normalize_item (arr items) = some (obj (index_entries 0 items))
    normalize_item (obj fields) = on_some obj (normalize_fields fields)

  unfoldable pub normalize_policy : CaslPolicy → Option CaslPolicy
  normalize_policy policy = elim policy.conditions [
    | none ↦ some policy
    | some conditions ↦
        on_some (λ c. record policy { conditions = some c }) (normalize_fields conditions)
  ]

  unfoldable pub normalize_email_conditions : List CaslPolicy → Option (List CaslPolicy)
  normalize_email_conditions [] = some []
  normalize_email_conditions (policy ∷ policies) = elim (normalize_policy policy) [
    | none ↦ none
    | some p ↦ on_some (λ ps. p ∷ ps) (normalize_email_conditions policies)
  ]
