-- ===== src/Policy/Operands.antt =====
-- normalize-conditions.ts: the addresses in the operand of a condition, and their normal forms.
use open_archiver.Prelude.{
  ◌≡◌, refl, sym, ap, inl, inr, List, [], ◌∷◌, ◌++◌, map, Text, Bool-cases, if◌then◌else◌,
}
use open_archiver.Address.{normalize_email_address}
use open_archiver.Audit.Canonical.{
  Value, undef, null, bool, num, str, arr, obj, Values, nil, cons, Fields, end, field,
}
use open_archiver.Policy.{
  is_value_operator, is_array_operator, normalize, normalize_all, normalize_list,
  normalize_operators,
}

-- The addresses in an operand: a text, the texts of a list, or those of the operators.
unfoldable pub text_of : Value → List Text
text_of (str t) = t ∷ []
text_of v = []

unfoldable pub texts_in : Values → List Text
unfolding text_of
texts_in nil = []
texts_in (cons v items) = text_of v ++ texts_in items

unfoldable pub list_texts : Value → List Text
unfolding texts_in
list_texts (arr items) = texts_in items
list_texts v = text_of v

unfoldable pub operator_texts : Fields → List Text
unfolding list_texts
operator_texts end = []
operator_texts (field key v fields) =
    (if is_value_operator key
      then text_of v
      else (if is_array_operator key then list_texts v else []))
    ++ operator_texts fields

unfoldable pub operand_texts : Value → List Text
unfolding operator_texts
operand_texts (arr items) = texts_in items
operand_texts (obj fields) = operator_texts fields
operand_texts v = text_of v

module _ (lower_case : Text → Text) where
  abbrev pub normals : List Text → List Text
  normals texts = map (normalize_email_address lower_case) texts

  pub normals-append : (a b : List Text) → normals (a ++ b) ≡ normals a ++ normals b
  normals-append [] b = refl
  normals-append (t ∷ a) b = ap (λ l. normalize_email_address lower_case t ∷ l) (normals-append a b)

  text_of-normalize : (v : Value) → text_of (normalize lower_case v) ≡ normals (text_of v)
  unfolding text_of normalize
  text_of-normalize undef = refl
  text_of-normalize null = refl
  text_of-normalize (bool b) = refl
  text_of-normalize (num n) = refl
  text_of-normalize (str t) = refl
  text_of-normalize (arr items) = refl
  text_of-normalize (obj fields) = refl

  pub texts_in-normalize_all :
      (items : Values) → texts_in (normalize_all lower_case items) ≡ normals (texts_in items)
  unfolding texts_in normalize_all
  texts_in-normalize_all nil = refl
  texts_in-normalize_all (cons v items) =
      rw (text_of-normalize v, texts_in-normalize_all items)
        (sym (normals-append (text_of v) (texts_in items)))

  list_texts-normalize :
      (v : Value) → list_texts (normalize_list lower_case v) ≡ normals (list_texts v)
  unfolding list_texts normalize_list normalize text_of
  list_texts-normalize (arr items) = texts_in-normalize_all items
  list_texts-normalize undef = refl
  list_texts-normalize null = refl
  list_texts-normalize (bool b) = refl
  list_texts-normalize (num n) = refl
  list_texts-normalize (str t) = refl
  list_texts-normalize (obj fields) = refl

  pub operator_texts-normalize :
      (fields : Fields)
      → operator_texts (normalize_operators lower_case fields) ≡ normals (operator_texts fields)
  unfolding operator_texts normalize_operators
  operator_texts-normalize end = refl
  operator_texts-normalize (field key v fields) = elim (Bool-cases (is_value_operator key)) [
    | inl e ↦
        rw (e, text_of-normalize v, operator_texts-normalize fields)
          (sym (normals-append (text_of v) (operator_texts fields)))
    | inr e ↦ elim (Bool-cases (is_array_operator key)) [
      | inl k ↦
          rw (e, k, list_texts-normalize v, operator_texts-normalize fields)
            (sym (normals-append (list_texts v) (operator_texts fields)))
      | inr k ↦ rw (e, k) (operator_texts-normalize fields)
    ]
  ]
