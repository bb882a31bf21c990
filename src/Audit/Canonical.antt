-- ===== src/Audit/Canonical.antt =====
-- packages/backend/src/services/AuditService.ts: sanitizeObject and canonicalStringify, with the
-- part of JSON.stringify that they use. Numbers are natural; texts hold no lone surrogate.
use open_archiver.Prelude.{
  ℕ, ◌+◌, ◌/◌, ◌%◌, Bool, true, false, ◌&&◌, List, [], ◌∷◌, ◌++◌, map, Text, codes, join, decimal,
  ltb, ◌==◌, if◌then◌else◌,
}

mutual
  pub data Value : Type 0 where
    undef null : Value
    bool : Bool → Value
    num : ℕ → Value
    str : Text → Value
    arr : Values → Value
    obj : Fields → Value

  pub data Values : Type 0 where
    nil : Values
    cons : Value → Values → Values

  pub data Fields : Type 0 where
    end : Fields
    field : Text → Value → Fields → Fields

unfoldable mutual
  pub sanitize_object : Value → Value
  sanitize_object undef = undef
  sanitize_object null = null
  sanitize_object (bool b) = bool b
  sanitize_object (num n) = num n
  sanitize_object (str t) = str t
  sanitize_object (arr items) = arr (sanitize_items items)
  sanitize_object (obj fields) = obj (sanitize_fields fields)

  pub sanitize_items : Values → Values
  sanitize_items nil = nil
  sanitize_items (cons v items) = cons (sanitize_object v) (sanitize_items items)

  pub sanitize_fields : Fields → Fields
  sanitize_fields end = end
  sanitize_fields (field key undef fields) = field key null (sanitize_fields fields)
  sanitize_fields (field key v fields) = field key (sanitize_object v) (sanitize_fields fields)

-- `value === undefined ? null : this.sanitizeObject(value)`
unfoldable pub sanitize_field : Value → Value
sanitize_field undef = null
sanitize_field v = sanitize_object v

hex_digit : ℕ → ℕ
hex_digit n = if ltb n 10 then 48 + n else 87 + n

-- JSON.stringify of one code unit
unfoldable pub escape_unit : ℕ → Text
unfolding hex_digit
escape_unit c =
    if c == 34
    then 92 ∷ 34 ∷ []
    else if c == 92
    then 92 ∷ 92 ∷ []
    else if c == 8
    then 92 ∷ b'b' ∷ []
    else if c == 9
    then 92 ∷ b't' ∷ []
    else if c == 10
    then 92 ∷ b'n' ∷ []
    else if c == 12
    then 92 ∷ b'f' ∷ []
    else if c == 13
    then 92 ∷ b'r' ∷ []
    else if ltb c 32
    then codes "\\u00" ++ (hex_digit (c / 16) ∷ hex_digit (c % 16) ∷ [])
    else c ∷ []

unfoldable pub escape : Text → Text
unfolding escape_unit
escape [] = []
escape (c ∷ t) = escape_unit c ++ escape t

abbrev pub quoted : Text → Text
quoted t = 34 ∷ (escape t ++ 34 ∷ [])

-- The order of Array.prototype.sort: by code units.
unfoldable pub text_le : Text → Text → Bool
text_le [] t = true
text_le (a ∷ s) [] = false
text_le (a ∷ s) (b ∷ t) = if ltb a b then true else a == b && text_le s t

-- A key with the text of its pair.
abbrev pub Pair : Type 0
Pair = Text × Text

unfoldable pub insert_key : Pair → List Pair → List Pair
insert_key p [] = p ∷ []
insert_key p (q ∷ rest) = if text_le p.0 q.0 then p ∷ q ∷ rest else q ∷ insert_key p rest

unfoldable pub sort_keys : List Pair → List Pair
unfolding insert_key
sort_keys [] = []
sort_keys (p ∷ rest) = insert_key p (sort_keys rest)

abbrev pub second : Pair → Text
second p = p.1

abbrev pub comma : Text
comma = codes ","

-- canonicalStringify; each pair is printed before the keys are sorted, since a pair's text
-- depends on its own key alone.
unfoldable mutual
  unfolding sort_keys

  pub canonical_stringify : Value → Text
  canonical_stringify undef = codes "null"
  canonical_stringify null = codes "null"
  canonical_stringify (bool true) = codes "true"
  canonical_stringify (bool false) = codes "false"
  canonical_stringify (num n) = decimal n
  canonical_stringify (str t) = quoted t
  canonical_stringify (arr items) = 91 ∷ (join comma (canonical_items items) ++ 93 ∷ [])
  canonical_stringify (obj fields) =
      123 ∷ (join comma (map second (sort_keys (canonical_pairs fields))) ++ 125 ∷ [])

  pub canonical_items : Values → List Text
  canonical_items nil = []
  canonical_items (cons v items) = canonical_stringify v ∷ canonical_items items

  pub canonical_pairs : Fields → List Pair
  canonical_pairs end = []
  canonical_pairs (field key v fields) =
      (key, quoted key ++ (58 ∷ canonical_stringify v)) ∷ canonical_pairs fields
