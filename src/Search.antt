-- ===== src/Search.antt =====
-- packages/backend/src/helpers/meiliFilter.ts. `parse` is Date.parse of a day's first millisecond,
-- for days from 1970 on.
use open_archiver.Prelude.{
  ℕ, ◌+◌, ◌-◌, ◌*◌, Bool, true, false, ◌||◌, Option, none, some, List, [], ◌∷◌, ◌++◌, Text, codes,
  decimal, join, map, is_empty, ◌==◌, if◌then◌else◌,
}
pub mod Reading
pub mod Safety
pub mod Tests

-- A list of values that is undefined filters as one that is empty.
pub record SearchFilters : Type 0 where
  pub sources : List Text
  pub exclude_sources : List Text
  pub from : List Text
  pub not_from : List Text
  pub to : List Text
  pub not_to : List Text
  pub mailboxes : List Text
  pub date_from : Option Text
  pub date_to : Option Text
  pub has_attachments : Option Bool

-- `value.replace(/[\\"]/g, '\\$&')`
unfoldable pub escape_quotes : Text → Text
escape_quotes [] = []
escape_quotes (c ∷ t) =
    let rest = escape_quotes t in if (c == 92) || (c == 34) then 92 ∷ c ∷ rest else c ∷ rest

unfoldable pub quote_meili_string : Text → Text
quote_meili_string value = 34 ∷ (escape_quotes value ++ 34 ∷ [])

-- A clause of one value, or of a list of them, with its two operators.
unfoldable pub either_clause : Text → Text → Text → List Text → Text
either_clause one several field (value ∷ []) = field ++ (one ++ quote_meili_string value)
either_clause one several field values =
    field ++ (several ++ (join (codes ", ") (map quote_meili_string values) ++ codes "]"))

abbrev pub in_clause : Text → List Text → Text
in_clause field values = either_clause (codes " = ") (codes " IN [") field values

abbrev pub not_in_clause : Text → List Text → Text
not_in_clause field values = either_clause (codes " != ") (codes " NOT IN [") field values

abbrev recipient_fields : List Text
recipient_fields = codes "to" ∷ codes "cc" ∷ codes "bcc" ∷ []

unfoldable pub recipients_clause : Text → (Text → List Text → Text) → List Text → Text
recipients_clause operator clause values =
    codes "(" ++ (join operator (map (λ field. clause field values) recipient_fields) ++ codes ")")

-- `if (values?.length) { clauses.push(…) }`
unfoldable pub clause_if : (List Text → Text) → List Text → List Text
clause_if clause [] = []
clause_if clause (v ∷ values) = clause (v ∷ values) ∷ []

unfoldable pub attachment_clause : Option Bool → List Text
attachment_clause none = []
attachment_clause (some true) = codes "hasAttachments = true" ∷ []
attachment_clause (some false) = codes "NOT hasAttachments = true" ∷ []

module _ (parse : Text → ℕ) where
  unfoldable pub utc_day_range : Text → ℕ × ℕ
  utc_day_range date = (parse date, parse date + 24 * 60 * 60 * 1000 - 1)

  -- `if (date) { … }`: an empty text counts as no date.
  unfoldable pub date_clause : Text → (ℕ × ℕ → ℕ) → Option Text → List Text
  date_clause operator side none = []
  date_clause operator side (some []) = []
  date_clause operator side (some (c ∷ date)) =
      (codes "timestamp" ++ (operator ++ decimal (side (utc_day_range (c ∷ date))))) ∷ []

  unfoldable pub filter_clauses : SearchFilters → List Text
  filter_clauses f =
      clause_if (in_clause (codes "ingestionSourceId")) f.sources
      ++ (clause_if (not_in_clause (codes "ingestionSourceId")) f.exclude_sources
          ++ (clause_if (in_clause (codes "from")) f.from
              ++ (clause_if (not_in_clause (codes "from")) f.not_from
                  ++ (clause_if (recipients_clause (codes " OR ") in_clause) f.to
                      ++ (clause_if (recipients_clause (codes " AND ") not_in_clause) f.not_to
                          ++ (clause_if (in_clause (codes "userEmail")) f.mailboxes
                              ++ (date_clause (codes " >= ") (λ r. r.0) f.date_from
                                  ++ (date_clause (codes " <= ") (λ r. r.1) f.date_to
                                      ++ attachment_clause f.has_attachments))))))))

  unfoldable pub build_email_search_filter : SearchFilters → Option Text
  build_email_search_filter f =
      let clauses = filter_clauses f in
      if is_empty clauses then none else some (join (codes " AND ") clauses)
