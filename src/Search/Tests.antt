-- ===== src/Search/Tests.antt =====
-- A filter with a hostile value, and the theorem at it.
use open_archiver.Prelude.{ℕ, ◌≡◌, refl, true, none, some, [], ◌∷◌, Text, codes, decimal}
use open_archiver.Search.{
  SearchFilters, escape_quotes, quote_meili_string, either_clause, recipients_clause, clause_if,
  attachment_clause, utc_day_range, date_clause, filter_clauses, build_email_search_filter,
}
use open_archiver.Search.Reading.{read_filter}
use open_archiver.Search.Safety.{erased, filter_values, build_email_search_filter-reads}

abbrev epoch : Text → ℕ
epoch date = 86400000

abbrev hostile : SearchFilters
hostile = record {
  sources = codes "s1" ∷ codes "s2" ∷ [];
  exclude_sources = [];
  from = codes "a\" OR from != \"\\" ∷ [];
  not_from = [];
  to = [];
  not_to = [];
  mailboxes = [];
  date_from = none;
  date_to = some (codes "1970-01-02");
  has_attachments = some true;
}

abbrev built : Text
built =
    codes
      "ingestionSourceId IN [\"s1\", \"s2\"] AND from = \"a\\\" OR from != \\\"\\\\\" AND timestamp <= 172799999 AND hasAttachments = true"

build_test : build_email_search_filter epoch hostile ≡ some built
unfolding build_email_search_filter filter_clauses clause_if either_clause quote_meili_string
    escape_quotes recipients_clause date_clause utc_day_range attachment_clause decimal
build_test = refl

build_email_search_filter-reads_example :
    (bare : Text) × (build_email_search_filter epoch (erased hostile) ≡ some bare)
    × (read_filter built ≡ some (bare, filter_values hostile))
build_email_search_filter-reads_example =
    build_email_search_filter-reads epoch hostile built build_test
