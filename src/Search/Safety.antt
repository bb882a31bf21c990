-- ===== src/Search/Safety.antt =====
-- buildEmailSearchFilter: no value gets out of its quotes.
use open_archiver.Prelude.{
  not, all, ◌==◌, ◌≢◌, ℕ, ◌≡◌, refl, sym, Bool, true, false, Option, none, some, List, [], ◌∷◌,
  ◌++◌, Text, codes, decimal, decimal-All, join, map, arith, All, subst, append-nil, is_empty,
  if◌then◌else◌,
}
use open_archiver.Search.{
  SearchFilters, quote_meili_string, either_clause, in_clause, not_in_clause, recipients_clause,
  clause_if, attachment_clause, utc_day_range, date_clause, filter_clauses,
  build_email_search_filter,
}
use open_archiver.Search.Reading.{
  read, Reads, IsPlain, ReadsEach, done, clause, quote-Reads, plain-Reads, Reads-append,
  ReadsEach-append, Reads-join, read_filter,
}

abbrev pub erase : List Text → List Text
erase values = map (λ v. []) values

-- The filters with every value emptied.
abbrev pub erased : SearchFilters → SearchFilters
erased f = record f {
  sources = erase f.sources;
  exclude_sources = erase f.exclude_sources;
  from = erase f.from;
  not_from = erase f.not_from;
  to = erase f.to;
  not_to = erase f.not_to;
  mailboxes = erase f.mailboxes;
}

-- A value for each of the three recipient fields.
abbrev pub thrice : List Text → List Text
thrice values = values ++ (values ++ (values ++ []))

-- All values, in the order in which the clauses list them.
abbrev pub filter_values : SearchFilters → List Text
filter_values f =
    f.sources
    ++ (f.exclude_sources
        ++ (f.from ++ (f.not_from ++ (thrice f.to ++ (thrice f.not_to ++ f.mailboxes)))))

Reads-between :
    (before after : Text) {s bare : Text} {ls : List Text}
    → All IsPlain before
    → All IsPlain after
    → Reads s bare ls
    → Reads (before ++ (s ++ after)) (before ++ (bare ++ after)) ls
Reads-between before after {ls = ls} p q h =
    subst (Reads _ _) (append-nil ls)
      (Reads-append (plain-Reads before p) (Reads-append h (plain-Reads after q)))

quotes-ReadsEach :
    (values : List Text)
    → ReadsEach (map quote_meili_string values) (map quote_meili_string (erase values)) values
quotes-ReadsEach [] = done
quotes-ReadsEach (v ∷ values) = clause (quote-Reads v) (quotes-ReadsEach values)

-- The texts of a clause that are no values.
IsPlain-all : (t : Text) → all (λ c. not (c == 34)) t ≡ true → All IsPlain t
IsPlain-all [] h = tt
IsPlain-all (c ∷ t) h = (ground (arith, h), IsPlain-all t (ground (arith, h)))

comma-IsPlain : All IsPlain (codes ", ")
comma-IsPlain = IsPlain-all (codes ", ") refl

timestamp-IsPlain : All IsPlain (codes "timestamp")
timestamp-IsPlain = IsPlain-all (codes "timestamp") refl

equals-IsPlain : All IsPlain (codes " = ")
equals-IsPlain = IsPlain-all (codes " = ") refl

in-IsPlain : All IsPlain (codes " IN [")
in-IsPlain = IsPlain-all (codes " IN [") refl

differs-IsPlain : All IsPlain (codes " != ")
differs-IsPlain = IsPlain-all (codes " != ") refl

not_in-IsPlain : All IsPlain (codes " NOT IN [")
not_in-IsPlain = IsPlain-all (codes " NOT IN [") refl

source-IsPlain : All IsPlain (codes "ingestionSourceId")
source-IsPlain = IsPlain-all (codes "ingestionSourceId") refl

from-IsPlain : All IsPlain (codes "from")
from-IsPlain = IsPlain-all (codes "from") refl

or-IsPlain : All IsPlain (codes " OR ")
or-IsPlain = IsPlain-all (codes " OR ") refl

and-IsPlain : All IsPlain (codes " AND ")
and-IsPlain = IsPlain-all (codes " AND ") refl

mailbox-IsPlain : All IsPlain (codes "userEmail")
mailbox-IsPlain = IsPlain-all (codes "userEmail") refl

at_least-IsPlain : All IsPlain (codes " >= ")
at_least-IsPlain = IsPlain-all (codes " >= ") refl

at_most-IsPlain : All IsPlain (codes " <= ")
at_most-IsPlain = IsPlain-all (codes " <= ") refl

with_attachments-IsPlain : All IsPlain (codes "hasAttachments = true")
with_attachments-IsPlain = IsPlain-all (codes "hasAttachments = true") refl

without_attachments-IsPlain : All IsPlain (codes "NOT hasAttachments = true")
without_attachments-IsPlain = IsPlain-all (codes "NOT hasAttachments = true") refl

abbrev same : List Text → List Text
same values = values

attachment-ReadsEach : (b : Option Bool) → ReadsEach (attachment_clause b) (attachment_clause b) []
unfolding attachment_clause
attachment-ReadsEach none = done
attachment-ReadsEach (some true) = clause (plain-Reads _ with_attachments-IsPlain) done
attachment-ReadsEach (some false) = clause (plain-Reads _ without_attachments-IsPlain) done

either-Reads :
    (one several field : Text) (values : List Text)
    → All IsPlain one
    → All IsPlain several
    → All IsPlain field
    → Reads
        (either_clause one several field values)
        (either_clause one several field (erase values))
        values
unfolding either_clause
either-Reads one several field [] p q r =
    Reads-append (plain-Reads field r)
      (Reads-append (plain-Reads several q) (plain-Reads (codes "]") (refl, tt)))
either-Reads one several field (v ∷ []) p q r =
    Reads-append (plain-Reads field r) (Reads-append (plain-Reads one p) (quote-Reads v))
either-Reads one several field (v ∷ w ∷ values) p q r = Reads-append (plain-Reads field r) (
    Reads-between several (codes "]") q (refl, tt)
      (Reads-join (codes ", ") comma-IsPlain (quotes-ReadsEach (v ∷ w ∷ values))))

-- A clause over values that reads as them, in this arrangement.
abbrev ReadsValues : (List Text → Text) → (List Text → List Text) → Type 0
ReadsValues f arrange = (values : List Text) → Reads (f values) (f (erase values)) (arrange values)

recipients-Reads :
    (operator : Text) (f : Text → List Text → Text)
    → All IsPlain operator
    → ((field : Text) → All IsPlain field → ReadsValues (f field) (λ values. values))
    → ReadsValues (recipients_clause operator f) thrice
unfolding recipients_clause
recipients-Reads operator f p h values =
    Reads-between (codes "(") (codes ")") (refl, tt) (refl, tt)
      (Reads-join operator p (
        clause (h (codes "to") (refl, (refl, tt)) values) (
          clause (h (codes "cc") (refl, (refl, tt)) values)
            (clause (h (codes "bcc") (refl, (refl, (refl, tt))) values) done))))

clause_if-ReadsEach :
    (f : List Text → Text) (arrange : List Text → List Text)
    → arrange [] ≡ []
    → ReadsValues f arrange
    → (values : List Text)
    → ReadsEach (clause_if f values) (clause_if f (erase values)) (arrange values)
unfolding clause_if
clause_if-ReadsEach f arrange e h [] = subst (ReadsEach [] []) (sym e) done
clause_if-ReadsEach f arrange e h (v ∷ values) =
    subst (ReadsEach _ _) (append-nil (arrange (v ∷ values))) (clause (h (v ∷ values)) done)

none-some : {t : Text} → none ≢ some t
none-some e = ground arith

read_all : {s bare : Text} {ls : List Text} → Reads s bare ls → read_filter s ≡ some (bare, ls)
unfolding read
read_all {s} {bare} {ls} h =
    let e = h.reads [] in ground (arith, e, append-nil s, append-nil bare, append-nil ls)

-- The join of clauses, as the filter has it.
abbrev joined : List Text → Option Text
joined clauses = if is_empty clauses then none else some (join (codes " AND ") clauses)

joined-reads :
    (cs bares : List Text) {ls : List Text} (t : Text)
    → ReadsEach cs bares ls
    → joined cs ≡ some t
    → (bare : Text) × (joined bares ≡ some bare) × (read_filter t ≡ some (bare, ls))
joined-reads [] [] t done e = elim (none-some e) [ ]
joined-reads [] (b ∷ bares) t h e = elim h [ ]
joined-reads (c ∷ cs) [] t h e = elim h [ ]
joined-reads (c ∷ cs) (b ∷ bares) {ls} t h e =
    let whole : join (codes " AND ") (c ∷ cs) ≡ t = ground (arith, e) in
    (
      join (codes " AND ") (b ∷ bares),
      refl,
      subst (λ t. read_filter t ≡ some (join (codes " AND ") (b ∷ bares), ls)) whole
          (read_all (Reads-join (codes " AND ") and-IsPlain h)),
    )

module _ (parse : Text → ℕ) where
  date-ReadsEach :
      (operator : Text) (side : ℕ × ℕ → ℕ) (date : Option Text)
      → All IsPlain operator
      → ReadsEach (date_clause parse operator side date) (date_clause parse operator side date) []
  unfolding date_clause
  date-ReadsEach operator side none p = done
  date-ReadsEach operator side (some []) p = done
  date-ReadsEach operator side (some (c ∷ date)) p =
      clause
        (Reads-append (plain-Reads (codes "timestamp") timestamp-IsPlain) (
          Reads-append (plain-Reads operator p) (
            plain-Reads (decimal (side (utc_day_range parse (c ∷ date))))
              (decimal-All IsPlain (λ d h. ground arith) (side (utc_day_range parse (c ∷ date)))))))
        done

  clauses-ReadsEach :
      (f : SearchFilters)
      → ReadsEach (filter_clauses parse f) (filter_clauses parse (erased f)) (filter_values f)
  unfolding filter_clauses
  clauses-ReadsEach f =
      let clauses_in : (field : Text) → All IsPlain field → ReadsValues (in_clause field) same =
        λ field p values.
          either-Reads (codes " = ") (codes " IN [") field values equals-IsPlain in-IsPlain p in
      let clauses_out : (field : Text)
          → All IsPlain field
          → ReadsValues (not_in_clause field) same =
        λ field p values.
          either-Reads (codes " != ") (codes " NOT IN [") field values differs-IsPlain
            not_in-IsPlain p in
      ReadsEach-append
        (clause_if-ReadsEach _ same refl (clauses_in (codes "ingestionSourceId") source-IsPlain)
          f.sources)
        (ReadsEach-append
          (clause_if-ReadsEach _ same refl (clauses_out (codes "ingestionSourceId") source-IsPlain)
            f.exclude_sources)
          (ReadsEach-append
            (clause_if-ReadsEach _ same refl (clauses_in (codes "from") from-IsPlain) f.from)
            (ReadsEach-append
              (clause_if-ReadsEach _ same refl (clauses_out (codes "from") from-IsPlain) f.not_from)
              (ReadsEach-append
                (clause_if-ReadsEach _ thrice refl
                  (recipients-Reads (codes " OR ") in_clause or-IsPlain clauses_in) f.to)
                (ReadsEach-append
                  (clause_if-ReadsEach _ thrice refl
                    (recipients-Reads (codes " AND ") not_in_clause and-IsPlain clauses_out)
                    f.not_to)
                  (subst (ReadsEach _ _) (append-nil f.mailboxes) (
                    ReadsEach-append
                      (clause_if-ReadsEach _ same refl
                        (clauses_in (codes "userEmail") mailbox-IsPlain) f.mailboxes)
                      (ReadsEach-append
                        (date-ReadsEach (codes " >= ") (λ r. r.0) f.date_from at_least-IsPlain)
                        (ReadsEach-append
                          (date-ReadsEach (codes " <= ") (λ r. r.1) f.date_to at_most-IsPlain)
                          (attachment-ReadsEach f.has_attachments))))))))))

  -- The filter that is built, if any, reads back as one literal for each value, in the order of
  -- the clauses (a recipient three times), and what stands outside the literals is what the filter
  -- of the same shape with every value emptied has: no value gets out of its quotes.
  pub build_email_search_filter-reads :
      (f : SearchFilters) (t : Text)
      → build_email_search_filter parse f ≡ some t
      → (bare : Text) × (build_email_search_filter parse (erased f) ≡ some bare)
        × (read_filter t ≡ some (bare, filter_values f))
  unfolding build_email_search_filter
  build_email_search_filter-reads f t e =
      joined-reads (filter_clauses parse f) (filter_clauses parse (erased f)) t
        (clauses-ReadsEach f) e
