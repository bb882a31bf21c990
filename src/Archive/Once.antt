-- ===== src/Archive/Once.antt =====
-- processEmail archives an e-mail once for each mailbox: the next call with the same e-mail adds
-- nothing.
use open_archiver.Prelude.{
  true-false, and_intro, ◌≡◌, refl, sym, ap, ◌∙◌, subst, inl, inr, Bool, true, false, ◌||◌, some,
  or_else, List, [], ◌∷◌, map, Text, filter, find, find-holds, any, any-append, text_eq,
  text_eq_iff, text_eq_refl, Option-cases, Bool-cases, arith,
}
use open_archiver.Address.{normalize_email_address}
use open_archiver.Archive.Model.{
  EmailObject, IngestionSource, ArchivedEmail, Archive, Try, ok, thrown, Outcome, archived, skipped,
  failed,
}
use open_archiver.Archive.Store.{Env}
use open_archiver.Archive.Process.{
  source_is, is_child_of, find_group_source_ids, effective_source, message_key, is_own, pass_gates,
  process_email,
}
use open_archiver.Archive.Cases.{process_email-elim}
use open_archiver.Archive.Steps.{Inserts, Steps, pass_gates-Steps}

unfoldable IsRoot : Text → Try IngestionSource → Type 0
IsRoot root (ok effective) = text_eq effective.id root ≡ true
IsRoot root (thrown e) = Unit

effective_source-IsRoot :
    (source : IngestionSource) (sources : List IngestionSource)
    → IsRoot (or_else source.merged_into_id source.id) (effective_source source sources)
unfolding effective_source IsRoot
effective_source-IsRoot source sources = elim (Option-cases source.merged_into_id) [
  | inl own ↦ rw (own, effective_source) (text_eq_refl source.id)
  | inr (root, merged) ↦ elim (Option-cases (find (source_is root) sources)) [
    | inl lost ↦ rw (merged, lost, effective_source) tt
    | inr (found, there) ↦ elim (Bool-cases found.readable) [
      | inl clear ↦
          rw (merged, there, clear, effective_source)
            (find-holds (source_is root) sources found there)
      | inr sealed ↦ rw (merged, there, sealed, effective_source) tt
    ]
  ]
]

-- A source that owns what it fetches, or the root that it is merged into, is in its group.
in_group-effective :
    (source effective : IngestionSource) (sources : List IngestionSource)
    → effective_source source sources ≡ ok effective
    → any (text_eq effective.id) (find_group_source_ids source sources) ≡ true
unfolding find_group_source_ids IsRoot
in_group-effective source effective sources e =
    ap
      (λ b.
        b
        || any (text_eq effective.id) (
            map (λ child. child.id)
              (filter (is_child_of (or_else source.merged_into_id source.id)) sources)))
      (subst (IsRoot (or_else source.merged_into_id source.id)) e
        (effective_source-IsRoot source sources))

abbrev pub is_failed : Outcome → Bool
is_failed (failed _) = true
is_failed _ = false

or_last : (a : Bool) {b : Bool} → b ≡ true → (a || (b || false)) ≡ true
or_last a h = ground arith

module _ (env : Env) where
  -- A row that a call adds is found by the next one.
  pub own_row :
      (source effective : IngestionSource) (sources : List IngestionSource) (raw_user key : Text)
      (row : ArchivedEmail)
      → effective_source source sources ≡ ok effective
      → row.ingestion_source_id ≡ effective.id
      → row.message_id_header ≡ key
      → env.mailbox_column row.user_email ≡ normalize_email_address env.lower_case raw_user
      → is_own env
          (find_group_source_ids source sources)
          key
          (normalize_email_address env.lower_case raw_user)
          row
        ≡ true
  own_row source effective sources raw_user key row e f g h =
      and_intro
        (and_intro ((text_eq_iff row.message_id_header key).1 g) (
          ap (λ i. any (text_eq i) (find_group_source_ids source sources)) f
          ∙ in_group-effective source effective sources e))
        ((text_eq_iff (env.mailbox_column row.user_email)
            (normalize_email_address env.lower_case raw_user)).1
          h)

module _ (env : Env)
    (column : (x : Text)
      → env.mailbox_column (normalize_email_address env.lower_case x)
        ≡ normalize_email_address env.lower_case x) where
  Inserts-own :
      (source effective : IngestionSource) (raw_user key : Text) (a b : Archive)
      → effective_source source a.sources ≡ ok effective
      → Inserts env source effective (normalize_email_address env.lower_case raw_user) key a b
      → any
          (is_own env
            (find_group_source_ids source b.sources)
            key
            (normalize_email_address env.lower_case raw_user))
          b.emails
        ≡ true
  Inserts-own source effective raw_user key a b e i =
      ap
        (λ sources.
          any
            (is_own env (find_group_source_ids source sources) key
              (normalize_email_address env.lower_case raw_user))
            b.emails)
        i.sources_kept
      ∙ ap
          (any (
            is_own env (find_group_source_ids source a.sources) key
              (normalize_email_address env.lower_case raw_user)))
          i.rows
      ∙ any-append
          (is_own env (find_group_source_ids source a.sources) key
            (normalize_email_address env.lower_case raw_user))
          a.emails (i.row ∷ [])
      ∙ or_last _ (
          own_row env source effective a.sources raw_user key i.row e i.of_source i.of_message
            (ap env.mailbox_column i.of_mailbox ∙ column raw_user))

  pass_gates-own :
      (email : EmailObject) (source effective : IngestionSource) (user_email key raw : Text)
      (a : Archive)
      → any (is_own env (find_group_source_ids source a.sources) key user_email) a.emails ≡ true
      → pass_gates env email source effective user_email key raw a ≡ (a, skipped)
  unfolding pass_gates
  pass_gates-own email source effective user_email key raw a h = rw (h, pass_gates) refl

  process_email-gates :
      (email : EmailObject) (source effective : IngestionSource) (user_email raw : Text)
      (a : Archive)
      → email.raw ≡ some raw
      → effective_source source a.sources ≡ ok effective
      → process_email env email source user_email a
        ≡ pass_gates env email source effective
            (normalize_email_address env.lower_case user_email)
            (message_key env email source raw)
            raw
            a
  unfolding process_email
  process_email-gates email source effective user_email raw a r e = rw (r, e, process_email) refl

  again :
      (email : EmailObject) (source effective : IngestionSource) (user_email raw : Text)
      (a : Archive)
      → email.raw ≡ some raw
      → effective_source source a.sources ≡ ok effective
      → (r : Archive × Outcome) → r ≡ process_email env email source user_email a
      → Steps env source effective
          (normalize_email_address env.lower_case user_email)
          (message_key env email source raw)
          a
          r
      → is_failed r.1 ≡ false
      → process_email env email source user_email r.0 ≡ (r.0, skipped)
  unfolding Steps
  again email source effective user_email raw a r e (b, archived id) p i n =
      process_email-gates email source effective user_email raw b r
        (ap (effective_source source) i.sources_kept ∙ e)
      ∙ pass_gates-own email source effective (normalize_email_address env.lower_case user_email)
          (message_key env email source raw) raw b
          (Inserts-own source effective user_email (message_key env email source raw) a b e i)
  again email source effective user_email raw a r e (b, skipped) p i n =
      ap (process_email env email source user_email) i ∙ sym p
  again email source effective user_email raw a r e (b, failed _) p i n = absurd (true-false n)

  -- Once processEmail has returned a row or null, another call with the same arguments on the
  -- archive that it leaves returns null and changes nothing; where the column's
  -- lower(btrim(user_email)) leaves a normalized address as it is.
  pub process_email-again :
      (email : EmailObject) (source : IngestionSource) (user_email : Text) (a : Archive)
      → is_failed (process_email env email source user_email a).1 ≡ false
      → process_email env email source user_email (process_email env email source user_email a).0
        ≡ ((process_email env email source user_email a).0, skipped)
  process_email-again email source user_email a n =
      process_email-elim
        (λ r.
          r ≡ process_email env email source user_email a
          → is_failed r.1 ≡ false
          → process_email env email source user_email r.0 ≡ (r.0, skipped))
        env email source a user_email (λ e p n. absurd (true-false n))
        (λ raw effective r e p n.
          again email source effective user_email raw a r e _ p
            (pass_gates-Steps env source effective
              (normalize_email_address env.lower_case user_email) (message_key env email source raw)
              email raw a)
            n)
        refl n
