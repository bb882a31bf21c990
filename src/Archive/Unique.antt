-- ===== src/Archive/Unique.antt =====
-- No mailbox has two rows of one message, in any source: processEmail keeps it so.
use open_archiver.Prelude.{
  and_elim, or_elim, ◌≡◌, refl, sym, ap, ◌∙◌, subst, inl, inr, Bool, true, false, ◌&&◌, ◌||◌, List,
  [], ◌∷◌, ◌++◌, Text, any, any-append, text_eq, text_eq_iff, arith,
}
use open_archiver.Address.{normalize_email_address}
use open_archiver.Archive.Model.{
  EmailObject, IngestionSource, ArchivedEmail, Archive, ok, Outcome, archived, skipped, failed,
}
use open_archiver.Archive.Store.{Env}
use open_archiver.Archive.Process.{
  find_group_source_ids, effective_source, message_key, is_own, process_email,
}
use open_archiver.Archive.Cases.{process_email-elim}
use open_archiver.Archive.Steps.{Inserts, Steps, pass_gates-Steps}
use open_archiver.Archive.Once.{own_row}

-- Two rows of one source with the same key, for the same mailbox.
abbrev pub same_copy : Env → ArchivedEmail → ArchivedEmail → Bool
same_copy env r s =
    text_eq r.ingestion_source_id s.ingestion_source_id
    && (text_eq r.message_id_header s.message_id_header
        && text_eq (env.mailbox_column r.user_email) (env.mailbox_column s.user_email))

-- Rows, none of them a copy of another.
unfoldable pub IsUnique : Env → List ArchivedEmail → Type 0
IsUnique env [] = Unit
IsUnique env (row ∷ rows) = (any (same_copy env row) rows ≡ false) × IsUnique env rows

any-weaken {ℓ} :
    {A : Type ℓ} (p q : A → Bool) (xs : List A)
    → ((x : A) → p x ≡ true → q x ≡ true)
    → any q xs ≡ false
    → any p xs ≡ false
any-weaken p q [] f h = refl
any-weaken p q (x ∷ xs) f h = ground (arith, f x, any-weaken p q xs f)

or_end : (a : Bool) {b : Bool} → a ≡ false → b ≡ false → (a || (b || false)) ≡ false
or_end a h k = ground arith

IsUnique-last :
    (env : Env) (rows : List ArchivedEmail) (new : ArchivedEmail)
    → IsUnique env rows
    → any (λ row. same_copy env row new) rows ≡ false
    → IsUnique env (rows ++ (new ∷ []))
unfolding IsUnique
IsUnique-last env [] new h n = (refl, tt)
IsUnique-last env (row ∷ rows) new (h, hs) n = (
  any-append (same_copy env row) rows (new ∷ []) ∙ or_end _ h (or_elim n).0,
  IsUnique-last env rows new hs (or_elim n).1,
)

module _ (env : Env)
    (column : (x : Text)
      → env.mailbox_column (normalize_email_address env.lower_case x)
        ≡ normalize_email_address env.lower_case x) where
  -- A copy of the new row would have been found.
  copy-own :
      (source effective : IngestionSource) (sources : List IngestionSource) (raw_user key : Text)
      (row new : ArchivedEmail)
      → effective_source source sources ≡ ok effective
      → new.ingestion_source_id ≡ effective.id
      → new.message_id_header ≡ key
      → new.user_email ≡ normalize_email_address env.lower_case raw_user
      → same_copy env row new ≡ true
      → is_own env
          (find_group_source_ids source sources)
          key
          (normalize_email_address env.lower_case raw_user)
          row
        ≡ true
  copy-own source effective sources raw_user key row new e f g h c =
      let parts = and_elim c in
      let more = and_elim parts.1 in
      own_row env source effective sources raw_user key row e
        ((text_eq_iff row.ingestion_source_id new.ingestion_source_id).0 parts.0 ∙ f)
        ((text_eq_iff row.message_id_header new.message_id_header).0 more.0 ∙ g)
        ((text_eq_iff (env.mailbox_column row.user_email) (env.mailbox_column new.user_email)).0
            more.1
          ∙ ap env.mailbox_column h
          ∙ column raw_user)

  Inserts-IsUnique :
      (source effective : IngestionSource) (raw_user key : Text) (a b : Archive)
      → effective_source source a.sources ≡ ok effective
      → Inserts env source effective (normalize_email_address env.lower_case raw_user) key a b
      → IsUnique env a.emails
      → IsUnique env b.emails
  Inserts-IsUnique source effective raw_user key a b e i u = subst (IsUnique env) (sym i.rows) (
      IsUnique-last env a.emails i.row u (
        any-weaken (λ row. same_copy env row i.row)
          (is_own env (find_group_source_ids source a.sources) key
            (normalize_email_address env.lower_case raw_user))
          a.emails
          (λ row c.
            copy-own source effective a.sources raw_user key row i.row e i.of_source i.of_message
              i.of_mailbox c)
          i.is_new))

  Steps-IsUnique :
      (source effective : IngestionSource) (raw_user key : Text) (a : Archive)
      (r : Archive × Outcome)
      → effective_source source a.sources ≡ ok effective
      → Steps env source effective (normalize_email_address env.lower_case raw_user) key a r
      → IsUnique env a.emails
      → IsUnique env r.0.emails
  unfolding Steps
  Steps-IsUnique source effective raw_user key a (b, archived id) e i u =
      Inserts-IsUnique source effective raw_user key a b e i u
  Steps-IsUnique source effective raw_user key a (b, skipped) e i u =
      subst (λ x. IsUnique env x.emails) (sym i) u
  Steps-IsUnique source effective raw_user key a (b, failed _) e (inl same) u =
      subst (IsUnique env) (sym same.same_emails) u
  Steps-IsUnique source effective raw_user key a (b, failed _) e (inr i) u =
      Inserts-IsUnique source effective raw_user key a b e i u

  -- Where no two rows of one source have the same Message-ID key and mailbox, processEmail leaves it
  -- so, whatever it returns; where the column's lower(btrim(user_email)) leaves a normalized address
  -- as it is.
  pub process_email-IsUnique :
      (email : EmailObject) (source : IngestionSource) (user_email : Text) (a : Archive)
      → IsUnique env a.emails
      → IsUnique env (process_email env email source user_email a).0.emails
  process_email-IsUnique email source user_email a u =
      process_email-elim (λ r. IsUnique env r.0.emails) env email source a user_email (λ _. u)
        (λ raw effective r e.
          Steps-IsUnique source effective user_email (message_key env email source raw) a _ e
            (pass_gates-Steps env source effective
              (normalize_email_address env.lower_case user_email) (message_key env email source raw)
              email raw a)
            u)
