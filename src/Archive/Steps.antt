-- ===== src/Archive/Steps.antt =====
-- What one call of processEmail does to the rows of archived_emails: nothing, or one more row of this
-- mailbox and message, where there was none.
use open_archiver.Prelude.{
  ℕ, ◌≡◌, refl, ap, ◌∙◌, ◌⊎◌, inl, inr, Bool, true, false, not, ◌&&◌, Option, none, some, List, [],
  ◌∷◌, ◌++◌, Text, take, find, any, is_empty, ◌==◌, Bool-cases, Option-cases,
}
use open_archiver.Names.{build_attachment_file_name}
use open_archiver.Archive.Model.{
  attachment_object, EmailObject, EmailAttachment, IngestionSource, ArchivedEmail, Archive, Failure,
  Try, ok, thrown, Outcome, archived, skipped, failed,
}
use open_archiver.Archive.Store.{
  Env, StoredEmail, is_attachment, create_attachment, get_or_create_attachment_id, add_link, linked,
  store_attachment, store_attachments,
}
use open_archiver.Archive.Process.{
  find_group_source_ids, is_own, new_row, insert_row, add_reference, add_stored, store_in,
  add_attachments, then_attachments, pass_gates,
}
use open_archiver.Archive.Cases.{pass_gates-elim, archive_new-elim}

-- An archive with the rows and the sources of another.
pub record HasRowsOf (a b : Archive) : Type 0 where
  pub same_emails : b.emails ≡ a.emails
  pub same_sources : b.sources ≡ a.sources

HasRowsOf-refl : (a : Archive) → HasRowsOf a a
HasRowsOf-refl a = record { same_emails = refl; same_sources = refl }

HasRowsOf-trans : {a b c : Archive} → HasRowsOf a b → HasRowsOf b c → HasRowsOf a c
HasRowsOf-trans h k = record {
  same_emails = k.same_emails ∙ h.same_emails;
  same_sources = k.same_sources ∙ h.same_sources;
}

module _ (env : Env) where
  get_or_create-HasRowsOf :
      (hash source : Text) (attachment : EmailAttachment) (a : Archive)
      → HasRowsOf a (get_or_create_attachment_id env hash source attachment a).0
  unfolding get_or_create_attachment_id create_attachment
  get_or_create-HasRowsOf hash source attachment a =
      elim (Option-cases (find (is_attachment hash source) a.attachments)) [
        | inl nothing ↦
            rw (nothing, get_or_create_attachment_id)
              (elim (Bool-cases (
                env.put_fails (
                  attachment_object source (take 7 (env.random_uuid a.next_id))
                    (build_attachment_file_name env.sha256 attachment.filename)))) [
                      | inl fails ↦ rw (fails, create_attachment) (HasRowsOf-refl a)
                      | inr works ↦
                          rw (works, create_attachment)
                            (record { same_emails = refl; same_sources = refl })
                    ])
        | inr (row, there) ↦ rw (there, get_or_create_attachment_id) (HasRowsOf-refl a)
      ]

  add_link-HasRowsOf :
      (email attachment : ℕ) (a : Archive) → HasRowsOf a (add_link email attachment a)
  unfolding add_link
  add_link-HasRowsOf email attachment a =
      elim (Bool-cases (any (λ link. link.0 == email && link.1 == attachment) a.links)) [
        | inl there ↦ rw there (HasRowsOf-refl a)
        | inr new ↦ rw new (record { same_emails = refl; same_sources = refl })
      ]

  linked-HasRowsOf :
      (before : Archive) (email : ℕ) (r : Archive × Try ℕ)
      → HasRowsOf before r.0
      → HasRowsOf before (linked email r).0
  linked-HasRowsOf before email (a, ok id) h = HasRowsOf-trans h (add_link-HasRowsOf email id a)
  linked-HasRowsOf before email (a, thrown e) h = h

  store_attachments-HasRowsOf :
      (source : Text) (email : ℕ) (attachments : List EmailAttachment) (a : Archive)
      → HasRowsOf a (store_attachments env source email attachments a).0
  unfolding store_attachments store_attachment
  store_attachments-HasRowsOf source email [] a = HasRowsOf-refl a
  store_attachments-HasRowsOf source email (attachment ∷ attachments) a =
      HasRowsOf-trans
        (linked-HasRowsOf a email
          (get_or_create_attachment_id env (env.sha256 attachment.content) source attachment a)
          (get_or_create-HasRowsOf (env.sha256 attachment.content) source attachment a))
        (store_attachments-HasRowsOf source email attachments
          (store_attachment env source email attachment a).0)

  module _ (source effective : IngestionSource) (user_email key : Text) where
    -- One more row, for this mailbox and this message, where there was none.
    pub record Inserts (a b : Archive) : Type 0 where
      pub row : ArchivedEmail
      pub rows : b.emails ≡ a.emails ++ (row ∷ [])
      pub sources_kept : b.sources ≡ a.sources
      pub is_new :
          any (is_own env (find_group_source_ids source a.sources) key user_email) a.emails ≡ false
      pub of_source : row.ingestion_source_id ≡ effective.id
      pub of_message : row.message_id_header ≡ key
      pub of_mailbox : row.user_email ≡ user_email

    -- What a call does by its outcome.
    unfoldable pub Steps : Archive → Archive × Outcome → Type 0
    Steps a (b, archived id) = Inserts a b
    Steps a (b, skipped) = b ≡ a
    Steps a (b, failed e) = HasRowsOf a b ⊎ Inserts a b

    Inserts-HasRowsOf : {a b c : Archive} → Inserts a b → HasRowsOf b c → Inserts a c
    Inserts-HasRowsOf i h = record {
      row = i.row;
      rows = h.same_emails ∙ i.rows;
      sources_kept = h.same_sources ∙ i.sources_kept;
      is_new = i.is_new;
      of_source = i.of_source;
      of_message = i.of_message;
      of_mailbox = i.of_mailbox;
    }

    row-Inserts :
        (email : EmailObject) (stored : StoredEmail) (has : Bool) (id : ℕ) (a b : Archive)
        → b.emails
          ≡ a.emails ++ (new_row env email source effective user_email key stored has id ∷ [])
        → b.sources ≡ a.sources
        → any (is_own env (find_group_source_ids source a.sources) key user_email) a.emails ≡ false
        → Inserts a b
    unfolding new_row
    row-Inserts email stored has id a b e f n = record {
      row = new_row env email source effective user_email key stored has id;
      rows = e;
      sources_kept = f;
      is_new = n;
      of_source = refl;
      of_message = refl;
      of_mailbox = refl;
    }

    store_in-HasRowsOf :
        (email : EmailObject) (content : Text) (known : Option Text) (a : Archive)
        → HasRowsOf a (store_in env effective email content known a).0
    unfolding store_in
    store_in-HasRowsOf email content known a = record { same_emails = refl; same_sources = refl }

    add_stored-Steps :
        (email : EmailObject) (a b : Archive) (stored : Try StoredEmail)
        → HasRowsOf a b
        → any (is_own env (find_group_source_ids source a.sources) key user_email) a.emails ≡ false
        → Steps a (add_stored env email source effective user_email key b stored)
    unfolding Steps add_stored insert_row new_row
    add_stored-Steps email a b (ok stored) h n =
        row-Inserts email stored (not (is_empty email.attachments)) b.next_id a _
          (ap
            (λ rows.
              rows
              ++ (new_row env email source effective user_email key stored
                    (not (is_empty email.attachments)) b.next_id
                  ∷ []))
            h.same_emails)
          h.same_sources n
    add_stored-Steps email a b (thrown e) h n = inl h

    attached-Steps :
        (a : Archive) (id : ℕ) (r : Archive × Option Failure)
        → Inserts a r.0
        → Steps a (r.0, elim r.1 as (λ _. Outcome) [ none ↦ archived id | some e ↦ failed e ])
    unfolding Steps
    attached-Steps a id (b, none) h = h
    attached-Steps a id (b, some e) h = inr h

    then_attachments-Steps :
        (email : EmailObject) (a : Archive) (r : Archive × Outcome)
        → Steps a r
        → Steps a (then_attachments env email effective r)
    unfolding Steps add_attachments
    then_attachments-Steps email a (b, archived id) h =
        attached-Steps a id (store_attachments env effective.id id email.attachments b)
          (Inserts-HasRowsOf h (store_attachments-HasRowsOf effective.id id email.attachments b))
    then_attachments-Steps email a (b, skipped) h = h
    then_attachments-Steps email a (b, failed e) h = h

    add_reference-Steps :
        (email : EmailObject) (existing : ArchivedEmail) (a : Archive)
        → any (is_own env (find_group_source_ids source a.sources) key user_email) a.emails ≡ false
        → Steps a (add_reference env email source effective user_email key existing a)
    unfolding Steps add_reference insert_row new_row
    add_reference-Steps email existing a n = elim (Bool-cases existing.has_attachments) [
      | inl some_links ↦
          rw (some_links, add_reference) (row-Inserts email _ true a.next_id a _ refl refl n)
      | inr no_links ↦
          rw (no_links, add_reference) (row-Inserts email _ false a.next_id a _ refl refl n)
    ]

    pub pass_gates-Steps :
        (email : EmailObject) (raw : Text) (a : Archive)
        → Steps a (pass_gates env email source effective user_email key raw a)
    unfolding Steps
    pass_gates-Steps email raw a =
        pass_gates-elim (Steps a) env email source a effective user_email key raw (λ _. refl)
          (λ n existing _. add_reference-Steps email existing a n)
          (λ n.
            archive_new-elim (Steps a) env email source a effective user_email key raw refl
              (λ _. inl (HasRowsOf-refl a))
              (λ row _. add_stored-Steps email a a _ (HasRowsOf-refl a) n)
              (add_stored-Steps email a _ _ (store_in-HasRowsOf email raw (some (env.sha256 raw)) a)
                n)
              (λ content _.
                then_attachments-Steps email a _
                  (add_stored-Steps email a _ _ (store_in-HasRowsOf email content none a) n)))
