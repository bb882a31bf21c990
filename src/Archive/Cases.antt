-- ===== src/Archive/Cases.antt =====
-- The cases of processEmail: what holds of each way through it holds of its result.
use open_archiver.Prelude.{
  ◌≡◌, refl, ◌⊎◌, inl, inr, true, false, ◌&&◌, none, some, Text, length, find, any, Bool-cases,
  Option-cases,
}
use open_archiver.Address.{normalize_email_address}
use open_archiver.Archive.Model.{
  EmailObject, IngestionSource, ArchivedEmail, Archive, Failure, unreadable, Try, ok, thrown,
  Outcome, skipped, failed,
}
use open_archiver.Archive.Store.{Env}
use open_archiver.Archive.Process.{
  find_group_source_ids, effective_source, message_key, is_mailbox, in_gate, is_own, has_hash,
  add_reference, add_stored, store_in, archive_original, then_attachments, archive_stripped,
  archive_new, pass_gates, process_email,
}

Try-cases {ℓ} : {A : Type ℓ} (t : Try A) → ((e : Failure) × (t ≡ thrown e)) ⊎ ((x : A) × (t ≡ ok x))
Try-cases (ok x) = inr (x, refl)
Try-cases (thrown e) = inl (e, refl)

module _ {κ} (P : Archive × Outcome → Type κ) (env : Env) (email : EmailObject)
    (source : IngestionSource) (a : Archive) where
  pub process_email-elim :
      (user_email : Text)
      → ((e : Failure) → P (a, failed e))
      → ((raw : Text) (effective : IngestionSource)
          → email.raw ≡ some raw
          → effective_source source a.sources ≡ ok effective
          → P (
              pass_gates env email source effective
                (normalize_email_address env.lower_case user_email)
                (message_key env email source raw)
                raw
                a))
      → P (process_email env email source user_email a)
  unfolding process_email
  process_email-elim user_email on_failure on_gates = elim (Option-cases email.raw) [
    | inl nothing ↦ rw (nothing, process_email) (on_failure unreadable)
    | inr (raw, r) ↦ elim (Try-cases (effective_source source a.sources)) [
      | inl (e, lost) ↦ rw (r, lost, process_email) (on_failure e)
      | inr (effective, found) ↦ rw (r, found, process_email) (on_gates raw effective r found)
    ]
  ]

  module _ (effective : IngestionSource) (user_email key raw : Text) where
    pub pass_gates-elim :
        (any (is_own env (find_group_source_ids source a.sources) key user_email) a.emails ≡ true
          → P (a, skipped))
        → (any (is_own env (find_group_source_ids source a.sources) key user_email) a.emails ≡ false
            → (existing : ArchivedEmail)
            → find (in_gate env (find_group_source_ids source a.sources) key) a.emails
              ≡ some existing
            → P (add_reference env email source effective user_email key existing a))
        → (any (is_own env (find_group_source_ids source a.sources) key user_email) a.emails ≡ false
            → P (archive_new env email source effective user_email key raw a))
        → P (pass_gates env email source effective user_email key raw a)
    unfolding pass_gates
    pass_gates-elim on_own on_other on_new =
        elim (Bool-cases
          (any (is_own env (find_group_source_ids source a.sources) key user_email) a.emails)) [
            | inl own ↦ rw (own, pass_gates) (on_own own)
            | inr new ↦
                elim (Option-cases
                  (find (in_gate env (find_group_source_ids source a.sources) key) a.emails)) [
                    | inl nothing ↦ rw (new, nothing, pass_gates) (on_new new)
                    | inr (existing, there) ↦
                        rw (new, there, pass_gates) (on_other new existing there)
                  ]
          ]

    pub archive_new-elim :
        P (a, skipped)
        → ((e : Failure) → P (a, failed e))
        → ((row : ArchivedEmail)
            → find (has_hash env effective.id (env.sha256 raw)) a.emails ≡ some row
            → P (
                add_stored env email source effective user_email key a (
                  ok (record {
                    storage_path = row.storage_path;
                    hash = env.sha256 raw;
                    size_bytes = length raw;
                  }))))
        → (let stored = store_in env effective email raw (some (env.sha256 raw)) a in
            P (add_stored env email source effective user_email key stored.0 stored.1))
        → ((content : Text)
            → env.strip_attachments raw ≡ some content
            → P (
                then_attachments env email effective (
                  add_stored env email source effective user_email key
                    (store_in env effective email content none a).0
                    (store_in env effective email content none a).1)))
        → P (archive_new env email source effective user_email key raw a)
    unfolding archive_new archive_original archive_stripped
    archive_new-elim on_copy on_failure on_shared on_original on_stripped =
        elim (Bool-cases effective.preserve_original_file) [
          | inl keep ↦
              elim (Bool-cases (
                any
                  (λ row.
                    has_hash env effective.id (env.sha256 raw) row && is_mailbox env user_email row)
                  a.emails)) [
                    | inl copy ↦ rw (keep, copy, archive_new, archive_original) on_copy
                    | inr none_yet ↦
                        elim (Option-cases
                          (find (has_hash env effective.id (env.sha256 raw)) a.emails)) [
                            | inl nothing ↦
                                rw (keep, none_yet, nothing, archive_new, archive_original)
                                  on_original
                            | inr (row, there) ↦
                                rw (keep, none_yet, there, archive_new, archive_original)
                                  (on_shared row there)
                          ]
                  ]
          | inr strip ↦ elim (Option-cases (env.strip_attachments raw)) [
            | inl nothing ↦
                rw (strip, nothing, archive_new, archive_stripped) (on_failure unreadable)
            | inr (content, s) ↦
                rw (strip, s, archive_new, archive_stripped) (on_stripped content s)
          ]
        ]
