-- ===== src/Archive/Process.antt =====
-- IngestionService.ts: findGroupSourceIds, doesEmailExist and processEmail. The caches of a job are
-- left out: they hold what the lookups return. The attachments are stored one after another. The
-- temporary file is not removed here, and a failing database is not modelled.
use open_archiver.Prelude.{
  ℕ, suc, Bool, true, false, not, ◌&&◌, ◌||◌, Option, none, some, or_else, List, [], ◌∷◌, ◌++◌, map,
  Text, codes, length, filter, find, update_where, any, is_empty, is_some, text_eq, ◌==◌,
  if◌then◌else◌,
}
use open_archiver.Address.{normalize_email_address}
use open_archiver.Names.{bound_message_key, email_object_name}
use open_archiver.Archive.Model.{
  EmailAddress, EmailObject, IngestionSource, Details, ArchivedEmail, Archive, unreadable,
  source_not_found, undecryptable, Try, ok, thrown, Outcome, archived, skipped, failed,
}
use open_archiver.Archive.MessageId.{message_id_header_of, truthy}
use open_archiver.Archive.Store.{Env, StoredEmail, store_email_or_adopt, store_attachments}

abbrev pub source_is : Text → IngestionSource → Bool
source_is i source = text_eq source.id i

abbrev pub is_child_of : Text → IngestionSource → Bool
is_child_of root source = elim source.merged_into_id [ none ↦ false | some i ↦ text_eq i root ]

-- findGroupSourceIds, of a source in hand
unfoldable pub find_group_source_ids : IngestionSource → List IngestionSource → List Text
find_group_source_ids source sources =
    let root = or_else source.merged_into_id source.id in
    root ∷ map (λ child. child.id) (filter (is_child_of root) sources)

abbrev pub in_group : List Text → ArchivedEmail → Bool
in_group group row = any (text_eq row.ingestion_source_id) group

-- resolveEffectiveSource; findById decrypts the credentials of the root that it reads.
unfoldable pub effective_source : IngestionSource → List IngestionSource → Try IngestionSource
effective_source source sources = elim source.merged_into_id [
  | none ↦ ok source
  | some root ↦ elim (find (source_is root) sources) [
    | some found ↦ if found.readable then ok found else thrown undecryptable
    | none ↦ thrown source_not_found
  ]
]

-- The first address of a list, `|| UNKNOWN_SENDER` included.
abbrev pub sender_name : List EmailAddress → Option Text
sender_name [] = none
sender_name (a ∷ _) = some a.name

abbrev pub sender_email : List EmailAddress → Text
sender_email [] = codes "unknown@no-sender.invalid"
sender_email (a ∷ _) = if is_empty a.address then codes "unknown@no-sender.invalid" else a.address

unfoldable pub details_of : EmailObject → Details
details_of email = record {
  thread_id = email.thread_id;
  sent_at = email.received_at;
  subject = email.subject;
  sender_name = sender_name email.from;
  sender_email = sender_email email.from;
  to = email.to;
  cc = email.cc;
  bcc = or_else email.bcc [];
  path = email.path;
  tags = email.tags;
}

module _ (env : Env) where
  unfoldable pub message_key : EmailObject → IngestionSource → Text → Text
  unfolding message_id_header_of
  message_key email source raw = bound_message_key env.sha256 (
      or_else (truthy (message_id_header_of email.message_id)) (
        codes "generated-"
        ++ (env.sha256 raw ++ (codes "-" ++ (source.id ++ (codes "-" ++ email.id))))))

  abbrev pub is_mailbox : Text → ArchivedEmail → Bool
  is_mailbox user_email row = text_eq (env.mailbox_column row.user_email) user_email

  -- The condition of the query for gates 1 and 2, and that of gate 1.
  abbrev pub in_gate : List Text → Text → ArchivedEmail → Bool
  in_gate group key row = text_eq row.message_id_header key && in_group group row

  abbrev pub is_own : List Text → Text → Text → ArchivedEmail → Bool
  is_own group key user_email row = in_gate group key row && is_mailbox user_email row

  abbrev pub has_hash : Text → Text → ArchivedEmail → Bool
  has_hash source hash row = text_eq row.storage_hash hash && text_eq row.ingestion_source_id source

  -- The three insertions into archived_emails: the columns that differ are the arguments.
  unfoldable pub new_row :
      EmailObject
      → IngestionSource
      → IngestionSource
      → Text
      → Text
      → StoredEmail
      → Bool
      → ℕ
      → ArchivedEmail
  unfolding details_of
  new_row email source effective user_email key stored has_attachments id = record {
    id = id;
    ingestion_source_id = effective.id;
    user_email = user_email;
    message_id_header = key;
    provider_message_id = bound_message_key env.sha256 email.id;
    storage_path = stored.storage_path;
    storage_hash = stored.hash;
    size_bytes = stored.size_bytes;
    has_attachments = has_attachments;
    is_journaled = source.journaling;
    details = details_of email;
  }

  unfoldable pub insert_row : ArchivedEmail → Archive → Archive
  insert_row row a = record a { emails = a.emails ++ (row ∷ []); next_id = suc a.next_id }

  -- The links of one e-mail, for another.
  unfoldable pub copy_links : ℕ → ℕ → List (ℕ × ℕ) → List (ℕ × ℕ)
  copy_links existing reference [] = []
  copy_links existing reference (link ∷ links) =
      let rest = copy_links existing reference links in
      if link.0 == existing then (reference, link.1) ∷ rest else rest

  -- Gate 2: a row that shares the object of another mailbox's row.
  unfoldable pub add_reference :
      EmailObject
      → IngestionSource
      → IngestionSource
      → Text
      → Text
      → ArchivedEmail
      → Archive
      → Archive × Outcome
  unfolding new_row insert_row copy_links
  add_reference email source effective user_email key existing a =
      let stored : StoredEmail = record {
        storage_path = existing.storage_path;
        hash = existing.storage_hash;
        size_bytes = existing.size_bytes;
      } in
      let row =
        new_row email source effective user_email key stored existing.has_attachments a.next_id in
      let inserted = insert_row row a in
      (
        if existing.has_attachments
            then record inserted { links = a.links ++ copy_links existing.id a.next_id a.links }
            else inserted,
        archived a.next_id,
      )

  -- A row for what has been stored, or the failure of storing it.
  unfoldable pub add_stored :
      EmailObject
      → IngestionSource
      → IngestionSource
      → Text
      → Text
      → Archive
      → Try StoredEmail
      → Archive × Outcome
  unfolding new_row insert_row
  add_stored email source effective user_email key a (thrown e) = (a, failed e)
  add_stored email source effective user_email key a (ok stored) = (
    insert_row
        (new_row email source effective user_email key stored (not (is_empty email.attachments))
          a.next_id)
        a,
    archived a.next_id,
  )

  abbrev pub object_name : EmailObject → Text
  object_name email = email_object_name env.sha256 (or_else email.path []) email.id

  -- storeEmailOrAdopt, in an archive.
  unfoldable pub store_in :
      IngestionSource → EmailObject → Text → Option Text → Archive → Archive × Try StoredEmail
  store_in effective email content known_hash a =
      let r =
        store_email_or_adopt env effective.id (object_name email) content
          (message_id_header_of email.message_id) known_hash a.objects in
      (record a { objects = r.0 }, r.1)

  -- Gate 3 of a source that preserves originals.
  unfoldable pub archive_original :
      EmailObject
      → IngestionSource
      → IngestionSource
      → Text
      → Text
      → Text
      → Archive
      → Archive × Outcome
  unfolding store_in add_stored
  archive_original email source effective user_email key raw a =
      let hash = env.sha256 raw in
      let stored = store_in effective email raw (some hash) a in
      if any (λ row. has_hash effective.id hash row && is_mailbox user_email row) a.emails
      then (a, skipped)
      else elim (find (has_hash effective.id hash) a.emails) [
        | some row ↦
            add_stored email source effective user_email key a (
              ok (record { storage_path = row.storage_path; hash = hash; size_bytes = length raw }))
        | none ↦ add_stored email source effective user_email key stored.0 stored.1
      ]

  -- The attachments of a row that has just been inserted.
  unfoldable pub add_attachments : EmailObject → IngestionSource → ℕ → Archive → Archive × Outcome
  unfolding store_attachments
  add_attachments email effective id a =
      let r = store_attachments env effective.id id email.attachments a in
      (r.0, elim r.1 [ none ↦ archived id | some e ↦ failed e ])

  abbrev pub then_attachments :
      EmailObject → IngestionSource → Archive × Outcome → Archive × Outcome
  then_attachments email effective (a, archived id) = add_attachments email effective id a
  then_attachments email effective (a, skipped) = (a, skipped)
  then_attachments email effective (a, failed e) = (a, failed e)

  -- Gate 3 of another source.
  unfoldable pub archive_stripped :
      EmailObject
      → IngestionSource
      → IngestionSource
      → Text
      → Text
      → Text
      → Archive
      → Archive × Outcome
  unfolding store_in add_stored add_attachments
  archive_stripped email source effective user_email key raw a = elim (env.strip_attachments raw) [
    | none ↦ (a, failed unreadable)
    | some content ↦
        let stored = store_in effective email content none a in
        then_attachments email effective
          (add_stored email source effective user_email key stored.0 stored.1)
  ]

  unfoldable pub archive_new :
      EmailObject
      → IngestionSource
      → IngestionSource
      → Text
      → Text
      → Text
      → Archive
      → Archive × Outcome
  unfolding archive_original archive_stripped
  archive_new email source effective user_email key raw a =
      if effective.preserve_original_file
      then archive_original email source effective user_email key raw a
      else archive_stripped email source effective user_email key raw a

  -- Gates 1 and 2: the row of this mailbox comes first in the query's order.
  unfoldable pub pass_gates :
      EmailObject
      → IngestionSource
      → IngestionSource
      → Text
      → Text
      → Text
      → Archive
      → Archive × Outcome
  unfolding find_group_source_ids add_reference archive_new
  pass_gates email source effective user_email key raw a =
      let group = find_group_source_ids source a.sources in
      if any (is_own group key user_email) a.emails
      then (a, skipped)
      else elim (find (in_gate group key) a.emails) [
        | some existing ↦ add_reference email source effective user_email key existing a
        | none ↦ archive_new email source effective user_email key raw a
      ]

  unfoldable pub process_email : EmailObject → IngestionSource → Text → Archive → Archive × Outcome
  unfolding effective_source message_key pass_gates
  process_email email source raw_user_email a = elim email.raw [
    | none ↦ (a, failed unreadable)
    | some raw ↦ elim (effective_source source a.sources) [
      | thrown e ↦ (a, failed e)
      | ok effective ↦
          pass_gates email source effective (normalize_email_address env.lower_case raw_user_email)
            (message_key email source raw) raw a
    ]
  ]

  -- doesEmailExist: the rows of the mailbox with one of the keys, and the refreshed provider id of
  -- the first, where the listing carries the Message-ID.
  abbrev pub is_known : List Text → Text → Text → Option Text → ArchivedEmail → Bool
  is_known group user_email key header row =
      in_group group row
      && (is_mailbox user_email row
          && (text_eq row.provider_message_id key
              || (text_eq row.message_id_header key
                  || (elim header [ none ↦ false | some h ↦ text_eq row.message_id_header h ]))))

  unfoldable pub refresh_provider_id : Text → Option Text → ArchivedEmail → Archive → Archive
  refresh_provider_id key header row a =
      if is_some header && not (text_eq row.provider_message_id key)
      then record a {
        emails =
            update_where (λ other. other.id == row.id)
              (λ other. record other { provider_message_id = key }) a.emails;
      }
      else a

  abbrev pub bounded : Option Text → Option Text
  bounded none = none
  bounded (some h) = some (bound_message_key env.sha256 h)

  unfoldable pub does_email_exist : Text → List Text → Text → Option Text → Archive → Archive × Bool
  unfolding refresh_provider_id
  does_email_exist raw_message_id group raw_user_email raw_internet_message_id a =
      let key = bound_message_key env.sha256 raw_message_id in
      let header = bounded (truthy raw_internet_message_id) in
      elim (find (is_known group (normalize_email_address env.lower_case raw_user_email) key header)
        a.emails) [ none ↦ (a, false) | some row ↦ (refresh_provider_id key header row a, true) ]
