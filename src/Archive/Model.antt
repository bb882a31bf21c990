-- ===== src/Archive/Model.antt =====
-- What archiving reads and writes: packages/types/src/email.types.ts, the columns of archived_emails,
-- attachments and email_attachments (packages/backend/src/database/schema), and stored objects.
use open_archiver.Prelude.{ℕ, Bool, false, ◌&&◌, Option, List, ◌++◌, Text, codes, text_eq}

pub record EmailAddress : Type 0 where
  pub name : Text
  pub address : Text

pub record EmailAttachment : Type 0 where
  pub filename : Text
  pub content_type : Text
  pub size : ℕ
  pub content : Text

-- A value of the header map: a string, an array, or another object. An item of an array that is no
-- string is `none`.
pub data HeaderValue : Type 0 where
  absent other : HeaderValue
  one : Text → HeaderValue
  several : List (Option Text) → HeaderValue

-- `raw` is what reading `tempFilePath` gives, none where it fails. The body and the other headers
-- are not read here.
pub record EmailObject : Type 0 where
  pub id : Text
  pub thread_id : Option Text
  pub from : List EmailAddress
  pub to : List EmailAddress
  pub cc : Option (List EmailAddress)
  pub bcc : Option (List EmailAddress)
  pub subject : Text
  pub message_id : HeaderValue
  pub attachments : List EmailAttachment
  pub received_at : ℕ
  pub raw : Option Text
  pub path : Option Text
  pub tags : Option (List Text)

-- The columns of a source that archiving reads; `journaling` says whether its provider is
-- smtp_journaling, and `readable` whether its credentials decrypt.
pub record IngestionSource : Type 0 where
  pub id : Text
  pub merged_into_id : Option Text
  pub journaling : Bool
  pub preserve_original_file : Bool
  pub readable : Bool

-- The path of an object below the storage folder: `<source>/emails/<name>` or
-- `<source>/attachments/<unique>-<name>`. The storage is the one of S3StorageProvider on a backend
-- with conditional writes, where a path is a key that is compared as it stands; an id of a source has no `/`, so the keys of e-mails and
-- of attachments never meet.
pub data ObjectPath : Type 0 where
  email_object : Text → Text → ObjectPath
  attachment_object : Text → Text → Text → ObjectPath

-- The key below the folder of the source and of the kind.
unfoldable pub name_below : ObjectPath → Text
name_below (email_object s n) = n
name_below (attachment_object s u n) = u ++ (codes "-" ++ n)

-- Equality of two keys.
unfoldable pub same_path : ObjectPath → ObjectPath → Bool
same_path (email_object s n) (email_object s' n') = text_eq s s' && text_eq n n'
same_path (attachment_object s u n) (attachment_object s' u' n') =
    text_eq s s' && (text_eq u u' && text_eq n n')
same_path _ _ = false

-- The columns that are copied from the e-mail.
pub record Details : Type 0 where
  pub thread_id : Option Text
  pub sent_at : ℕ
  pub subject : Text
  pub sender_name : Option Text
  pub sender_email : Text
  pub to : List EmailAddress
  pub cc : Option (List EmailAddress)
  pub bcc : List EmailAddress
  pub path : Option Text
  pub tags : Option (List Text)

pub record ArchivedEmail : Type 0 where
  pub id : ℕ
  pub ingestion_source_id : Text
  pub user_email : Text
  pub message_id_header : Text
  pub provider_message_id : Text
  pub storage_path : ObjectPath
  pub storage_hash : Text
  pub size_bytes : ℕ
  pub has_attachments : Bool
  pub is_journaled : Bool
  pub details : Details

pub record Attachment : Type 0 where
  pub id : ℕ
  pub filename : Text
  pub mime_type : Text
  pub size_bytes : ℕ
  pub content_hash : Text
  pub storage_path : ObjectPath
  pub ingestion_source_id : Text

abbrev pub Objects : Type 0
Objects = List (ObjectPath × Text)

-- The database and the storage; `next_id` is the id of the next row.
pub record Archive : Type 0 where
  pub sources : List IngestionSource
  pub objects : Objects
  pub emails : List ArchivedEmail
  pub attachments : List Attachment
  pub links : List (ℕ × ℕ)
  pub next_id : ℕ

-- Why an e-mail could not be archived.
pub data Failure : Type 0 where
  unreadable source_not_found undecryptable storage_failed : Failure

pub data Try {ℓ} (A : Type ℓ) : Type ℓ where
  ok : A → Try A
  thrown : Failure → Try A

-- What processEmail returns: the id of a row, null, or a ProcessEmailError.
pub data Outcome : Type 0 where
  archived : ℕ → Outcome
  skipped : Outcome
  failed : Failure → Outcome
