-- ===== src/Archive/Store.antt =====
-- IngestionService.ts: storeEmailOrAdopt and getOrCreateAttachmentId, on the objects that
-- StorageService.put and get work on (plain bytes; the encryption at rest is undone on reading).
use open_archiver.Prelude.{
  ℕ, suc, Bool, false, ◌&&◌, Option, none, some, or_else, List, [], ◌∷◌, ◌++◌, Text, codes, take,
  length, find, any, text_eq, ◌==◌, if◌then◌else◌,
}
use open_archiver.Address.{trim}
use open_archiver.Names.{build_attachment_file_name}
use open_archiver.Archive.Model.{
  EmailAttachment, ObjectPath, email_object, attachment_object, same_path, Attachment, Objects,
  Archive, Failure, storage_failed, Try, ok, thrown,
}
use open_archiver.Archive.MessageId.{message_id_of_raw_eml, truthy}

-- What comes from outside: sha256 in hexadecimal, the paths at which the storage fails to write or
-- to read, String.prototype.toLowerCase, the random part of the name of the attachment with an id, what
-- `lower(btrim(user_email))` is in PostgreSQL, and stripAttachmentsFromEml, none where it throws.
pub record Env : Type 0 where
  pub sha256 : Text → Text
  pub put_fails : ObjectPath → Bool
  pub get_fails : ObjectPath → Bool
  pub lower_case : Text → Text
  pub random_uuid : ℕ → Text
  pub mailbox_column : Text → Text
  pub strip_attachments : Text → Option Text

unfoldable pub object_at : ObjectPath → Objects → Option Text
object_at p [] = none
object_at p ((q, bytes) ∷ objects) = if same_path q p then some bytes else object_at p objects

unfoldable pub write_object : ObjectPath → Text → Objects → Objects
write_object p bytes [] = (p, bytes) ∷ []
write_object p bytes ((q, old) ∷ objects) =
    if same_path q p then (p, bytes) ∷ objects else (q, old) ∷ write_object p bytes objects

-- `storage.put(path, content, { overwrite: false })`: done, a StorageObjectExistsError (with what is
-- there), or another error.
pub data PutResult : Type 0 where
  written : Objects → PutResult
  exists_already : Text → PutResult
  refused : PutResult

unfoldable pub put_if_absent : Env → ObjectPath → Text → Objects → PutResult
unfolding object_at write_object
put_if_absent env p content objects =
    if env.put_fails p then refused else elim (object_at p objects) [
      | some stored ↦ exists_already stored
      | none ↦ written (write_object p content objects)
    ]

pub record StoredEmail : Type 0 where
  pub storage_path : ObjectPath
  pub hash : Text
  pub size_bytes : ℕ

-- `.replace(/\.eml$/, '')`
unfoldable pub strip_eml : Text → Text
strip_eml [] = []
strip_eml (c ∷ t) =
    let rest = strip_eml t in if text_eq (c ∷ t) (codes ".eml") then [] else c ∷ rest

unfoldable pub disambiguated : Text → Text → Text
unfolding strip_eml
disambiguated name content_hash =
    strip_eml name ++ (codes "-" ++ (take 8 content_hash ++ codes ".eml"))

-- Both ids present, and equal but for the space around them.
unfoldable pub same_message : Option Text → Option Text → Bool
same_message stored incoming = elim (truthy stored) [
  | none ↦ false
  | some s ↦ elim (truthy incoming) [ none ↦ false | some i ↦ text_eq (trim s) (trim i) ]
]

-- `a ?? b`
abbrev pub coalesce : Option Text → Option Text → Option Text
coalesce none b = b
coalesce (some a) b = some a

-- The second attempt, under a name with the hash of the content in it.
unfoldable pub store_apart : Env → Text → Text → Text → Text → Objects → Objects × Try StoredEmail
unfolding put_if_absent disambiguated
store_apart env source name content content_hash objects =
    let path = email_object source (disambiguated name content_hash) in
    let stored : StoredEmail = record {
      storage_path = path;
      hash = content_hash;
      size_bytes = length content;
    } in
    elim (put_if_absent env path content objects) [
      | written objects' ↦ (objects', ok stored)
      | exists_already _ ↦ (objects, ok stored)
      | refused ↦ (objects, thrown storage_failed)
    ]

-- The bytes at the path are those of the same message, or not.
unfoldable pub adopt_or_apart :
    Env → Text → Text → Text → Option Text → Text → Text → Objects → Objects × Try StoredEmail
unfolding store_apart same_message
adopt_or_apart env source name content header content_hash stored objects =
    if same_message (message_id_of_raw_eml stored) (coalesce header (message_id_of_raw_eml content))
    then (
      objects,
      ok (record {
        storage_path = email_object source name;
        hash = env.sha256 stored;
        size_bytes = length stored;
      }),
    )
    else store_apart env source name content content_hash objects

-- `header` is context.messageIdHeader, `known_hash` context.knownHash.
unfoldable pub store_email_or_adopt :
    Env → Text → Text → Text → Option Text → Option Text → Objects → Objects × Try StoredEmail
unfolding put_if_absent adopt_or_apart
store_email_or_adopt env source name content header known_hash objects =
    let path = email_object source name in
    let content_hash = or_else known_hash (env.sha256 content) in
    elim (put_if_absent env path content objects) [
      | written objects' ↦ (
        objects',
        ok (record { storage_path = path; hash = content_hash; size_bytes = length content }),
      )
      | exists_already stored ↦
          if env.get_fails path
          then (objects, thrown storage_failed)
          else adopt_or_apart env source name content header content_hash stored objects
      | refused ↦ (objects, thrown storage_failed)
    ]

abbrev pub is_attachment : Text → Text → Attachment → Bool
is_attachment hash source row =
    text_eq row.content_hash hash && text_eq row.ingestion_source_id source

-- The row of a new attachment, its object written over what is at its path.
unfoldable pub create_attachment : Env → Text → Text → EmailAttachment → Archive → Archive × Try ℕ
unfolding write_object
create_attachment env hash source attachment a =
    let path =
      attachment_object source (take 7 (env.random_uuid a.next_id))
        (build_attachment_file_name env.sha256 attachment.filename) in
    if env.put_fails path then (a, thrown storage_failed) else (
      record a {
        objects = write_object path attachment.content a.objects;
        attachments =
            a.attachments
            ++ (record {
              id = a.next_id;
              filename = attachment.filename;
              mime_type = attachment.content_type;
              size_bytes = attachment.size;
              content_hash = hash;
              storage_path = path;
              ingestion_source_id = source;
            }
                ∷ []);
        next_id = suc a.next_id;
      },
      ok a.next_id,
    )

unfoldable pub get_or_create_attachment_id :
    Env → Text → Text → EmailAttachment → Archive → Archive × Try ℕ
unfolding create_attachment
get_or_create_attachment_id env hash source attachment a =
    elim (find (is_attachment hash source) a.attachments) [
      | some row ↦ (a, ok row.id)
      | none ↦ create_attachment env hash source attachment a
    ]

-- An insertion into email_attachments with onConflictDoNothing.
unfoldable pub add_link : ℕ → ℕ → Archive → Archive
add_link email attachment a =
    if any (λ link. link.0 == email && link.1 == attachment) a.links
    then a
    else record a { links = a.links ++ ((email, attachment) ∷ []) }

-- One task of the attachment loop; its result says whether it was rejected.
abbrev pub linked : ℕ → Archive × Try ℕ → Archive × Option Failure
linked email (a, ok id) = (add_link email id a, none)
linked email (a, thrown e) = (a, some e)

unfoldable pub store_attachment :
    Env → Text → ℕ → EmailAttachment → Archive → Archive × Option Failure
unfolding get_or_create_attachment_id
store_attachment env source email attachment a =
    linked email
      (get_or_create_attachment_id env (env.sha256 attachment.content) source attachment a)

-- All the tasks, in order, and the first failure among their results.
unfoldable pub store_attachments :
    Env → Text → ℕ → List EmailAttachment → Archive → Archive × Option Failure
unfolding store_attachment
store_attachments env source email [] a = (a, none)
store_attachments env source email (attachment ∷ attachments) a =
    let r = store_attachment env source email attachment a in
    let rest = store_attachments env source email attachments r.0 in
    (rest.0, elim r.1 [ some e ↦ some e | none ↦ rest.1 ])
