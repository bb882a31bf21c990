-- ===== src/Archive/Stored.antt =====
-- processEmail keeps the archive verifiable: the object of each row has the hash of the row.
use open_archiver.Prelude.{
  ℕ, ◌≡◌, refl, subst, inl, inr, Bool, true, ◌&&◌, Option, none, some, or_else, List, [], ◌∷◌, Text,
  length, take, ◌==◌, find, find-All, any, text_eq, text_eq_iff, Bool-cases, Option-cases, All,
  All-append, arith,
}
use open_archiver.Address.{normalize_email_address}
use open_archiver.Names.{build_attachment_file_name}
use open_archiver.Archive.Model.{
  attachment_object, Objects, EmailObject, EmailAttachment, IngestionSource, ArchivedEmail, Archive,
  Try, ok, thrown, Outcome, archived, skipped, failed,
}
use open_archiver.Archive.MessageId.{message_id_header_of}
use open_archiver.Archive.Store.{
  Env, StoredEmail, is_attachment, create_attachment, get_or_create_attachment_id, add_link, linked,
  store_attachment, store_attachments, store_email_or_adopt,
}
use open_archiver.Archive.Process.{
  find_group_source_ids, effective_source, message_key, in_gate, has_hash, new_row, insert_row,
  add_reference, add_stored, object_name, store_in, add_attachments, then_attachments, pass_gates,
  process_email,
}
use open_archiver.Archive.Cases.{process_email-elim, pass_gates-elim, archive_new-elim}
use open_archiver.Archive.Objects.{
  AreKept, AreKept-refl, AreKept-trans, IsStored, IsStored-kept, IsApart, IsSafeStore,
  store_email_or_adopt-IsSafeStore, write_attachment-AreKept,
}

module _ (env : Env) where
  -- Every row of archived_emails names an object whose bytes have the hash of the row.
  unfoldable pub IsVerified : Archive → Type 0
  IsVerified a = All (λ row. IsStored env a.objects row.storage_path row.storage_hash) a.emails

  rows-kept :
      {before after : Objects} (rows : List ArchivedEmail)
      → AreKept before after
      → All (λ row. IsStored env before row.storage_path row.storage_hash) rows
      → All (λ row. IsStored env after row.storage_path row.storage_hash) rows
  rows-kept [] k h = tt
  rows-kept (row ∷ rows) k (h, hs) = (IsStored-kept k h, rows-kept rows k hs)

  -- A step on the archive leaves it verified, with the objects of e-mails that there were.
  record IsSafe (before after : Archive) : Type 0 where
    verified : IsVerified after
    objects_kept : AreKept before.objects after.objects

  insert-IsSafe :
      (a : Archive) (row : ArchivedEmail)
      → IsVerified a
      → IsStored env a.objects row.storage_path row.storage_hash
      → IsSafe a (insert_row env row a)
  unfolding insert_row IsVerified
  insert-IsSafe a row h s = record {
    verified =
        All-append (λ r. IsStored env a.objects r.storage_path r.storage_hash) a.emails (row ∷ []) h
          (s, tt);
    objects_kept = AreKept-refl a.objects;
  }

  -- A result whose archive is safe, whatever it says.
  IsSafeResult : Archive → Archive × Outcome → Type 0
  IsSafeResult before r = IsSafe before r.0

  unchanged-IsSafe : (a : Archive) → IsVerified a → IsSafe a a
  unchanged-IsSafe a h = record { verified = h; objects_kept = AreKept-refl a.objects }

  IsSafe-trans : {a b c : Archive} → IsSafe a b → IsSafe b c → IsSafe a c
  IsSafe-trans s t = record {
    verified = t.verified;
    objects_kept = AreKept-trans s.objects_kept t.objects_kept;
  }

  create_attachment-IsSafe :
      (hash source : Text) (attachment : EmailAttachment) (a : Archive)
      → IsVerified a
      → IsSafe a (create_attachment env hash source attachment a).0
  unfolding create_attachment IsVerified
  create_attachment-IsSafe hash source attachment a h =
      elim (Bool-cases (
        env.put_fails (
          attachment_object source (take 7 (env.random_uuid a.next_id))
            (build_attachment_file_name env.sha256 attachment.filename)))) [
              | inl fails ↦ rw fails (unchanged-IsSafe a h)
              | inr works ↦
                  let k =
                    write_attachment-AreKept source (take 7 (env.random_uuid a.next_id))
                      (build_attachment_file_name env.sha256 attachment.filename) attachment.content
                      a.objects in
                  rw works (record { verified = rows-kept a.emails k h; objects_kept = k })
            ]

  get_or_create-IsSafe :
      (hash source : Text) (attachment : EmailAttachment) (a : Archive)
      → IsVerified a
      → IsSafe a (get_or_create_attachment_id env hash source attachment a).0
  unfolding get_or_create_attachment_id
  get_or_create-IsSafe hash source attachment a h =
      elim (Option-cases (find (is_attachment hash source) a.attachments)) [
        | inl nothing ↦
            rw (nothing, get_or_create_attachment_id)
              (create_attachment-IsSafe hash source attachment a h)
        | inr (row, there) ↦ rw (there, get_or_create_attachment_id) (unchanged-IsSafe a h)
      ]

  add_link-IsSafe :
      (email attachment : ℕ) (a : Archive) → IsVerified a → IsSafe a (add_link email attachment a)
  unfolding add_link IsVerified
  add_link-IsSafe email attachment a h =
      elim (Bool-cases (any (λ link. link.0 == email && link.1 == attachment) a.links)) [
        | inl there ↦ rw there (unchanged-IsSafe a h)
        | inr new ↦ rw new (record { verified = h; objects_kept = AreKept-refl a.objects })
      ]

  linked-IsSafe :
      (before : Archive) (email : ℕ) (r : Archive × Try ℕ)
      → IsSafe before r.0
      → IsSafe before (linked email r).0
  linked-IsSafe before email (a, ok id) h = IsSafe-trans h (add_link-IsSafe email id a h.verified)
  linked-IsSafe before email (a, thrown e) h = h

  store_attachment-IsSafe :
      (source : Text) (email : ℕ) (attachment : EmailAttachment) (a : Archive)
      → IsVerified a
      → IsSafe a (store_attachment env source email attachment a).0
  unfolding store_attachment
  store_attachment-IsSafe source email attachment a h =
      linked-IsSafe a email
        (get_or_create_attachment_id env (env.sha256 attachment.content) source attachment a)
        (get_or_create-IsSafe (env.sha256 attachment.content) source attachment a h)

  store_attachments-IsSafe :
      (source : Text) (email : ℕ) (attachments : List EmailAttachment) (a : Archive)
      → IsVerified a
      → IsSafe a (store_attachments env source email attachments a).0
  unfolding store_attachments
  store_attachments-IsSafe source email [] a h = unchanged-IsSafe a h
  store_attachments-IsSafe source email (attachment ∷ attachments) a h =
      let s = store_attachment-IsSafe source email attachment a h in
      IsSafe-trans s (
        store_attachments-IsSafe source email attachments
          (store_attachment env source email attachment a).0 s.verified)

  then_attachments-IsSafe :
      (email : EmailObject) (effective : IngestionSource) (before : Archive) (r : Archive × Outcome)
      → IsSafe before r.0
      → IsSafe before (then_attachments env email effective r).0
  unfolding add_attachments
  then_attachments-IsSafe email effective before (a, archived id) h =
      IsSafe-trans h (store_attachments-IsSafe effective.id id email.attachments a h.verified)
  then_attachments-IsSafe email effective before (a, skipped) h = h
  then_attachments-IsSafe email effective before (a, failed e) h = h

  added-IsSafe :
      (email : EmailObject) (source effective : IngestionSource) (user_email key : Text)
      (a : Archive) (r : Objects × Try StoredEmail)
      → IsVerified a
      → IsSafeStore env a.objects r
      → IsSafe a
          (add_stored env email source effective user_email key (record a { objects = r.0 }) r.1).0
  unfolding add_stored insert_row new_row IsSafeStore IsVerified
  added-IsSafe email source effective user_email key a (objects, ok stored) h (k, s) = record {
    verified =
        All-append (λ r. IsStored env objects r.storage_path r.storage_hash) a.emails (_ ∷ [])
          (rows-kept a.emails k h) (s, tt);
    objects_kept = k;
  }
  added-IsSafe email source effective user_email key a (objects, thrown e) h k = record {
    verified = rows-kept a.emails k h;
    objects_kept = k;
  }

  -- Storing, then inserting the row.
  store_in-IsSafe :
      (email : EmailObject) (source effective : IngestionSource) (user_email key content : Text)
      (known : Option Text) (a : Archive)
      → IsVerified a
      → or_else known (env.sha256 content) ≡ env.sha256 content
      → IsApart env a.objects effective.id (object_name env email) content
      → IsSafe a
          (add_stored env email source effective user_email key
            (store_in env effective email content known a).0
            (store_in env effective email content known a).1).0
  unfolding store_in
  store_in-IsSafe email source effective user_email key content known a h e room =
      added-IsSafe email source effective user_email key a
        (store_email_or_adopt env effective.id (object_name env email) content
          (message_id_header_of email.message_id) known a.objects)
        h
        (store_email_or_adopt-IsSafeStore env effective.id (object_name env email) content
          (message_id_header_of email.message_id) known a.objects e room)

  same_hash : (x y : Text) (b : Bool) → (text_eq x y && b) ≡ true → x ≡ y
  same_hash x y b h = ground (arith, text_eq_iff x y)

  add_reference-IsSafe :
      (email : EmailObject) (source effective : IngestionSource) (user_email key : Text)
      (existing : ArchivedEmail) (a : Archive)
      → IsVerified a
      → IsStored env a.objects existing.storage_path existing.storage_hash
      → IsSafe a (add_reference env email source effective user_email key existing a).0
  unfolding add_reference IsVerified insert_row new_row
  add_reference-IsSafe email source effective user_email key existing a h s =
      elim (Bool-cases existing.has_attachments) [
        | inl some_links ↦
            rw (some_links, add_reference)
              (record {
                verified =
                    All-append (λ r. IsStored env a.objects r.storage_path r.storage_hash) a.emails
                      (_ ∷ []) h (s, tt);
                objects_kept = AreKept-refl a.objects;
              })
        | inr no_links ↦
            rw (no_links, add_reference)
              (record {
                verified =
                    All-append (λ r. IsStored env a.objects r.storage_path r.storage_hash) a.emails
                      (_ ∷ []) h (s, tt);
                objects_kept = AreKept-refl a.objects;
              })
      ]

  -- The second paths of what an e-mail may be stored as are free, or hold it.
  pub record HasRoom (email : EmailObject) (source : IngestionSource) (a : Archive) : Type 0 where
    pub original :
        (raw : Text) (effective : IngestionSource)
        → email.raw ≡ some raw
        → effective_source source a.sources ≡ ok effective
        → IsApart env a.objects effective.id (object_name env email) raw
    pub stripped :
        (raw content : Text) (effective : IngestionSource)
        → email.raw ≡ some raw
        → effective_source source a.sources ≡ ok effective
        → env.strip_attachments raw ≡ some content
        → IsApart env a.objects effective.id (object_name env email) content

  shared-IsSafe :
      (email : EmailObject) (source effective : IngestionSource) (user_email key raw : Text)
      (row : ArchivedEmail) (a : Archive)
      → IsVerified a
      → find (has_hash env effective.id (env.sha256 raw)) a.emails ≡ some row
      → IsSafe a
          (add_stored env email source effective user_email key a (
            ok (record {
              storage_path = row.storage_path;
              hash = env.sha256 raw;
              size_bytes = length raw;
            }))).0
  unfolding IsVerified IsSafeStore
  shared-IsSafe email source effective user_email key raw row a h there =
      let found =
        find-All (λ r. IsStored env a.objects r.storage_path r.storage_hash)
          (has_hash env effective.id (env.sha256 raw)) a.emails row there h in
      added-IsSafe email source effective user_email key a
        (
          a.objects,
          ok (record {
            storage_path = row.storage_path;
            hash = env.sha256 raw;
            size_bytes = length raw;
          }),
        )
        h
        (
          AreKept-refl a.objects,
          subst (IsStored env a.objects row.storage_path)
              (same_hash row.storage_hash (env.sha256 raw)
                (text_eq row.ingestion_source_id effective.id) found.0)
              found.1,
        )

  pass_gates-IsSafe :
      (email : EmailObject) (source effective : IngestionSource) (user_email key raw : Text)
      (a : Archive)
      → IsVerified a
      → HasRoom email source a
      → email.raw ≡ some raw
      → effective_source source a.sources ≡ ok effective
      → IsSafe a (pass_gates env email source effective user_email key raw a).0
  unfolding IsVerified
  pass_gates-IsSafe email source effective user_email key raw a h room r e =
      pass_gates-elim (λ x. IsSafe a x.0) env email source a effective user_email key raw
        (λ _. unchanged-IsSafe a h)
        (λ _ existing there.
          add_reference-IsSafe email source effective user_email key existing a h
            (find-All (λ r. IsStored env a.objects r.storage_path r.storage_hash)
              (in_gate env (find_group_source_ids source a.sources) key) a.emails existing there
              h).1)
        (λ _.
          archive_new-elim (λ x. IsSafe a x.0) env email source a effective user_email key raw
            (unchanged-IsSafe a h) (λ _. unchanged-IsSafe a h)
            (λ row there. shared-IsSafe email source effective user_email key raw row a h there)
            (store_in-IsSafe email source effective user_email key raw (some (env.sha256 raw)) a h
              refl (room.original raw effective r e))
            (λ content s. then_attachments-IsSafe email effective a _ (
              store_in-IsSafe email source effective user_email key content none a h refl
                (room.stripped raw content effective r e s))))

-- Where every row names an object whose bytes have the hash of the row, processEmail leaves it so,
-- whatever it returns, and no object of an e-mail is replaced or lost; provided that an object at
-- the path with a hash in its name, of what this e-mail is stored as, is that very content.
pub process_email-IsVerified :
    (env : Env) (email : EmailObject) (source : IngestionSource) (user_email : Text) (a : Archive)
    → IsVerified env a
    → HasRoom env email source a
    → IsVerified env (process_email env email source user_email a).0
      × AreKept a.objects (process_email env email source user_email a).0.objects
process_email-IsVerified env email source user_email a h room =
    let safe =
      process_email-elim (λ r. IsSafe env a r.0) env email source a user_email
        (λ _. unchanged-IsSafe env a h)
        (λ raw effective r e.
          pass_gates-IsSafe env email source effective
            (normalize_email_address env.lower_case user_email) (message_key env email source raw)
            raw a h room r e) in
    (safe.verified, safe.objects_kept)
