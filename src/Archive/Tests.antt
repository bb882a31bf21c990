-- ===== src/Archive/Tests.antt =====
-- Runs of the archiving of an e-mail, and its theorems at concrete archives. The digest of a text is
-- the text here, and nothing is stripped.
use open_archiver.Prelude.{
  true, Bool-cases, inl, inr, ◌≡◌, refl, false, none, some, [], ◌∷◌, ◌++◌, Text, codes, text_eq,
  arith,
}
use open_archiver.Names.{
  bound_message_key, encode_char, email_object_name, build_attachment_file_name,
}
use open_archiver.Address.{to_lower_case, trim_end, trim_start, is_space, normalize_email_address}
use open_archiver.Archive.Model.{
  same_path, EmailAttachment, absent, EmailObject, IngestionSource, email_object, attachment_object,
  Archive, skipped,
}
use open_archiver.Archive.MessageId.{message_id_of_raw_eml}
use open_archiver.Archive.Store.{store_email_or_adopt, add_link, Env, object_at, disambiguated}
use open_archiver.Archive.Process.{object_name, process_email}
use open_archiver.Archive.Objects.{AreKept}
use open_archiver.Archive.Stored.{IsVerified, HasRoom, process_email-IsVerified}
use open_archiver.Archive.Once.{process_email-again}
use open_archiver.Archive.Unique.{IsUnique, process_email-IsUnique}

-- `x:a\r\nMessage-ID: <1@\r\n x> \r\n\r\nMessage-ID: no`
abbrev raw_eml : Text
raw_eml =
    codes "x:a"
    ++ (13 ∷ 10 ∷ codes "Message-ID: <1@")
    ++ (13 ∷ 10 ∷ codes " x> ")
    ++ (13 ∷ 10 ∷ 13 ∷ 10 ∷ codes "Message-ID: no")

folded_test : message_id_of_raw_eml raw_eml ≡ some (codes "<1@ x>")
unfolding message_id_of_raw_eml text_eq trim_end trim_start is_space
folded_test = refl

no_id_test : message_id_of_raw_eml (codes "x: message-id: y") ≡ none
unfolding message_id_of_raw_eml text_eq
no_id_test = refl

abbrev toy : Env
toy = record {
  sha256 = λ t. t;
  put_fails = λ p. false;
  get_fails = λ p. false;
  lower_case = to_lower_case;
  random_uuid = λ n. codes "0123456789";
  mailbox_column = λ t. t;
  strip_attachments = λ t. some t;
}

abbrev mailbox : IngestionSource
mailbox = record {
  id = codes "s";
  merged_into_id = none;
  journaling = false;
  preserve_original_file = false;
  readable = true;
}

abbrev picture : EmailAttachment
picture = record {
  filename = codes "a.png";
  content_type = codes "image/png";
  size = 3;
  content = codes "png";
}

-- A message without a Message-ID, whose id is its number in the mailbox.
abbrev message : Text → EmailObject
message content = record {
  id = codes "1";
  thread_id = none;
  from = [];
  to = [];
  cc = none;
  bcc = none;
  subject = codes "hi";
  message_id = absent;
  attachments = picture ∷ [];
  received_at = 5;
  raw = some content;
  path = none;
  tags = none;
}

abbrev empty : Archive
empty = record {
  sources = mailbox ∷ [];
  objects = [];
  emails = [];
  attachments = [];
  links = [];
  next_id = 0;
}

abbrev old : Archive
old = (process_email toy (message (codes "old")) mailbox (codes " A@x ") empty).0

-- Another message with the number of an archived one is stored under a path of its own.
apart_test :
    (process_email toy (message (codes "new")) mailbox (codes "a@x") old).0.objects
    ≡ (email_object (codes "s") (codes "1.eml"), codes "old")
      ∷ (attachment_object (codes "s") (codes "0123456") (codes "a.png"), codes "png")
      ∷ (email_object (codes "s") (codes "1-new.eml"), codes "new")
      ∷ []
unfolding process_email store_email_or_adopt add_link text_eq bound_message_key encode_char
    same_path email_object_name message_id_of_raw_eml build_attachment_file_name
    normalize_email_address to_lower_case trim_end trim_start is_space
apart_test = refl

again_test : (process_email toy (message (codes "old")) mailbox (codes "a@x") old).1 ≡ skipped
unfolding process_email store_email_or_adopt add_link text_eq bound_message_key encode_char
    same_path email_object_name message_id_of_raw_eml build_attachment_file_name
    normalize_email_address to_lower_case trim_end trim_start is_space
again_test = refl

old-IsVerified : IsVerified toy old
unfolding IsVerified process_email store_email_or_adopt add_link text_eq bound_message_key
    encode_char same_path email_object_name message_id_of_raw_eml build_attachment_file_name
    normalize_email_address to_lower_case trim_end trim_start is_space
old-IsVerified = (record { of_email = refl; bytes = codes "old"; found = refl; hashed = refl }, tt)

-- Nothing stands at a second path in this archive.
nothing_there :
    (source content : Text)
    → object_at
        (email_object source (disambiguated (object_name toy (message (codes "new"))) content))
        old.objects
      ≡ none
unfolding disambiguated object_at process_email store_email_or_adopt add_link text_eq
    bound_message_key encode_char same_path email_object_name message_id_of_raw_eml
    build_attachment_file_name normalize_email_address to_lower_case trim_end trim_start is_space
nothing_there source content = elim (Bool-cases (text_eq (codes "s") source)) [
  | inl e ↦ rw e refl
  | inr e ↦ rw e refl
]

free :
    (source content bytes : Text)
    → object_at
        (email_object source (disambiguated (object_name toy (message (codes "new"))) content))
        old.objects
      ≡ some bytes
    → bytes ≡ content
free source content bytes h = ground (arith, nothing_there source content)

old-HasRoom : HasRoom toy (message (codes "new")) mailbox old
old-HasRoom = record {
  original = λ raw effective r e. record { apart = λ bytes h. free effective.id raw bytes h };
  stripped = λ raw content effective r e s. record {
    apart = λ bytes h. free effective.id content bytes h;
  };
}

process_email-IsVerified_example :
    IsVerified toy (process_email toy (message (codes "new")) mailbox (codes "a@x") old).0
    × AreKept old.objects
        (process_email toy (message (codes "new")) mailbox (codes "a@x") old).0.objects
process_email-IsVerified_example =
    process_email-IsVerified toy (message (codes "new")) mailbox (codes "a@x") old old-IsVerified
      old-HasRoom

process_email-again_example :
    process_email toy
      (message (codes "old"))
      mailbox
      (codes "a@x")
      (process_email toy (message (codes "old")) mailbox (codes "a@x") empty).0
    ≡ ((process_email toy (message (codes "old")) mailbox (codes "a@x") empty).0, skipped)
unfolding process_email store_email_or_adopt add_link text_eq bound_message_key encode_char
    same_path email_object_name message_id_of_raw_eml build_attachment_file_name
    normalize_email_address to_lower_case trim_end trim_start is_space
process_email-again_example =
    process_email-again toy (λ x. refl) (message (codes "old")) mailbox (codes "a@x") empty refl

old-IsUnique : IsUnique toy old.emails
unfolding IsUnique process_email store_email_or_adopt add_link text_eq bound_message_key encode_char
    same_path email_object_name message_id_of_raw_eml build_attachment_file_name
    normalize_email_address to_lower_case trim_end trim_start is_space
old-IsUnique = (refl, tt)

process_email-IsUnique_example :
    IsUnique toy (process_email toy (message (codes "new")) mailbox (codes "a@x") old).0.emails
process_email-IsUnique_example =
    process_email-IsUnique toy (λ x. refl) (message (codes "new")) mailbox (codes "a@x") old
      old-IsUnique
