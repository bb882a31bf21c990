-- ===== src/Archive/Objects.antt =====
-- Stored objects: what a write leaves at each path, and that storing an e-mail replaces none.
use open_archiver.Prelude.{
  ℕ, ◌≡◌, refl, sym, ap, ◌∙◌, subst, ◌↔◌, inl, inr, Bool, true, false, Option, none, some, or_else,
  [], ◌∷◌, Text, length, text_eq_iff, if◌then◌else◌, Bool-cases, Option-cases, arith,
}
use open_archiver.Archive.Model.{
  ObjectPath, email_object, attachment_object, same_path, Objects, storage_failed, Try, ok, thrown,
}
use open_archiver.Archive.MessageId.{message_id_of_raw_eml}
use open_archiver.Archive.Store.{
  coalesce, Env, object_at, write_object, written, exists_already, refused, put_if_absent,
  StoredEmail, disambiguated, same_message, store_apart, adopt_or_apart, store_email_or_adopt,
}

same_path_iff : (p q : ObjectPath) → (same_path p q ≡ true) ↔ (p ≡ q)
unfolding same_path
same_path_iff (email_object s n) (email_object s' n') =
    ground (arith, text_eq_iff s s', text_eq_iff n n')
same_path_iff (email_object s n) (attachment_object s' u' n') = ground arith
same_path_iff (attachment_object s u n) (email_object s' n') = ground arith
same_path_iff (attachment_object s u n) (attachment_object s' u' n') =
    ground (arith, text_eq_iff s s', text_eq_iff u u', text_eq_iff n n')

pub object_at-write_object :
    (q p : ObjectPath) (bytes : Text) (objects : Objects)
    → object_at p (write_object q bytes objects)
      ≡ (if same_path q p then some bytes else object_at p objects)
unfolding object_at write_object
object_at-write_object q p bytes [] = refl
object_at-write_object q p bytes ((r, old) ∷ objects) = ground (
  arith,
  same_path_iff q p,
  same_path_iff r q,
  same_path_iff r p,
  object_at-write_object q p bytes objects,
)

abbrev pub is_email : ObjectPath → Bool
is_email (email_object _ _) = true
is_email (attachment_object _ _ _) = false

-- What is stored for e-mails before is stored after.
pub record AreKept (before after : Objects) : Type 0 where
  pub kept :
      (p : ObjectPath) (bytes : Text)
      → is_email p ≡ true
      → object_at p before ≡ some bytes
      → object_at p after ≡ some bytes

-- An object of an e-mail whose bytes have the digest.
pub record IsStored (env : Env) (objects : Objects) (p : ObjectPath) (hash : Text) : Type 0 where
  pub of_email : is_email p ≡ true
  pub bytes : Text
  pub found : object_at p objects ≡ some bytes
  pub hashed : env.sha256 bytes ≡ hash

pub AreKept-refl : (objects : Objects) → AreKept objects objects
AreKept-refl objects = record { kept = λ p bytes _ h. h }

pub AreKept-trans : {a b c : Objects} → AreKept a b → AreKept b c → AreKept a c
AreKept-trans h k = record { kept = λ p bytes e f. k.kept p bytes e (h.kept p bytes e f) }

pub IsStored-kept :
    {env : Env} {before after : Objects} {p : ObjectPath} {hash : Text}
    → AreKept before after
    → IsStored env before p hash
    → IsStored env after p hash
IsStored-kept k s = record {
  of_email = s.of_email;
  bytes = s.bytes;
  found = k.kept _ s.bytes s.of_email s.found;
  hashed = s.hashed;
}

-- A write where nothing was, and a write of an attachment, keep the e-mails.
write_absent-AreKept :
    (q : ObjectPath) (content : Text) (objects : Objects)
    → object_at q objects ≡ none
    → AreKept objects (write_object q content objects)
write_absent-AreKept q content objects h = record {
  kept = λ p bytes e f.
      object_at-write_object q p content objects
      ∙ ground (arith, same_path_iff q p, ap (λ r. object_at r objects));
}

same_path_refl : (p : ObjectPath) → same_path p p ≡ true
same_path_refl p = (same_path_iff p p).1 refl

no_email :
    (s u n : Text) (p : ObjectPath)
    → is_email p ≡ true
    → same_path (attachment_object s u n) p ≡ false
unfolding same_path
no_email s u n (email_object s' n') h = refl
no_email s u n (attachment_object s' u' n') h = ground arith

pub write_attachment-AreKept :
    (s u n content : Text) (objects : Objects)
    → AreKept objects (write_object (attachment_object s u n) content objects)
write_attachment-AreKept s u n content objects = record {
  kept = λ p bytes e f.
      object_at-write_object (attachment_object s u n) p content objects
      ∙ rw (no_email s u n p e) f;
}

write-IsStored :
    (env : Env) (s n content : Text) (objects : Objects)
    → IsStored env
        (write_object (email_object s n) content objects)
        (email_object s n)
        (env.sha256 content)
write-IsStored env s n content objects = record {
  of_email = refl;
  bytes = content;
  found =
      object_at-write_object (email_object s n) (email_object s n) content objects
      ∙ rw (same_path_refl (email_object s n)) refl;
  hashed = refl;
}

-- Storing an e-mail keeps what is stored, and leaves an object with the digest that it reports.
unfoldable pub IsSafeStore : Env → Objects → Objects × Try StoredEmail → Type 0
IsSafeStore env before (after, ok stored) =
    AreKept before after × IsStored env after stored.storage_path stored.hash
IsSafeStore env before (after, thrown e) = AreKept before after

-- What stands at the second path of a content is that content: its name has the start of the hash.
pub record IsApart (env : Env) (objects : Objects) (source name content : Text) : Type 0 where
  pub apart :
      (bytes : Text)
      → object_at (email_object source (disambiguated name (env.sha256 content))) objects
        ≡ some bytes
      → bytes ≡ content

put_if_absent-IsSafeStore :
    (env : Env) (s n content hash : Text) (size : ℕ) (objects : Objects)
    (taken : Text → Objects × Try StoredEmail)
    → hash ≡ env.sha256 content
    → ((stored : Text)
        → object_at (email_object s n) objects ≡ some stored
        → IsSafeStore env objects (taken stored))
    → IsSafeStore env objects (elim (put_if_absent env (email_object s n) content objects) [
      | written objects' ↦ (
        objects',
        ok (record { storage_path = email_object s n; hash = hash; size_bytes = size }),
      )
      | exists_already stored ↦ taken stored
      | refused ↦ (objects, thrown storage_failed)
    ])
unfolding put_if_absent IsSafeStore
put_if_absent-IsSafeStore env s n content hash size objects taken e h =
    elim (Bool-cases (env.put_fails (email_object s n))) [
      | inl fails ↦ rw fails (AreKept-refl objects)
      | inr works ↦ elim (Option-cases (object_at (email_object s n) objects)) [
        | inl nothing ↦
            rw (works, nothing)
              (
                write_absent-AreKept (email_object s n) content objects nothing,
                subst (IsStored env _ _) (sym e) (write-IsStored env s n content objects),
              )
        | inr (stored, there) ↦ rw (works, there) (h stored there)
      ]
    ]

store_apart-IsSafeStore :
    (env : Env) (s n content : Text) (objects : Objects)
    → IsApart env objects s n content
    → IsSafeStore env objects (store_apart env s n content (env.sha256 content) objects)
unfolding store_apart IsSafeStore
store_apart-IsSafeStore env s n content objects h =
    put_if_absent-IsSafeStore env s (disambiguated n (env.sha256 content)) content
      (env.sha256 content) (length content) objects
      (λ _. (
        objects,
        ok (record {
          storage_path = email_object s (disambiguated n (env.sha256 content));
          hash = env.sha256 content;
          size_bytes = length content;
        }),
      ))
      refl
      (λ stored there. (
        AreKept-refl objects,
        record {
          of_email = refl;
          bytes = stored;
          found = there;
          hashed = ap env.sha256 (h.apart stored there);
        },
      ))

adopt_or_apart-IsSafeStore :
    (env : Env) (s n content stored : Text) (header : Option Text) (objects : Objects)
    → IsApart env objects s n content
    → object_at (email_object s n) objects ≡ some stored
    → IsSafeStore env objects
        (adopt_or_apart env s n content header (env.sha256 content) stored objects)
unfolding adopt_or_apart IsSafeStore
adopt_or_apart-IsSafeStore env s n content stored header objects h there =
    elim (Bool-cases (
      same_message (message_id_of_raw_eml stored)
        (coalesce header (message_id_of_raw_eml content)))) [
          | inl same ↦ rw same (
            AreKept-refl objects,
            record { of_email = refl; bytes = stored; found = there; hashed = refl },
          )
          | inr different ↦ rw different (store_apart-IsSafeStore env s n content objects h)
        ]

pub store_email_or_adopt-IsSafeStore :
    (env : Env) (s n content : Text) (header known : Option Text) (objects : Objects)
    → or_else known (env.sha256 content) ≡ env.sha256 content
    → IsApart env objects s n content
    → IsSafeStore env objects (store_email_or_adopt env s n content header known objects)
unfolding store_email_or_adopt IsSafeStore
store_email_or_adopt-IsSafeStore env s n content header known objects e h =
    put_if_absent-IsSafeStore env s n content (or_else known (env.sha256 content)) (length content)
      objects
      (λ stored.
        if env.get_fails (email_object s n)
        then (objects, thrown storage_failed)
        else adopt_or_apart env s n content header (or_else known (env.sha256 content)) stored
            objects)
      e
      (λ stored there. elim (Bool-cases (env.get_fails (email_object s n))) [
        | inl fails ↦ rw fails (AreKept-refl objects)
        | inr works ↦
            rw (works, e) (adopt_or_apart-IsSafeStore env s n content stored header objects h there)
      ])
