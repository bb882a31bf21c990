-- ===== src/Sync/Model.antt =====
-- The columns of ingestion_sources and sync_sessions (packages/backend/src/database/schema) that a
-- cycle reads or writes, and actions on them that may throw. A throw keeps what was written before
-- it.
use open_archiver.Prelude.{
  ℕ, Bool, true, false, Option, none, some, List, [], ◌∷◌, ◌++◌, Text, text_eq,
}

pub data Status : Type 0 where
  active paused error pending_auth syncing importing auth_success imported partially_active : Status

pub Status-discrete : Discrete Status
Status-discrete = hlevel

pub data Provider : Type 0 where
  google_workspace microsoft_365 generic_imap pst_import eml_import mbox_import smtp_journaling
        oauth_mailbox :
      Provider

-- Sync state: a provider's map from mailboxes to tokens, or a plain value, under each key.
pub data StateValue : Type 0 where
  bucket : List (Text × Text) → StateValue
  plain : Text → StateValue

abbrev pub SyncState : Type 0
SyncState = List (Text × StateValue)

-- What lastSyncStatusMessage says, with what it is filled in with.
pub data Message : Type 0 where
  interrupted : ℕ → ℕ → ℕ → Message
  no_session starting_import finalizing_failed no_users_initial no_users_continuous : Message
  cycle_errors : ℕ → List Text → Message
  import_finished : ℕ → List Text → Message
  sync_finished : List Text → Message
  failed_with import_failed : Text → Message

pub record Source : Type 0 where
  pub id : Text
  pub provider : Provider
  pub credentials : Text
  pub status : Status
  pub last_sync_started_at : Option ℕ
  pub last_sync_finished_at : Option ℕ
  pub last_sync_status_message : Option Message
  pub sync_state : Option SyncState

pub record Session : Type 0 where
  pub id : Text
  pub ingestion_source_id : Text
  pub is_initial_import : Bool
  pub total_mailboxes : ℕ
  pub completed_mailboxes : ℕ
  pub failed_mailboxes : ℕ
  pub error_messages : List Text
  pub last_activity_at : ℕ

-- What is handed to the queue, with the job id where one is given.
pub data Request : Type 0 where
  sync_cycle_finished : Text → Text → Bool → Text → Request
  continuous_sync initial_import backfill_provider_ids : Text → Text → Request
  process_mailbox : Text → Text → Text → Request

pub record Db : Type 0 where
  pub sources : List Source
  pub sessions : List Session
  pub requests : List Request
  pub now : ℕ

pub data Failure : Type 0 where
  session_not_found source_not_found undecryptable : Failure
  thrown : Text → Failure

pub data Outcome (A : Type 0) : Type 0 where
  done : A → Outcome A
  threw : Failure → Outcome A

abbrev pub Act : Type 0 → Type 0
Act A = Db → Db × Outcome A

abbrev pub go_on : {A B : Type 0} → Db → Outcome A → (A → Act B) → Db × Outcome B
go_on d (done a) f = f a d
go_on d (threw e) f = (d, threw e)

infixl 5 ◌>>=◌ ◌>>◌
abbrev pub ◌>>=◌ : {A B : Type 0} → Act A → (A → Act B) → Act B
◌>>=◌ m f d = go_on (m d).0 (m d).1 f

abbrev pub ◌>>◌ : {A B : Type 0} → Act A → Act B → Act B
m >> k = m >>= λ _. k

abbrev pub handle : {A : Type 0} → Db → Outcome A → (Failure → Act A) → Db × Outcome A
handle d (done a) h = (d, done a)
handle d (threw e) h = h e d

-- `try { m } catch (e) { h(e) }`
abbrev pub try_catch : {A : Type 0} → Act A → (Failure → Act A) → Act A
try_catch m h d = handle (m d).0 (m d).1 h

abbrev pub pure : {A : Type 0} → A → Act A
pure a d = (d, done a)

abbrev pub raise : {A : Type 0} → Failure → Act A
raise e d = (d, threw e)

abbrev pub gets : {A : Type 0} → (Db → A) → Act A
gets f d = (d, done (f d))

abbrev pub modify : (Db → Db) → Act (Unit {0})
modify f d = (f d, done tt)

-- `ingestionQueue.add`: what the queue then does with it is not modelled.
abbrev pub enqueue : Request → Act (Unit {0})
enqueue r = modify (λ d. record d { requests = d.requests ++ r ∷ [] })

abbrev pub or_raise : {A : Type 0} → Option A → Failure → Act A
or_raise none e = raise e
or_raise (some a) e = pure a

abbrev pub source_is : Text → Source → Bool
source_is i s = text_eq s.id i

abbrev pub session_is : Text → Session → Bool
session_is i s = text_eq s.id i

abbrev pub is_file_based : Provider → Bool
is_file_based pst_import = true
is_file_based eml_import = true
is_file_based mbox_import = true
is_file_based _ = false
