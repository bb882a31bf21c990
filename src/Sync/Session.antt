-- ===== src/Sync/Session.antt =====
-- packages/backend/src/services/SyncSessionService.ts. The id of a new session is drawn by the
-- database, and is an argument.
use open_archiver.Prelude.{
  ℕ, ◌+◌, ◌-◌, ◌/◌, Bool, false, not, ◌||◌, ◌&&◌, Option, none, some, List, [], ◌∷◌, ◌++◌, Text,
  codes, text_eq, find, filter, any, update_where, delete_where, ltb, leb, if◌then◌else◌,
}
use open_archiver.Sync.Model.{
  error, Source, Session, SyncState, StateValue, Message, interrupted, no_session,
  sync_cycle_finished, session_not_found, Act, ◌>>=◌, ◌>>◌, pure, gets, modify, enqueue, or_raise,
  source_is, session_is,
}
use open_archiver.Sync.StateMerge.{merge_state}
use open_archiver.Sync.Source.{is_cycling, continuous_sync_job_id, initial_import_job_id}

-- What a process-mailbox job reports.
pub data MailboxResult : Type 0 where
  synced : SyncState → MailboxResult
  failed skipped : Text → MailboxResult

pub record MailboxOutcome : Type 0 where
  pub is_last : Bool
  pub total_completed : ℕ
  pub total_failed : ℕ
  pub error_messages : List Text

unfoldable pub create : Text → Text → ℕ → Bool → Act Text
create drawn source_id total initial = do
  modify (λ d. record d {
    sessions =
        d.sessions
        ++ record {
          id = drawn;
          ingestion_source_id = source_id;
          is_initial_import = initial;
          total_mailboxes = total;
          completed_mailboxes = 0;
          failed_mailboxes = 0;
          error_messages = [];
          last_activity_at = d.now;
        }
          ∷ [];
  })
  pure drawn

-- The counters after a result; a skip counts as completed and leaves its note.
unfoldable pub record_result : MailboxResult → ℕ → Session → Session
record_result (synced state) now s = record s {
  completed_mailboxes = s.completed_mailboxes + 1;
  last_activity_at = now;
}
record_result (failed note) now s = record s {
  failed_mailboxes = s.failed_mailboxes + 1;
  error_messages = s.error_messages ++ note ∷ [];
  last_activity_at = now;
}
record_result (skipped note) now s = record s {
  completed_mailboxes = s.completed_mailboxes + 1;
  error_messages = s.error_messages ++ note ∷ [];
  last_activity_at = now;
}

abbrev pub processed : Session → ℕ
processed s = s.completed_mailboxes + s.failed_mailboxes

unfoldable pub outcome_of : Session → MailboxOutcome
outcome_of s = record {
  is_last = leb s.total_mailboxes (processed s);
  total_completed = s.completed_mailboxes;
  total_failed = s.failed_mailboxes;
  error_messages = s.error_messages;
}

unfoldable pub find_session : Text → Act Session
find_session i = do
  found ← gets (λ d. find (session_is i) d.sessions)
  or_raise found session_not_found

unfoldable pub heartbeat : Text → Act (Unit {0})
heartbeat i = modify (λ d. record d {
  sessions = update_where (session_is i) (λ s. record s { last_activity_at = d.now }) d.sessions;
})

unfoldable pub finalize : Text → Act (Unit {0})
finalize i = modify (λ d. record d { sessions = delete_where (session_is i) d.sessions })

module _ (mixed : Text → List (Text × Text) → StateValue) where
  -- Only a result with content touches the source's sync state.
  unfoldable pub merge_result : MailboxResult → Text → Act (Unit {0})
  merge_result (synced []) source_id = pure tt
  merge_result (synced (entry ∷ state)) source_id = modify (λ d. record d {
    sources =
        update_where (source_is source_id)
          (λ s. record s { sync_state = some (merge_state mixed s.sync_state (entry ∷ state)) })
          d.sources;
  })
  merge_result (failed note) source_id = pure tt
  merge_result (skipped note) source_id = pure tt

  unfoldable pub record_mailbox_result : Text → MailboxResult → Act MailboxOutcome
  record_mailbox_result session_id result = do
    now ← gets (λ d. d.now)
    found ← gets (λ d. find (session_is session_id) d.sessions)
    modify (λ d. record d {
      sessions = update_where (session_is session_id) (record_result result now) d.sessions;
    })
    session ← or_raise found session_not_found
    merge_result result session.ingestion_source_id
    pure (outcome_of (record_result result now session))

abbrev pub finished_job_id : Text → Text
finished_job_id i = codes "sync-cycle-finished:" ++ i

-- Math.round of the minutes since the last activity
abbrev pub inactive_minutes : ℕ → Session → ℕ
inactive_minutes now s = (now - s.last_activity_at + 30000) / 60000

abbrev pub set_error : ℕ → Message → Source → Source
set_error now message s = record s {
  status = error;
  last_sync_finished_at = some now;
  last_sync_status_message = some message;
}

-- One round of cleanStaleSessions.
unfoldable pub clean_session : Session → Act (Unit {0})
clean_session s =
    if leb s.total_mailboxes (processed s)
    then enqueue
        (sync_cycle_finished s.ingestion_source_id s.id s.is_initial_import (finished_job_id s.id))
    else modify (λ d. record d {
      sources =
          update_where (source_is s.ingestion_source_id)
            (set_error d.now
              (interrupted (inactive_minutes d.now s) s.completed_mailboxes s.total_mailboxes))
            d.sources;
      sessions = delete_where (session_is s.id) d.sessions;
    })

unfoldable pub clean_each : List Session → Act (Unit {0})
clean_each [] = pure tt
clean_each (s ∷ ss) = do clean_session s; clean_each ss

-- `lastSyncStartedAt < cutoff`; a null is not below it.
abbrev pub started_before : ℕ → Option ℕ → Bool
started_before cutoff none = false
started_before cutoff (some t) = ltb t cutoff

abbrev pub has_session : List Session → Source → Bool
has_session sessions s = any (λ e. text_eq e.ingestion_source_id s.id) sessions

-- The condition of the query of releaseSessionlessSources.
unfoldable pub is_abandoned : ℕ → List Session → Source → Bool
is_abandoned cutoff sessions s =
    is_cycling s.status
    && (started_before cutoff s.last_sync_started_at && not (has_session sessions s))

module _ (live : Text → Bool) where
  unfoldable pub release_source : Source → Act (Unit {0})
  release_source s =
      if live (initial_import_job_id s.id) || live (continuous_sync_job_id s.id)
      then pure tt
      else modify (λ d. record d {
        sources = update_where (source_is s.id) (set_error d.now no_session) d.sources;
      })

  unfoldable pub release_each : List Source → Act (Unit {0})
  release_each [] = pure tt
  release_each (s ∷ ss) = do release_source s; release_each ss

  unfoldable pub release_sessionless_sources : ℕ → Act (Unit {0})
  unfolding release_each
  release_sessionless_sources threshold = do
    candidates ← gets (λ d. filter (is_abandoned (d.now - threshold) d.sessions) d.sources)
    release_each candidates

  unfoldable pub clean_stale_sessions : ℕ → Act (Unit {0})
  unfolding clean_each
  clean_stale_sessions threshold = do
    stale ← gets (λ d. filter (λ s. ltb s.last_activity_at (d.now - threshold)) d.sessions)
    clean_each stale
    release_sessionless_sources threshold
