-- ===== src/Sync/Cycle.antt =====
-- The jobs of a synchronisation cycle, packages/backend/src/jobs/processors: initial-import,
-- continuous-sync, sync-cycle-finished and schedule-continuous-sync. What the provider's
-- connector does is the parameter `list_users`: it throws, or gives the users' addresses.
use open_archiver.Prelude.{
  ℕ, Bool, true, false, not, ◌&&◌, Option, none, some, List, [], ◌∷◌, ◌++◌, map, Text, codes,
  filter, length, ltb, if◌then◌else◌, lookup,
}
use open_archiver.Sync.Model.{
  Status, active, paused, error, imported, Provider, microsoft_365, smtp_journaling, is_file_based,
  Source, Session, SyncState, Message, finalizing_failed, no_users_initial, no_users_continuous,
  cycle_errors, import_finished, sync_finished, failed_with, import_failed, Request,
  continuous_sync, backfill_provider_ids, process_mailbox, Failure, thrown, Outcome, Act, try_catch,
  ◌>>=◌, ◌>>◌, pure, raise, gets, modify, enqueue,
}
use open_archiver.Address.{normalize_email_address}
use open_archiver.Sync.Source.{
  claim_for_sync, claim_for_import, find_by_id, update, is_syncable, continuous_sync_job_id,
}
use open_archiver.Sync.Session.{create, find_session, finalize, clean_stale_sessions}

-- The text of an error, as `error.message` gives it.
abbrev pub text_of : Failure → Text
text_of (thrown t) = t
text_of _ = codes "error"

abbrev pub is_paused : Status → Bool
is_paused paused = true
is_paused _ = false

abbrev pub is_microsoft : Provider → Bool
is_microsoft microsoft_365 = true
is_microsoft _ = false

abbrev pub is_journaling : Provider → Bool
is_journaling smtp_journaling = true
is_journaling _ = false

-- The status and message of a finished cycle.
unfoldable pub finished_status : Provider → Session → Status
finished_status provider s =
    if ltb 0 s.failed_mailboxes then error else if is_file_based provider then imported else active

unfoldable pub finished_message : Bool → Session → Message
finished_message initial s =
    if ltb 0 s.failed_mailboxes
    then cycle_errors s.failed_mailboxes s.error_messages
    else if initial
    then import_finished s.completed_mailboxes s.error_messages
    else sync_finished s.error_messages

abbrev pub settle : ℕ → Status → Message → Source → Source
settle now status message s = record s {
  status = status;
  last_sync_finished_at = some now;
  last_sync_status_message = some message;
}

abbrev pub mailbox_request : Text → Text → Text → Request
mailbox_request source_id session_id email = process_mailbox source_id email session_id

-- enqueueMailboxJobs; the pages in which the requests are added are not told apart.
unfoldable pub enqueue_mailbox_jobs : Text → List Text → Text → Act (Unit {0})
enqueue_mailbox_jobs source_id emails session_id =
    modify
      (λ d. record d { requests = d.requests ++ map (mailbox_request source_id session_id) emails })

abbrev pub backfilled : Option SyncState → Bool
backfilled none = false
backfilled (some state) = elim (lookup (codes "providerIdBackfillCompletedAt") state) [
  | none ↦ false
  | some v ↦ true
]

unfoldable pub collect_emails : (Text → Text) → List Text → List Text
collect_emails lower_case [] = []
collect_emails lower_case ([] ∷ users) = collect_emails lower_case users
collect_emails lower_case ((c ∷ email) ∷ users) =
    normalize_email_address lower_case (c ∷ email) ∷ collect_emails lower_case users

module _ (readable : Text → Bool) (live : Text → Bool) where
  -- The try block of sync-cycle-finished.
  unfoldable pub finish : Text → Text → Bool → Act (Unit {0})
  finish source_id session_id initial = do
    session ← find_session session_id
    source ← find_by_id readable source_id
    now ← gets (λ d. d.now)
    update readable live source_id (
        settle now
          (if is_paused source.status then paused else finished_status source.provider session)
          (finished_message initial session))
    finalize session_id

  unfoldable pub finish_failed : Text → Text → Failure → Act (Unit {0})
  finish_failed source_id session_id e = do
    now ← gets (λ d. d.now)
    update readable live source_id (settle now error finalizing_failed)
    finalize session_id

  unfoldable pub sync_cycle_finished_job : Text → Text → Bool → Act (Unit {0})
  sync_cycle_finished_job source_id session_id initial =
      try_catch (finish source_id session_id initial) (finish_failed source_id session_id)

  module _ (list_users : Source → Outcome (List Text)) (lower_case : Text → Text)
      (drawn : Text) where
    -- Phase 1: the addresses of the users that have one, normalized.
    unfoldable pub users_of : Source → Act (List Text)
    unfolding collect_emails
    users_of s = do users ← (λ d. (d, list_users s)); pure (collect_emails lower_case users)

    -- The rest of initial-import once the users are known.
    unfoldable pub start_import_session : Text → Source → List Text → Act (Unit {0})
    start_import_session i source [] = do
      now ← gets (λ d. d.now)
      update readable live i
          (settle now (if is_file_based source.provider then imported else active) no_users_initial)
      pure tt
    start_import_session i source (email ∷ emails) = do
      session_id ← create drawn i (length (email ∷ emails)) true
      enqueue_mailbox_jobs i (email ∷ emails) session_id

    unfoldable pub import_claimed : Text → Option Source → Act (Unit {0})
    unfolding start_import_session
    import_claimed i none = pure tt
    import_claimed i (some source) = do
      emails ← users_of source
      start_import_session i source emails

    unfoldable pub import_failure : Text → Failure → Act (Unit {0})
    import_failure i e = do
      update readable live i (λ s. record s {
        status = error;
        last_sync_status_message = some (import_failed (text_of e));
      })
      raise e

    unfoldable pub initial_import_job : Text → Act (Unit {0})
    initial_import_job i =
        try_catch (do source ← claim_for_import readable i; import_claimed i source)
          (import_failure i)

    unfoldable pub start_sync_session : Text → Source → List Text → Act (Unit {0})
    start_sync_session i source [] = do
      now ← gets (λ d. d.now)
      update readable live i (settle now active no_users_continuous)
      pure tt
    start_sync_session i source (email ∷ emails) = do
      session_id ← create drawn i (length (email ∷ emails)) false
      enqueue_mailbox_jobs source.id (email ∷ emails) session_id

    -- The try block of continuous-sync, on the claimed source.
    unfoldable pub sync_source : Text → Source → Act (Unit {0})
    unfolding start_sync_session
    sync_source i source = do
      if is_microsoft source.provider && not (backfilled source.sync_state)
          then enqueue (backfill_provider_ids i (codes "backfill-provider-ids-" ++ i))
          else pure tt
      emails ← users_of source
      start_sync_session i source emails

    unfoldable pub sync_failure : Text → Failure → Act (Unit {0})
    sync_failure i e = do
      now ← gets (λ d. d.now)
      update readable live i (settle now error (failed_with (text_of e)))
      raise e

    unfoldable pub sync_claimed : Text → Option Source → Act (Unit {0})
    sync_claimed i none = pure tt
    sync_claimed i (some source) = try_catch (sync_source i source) (sync_failure i)

    unfoldable pub continuous_sync_job : Text → Act (Unit {0})
    continuous_sync_job i = do source ← claim_for_sync readable i; sync_claimed i source

  -- The condition of the scheduler's query, and the request for a source.
  unfoldable pub is_due : Source → Bool
  is_due s = is_syncable s.status && not (is_journaling s.provider)

  abbrev pub sync_request : Source → Request
  sync_request s = continuous_sync s.id (continuous_sync_job_id s.id)

  -- One tick, with the default threshold of thirty minutes.
  unfoldable pub scheduler_tick : Act (Unit {0})
  scheduler_tick = do
    try_catch (clean_stale_sessions live 1800000) (λ e. pure tt)
    modify (λ d. record d { requests = d.requests ++ map sync_request (filter is_due d.sources) })
