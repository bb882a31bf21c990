-- ===== src/Sync/Source.antt =====
-- packages/backend/src/services/IngestionService.ts: reading, claiming and updating a source.
-- `readable` says whether CryptoService.decryptObject makes an object of stored credentials, and
-- `live` whether the queue still has a job with this id that has not ended (isJobLive).
use open_archiver.Prelude.{
  ℕ, Bool, true, false, not, ◌&&◌, Option, none, some, ◌++◌, Text, codes, text_eq, find,
  update_where, if◌then◌else◌,
}
use open_archiver.Sync.Model.{
  Status, active, error, syncing, importing, auth_success, Source, starting_import, initial_import,
  source_not_found, undecryptable, Act, ◌>>=◌, ◌>>◌, pure, raise, gets, modify, enqueue, or_raise,
  source_is,
}

-- packages/backend/src/jobs/helpers/jobIds.ts
abbrev pub continuous_sync_job_id : Text → Text
continuous_sync_job_id i = codes "continuous-sync:" ++ i

abbrev pub initial_import_job_id : Text → Text
initial_import_job_id i = codes "initial-import:" ++ i

abbrev pub is_cycling : Status → Bool
is_cycling syncing = true
is_cycling importing = true
is_cycling _ = false

abbrev pub is_syncable : Status → Bool
is_syncable active = true
is_syncable error = true
is_syncable _ = false

abbrev pub is_auth_success : Status → Bool
is_auth_success auth_success = true
is_auth_success _ = false

-- The row that an update with a condition on the status matches, and the row after it.
unfoldable pub matching : Text → (Status → Bool) → Source → Bool
matching i ready s = text_eq s.id i && ready s.status

abbrev pub start_sync : ℕ → Source → Source
start_sync now s = record s { status = syncing; last_sync_started_at = some now }

abbrev pub start_import : ℕ → Source → Source
start_import now s = record s {
  status = importing;
  last_sync_started_at = some now;
  last_sync_status_message = some starting_import;
}

abbrev pub not_cycling : Status → Bool
not_cycling status = not (is_cycling status)

module _ (readable : Text → Bool) where
  -- decryptSource
  unfoldable pub decrypt_source : Source → Act Source
  decrypt_source s = if readable s.credentials then pure s else raise undecryptable

  unfoldable pub find_by_id : Text → Act Source
  find_by_id i = do
    found ← gets (λ d. find (source_is i) d.sources)
    s ← or_raise found source_not_found
    decrypt_source s

  -- A claimed row, read back by RETURNING.
  unfoldable pub returning : Option Source → (Source → Source) → Act (Option Source)
  returning none change = pure none
  returning (some s) change = do c ← decrypt_source (change s); pure (some c)

  -- One conditional UPDATE: the claim of a source whose status is ready for it.
  unfoldable pub claim : (Status → Bool) → (ℕ → Source → Source) → Text → Act (Option Source)
  claim ready start i = do
    now ← gets (λ d. d.now)
    taken ← gets (λ d. find (matching i ready) d.sources)
    modify (λ d. record d { sources = update_where (matching i ready) (start now) d.sources })
    returning taken (start now)

  unfoldable pub claim_for_sync : Text → Act (Option Source)
  unfolding claim
  claim_for_sync i = claim is_syncable start_sync i

  unfoldable pub claim_for_import : Text → Act (Option Source)
  unfolding claim
  claim_for_import i = claim not_cycling start_import i

  module _ (live : Text → Bool) where
    -- triggerInitialImport; claimJobId tells whether a run is still queued or in progress.
    unfoldable pub trigger_initial_import : Text → Act (Unit {0})
    trigger_initial_import i = do
      s ← find_by_id i
      if live (initial_import_job_id s.id)
          then pure tt
          else enqueue (initial_import s.id (initial_import_job_id s.id))

    -- update without a providerConfig and without an actor, as the jobs call it.
    unfoldable pub update : Text → (Source → Source) → Act Source
    unfolding trigger_initial_import
    update i change = do
      original ← find_by_id i
      modify (λ d. record d { sources = update_where (source_is i) change d.sources })
      updated ← decrypt_source (change original)
      if not (is_auth_success original.status) && is_auth_success updated.status
          then trigger_initial_import updated.id
          else pure tt
      pure updated
