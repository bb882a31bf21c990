-- ===== src/Sync/Finish.antt =====
-- packages/backend/src/jobs/processors/sync-cycle-finished.processor.ts: how a cycle ends.
use open_archiver.Prelude.{
  subst, ltb, ◌≡◌, refl, inl, inr, Bool, true, false, some, Text, arith, find, update_where,
  delete_where, Option-cases, if◌then◌else◌,
}
use open_archiver.Sync.Model.{
  is_file_based, imported, active, Status, paused, error, Source, Session, Db, done, threw,
  source_is, session_is, undecryptable, finalizing_failed,
}
use open_archiver.Sync.Source.{decrypt_source, find_by_id, update, is_auth_success}
use open_archiver.Sync.Session.{find_session, finalize}
use open_archiver.Sync.Cycle.{
  finished_status, finished_message, settle, is_paused, finish, finish_failed,
  sync_cycle_finished_job,
}

module _ (readable : Text → Bool) (i : Text) (d : Db) (s : Source)
    (found : find (source_is i) d.sources ≡ some s) where
  find_by_id-readable : readable s.credentials ≡ true → find_by_id readable i d ≡ (d, done s)
  unfolding find_by_id decrypt_source
  find_by_id-readable r = ground arith

  find_by_id-damaged :
      readable s.credentials ≡ false → find_by_id readable i d ≡ (d, threw undecryptable)
  unfolding find_by_id decrypt_source
  find_by_id-damaged r = ground arith

  update-settles :
      (live : Text → Bool) (change : Source → Source)
      → readable s.credentials ≡ true
      → (change s).credentials ≡ s.credentials
      → is_auth_success (change s).status ≡ false
      → update readable live i change d
        ≡ (record d { sources = update_where (source_is i) change d.sources }, done (change s))
  unfolding update decrypt_source
  update-settles live change r same a =
      let got = find_by_id-readable r in
      let kept : readable (change s).credentials ≡ true = rw same r in ground (arith, got, kept, a)

  update-damaged :
      (live : Text → Bool) (change : Source → Source)
      → readable s.credentials ≡ false
      → update readable live i change d ≡ (d, threw undecryptable)
  unfolding update
  update-damaged live change r = let got = find_by_id-damaged r in ground (arith, got)

-- The database after a cycle of this session has ended, with the source's new row.
abbrev pub ended : Text → Text → (Source → Source) → Db → Db
ended i session_id change d = record d {
  sources = update_where (source_is i) change d.sources;
  sessions = delete_where (session_is session_id) d.sessions;
}

-- The status that a finished cycle leaves: a paused source stays paused.
abbrev pub end_status : Source → Session → Status
end_status s session =
    if is_paused s.status
    then paused
    else (if ltb 0 session.failed_mailboxes
        then error
        else (if is_file_based s.provider then imported else active))

-- The status as the job computes it.
abbrev job_status : Source → Session → Status
job_status s session = if is_paused s.status then paused else finished_status s.provider session

finished_status-end : (s : Source) (session : Session) → job_status s session ≡ end_status s session
unfolding finished_status
finished_status-end s session = ground arith

job_status-ne_auth :
    (s : Source) (session : Session) → is_auth_success (job_status s session) ≡ false
unfolding finished_status
job_status-ne_auth s session = ground arith

module _ (readable live : Text → Bool) (i session_id : Text) (initial : Bool) (d : Db) (s : Source)
    (found : find (source_is i) d.sources ≡ some s) where
  finished_job-settles :
      (session : Session)
      → find (session_is session_id) d.sessions ≡ some session
      → readable s.credentials ≡ true
      → sync_cycle_finished_job readable live i session_id initial d ≡ (
        ended i session_id
            (settle d.now (job_status s session) (finished_message initial session))
            d,
        done tt,
      )
  unfolding sync_cycle_finished_job finish find_session finalize
  finished_job-settles session e r = ground (
    arith,
    find_by_id-readable readable i d s found r,
    update-settles readable i d s found live
        (settle d.now (job_status s session) (finished_message initial session)) r refl
        (job_status-ne_auth s session),
  )

  -- For a source whose credentials decrypt: the job ends, deletes the session, and settles the
  -- source by it, as 'paused' if it was paused, else by the session's failures and the provider.
  pub sync_cycle_finished_job-settles :
      (session : Session)
      → find (session_is session_id) d.sessions ≡ some session
      → readable s.credentials ≡ true
      → sync_cycle_finished_job readable live i session_id initial d ≡ (
        ended i session_id
            (settle d.now (end_status s session) (finished_message initial session))
            d,
        done tt,
      )
  sync_cycle_finished_job-settles session e r =
      subst
        (λ status. sync_cycle_finished_job readable live i session_id initial d ≡ (
          ended i session_id (settle d.now status (finished_message initial session)) d,
          done tt,
        ))
        (finished_status-end s session) (finished_job-settles session e r)

  -- When the source's credentials do not decrypt, the job throws and changes nothing: the source
  -- keeps its status, and the session stays.
  pub sync_cycle_finished_job-stranded :
      readable s.credentials ≡ false
      → sync_cycle_finished_job readable live i session_id initial d ≡ (d, threw undecryptable)
  unfolding sync_cycle_finished_job finish finish_failed find_session
  sync_cycle_finished_job-stranded r =
      elim (Option-cases (find (session_is session_id) d.sessions)) [
        | inl nothing ↦ ground (
          arith,
          update-damaged readable i d s found live (settle d.now error finalizing_failed) r,
        )
        | inr (session, e) ↦ ground (
          arith,
          find_by_id-damaged readable i d s found r,
          update-damaged readable i d s found live (settle d.now error finalizing_failed) r,
        )
      ]
