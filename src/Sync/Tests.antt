-- ===== src/Sync/Tests.antt =====
-- A cycle on a small database, and the theorems at it.
use open_archiver.Prelude.{
  lookup, Bool-cases, text_eq_iff, inl, inr, ◌⊎◌, ◌≡◌, ◌+◌, ◌≤◌, ◌↔◌, refl, Bool, true, false, none,
  some, List, [], ◌∷◌, Text, codes, arith, text_eq, find,
}
use open_archiver.Sync.Model.{
  Source, Session, Db, StateValue, bucket, active, syncing, generic_imap, done, threw, source_is,
  no_session, undecryptable,
}
use open_archiver.Sync.Session.{
  synced, failed, MailboxOutcome, record_mailbox_result, set_error, release_sessionless_sources,
  is_abandoned,
}
use open_archiver.Sync.Source.{
  claim, returning, matching, decrypt_source, claim_for_sync, claim_for_import,
}
use open_archiver.Sync.Cycle.{settle, finished_message, sync_cycle_finished_job}
use open_archiver.Sync.Counting.{record_all, count_for, result-is_last}
use open_archiver.Sync.Claims.{claim_for_sync-exclusive, claim_for_import-exclusive}
use open_archiver.Sync.Finish.{
  ended, end_status, sync_cycle_finished_job-settles, sync_cycle_finished_job-stranded,
}
use open_archiver.Sync.Merging.{
  Report, latest, token_of, merged, reported, merged-token_of, merged_comm,
}
use open_archiver.Sync.Sweep.{release_sessionless_sources-row}

abbrev box : Text
box = codes "box"

abbrev run : Text
run = codes "run"

abbrev never : Text → Bool
never i = false

abbrev always : Text → Bool
always t = true

abbrev keep_new : Text → List (Text × Text) → StateValue
keep_new t new = bucket new

abbrev mailbox_source : Source
mailbox_source = record {
  id = box;
  provider = generic_imap;
  credentials = codes "sealed";
  status = active;
  last_sync_started_at = some 5;
  last_sync_finished_at = none;
  last_sync_status_message = none;
  sync_state = none;
}

abbrev cycling : Source
cycling = record mailbox_source { status = syncing }

abbrev opened : Session
opened = record {
  id = run;
  ingestion_source_id = box;
  is_initial_import = false;
  total_mailboxes = 2;
  completed_mailboxes = 0;
  failed_mailboxes = 0;
  error_messages = [];
  last_activity_at = 5;
}

abbrev idle : Db
idle = record { sources = mailbox_source ∷ []; sessions = []; requests = []; now = 90 }

abbrev midway : Db
midway = record { sources = cycling ∷ []; sessions = opened ∷ []; requests = []; now = 90 }

abbrev orphaned : Db
orphaned = record midway { sessions = [] }

result-is_last_example :
    (o : MailboxOutcome) × ((record_mailbox_result keep_new run
        (synced [])
        (record_all keep_new ((run, failed (codes "x")) ∷ []) midway)).1
      ≡ done o)
    × (o.total_completed + o.total_failed ≡ count_for run ((run, failed (codes "x")) ∷ []) + 1)
    × ((o.is_last ≡ true) ↔ (2 ≤ count_for run ((run, failed (codes "x")) ∷ []) + 1))
unfolding text_eq
result-is_last_example =
    result-is_last keep_new run opened ((run, failed (codes "x")) ∷ []) (synced []) midway refl refl

-- A minute later, with the session of the cycle in the database.
abbrev later : Db → Db
later d = record d { sessions = opened ∷ []; now = 150 }

claim_for_sync-exclusive_example :
    let d2 = later (claim_for_sync always box idle).0 in
    (claim_for_sync always box d2 ≡ (d2, done none))
    × (claim_for_import always box d2 ≡ (d2, done none))
unfolding claim_for_sync claim text_eq returning matching decrypt_source
claim_for_sync-exclusive_example =
    claim_for_sync-exclusive always box idle (later (claim_for_sync always box idle).0)
      (omega arith) refl refl

claim_for_import-exclusive_example :
    let d2 = later (claim_for_import always box idle).0 in
    (claim_for_sync always box d2 ≡ (d2, done none))
    × (claim_for_import always box d2 ≡ (d2, done none))
unfolding claim_for_import claim text_eq returning matching decrypt_source
claim_for_import-exclusive_example =
    claim_for_import-exclusive always box idle (later (claim_for_import always box idle).0)
      (omega arith) refl refl

sync_cycle_finished_job-settles_example :
    sync_cycle_finished_job always never box run false midway ≡ (
      ended box run (settle 90 (end_status cycling opened) (finished_message false opened)) midway,
      done tt,
    )
unfolding text_eq
sync_cycle_finished_job-settles_example =
    sync_cycle_finished_job-settles always never box run false midway cycling refl opened refl refl

sync_cycle_finished_job-stranded_example :
    sync_cycle_finished_job never never box run false midway ≡ (midway, threw undecryptable)
unfolding text_eq
sync_cycle_finished_job-stranded_example =
    sync_cycle_finished_job-stranded never never box run false midway cycling refl refl

release_sessionless_sources-row_example :
    find (source_is box) (release_sessionless_sources never 30 orphaned).0.sources
    ≡ some (set_error 90 no_session cycling)
unfolding is_abandoned text_eq
release_sessionless_sources-row_example =
    release_sessionless_sources-row never box 30 orphaned cycling (omega arith) refl

abbrev stored : List (Text × StateValue)
stored = (codes "imap", bucket ((codes "a", codes "1") ∷ [])) ∷ []

merged-token_of_example :
    token_of
      (codes "imap")
      (codes "a")
      (merged keep_new (codes "imap") (some stored) ((codes "b", codes "2") ∷ []))
    ≡ some (codes "1")
unfolding lookup text_eq
merged-token_of_example =
    merged-token_of keep_new (codes "imap") (codes "a") (some stored) ((codes "b", codes "2") ∷ [])
      refl tt

-- Mailbox b reports a status message too, after its token, and mailbox c before it.
abbrev of_b : Report
of_b = record {
  before = [];
  tokens = (codes "b", codes "2") ∷ [];
  after = (codes "statusMessage", codes "slow") ∷ [];
}

abbrev of_c : Report
of_c = record {
  before = (codes "statusMessage", codes "ok") ∷ [];
  tokens = (codes "c", codes "3") ∷ [];
  after = [];
}

apart : (m : Text) → (latest m of_b.tokens ≡ none) ⊎ (latest m of_c.tokens ≡ none)
apart m = elim (Bool-cases (text_eq (codes "b") m)) [
  | inl b ↦ inr (ground (arith, text_eq_iff (codes "b") m, text_eq_iff (codes "c") m))
  | inr other ↦ inl (ground arith)
]

merged_comm_example :
    token_of
      (codes "imap")
      (codes "c")
      (reported keep_new (codes "imap") (reported keep_new (codes "imap") (some stored) of_b) of_c)
    ≡ token_of (codes "imap") (codes "c") (
        reported keep_new (codes "imap") (reported keep_new (codes "imap") (some stored) of_c) of_b)
unfolding lookup text_eq
merged_comm_example =
    merged_comm keep_new (codes "imap") (some stored) of_b of_c refl tt (tt, (refl, tt))
      ((refl, tt), tt) apart (codes "c")
