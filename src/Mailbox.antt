-- ===== src/Mailbox.antt =====
-- packages/backend/src/jobs/processors/process-mailbox.processor.ts: the loop that archives several
-- e-mails of a mailbox at once, from its first fetch to the report. What runs between two awaits is
-- one event; an event that cannot occur gives none.
pub mod Chain
pub mod Moves
pub mod Invariant
pub mod Sound
pub mod Reachable
pub mod Accounts
pub mod Landed
pub mod Handover
pub mod Tasks
pub mod Landing
pub mod Progress
mod Tests
use open_archiver.Prelude.{
  ℕ, zero, suc, ◌+◌, Bool, true, false, not, ◌&&◌, ◌||◌, Option, none, some, or_else, List, [], ◌∷◌,
  ◌++◌, Text, text_eq, length, find, any, update_where, delete_where, is_empty, lookup, insert,
  remove, ltb, leb, ◌==◌, if◌then◌else◌,
}
use open_archiver.Archive.Model.{Failure, Outcome, archived, skipped, failed}

-- An e-mail that is being archived. `prior` is the task that was the latest for its key when it was
-- started; it is running once it no longer awaits that one.
pub record Task : Type 0 where
  pub number : ℕ
  pub key : Text
  pub prior : Option ℕ
  pub running : Bool

-- Where the main loop stands. A flush has its e-mails, and what comes when it has succeeded.
pub data Phase : Type 0 where
  receiving slot_wait checking closing unwinding reporting failing : Phase
  flushing : List ℕ → Phase → Phase

-- `in_flight` has the latest task first. `index_jobs` are the batches that the indexing queue took.
pub record Mailbox : Type 0 where
  pub next_number : ℕ
  pub in_flight : List Task
  pub keyed : List (Text × ℕ)
  pub phase : Phase
  pub messages_seen : ℕ
  pub messages_archived : ℕ
  pub messages_failed : ℕ
  pub failure_samples : List Failure
  pub email_batch : List ℕ
  pub index_jobs : List (List ℕ)

-- The connector yields an e-mail with this key, or a draft that is not archived; a task begins or
-- ends; the loop tests the batch; the queue takes a batch or not; the connector ends or throws; all
-- tasks have ended.
pub data Event : Type 0 where
  fetched : Text → Event
  draft checked flush_done flush_failed fetch_ended fetch_failed settled : Event
  begun : ℕ → Event
  landed : ℕ → Outcome → Event

abbrev pub numbered : ℕ → Task → Bool
numbered n task = task.number == n

abbrev pub with_key : Text → Task → Bool
with_key key task = text_eq task.key key

-- `await prior` is over: the task is no longer in flight.
unfoldable pub is_settled : Option ℕ → List Task → Bool
is_settled none tasks = true
is_settled (some n) tasks = not (any (numbered n) tasks)

abbrev pub new_task : ℕ → Text → Option ℕ → Task
new_task number key prior = record { number = number; key = key; prior = prior; running = false }

unfoldable pub start_task : ℕ → Text → Mailbox → Mailbox
start_task concurrency key m =
    let tasks : List Task = new_task m.next_number key (lookup key m.keyed) ∷ m.in_flight in
    record m {
      next_number = suc m.next_number;
      in_flight = tasks;
      keyed = insert key m.next_number m.keyed;
      phase = if leb concurrency (length tasks) then slot_wait else checking;
      messages_seen = suc m.messages_seen;
    }

unfoldable pub begin_task : ℕ → Mailbox → Option Mailbox
unfolding is_settled
begin_task n m = elim (find (numbered n) m.in_flight) [
  | none ↦ none
  | some task ↦
      if not task.running && is_settled task.prior m.in_flight
      then some (record m {
        in_flight = update_where (numbered n) (λ t. record t { running = true }) m.in_flight;
      })
      else none
]

-- The counters and the batch, by what processEmail returned.
unfoldable pub count_outcome : Outcome → Mailbox → Mailbox
count_outcome (archived id) m = record m {
  messages_archived = suc m.messages_archived;
  email_batch = m.email_batch ++ (id ∷ []);
}
count_outcome skipped m = m
count_outcome (failed e) m = record m {
  messages_failed = suc m.messages_failed;
  failure_samples =
      if ltb (length m.failure_samples) 5 then m.failure_samples ++ (e ∷ []) else m.failure_samples;
}

abbrev pub release_slot : Phase → Phase
release_slot slot_wait = checking
release_slot phase = phase

-- `keyed.get(dedupKey) === tracked`
abbrev pub is_latest : Task → List (Text × ℕ) → Bool
is_latest task keyed = elim (lookup task.key keyed) [ none ↦ false | some n ↦ n == task.number ]

-- `task.finally(...)`
unfoldable pub settle_task : Task → Mailbox → Mailbox
settle_task task m = record m {
  in_flight = delete_where (numbered task.number) m.in_flight;
  keyed = if is_latest task m.keyed then remove task.key m.keyed else m.keyed;
  phase = release_slot m.phase;
}

unfoldable pub land_task : ℕ → Outcome → Mailbox → Option Mailbox
unfolding count_outcome settle_task
land_task n outcome m = elim (find (numbered n) m.in_flight) [
  | none ↦ none
  | some task ↦ if task.running then some (settle_task task (count_outcome outcome m)) else none
]

-- The start of flushBatch.
unfoldable pub flush : Phase → Mailbox → Mailbox
flush next m =
    if is_empty m.email_batch
    then record m { phase = next }
    else record m { phase = flushing m.email_batch next; email_batch = [] }

-- The queue has refused a batch: in the catch block this is logged, elsewhere it leads there.
abbrev pub after_refusal : Phase → Phase
after_refusal failing = failing
after_refusal _ = unwinding

abbrev pub is_receiving : Phase → Bool
is_receiving receiving = true
is_receiving _ = false

abbrev pub is_checking : Phase → Bool
is_checking checking = true
is_checking _ = false

-- An event at a point of the main loop where it can occur.
abbrev pub only : Bool → Mailbox → Option Mailbox
only true m = some m
only false m = none

-- `await Promise.all(inFlight)` and `await Promise.allSettled(inFlight)`, and the flush after them.
unfoldable pub after_tasks : Phase → Mailbox → Option Mailbox
unfolding flush
after_tasks closing m = only (is_empty m.in_flight) (flush reporting m)
after_tasks unwinding m = only (is_empty m.in_flight) (flush failing m)
after_tasks _ m = none

unfoldable pub taken : Phase → Mailbox → Option Mailbox
taken (flushing ids next) m =
    some (record m { phase = next; index_jobs = m.index_jobs ++ (ids ∷ []) })
taken _ m = none

unfoldable pub refused : Phase → Mailbox → Option Mailbox
refused (flushing ids next) m =
    some (record m { phase = after_refusal next; email_batch = ids ++ m.email_batch })
refused _ m = none

-- EMAIL_CONCURRENCY and MEILI_INDEXING_BATCH are the first two arguments.
unfoldable pub step : ℕ → ℕ → Event → Mailbox → Option Mailbox
unfolding start_task begin_task land_task flush after_tasks taken refused
step concurrency batch_size (fetched key) m =
    only (is_receiving m.phase) (start_task concurrency key m)
step concurrency batch_size draft m =
    only (is_receiving m.phase) (record m { messages_seen = suc m.messages_seen })
step concurrency batch_size fetch_ended m =
    only (is_receiving m.phase) (record m { phase = closing })
step concurrency batch_size fetch_failed m =
    only (is_receiving m.phase) (record m { phase = unwinding })
step concurrency batch_size checked m = only (is_checking m.phase) (
    if leb batch_size (length m.email_batch)
    then flush receiving m
    else record m { phase = receiving })
step concurrency batch_size settled m = after_tasks m.phase m
step concurrency batch_size flush_done m = taken m.phase m
step concurrency batch_size flush_failed m = refused m.phase m
step concurrency batch_size (begun n) m = begin_task n m
step concurrency batch_size (landed n outcome) m = land_task n outcome m

unfoldable pub run : ℕ → ℕ → List Event → Mailbox → Option Mailbox
unfolding step
run concurrency batch_size [] m = some m
run concurrency batch_size (event ∷ events) m = elim (step concurrency batch_size event m) [
  | none ↦ none
  | some m' ↦ run concurrency batch_size events m'
]

abbrev pub opened : Mailbox
opened = record {
  next_number = 0;
  in_flight = [];
  keyed = [];
  phase = receiving;
  messages_seen = 0;
  messages_archived = 0;
  messages_failed = 0;
  failure_samples = [];
  email_batch = [];
  index_jobs = [];
}
