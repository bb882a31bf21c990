-- ===== src/Mailbox/Tests.antt =====
-- Runs of the mailbox loop with two slots and batches of two.
use open_archiver.Prelude.{
  ◌≤◌, ◌≡◌, refl, true, false, none, some, List, [], ◌∷◌, codes, text_eq, lookup, insert, remove,
  length, All, arith,
}
use open_archiver.Archive.Model.{archived}
use open_archiver.Mailbox.{
  slot_wait, failing, reporting, fetch_ended, Mailbox, Event, fetched, checked, flush_done,
  flush_failed, settled, begun, landed, step, run, opened,
}
use open_archiver.Mailbox.Accounts.{IsAccounted}
use open_archiver.Mailbox.Handover.{run-IsAccounted}
use open_archiver.Mailbox.Tasks.{IsSerial, run-IsSerial}
use open_archiver.Mailbox.Landing.{IsLast}
use open_archiver.Mailbox.Progress.{is_ended, run-progress}

-- Two copies of a message and another one: the second copy waits for the first.
abbrev two_copies : List Event
two_copies = fetched (codes "a") ∷ checked ∷ begun 0 ∷ fetched (codes "a") ∷ []

abbrev busy : Mailbox
busy = record {
  next_number = 2;
  in_flight =
      record { number = 1; key = codes "a"; prior = some 0; running = false }
      ∷ record { number = 0; key = codes "a"; prior = none; running = true }
      ∷ [];
  keyed = (codes "a", 1) ∷ [];
  phase = slot_wait;
  messages_seen = 2;
  messages_archived = 0;
  messages_failed = 0;
  failure_samples = [];
  email_batch = [];
  index_jobs = [];
}

busy-run : run 2 2 two_copies opened ≡ some busy
unfolding run text_eq lookup insert remove
busy-run = refl

second_copy_test : step 2 2 (begun 1) busy ≡ none
unfolding step text_eq lookup insert remove
second_copy_test = refl

-- A queue that refuses a batch leaves its e-mails in the buffer, and the next flush has them all.
refused_test :
    run 2 1
      (fetched (codes "a")
        ∷ begun 0
        ∷ landed 0 (archived 7)
        ∷ checked
        ∷ flush_failed
        ∷ settled
        ∷ flush_done
        ∷ [])
      opened
    ≡ some (record opened {
      next_number = 1;
      phase = failing;
      messages_seen = 1;
      messages_archived = 1;
      index_jobs = (7 ∷ []) ∷ [];
    })
unfolding run text_eq lookup insert remove
refused_test = refl

run-IsSerial_example : IsSerial busy.in_flight × (length busy.in_flight ≤ 2)
run-IsSerial_example = run-IsSerial 2 2 two_copies busy (omega arith) busy-run

run-progress_example :
    (m' : Mailbox) × ((more : List Event) × (All (IsLast (λ n. archived n)) more
        × (run 2 2 more busy ≡ some m')))
    × (is_ended m'.phase ≡ true)
    × (m'.in_flight ≡ [])
run-progress_example = run-progress 2 2 two_copies busy (λ n. archived n) (omega arith) busy-run

-- Two e-mails, the second archived first; the queue takes both at the end of the mailbox.
abbrev two_emails : List Event
two_emails =
    fetched (codes "a")
    ∷ begun 0
    ∷ checked
    ∷ fetched (codes "b")
    ∷ begun 1
    ∷ landed 1 (archived 8)
    ∷ checked
    ∷ landed 0 (archived 7)
    ∷ fetch_ended
    ∷ settled
    ∷ flush_done
    ∷ []

abbrev finished : Mailbox
finished = record opened {
  next_number = 2;
  phase = reporting;
  messages_seen = 2;
  messages_archived = 2;
  index_jobs = (8 ∷ 7 ∷ []) ∷ [];
}

finished-run : run 2 3 two_emails opened ≡ some finished
unfolding run text_eq lookup insert remove
finished-run = refl

run-IsAccounted_example : IsAccounted (8 ∷ 7 ∷ []) finished
run-IsAccounted_example = run-IsAccounted 2 3 two_emails finished finished-run
