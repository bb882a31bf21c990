-- ===== src/Mailbox/Handover.antt =====
-- Every archived e-mail reaches the indexing queue, whatever the order of the events.
use open_archiver.Prelude.{
  ℕ, ◌≤◌, ◌≡◌, refl, ap, ◌∙◌, subst, inl, inr, some, List, [], ◌∷◌, length, ◌++◌, append_assoc, suc,
  is_empty, leb, if◌then◌else◌, Bool-cases, Option-cases, arith,
}
use open_archiver.Mailbox.{
  Phase, receiving, slot_wait, checking, closing, unwinding, reporting, failing, flushing, Mailbox,
  Event, fetched, draft, checked, flush_done, flush_failed, fetch_ended, fetch_failed, settled,
  begun, landed, start_task, flush, after_refusal, is_receiving, is_checking, after_tasks, taken,
  refused, step, run, opened,
}
use open_archiver.Mailbox.Landed.{start-IsAccounted, begin-IsAccounted, land-IsAccounted}
use open_archiver.Mailbox.Accounts.{
  archived_ids, held, IsDrained, IsAccounted, HasAccount, only-IsAccounted, all_ids-append,
  is_empty-nil, flush-IsAccounted, receiving-held, checking-held, with_landed, drop_held, all_ids,
}

-- What IsDrained reads of a mailbox.
pub still-IsDrained :
    (phase : Phase) (m m' : Mailbox)
    → m'.in_flight ≡ m.in_flight
    → m'.email_batch ≡ m.email_batch
    → IsDrained phase m
    → IsDrained phase m'
unfolding IsDrained
still-IsDrained receiving m m' i b d = tt
still-IsDrained slot_wait m m' i b d = ap is_empty i ∙ d
still-IsDrained checking m m' i b d = tt
still-IsDrained closing m m' i b d = tt
still-IsDrained unwinding m m' i b d = tt
still-IsDrained failing m m' i b d = tt
still-IsDrained reporting m m' i b (j, c) = (i ∙ j, b ∙ c)
still-IsDrained (flushing ids next) m m' i b (n, (z, d)) = (n, (z, still-IsDrained next m m' i b d))

refusal-held :
    (phase : Phase)
    → (held (after_refusal phase) ≡ []) × ((m : Mailbox) → IsDrained (after_refusal phase) m)
unfolding IsDrained
refusal-held receiving = (refl, λ m. tt)
refusal-held slot_wait = (refl, λ m. tt)
refusal-held checking = (refl, λ m. tt)
refusal-held closing = (refl, λ m. tt)
refusal-held unwinding = (refl, λ m. tt)
refusal-held failing = (refl, λ m. tt)
refusal-held reporting = (refl, λ m. tt)
refusal-held (flushing ids next) = (refl, λ m. tt)

module _ (ids : List ℕ) (m : Mailbox) (a : IsAccounted ids m) where
  checked-IsAccounted :
      (batch_size : ℕ)
      → held m.phase ≡ []
      → IsAccounted ids (
          if leb batch_size (length m.email_batch)
          then flush receiving m
          else record m { phase = receiving })
  unfolding IsDrained
  checked-IsAccounted batch_size e = elim (Bool-cases (leb batch_size (length m.email_batch))) [
    | inl full ↦ rw full (flush-IsAccounted ids m receiving a e refl refl (λ m' i b. tt))
    | inr partly ↦ rw partly (record {
      queued = drop_held _ _ e a.queued;
      counted = a.counted;
      seen = a.seen;
      drained = tt;
    })
  ]

  after_tasks-IsAccounted : (phase : Phase) → m.phase ≡ phase → HasAccount ids (after_tasks phase m)
  unfolding after_tasks IsDrained
  after_tasks-IsAccounted receiving e = tt
  after_tasks-IsAccounted slot_wait e = tt
  after_tasks-IsAccounted checking e = tt
  after_tasks-IsAccounted closing e =
      only-IsAccounted ids (is_empty m.in_flight) (flush reporting m) (λ h.
        flush-IsAccounted ids m reporting a (ap held e) refl refl
          (λ m' i b. (i ∙ is_empty-nil m.in_flight h, b)))
  after_tasks-IsAccounted unwinding e =
      only-IsAccounted ids (is_empty m.in_flight) (flush failing m)
        (λ h. flush-IsAccounted ids m failing a (ap held e) refl refl (λ m' i b. tt))
  after_tasks-IsAccounted reporting e = tt
  after_tasks-IsAccounted failing e = tt
  after_tasks-IsAccounted (flushing batch next) e = tt

  taken-IsAccounted :
      (phase : Phase)
      → IsDrained phase m
      → all_ids m.index_jobs ++ (held phase ++ m.email_batch) ≡ ids
      → HasAccount ids (taken phase m)
  unfolding taken IsDrained
  taken-IsAccounted receiving d q = tt
  taken-IsAccounted slot_wait d q = tt
  taken-IsAccounted checking d q = tt
  taken-IsAccounted closing d q = tt
  taken-IsAccounted unwinding d q = tt
  taken-IsAccounted reporting d q = tt
  taken-IsAccounted failing d q = tt
  taken-IsAccounted (flushing batch next) (n, (z, d)) q = record {
    queued = rw z (
        ap (λ l. l ++ m.email_batch) (all_ids-append m.index_jobs batch)
        ∙ append_assoc (all_ids m.index_jobs) batch m.email_batch
        ∙ q);
    counted = a.counted;
    seen = a.seen;
    drained = still-IsDrained next m _ refl refl d;
  }

  refused-IsAccounted :
      (phase : Phase)
      → all_ids m.index_jobs ++ (held phase ++ m.email_batch) ≡ ids
      → HasAccount ids (refused phase m)
  unfolding refused
  refused-IsAccounted receiving q = tt
  refused-IsAccounted slot_wait q = tt
  refused-IsAccounted checking q = tt
  refused-IsAccounted closing q = tt
  refused-IsAccounted unwinding q = tt
  refused-IsAccounted reporting q = tt
  refused-IsAccounted failing q = tt
  refused-IsAccounted (flushing batch next) q = record {
    queued = rw (refusal-held next).0 q;
    counted = a.counted;
    seen = a.seen;
    drained = (refusal-held next).1 _;
  }

  -- Another point of the loop, with nothing on its way and no condition there.
  moved-IsAccounted :
      (phase : Phase) (seen : ℕ)
      → held m.phase ≡ []
      → held phase ≡ []
      → ((m' : Mailbox) → IsDrained phase m')
      → m.messages_seen ≤ seen
      → IsAccounted ids (record m { phase = phase; messages_seen = seen })
  moved-IsAccounted phase seen e f d s = record {
    queued = rw f (drop_held _ _ e a.queued);
    counted = a.counted;
    seen = omega (arith, a.seen, s);
    drained = d _;
  }

step-IsAccounted :
    (ids : List ℕ) (concurrency batch_size : ℕ) (event : Event) (m : Mailbox)
    → IsAccounted ids m
    → HasAccount (with_landed event ids) (step concurrency batch_size event m)
unfolding step IsDrained
step-IsAccounted ids concurrency batch_size (fetched key) m a =
    only-IsAccounted ids (is_receiving m.phase) (start_task concurrency key m)
      (λ e. start-IsAccounted ids concurrency key m a (receiving-held m.phase e).0)
step-IsAccounted ids concurrency batch_size draft m a =
    only-IsAccounted ids (is_receiving m.phase) _ (λ e.
      let r = receiving-held m.phase e in
      moved-IsAccounted ids m a m.phase (suc m.messages_seen) r.0 r.0 r.1 (omega arith))
step-IsAccounted ids concurrency batch_size fetch_ended m a =
    only-IsAccounted ids (is_receiving m.phase) _ (λ e.
      moved-IsAccounted ids m a closing m.messages_seen (receiving-held m.phase e).0 refl (λ m'. tt)
        (omega arith))
step-IsAccounted ids concurrency batch_size fetch_failed m a =
    only-IsAccounted ids (is_receiving m.phase) _ (λ e.
      moved-IsAccounted ids m a unwinding m.messages_seen (receiving-held m.phase e).0 refl
        (λ m'. tt) (omega arith))
step-IsAccounted ids concurrency batch_size checked m a =
    only-IsAccounted ids (is_checking m.phase) _
      (λ e. checked-IsAccounted ids m a batch_size (checking-held m.phase e))
step-IsAccounted ids concurrency batch_size settled m a =
    after_tasks-IsAccounted ids m a m.phase refl
step-IsAccounted ids concurrency batch_size flush_done m a =
    taken-IsAccounted ids m a m.phase a.drained a.queued
step-IsAccounted ids concurrency batch_size flush_failed m a =
    refused-IsAccounted ids m a m.phase a.queued
step-IsAccounted ids concurrency batch_size (begun n) m a = begin-IsAccounted ids n m a
step-IsAccounted ids concurrency batch_size (landed n outcome) m a =
    land-IsAccounted ids n outcome m a

pub run_from-IsAccounted :
    (ids : List ℕ) (concurrency batch_size : ℕ) (events : List Event) (m : Mailbox)
    → IsAccounted ids m
    → HasAccount (archived_ids ids events) (run concurrency batch_size events m)
unfolding run
run_from-IsAccounted ids concurrency batch_size [] m a = a
run_from-IsAccounted ids concurrency batch_size (event ∷ events) m a =
    elim (Option-cases (step concurrency batch_size event m)) [
      | inl stuck ↦ rw (stuck, run) tt
      | inr (m', e) ↦
          rw (e, run)
            (run_from-IsAccounted (with_landed event ids) concurrency batch_size events m' (
              subst (HasAccount (with_landed event ids)) e
                (step-IsAccounted ids concurrency batch_size event m a)))
    ]

-- After any events: the ids of the archived e-mails, in the order in which their tasks landed, are
-- those of the batches that the queue took, then those of the batch on its way, then those in the
-- buffer, each id once for each time it was archived; messages_archived is their number; no more
-- e-mails are archived, failed or in flight than were seen; the loop waits for a slot only while a
-- task is in flight; and where the mailbox is about to be reported as finished, the buffer and the
-- tasks are empty.
pub run-IsAccounted :
    (concurrency batch_size : ℕ) (events : List Event) (m : Mailbox)
    → run concurrency batch_size events opened ≡ some m
    → IsAccounted (archived_ids [] events) m
unfolding IsDrained
run-IsAccounted concurrency batch_size events m e = subst (HasAccount (archived_ids [] events)) e (
    run_from-IsAccounted [] concurrency batch_size events opened
      (record { queued = refl; counted = refl; seen = omega arith; drained = tt }))
