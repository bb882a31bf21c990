-- ===== src/Mailbox/Reachable.antt =====
-- The loop's invariant holds after any sequence of events.
use open_archiver.Prelude.{
  ℕ, suc, ◌+◌, ◌≤◌, ◌≡◌, refl, subst, inl, inr, some, List, [], ◌∷◌, ◌++◌, lookup, length, is_empty,
  leb, if◌then◌else◌, Bool-cases, Option-cases, arith,
}
use open_archiver.Mailbox.{
  Phase, receiving, slot_wait, checking, closing, unwinding, reporting, failing, flushing, Mailbox,
  Event, fetched, draft, checked, flush_done, flush_failed, fetch_ended, fetch_failed, settled,
  begun, landed, start_task, flush, after_refusal, is_receiving, is_checking, after_tasks, taken,
  refused, step, run, opened,
}
use open_archiver.Mailbox.Chain.{IsChained}
use open_archiver.Mailbox.Invariant.{IsTracked, IsSound, room}
use open_archiver.Mailbox.Sound.{
  HasSound, only-IsSound, receiving-room, checking-room, rephased, flush-IsSound, start-IsSound,
  begin-IsSound, land-IsSound,
}

module _ (concurrency : ℕ) (m : Mailbox) (t : IsTracked m.next_number m.in_flight m.keyed) where
  after_tasks-IsSound :
      (phase : Phase)
      → length m.in_flight + room phase ≤ concurrency
      → HasSound concurrency (after_tasks phase m)
  unfolding after_tasks
  after_tasks-IsSound receiving b = tt
  after_tasks-IsSound slot_wait b = tt
  after_tasks-IsSound checking b = tt
  after_tasks-IsSound closing b =
      only-IsSound concurrency (is_empty m.in_flight) (flush reporting m)
        (λ _. flush-IsSound m reporting t b)
  after_tasks-IsSound unwinding b =
      only-IsSound concurrency (is_empty m.in_flight) (flush failing m)
        (λ _. flush-IsSound m failing t b)
  after_tasks-IsSound reporting b = tt
  after_tasks-IsSound failing b = tt
  after_tasks-IsSound (flushing ids next) b = tt

  taken-IsSound :
      (phase : Phase)
      → length m.in_flight + room phase ≤ concurrency
      → HasSound concurrency (taken phase m)
  unfolding taken
  taken-IsSound receiving b = tt
  taken-IsSound slot_wait b = tt
  taken-IsSound checking b = tt
  taken-IsSound closing b = tt
  taken-IsSound unwinding b = tt
  taken-IsSound reporting b = tt
  taken-IsSound failing b = tt
  taken-IsSound (flushing ids next) b =
      rephased m next m.messages_seen m.email_batch (m.index_jobs ++ (ids ∷ [])) t b

  refused-IsSound :
      (phase : Phase)
      → length m.in_flight + room phase ≤ concurrency
      → HasSound concurrency (refused phase m)
  unfolding refused
  refused-IsSound receiving b = tt
  refused-IsSound slot_wait b = tt
  refused-IsSound checking b = tt
  refused-IsSound closing b = tt
  refused-IsSound unwinding b = tt
  refused-IsSound reporting b = tt
  refused-IsSound failing b = tt
  refused-IsSound (flushing ids next) b =
      rephased m (after_refusal next) m.messages_seen (ids ++ m.email_batch) m.index_jobs t b

has_room : (n c : ℕ) (phase : Phase) → n + room phase ≤ c → room phase ≡ 1 → n + 1 ≤ c
has_room n c phase b e = omega (arith, b, e)

checked-IsSound :
    (concurrency batch_size : ℕ) (m : Mailbox)
    → IsTracked m.next_number m.in_flight m.keyed
    → length m.in_flight + 1 ≤ concurrency
    → IsSound concurrency (
        if leb batch_size (length m.email_batch)
        then flush receiving m
        else record m { phase = receiving })
checked-IsSound concurrency batch_size m t b =
    elim (Bool-cases (leb batch_size (length m.email_batch))) [
      | inl full ↦ rw full (flush-IsSound m receiving t b)
      | inr partly ↦ rw partly (rephased m receiving m.messages_seen m.email_batch m.index_jobs t b)
    ]

step-IsSound :
    (concurrency batch_size : ℕ) (event : Event) (m : Mailbox)
    → IsSound concurrency m
    → HasSound concurrency (step concurrency batch_size event m)
unfolding step IsSound
step-IsSound concurrency batch_size (fetched key) m h =
    only-IsSound concurrency (is_receiving m.phase) (start_task concurrency key m)
      (λ e. start-IsSound concurrency key m h (receiving-room m.phase e))
step-IsSound concurrency batch_size draft m (t, b) =
    only-IsSound concurrency (is_receiving m.phase) _ (λ e.
      rephased m m.phase (suc m.messages_seen) m.email_batch m.index_jobs t
        (has_room (length m.in_flight) concurrency m.phase b (receiving-room m.phase e)))
step-IsSound concurrency batch_size fetch_ended m (t, b) =
    only-IsSound concurrency (is_receiving m.phase) _ (λ e.
      rephased m closing m.messages_seen m.email_batch m.index_jobs t
        (has_room (length m.in_flight) concurrency m.phase b (receiving-room m.phase e)))
step-IsSound concurrency batch_size fetch_failed m (t, b) =
    only-IsSound concurrency (is_receiving m.phase) _ (λ e.
      rephased m unwinding m.messages_seen m.email_batch m.index_jobs t
        (has_room (length m.in_flight) concurrency m.phase b (receiving-room m.phase e)))
step-IsSound concurrency batch_size checked m (t, b) =
    only-IsSound concurrency (is_checking m.phase) _ (λ e.
      checked-IsSound concurrency batch_size m t
        (has_room (length m.in_flight) concurrency m.phase b (checking-room m.phase e)))
step-IsSound concurrency batch_size settled m (t, b) = after_tasks-IsSound concurrency m t m.phase b
step-IsSound concurrency batch_size flush_done m (t, b) = taken-IsSound concurrency m t m.phase b
step-IsSound concurrency batch_size flush_failed m (t, b) =
    refused-IsSound concurrency m t m.phase b
step-IsSound concurrency batch_size (begun n) m h = begin-IsSound concurrency n m h
step-IsSound concurrency batch_size (landed n outcome) m h = land-IsSound concurrency n outcome m h

run_from-IsSound :
    (concurrency batch_size : ℕ) (events : List Event) (m : Mailbox)
    → IsSound concurrency m
    → HasSound concurrency (run concurrency batch_size events m)
unfolding run
run_from-IsSound concurrency batch_size [] m h = h
run_from-IsSound concurrency batch_size (event ∷ events) m h =
    elim (Option-cases (step concurrency batch_size event m)) [
      | inl stuck ↦ rw (stuck, run) tt
      | inr (m', e) ↦
          rw (e, run)
            (run_from-IsSound concurrency batch_size events m'
              (subst (HasSound concurrency) e (step-IsSound concurrency batch_size event m h)))
    ]

opened-IsSound : (concurrency : ℕ) → 1 ≤ concurrency → IsSound concurrency opened
unfolding IsSound IsChained lookup
opened-IsSound concurrency h =
    (record { chained = tt; fresh = tt; latest = λ key. refl }, omega arith)

pub run-IsSound :
    (concurrency batch_size : ℕ) (events : List Event) (m : Mailbox)
    → 1 ≤ concurrency
    → run concurrency batch_size events opened ≡ some m
    → IsSound concurrency m
run-IsSound concurrency batch_size events m h e =
    subst (HasSound concurrency) e
      (run_from-IsSound concurrency batch_size events opened (opened-IsSound concurrency h))
