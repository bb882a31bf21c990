-- ===== src/Mailbox/Progress.antt =====
-- From wherever the loop is, it can come to its end: no task waits in vain, nor does the main loop.
use open_archiver.Prelude.{
  ℕ, ◌≤◌, ◌≡◌, refl, sym, ap, ◌∙◌, subst, inl, inr, Bool, true, false, true-false, All, some, List,
  [], length, is_empty, leb, Bool-cases, arith, if◌then◌else◌,
}
use open_archiver.Archive.Model.{Outcome}
use open_archiver.Mailbox.{
  Phase, receiving, slot_wait, checking, closing, unwinding, reporting, failing, flushing, Mailbox,
  Event, checked, flush_done, fetch_ended, settled, flush, only, is_receiving, is_checking,
  after_tasks, taken, step, run, opened,
}
use open_archiver.Mailbox.Reachable.{run-IsSound}
use open_archiver.Mailbox.Accounts.{IsDrained, HasAccount}
use open_archiver.Mailbox.Handover.{still-IsDrained, run-IsAccounted, run_from-IsAccounted}
use open_archiver.Mailbox.Landing.{IsLast, Leads, no_event, after_event, then-Leads, all-land}

-- The mailbox is about to be reported as finished, or as failed.
abbrev pub is_ended : Phase → Bool
is_ended reporting = true
is_ended failing = true
is_ended _ = false

module _ (concurrency batch_size : ℕ) (outcome : ℕ → Outcome) where
  abbrev Ends : Mailbox → Type 0
  Ends m =
      (m' : Mailbox) × (Leads concurrency batch_size outcome m m'
        × ((is_ended m'.phase ≡ true) × (m'.in_flight ≡ [])))

  Ends-after :
      {m m1 : Mailbox} (event : Event)
      → IsLast outcome event
      → step concurrency batch_size event m ≡ some m1
      → Ends m1
      → Ends m
  Ends-after event h e r =
      (r.0, (after_event concurrency batch_size outcome event h e r.1.0, r.1.1))

  at_end : (m : Mailbox) → is_ended m.phase ≡ true → m.in_flight ≡ [] → Ends m
  at_end m e i = (m, (no_event concurrency batch_size outcome m, (e, i)))

  -- With no task in flight: a flush that succeeds leads to what comes after it.
  flush-Ends :
      (next : Phase) (m : Mailbox)
      → ((m' : Mailbox) → m'.phase ≡ next → m'.in_flight ≡ [] → Ends m')
      → m.in_flight ≡ []
      → Ends (flush next m)
  unfolding flush step taken
  flush-Ends next m h i = elim (Bool-cases (is_empty m.email_batch)) [
    | inl nothing ↦ rw (nothing, flush) (h _ refl i)
    | inr some_ids ↦ rw (some_ids, flush) (Ends-after flush_done tt refl (h _ refl i))
  ]

  settled-flush :
      (phase next : Phase) (m : Mailbox)
      → (after_tasks phase m ≡ only (is_empty m.in_flight) (flush next m))
      → m.phase ≡ phase
      → m.in_flight ≡ []
      → step concurrency batch_size settled m ≡ some (flush next m)
  unfolding step
  settled-flush phase next m h e i =
      ap (λ p. after_tasks p m) e ∙ h ∙ ap (λ l. only (is_empty l) (flush next m)) i

  closing-Ends : (m : Mailbox) → m.phase ≡ closing → m.in_flight ≡ [] → Ends m
  unfolding after_tasks
  closing-Ends m e i =
      Ends-after settled tt (settled-flush closing reporting m refl e i)
        (flush-Ends reporting m (λ m' e. at_end m' (ap is_ended e)) i)

  unwinding-Ends : (m : Mailbox) → m.phase ≡ unwinding → m.in_flight ≡ [] → Ends m
  unfolding after_tasks
  unwinding-Ends m e i =
      Ends-after settled tt (settled-flush unwinding failing m refl e i)
        (flush-Ends failing m (λ m' e. at_end m' (ap is_ended e)) i)

  receiving-Ends : (m : Mailbox) → m.phase ≡ receiving → m.in_flight ≡ [] → Ends m
  unfolding step
  receiving-Ends m e i =
      let ended = record m { phase = closing } in
      Ends-after fetch_ended tt (ap (λ p. only (is_receiving p) ended) e)
        (closing-Ends ended refl i)

  either-Ends : (b : Bool) (m m' : Mailbox) → Ends m → Ends m' → Ends (if b then m else m')
  either-Ends true m m' h h' = h
  either-Ends false m m' h h' = h'

  checking-Ends : (m : Mailbox) → m.phase ≡ checking → m.in_flight ≡ [] → Ends m
  unfolding step
  checking-Ends m e i =
      let full = leb batch_size (length m.email_batch) in
      let back = if full then flush receiving m else record m { phase = receiving } in
      Ends-after checked tt (ap (λ p. only (is_checking p) back) e) (
        either-Ends full (flush receiving m) (record m { phase = receiving })
          (flush-Ends receiving m receiving-Ends i) (receiving-Ends _ refl i))

  phase-Ends :
      (phase : Phase) (m : Mailbox)
      → m.phase ≡ phase
      → IsDrained phase m
      → m.in_flight ≡ []
      → Ends m
  unfolding IsDrained step taken
  phase-Ends receiving m e d i = receiving-Ends m e i
  phase-Ends slot_wait m e d i = absurd (true-false (sym (ap is_empty i) ∙ d))
  phase-Ends checking m e d i = checking-Ends m e i
  phase-Ends closing m e d i = closing-Ends m e i
  phase-Ends unwinding m e d i = unwinding-Ends m e i
  phase-Ends reporting m e d i = at_end m (ap is_ended e) i
  phase-Ends failing m e d i = at_end m (ap is_ended e) i
  phase-Ends (flushing ids next) m e (n, (z, d)) i =
      Ends-after flush_done tt (ap (λ p. taken p m) e)
        (phase-Ends next _ refl (still-IsDrained next m _ refl refl d) i)

-- After any events, with room for one task at least, and whatever outcome each task in flight will
-- have: there are further events, of tasks that begin and land with these outcomes and of the main
-- loop alone, with no more e-mails from the connector, that bring the loop to its end, about to report
-- the mailbox as finished or failed, with no task in flight. So there is no point at which tasks wait
-- for each other in a ring, or at which the main loop waits for a slot that nothing releases.
pub run-progress :
    (concurrency batch_size : ℕ) (events : List Event) (m : Mailbox) (outcome : ℕ → Outcome)
    → 1 ≤ concurrency
    → run concurrency batch_size events opened ≡ some m
    → (m' : Mailbox) × ((more : List Event) × (All (IsLast outcome) more
          × (run concurrency batch_size more m ≡ some m')))
      × (is_ended m'.phase ≡ true)
      × (m'.in_flight ≡ [])
run-progress concurrency batch_size events m outcome h e =
    let s = run-IsSound concurrency batch_size events m h e in
    let a = run-IsAccounted concurrency batch_size events m e in
    let drained = all-land concurrency batch_size outcome (length m.in_flight) m (omega arith) s in
    let b =
      subst (HasAccount _) drained.1.0.runs
        (run_from-IsAccounted _ concurrency batch_size drained.1.0.events m a) in
    let r =
      phase-Ends concurrency batch_size outcome drained.0.phase drained.0 refl b.drained
        drained.1.1 in
    let all = then-Leads concurrency batch_size outcome drained.1.0 r.1.0 in
    (r.0, (all.events, (all.are_last, all.runs)), r.1.1.0, r.1.1.1)
