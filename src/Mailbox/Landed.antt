-- ===== src/Mailbox/Landed.antt =====
-- What a task does to the account of the archived e-mails when it is started, begins and lands.
use open_archiver.Prelude.{
  ℕ, suc, ◌≡◌, refl, sym, ap, ◌∙◌, inl, inr, false, not, ◌&&◌, true-false, some, List, [], ◌∷◌,
  ◌++◌, Text, length, length-append, append_assoc, is_empty, find, leb, Bool-cases, Option-cases,
  arith,
}
use open_archiver.Archive.Model.{Outcome, archived, skipped, failed}
use open_archiver.Mailbox.{
  Task, Phase, receiving, slot_wait, checking, closing, unwinding, reporting, failing, flushing,
  Mailbox, numbered, is_settled, start_task, begin_task, count_outcome, release_slot, settle_task,
  land_task, landed,
}
use open_archiver.Mailbox.Sound.{length-delete, length-update}
use open_archiver.Mailbox.Accounts.{
  all_ids, held, with_landed, IsDrained, IsAccounted, HasAccount, drop_held, busy-IsDrained,
  found-is_empty, updated-is_empty,
}

released-held : (phase : Phase) → held (release_slot phase) ≡ held phase
released-held receiving = refl
released-held slot_wait = refl
released-held checking = refl
released-held closing = refl
released-held unwinding = refl
released-held failing = refl
released-held reporting = refl
released-held (flushing ids next) = refl

pub start-IsAccounted :
    (ids : List ℕ) (concurrency : ℕ) (key : Text) (m : Mailbox)
    → IsAccounted ids m
    → held m.phase ≡ []
    → IsAccounted ids (start_task concurrency key m)
unfolding start_task IsDrained
start-IsAccounted ids concurrency key m a e =
    elim (Bool-cases (leb concurrency (suc (length m.in_flight)))) [
      | inl full ↦ record {
        queued = rw full (drop_held _ _ e a.queued);
        counted = a.counted;
        seen = omega (arith, a.seen);
        drained = rw full refl;
      }
      | inr free ↦ record {
        queued = rw free (drop_held _ _ e a.queued);
        counted = a.counted;
        seen = omega (arith, a.seen);
        drained = rw free tt;
      }
    ]

pub begin-IsAccounted :
    (ids : List ℕ) (n : ℕ) (m : Mailbox) → IsAccounted ids m → HasAccount ids (begin_task n m)
unfolding begin_task
begin-IsAccounted ids n m a = elim (Option-cases (find (numbered n) m.in_flight)) [
  | inl nothing ↦ rw (nothing, begin_task) tt
  | inr (task, there) ↦ elim (Bool-cases (not task.running && is_settled task.prior m.in_flight)) [
    | inl ready ↦
        let some_task = found-is_empty n m.in_flight task there in
        rw (there, ready, begin_task)
          (record {
            queued = a.queued;
            counted = a.counted;
            seen = omega (arith, a.seen, length-update n m.in_flight);
            drained =
                busy-IsDrained m.phase m _ a.drained some_task
                  (λ _. updated-is_empty (numbered n) _ m.in_flight some_task);
          })
    | inr busy ↦ rw (there, busy, begin_task) tt
  ]
]

released-IsDrained :
    (phase : Phase) (m m' : Mailbox)
    → IsDrained phase m
    → is_empty m.in_flight ≡ false
    → IsDrained (release_slot phase) m'
unfolding IsDrained
released-IsDrained receiving m m' h e = tt
released-IsDrained slot_wait m m' h e = tt
released-IsDrained checking m m' h e = tt
released-IsDrained closing m m' h e = tt
released-IsDrained unwinding m m' h e = tt
released-IsDrained failing m m' h e = tt
released-IsDrained reporting m m' h e =
    busy-IsDrained reporting m m' h e (λ k. absurd (true-false (sym k)))
released-IsDrained (flushing ids next) m m' h e =
    busy-IsDrained (flushing ids next) m m' h e (λ k. absurd (true-false (sym k)))

buffered :
    (jobs : List (List ℕ)) (h h' batch ids : List ℕ) (id : ℕ)
    → h' ≡ h
    → all_ids jobs ++ (h ++ batch) ≡ ids
    → all_ids jobs ++ (h' ++ (batch ++ (id ∷ []))) ≡ ids ++ (id ∷ [])
buffered jobs h h' batch ids id e q = rw e (
    ap (λ l. all_ids jobs ++ l) (sym (append_assoc h batch (id ∷ [])))
    ∙ sym (append_assoc (all_ids jobs) (h ++ batch) (id ∷ []))
    ∙ ap (λ l. l ++ (id ∷ [])) q)

settle-IsAccounted :
    (ids : List ℕ) (n : ℕ) (task : Task) (outcome : Outcome) (m : Mailbox)
    → find (numbered n) m.in_flight ≡ some task
    → IsAccounted ids m
    → IsAccounted (with_landed (landed n outcome) ids) (settle_task task (count_outcome outcome m))
unfolding settle_task count_outcome
settle-IsAccounted ids n task (archived id) m e a = record {
  queued =
      buffered m.index_jobs (held m.phase) _ m.email_batch ids id (released-held m.phase) a.queued;
  counted = omega (arith, a.counted, length-append ids (id ∷ []));
  seen = omega (arith, a.seen, length-delete n m.in_flight task e);
  drained = released-IsDrained m.phase m _ a.drained (found-is_empty n m.in_flight task e);
}
settle-IsAccounted ids n task skipped m e a = record {
  queued = rw (released-held m.phase) a.queued;
  counted = a.counted;
  seen = omega (arith, a.seen, length-delete n m.in_flight task e);
  drained = released-IsDrained m.phase m _ a.drained (found-is_empty n m.in_flight task e);
}
settle-IsAccounted ids n task (failed f) m e a = record {
  queued = rw (released-held m.phase) a.queued;
  counted = a.counted;
  seen = omega (arith, a.seen, length-delete n m.in_flight task e);
  drained = released-IsDrained m.phase m _ a.drained (found-is_empty n m.in_flight task e);
}

pub land-IsAccounted :
    (ids : List ℕ) (n : ℕ) (outcome : Outcome) (m : Mailbox)
    → IsAccounted ids m
    → HasAccount (with_landed (landed n outcome) ids) (land_task n outcome m)
unfolding land_task
land-IsAccounted ids n outcome m a = elim (Option-cases (find (numbered n) m.in_flight)) [
  | inl nothing ↦ rw (nothing, land_task) tt
  | inr (task, there) ↦ elim (Bool-cases task.running) [
    | inl runs ↦ rw (there, runs, land_task) (settle-IsAccounted ids n task outcome m there a)
    | inr waits ↦ rw (there, waits, land_task) tt
  ]
]
