-- ===== src/Mailbox/Sound.antt =====
-- Each event keeps the invariant of the tasks and their number.
use open_archiver.Prelude.{
  ℕ, suc, ◌+◌, ◌≤◌, ◌≡◌, refl, ap, ◌∙◌, inl, inr, Bool, true, false, not, ◌&&◌, Option, none, some,
  List, [], ◌∷◌, Text, length, is_empty, find, update_where, delete_where, leb, and_elim,
  Bool-cases, Option-cases, arith,
}
use open_archiver.Archive.Model.{Outcome, archived, skipped, failed}
use open_archiver.Mailbox.{
  Task, Phase, receiving, slot_wait, checking, closing, unwinding, reporting, failing, flushing,
  Mailbox, numbered, is_settled, start_task, begin_task, count_outcome, release_slot, settle_task,
  land_task, flush, is_receiving, is_checking, only,
}
use open_archiver.Mailbox.Moves.{set_running}
use open_archiver.Mailbox.Invariant.{
  IsSound, IsTracked, begin-IsTracked, land-IsTracked, room, start-IsTracked,
}

abbrev pub HasSound : ℕ → Option Mailbox → Type 0
HasSound concurrency none = Unit
HasSound concurrency (some m) = IsSound concurrency m

pub only-IsSound :
    (concurrency : ℕ) (b : Bool) (m : Mailbox)
    → (b ≡ true → IsSound concurrency m)
    → HasSound concurrency (only b m)
only-IsSound concurrency true m h = h refl
only-IsSound concurrency false m h = tt

room-AtMost : (phase : Phase) → room phase ≤ 1
room-AtMost receiving = omega arith
room-AtMost slot_wait = omega arith
room-AtMost checking = omega arith
room-AtMost closing = omega arith
room-AtMost unwinding = omega arith
room-AtMost reporting = omega arith
room-AtMost failing = omega arith
room-AtMost (flushing ids next) = omega arith

pub receiving-room : (phase : Phase) → is_receiving phase ≡ true → room phase ≡ 1
receiving-room receiving h = refl
receiving-room slot_wait h = ground arith
receiving-room checking h = refl
receiving-room closing h = refl
receiving-room unwinding h = refl
receiving-room reporting h = refl
receiving-room failing h = refl
receiving-room (flushing ids next) h = refl

pub checking-room : (phase : Phase) → is_checking phase ≡ true → room phase ≡ 1
checking-room receiving h = refl
checking-room slot_wait h = ground arith
checking-room checking h = refl
checking-room closing h = refl
checking-room unwinding h = refl
checking-room reporting h = refl
checking-room failing h = refl
checking-room (flushing ids next) h = refl

-- Another point of the loop, with room for a task.
pub rephased :
    {concurrency : ℕ} (m : Mailbox) (phase : Phase) (seen : ℕ) (batch : List ℕ)
    (jobs : List (List ℕ))
    → IsTracked m.next_number m.in_flight m.keyed
    → length m.in_flight + 1 ≤ concurrency
    → IsSound concurrency
        (record m { phase = phase; messages_seen = seen; email_batch = batch; index_jobs = jobs })
unfolding IsSound
rephased m phase seen batch jobs t b = (t, omega (arith, room-AtMost phase))

pub flush-IsSound :
    {concurrency : ℕ} (m : Mailbox) (next : Phase)
    → IsTracked m.next_number m.in_flight m.keyed
    → length m.in_flight + 1 ≤ concurrency
    → IsSound concurrency (flush next m)
unfolding flush
flush-IsSound m next t b = elim (Bool-cases (is_empty m.email_batch)) [
  | inl e ↦ rw (e, flush) (rephased m next m.messages_seen m.email_batch m.index_jobs t b)
  | inr e ↦
      rw (e, flush) (rephased m (flushing m.email_batch next) m.messages_seen [] m.index_jobs t b)
]

length-delete_le :
    (p : Task → Bool) (tasks : List Task) → length (delete_where p tasks) ≤ length tasks
length-delete_le p [] = omega arith
length-delete_le p (t ∷ tasks) = ground (arith, length-delete_le p tasks)

pub length-update :
    (n : ℕ) (tasks : List Task)
    → length (update_where (numbered n) set_running tasks) ≡ length tasks
length-update n [] = refl
length-update n (t ∷ tasks) = ap suc (length-update n tasks)

pub length-delete :
    (n : ℕ) (tasks : List Task) (task : Task)
    → find (numbered n) tasks ≡ some task
    → suc (length (delete_where (numbered task.number) tasks)) ≤ length tasks
length-delete n [] task e = ground arith
length-delete n (t ∷ tasks) task e =
    ground (arith, length-delete n tasks task, length-delete_le (numbered task.number) tasks)

pub start-IsSound :
    (concurrency : ℕ) (key : Text) (m : Mailbox)
    → IsSound concurrency m
    → room m.phase ≡ 1
    → IsSound concurrency (start_task concurrency key m)
unfolding IsSound start_task
start-IsSound concurrency key m (t, b) r = (
  start-IsTracked m.next_number key m.in_flight m.keyed t,
  elim (Bool-cases (leb concurrency (suc (length m.in_flight)))) [
    | inl full ↦ rw full (omega (arith, b, r))
    | inr free ↦ rw free (ground arith)
  ],
)

pub begin-IsSound :
    (concurrency n : ℕ) (m : Mailbox)
    → IsSound concurrency m
    → HasSound concurrency (begin_task n m)
unfolding IsSound begin_task
begin-IsSound concurrency n m (t, b) = elim (Option-cases (find (numbered n) m.in_flight)) [
  | inl nothing ↦ rw (nothing, begin_task) tt
  | inr (task, there) ↦ elim (Bool-cases (not task.running && is_settled task.prior m.in_flight)) [
    | inl ready ↦
        rw (there, ready, begin_task)
          (
            begin-IsTracked m.next_number n task m.in_flight m.keyed there (and_elim ready).1 t,
            omega (arith, b, length-update n m.in_flight),
          )
    | inr busy ↦ rw (there, busy, begin_task) tt
  ]
]

counted-IsSound :
    (concurrency : ℕ) (outcome : Outcome) (m : Mailbox)
    → IsSound concurrency m
    → IsSound concurrency (count_outcome outcome m)
unfolding IsSound count_outcome
counted-IsSound concurrency (archived id) m h = h
counted-IsSound concurrency skipped m h = h
counted-IsSound concurrency (failed e) m h = h

counted-in_flight :
    (outcome : Outcome) (m : Mailbox) → (count_outcome outcome m).in_flight ≡ m.in_flight
unfolding count_outcome
counted-in_flight (archived id) m = refl
counted-in_flight skipped m = refl
counted-in_flight (failed e) m = refl

settle-IsSound :
    (concurrency n : ℕ) (task : Task) (m : Mailbox)
    → find (numbered n) m.in_flight ≡ some task
    → task.running ≡ true
    → IsSound concurrency m
    → IsSound concurrency (settle_task task m)
unfolding IsSound settle_task
settle-IsSound concurrency n task m e r (t, b) = (
  land-IsTracked m.next_number n task m.in_flight m.keyed e r t,
  omega (arith, b, room-AtMost (release_slot m.phase), length-delete n m.in_flight task e),
)

pub land-IsSound :
    (concurrency n : ℕ) (outcome : Outcome) (m : Mailbox)
    → IsSound concurrency m
    → HasSound concurrency (land_task n outcome m)
unfolding land_task
land-IsSound concurrency n outcome m h = elim (Option-cases (find (numbered n) m.in_flight)) [
  | inl nothing ↦ rw (nothing, land_task) tt
  | inr (task, there) ↦ elim (Bool-cases task.running) [
    | inl runs ↦
        rw (there, runs, land_task)
          (settle-IsSound concurrency n task (count_outcome outcome m)
            (ap (find (numbered n)) (counted-in_flight outcome m) ∙ there) runs
            (counted-IsSound concurrency outcome m h))
    | inr waits ↦ rw (there, waits, land_task) tt
  ]
]
