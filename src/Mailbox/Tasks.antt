-- ===== src/Mailbox/Tasks.antt =====
-- What the invariant gives: tasks of one key run one after another.
use open_archiver.Prelude.{
  ℕ, ◌≤◌, ◌≡◌, refl, ◌⊎◌, inl, inr, false, Option, none, some, List, [], ◌∷◌, length, find, arith,
}
use open_archiver.Mailbox.{Task, Mailbox, Event, with_key, run, opened}
use open_archiver.Mailbox.Chain.{IsChained, IsLinked}
use open_archiver.Mailbox.Invariant.{IsSound}
use open_archiver.Mailbox.Reachable.{run-IsSound}

-- A running task has no task of its key before it.
unfoldable pub IsSerial : List Task → Type 0
IsSerial [] = Unit
IsSerial (task ∷ older) =
    ((find (with_key task.key) older ≡ none) ⊎ (task.running ≡ false)) × IsSerial older

linked-serial :
    (o : Option Task) (task : Task) → IsLinked o task → (o ≡ none) ⊎ (task.running ≡ false)
unfolding IsLinked
linked-serial none task l = inl refl
linked-serial (some s) task (p, w) = inr w

chained-IsSerial : (tasks : List Task) → IsChained tasks → IsSerial tasks
unfolding IsSerial IsChained
chained-IsSerial [] h = tt
chained-IsSerial (task ∷ older) (l, (b, (q, h))) =
    (linked-serial (find (with_key task.key) older) task l, chained-IsSerial older h)

-- After any events, with room for one task at least: no task runs while an earlier one of its key is
-- in flight, and there are at most as many tasks in flight as the setting allows.
pub run-IsSerial :
    (concurrency batch_size : ℕ) (events : List Event) (m : Mailbox)
    → 1 ≤ concurrency
    → run concurrency batch_size events opened ≡ some m
    → IsSerial m.in_flight × (length m.in_flight ≤ concurrency)
unfolding IsSound
run-IsSerial concurrency batch_size events m h e =
    let s = run-IsSound concurrency batch_size events m h e in
    (chained-IsSerial m.in_flight s.0.chained, omega (arith, s.1))
