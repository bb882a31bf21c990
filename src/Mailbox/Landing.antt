-- ===== src/Mailbox/Landing.antt =====
-- Every task in flight can be brought to its end, whatever its outcome.
use open_archiver.Prelude.{
  ℕ, zero, suc, ◌≤◌, ◌<◌, ◌≡◌, refl, ap, ◌∙◌, subst, inl, inr, true, false, true-false, All,
  All-append, Option-cases, Option, none, some, List, [], ◌∷◌, ◌++◌, length, is_empty, find,
  Bool-cases, arith, update_where, if◌then◌else◌, map_option,
}
use open_archiver.Archive.Model.{Outcome, archived, skipped, failed}
use open_archiver.Mailbox.{
  Task, Mailbox, Event, fetched, draft, checked, flush_done, flush_failed, fetch_ended,
  fetch_failed, settled, begun, landed, numbered, is_settled, begin_task, land_task, settle_task,
  count_outcome, step, run,
}
use open_archiver.Mailbox.Chain.{find-below, IsChained, IsBefore}
use open_archiver.Mailbox.Moves.{set_running, find-update}
use open_archiver.Mailbox.Invariant.{IsSound}
use open_archiver.Mailbox.Sound.{
  HasSound, length-delete, length-update, begin-IsSound, land-IsSound,
}
use open_archiver.Mailbox.Accounts.{is_empty-nil}

-- A task that no task in flight holds up.
record IsFree (tasks : List Task) (task : Task) : Type 0 where
  found : find (numbered task.number) tasks ≡ some task
  before : IsBefore task.prior task
  free : is_settled task.prior tasks ≡ true

newer_settled :
    (prior : Option ℕ) (task newer : Task) (tasks : List Task)
    → IsBefore prior task
    → task.number < newer.number
    → is_settled prior tasks ≡ true
    → is_settled prior (newer ∷ tasks) ≡ true
unfolding IsBefore is_settled
newer_settled none task newer tasks b l h = refl
newer_settled (some n) task newer tasks b l h = ground arith

alone_settled :
    (prior : Option ℕ) (task : Task) → IsBefore prior task → is_settled prior (task ∷ []) ≡ true
unfolding IsBefore is_settled
alone_settled none task b = refl
alone_settled (some n) task b = ground arith

-- The oldest task is free.
oldest-IsFree :
    (task : Task) (older : List Task)
    → IsChained (task ∷ older)
    → (t : Task) × IsFree (task ∷ older) t
unfolding IsChained
oldest-IsFree task [] (l, (b, (q, h))) =
    (task, record { found = ground arith; before = q; free = alone_settled task.prior task q })
oldest-IsFree task (next ∷ older) (l, (b, (q, h))) =
    let rest = oldest-IsFree next older h in
    let below =
      find-below (numbered rest.0.number) task.number (next ∷ older) rest.0 b rest.1.found in
    (
      rest.0,
      record {
        found = ground (arith, rest.1.found, below);
        before = rest.1.before;
        free =
            newer_settled rest.0.prior rest.0 task (next ∷ older) rest.1.before below rest.1.free;
      },
    )

some-IsFree :
    (tasks : List Task) → IsChained tasks → is_empty tasks ≡ false → (t : Task) × IsFree tasks t
some-IsFree [] h e = absurd (true-false e)
some-IsFree (task ∷ older) h e = oldest-IsFree task older h

-- The last events of a mailbox: the connector yields nothing more and does not throw, the queue takes
-- its batches, and each task has the outcome that is given for its number.
abbrev pub IsLast : (ℕ → Outcome) → Event → Type 0
IsLast outcome (landed n o) = o ≡ outcome n
IsLast outcome (begun n) = Unit
IsLast outcome checked = Unit
IsLast outcome fetch_ended = Unit
IsLast outcome settled = Unit
IsLast outcome flush_done = Unit
IsLast outcome (fetched key) = ⊥
IsLast outcome draft = ⊥
IsLast outcome fetch_failed = ⊥
IsLast outcome flush_failed = ⊥

module _ (concurrency batch_size : ℕ) (outcome : ℕ → Outcome) where
  pub record Leads (m m' : Mailbox) : Type 0 where
    pub events : List Event
    pub are_last : All (IsLast outcome) events
    pub runs : run concurrency batch_size events m ≡ some m'

  pub no_event : (m : Mailbox) → Leads m m
  unfolding run
  no_event m = record { events = []; are_last = tt; runs = refl }

  pub after_event :
      {m m1 m2 : Mailbox} (event : Event)
      → IsLast outcome event
      → step concurrency batch_size event m ≡ some m1
      → Leads m1 m2
      → Leads m m2
  unfolding run
  after_event event h e l = record {
    events = event ∷ l.events;
    are_last = (h, l.are_last);
    runs = rw (e, run) l.runs;
  }

  run-append :
      (events more : List Event) (m m1 : Mailbox)
      → run concurrency batch_size events m ≡ some m1
      → run concurrency batch_size (events ++ more) m ≡ run concurrency batch_size more m1
  unfolding run
  run-append [] more m m1 e = ground arith
  run-append (event ∷ events) more m m1 e =
      elim (Option-cases (step concurrency batch_size event m)) [
        | inl stuck ↦ absurd (let e' : none ≡ some m1 = rw (stuck, run) at e in cc)
        | inr (m', f) ↦ rw (f, run) (run-append events more m' m1 (rw (f, run) at e))
      ]

  pub then-Leads : {m m1 m2 : Mailbox} → Leads m m1 → Leads m1 m2 → Leads m m2
  then-Leads {m} {m1} k l = record {
    events = k.events ++ l.events;
    are_last = All-append (IsLast outcome) k.events l.events k.are_last l.are_last;
    runs = run-append k.events l.events m m1 k.runs ∙ l.runs;
  }

  landed_mailbox : Task → Mailbox → Mailbox
  landed_mailbox t m = settle_task t (count_outcome (outcome t.number) m)

  free-lands :
      (m : Mailbox) (t : Task)
      → find (numbered t.number) m.in_flight ≡ some t
      → t.running ≡ true
      → land_task t.number (outcome t.number) m ≡ some (landed_mailbox t m)
  unfolding land_task landed_mailbox
  free-lands m t f r = rw (f, r, land_task) refl

  begun_mailbox : ℕ → Mailbox → Mailbox
  begun_mailbox n m = record m { in_flight = update_where (numbered n) set_running m.in_flight }

  free-begins :
      (m : Mailbox) (t : Task)
      → IsFree m.in_flight t
      → t.running ≡ false
      → begin_task t.number m ≡ some (begun_mailbox t.number m)
  unfolding begin_task begun_mailbox
  free-begins m t f r = rw (f.found, r, f.free, begin_task) refl

  begun-found :
      (m : Mailbox) (t : Task)
      → find (numbered t.number) m.in_flight ≡ some t
      → find (numbered t.number) (begun_mailbox t.number m).in_flight ≡ some (set_running t)
  unfolding begun_mailbox
  begun-found m t f =
      find-update (numbered t.number) t.number (λ s. refl) m.in_flight
      ∙ ap (map_option (λ s. if numbered t.number s then set_running s else s)) f
      ∙ ground arith

  landed-fewer :
      (m : Mailbox) (t : Task)
      → find (numbered t.number) m.in_flight ≡ some t
      → length (landed_mailbox t m).in_flight < length m.in_flight
  unfolding landed_mailbox settle_task count_outcome
  landed-fewer m t f =
      elim (outcome t.number)
        as (λ o. length (settle_task t (count_outcome o m)).in_flight < length m.in_flight) [
          | archived id ↦ length-delete t.number m.in_flight t f
          | skipped ↦ length-delete t.number m.in_flight t f
          | failed e ↦ length-delete t.number m.in_flight t f
        ]

  -- One task can be brought to its end.
  record Lands (m : Mailbox) : Type 0 where
    after : Mailbox
    leads : Leads m after
    sound : IsSound concurrency after
    fewer : length after.in_flight < length m.in_flight

  running-Lands :
      (m : Mailbox) (t : Task)
      → IsSound concurrency m
      → find (numbered t.number) m.in_flight ≡ some t
      → t.running ≡ true
      → Lands m
  unfolding step
  running-Lands m t s f r =
      let e = free-lands m t f r in
      record {
        after = landed_mailbox t m;
        leads = after_event (landed t.number (outcome t.number)) refl e (no_event _);
        sound =
            subst (HasSound concurrency) e
              (land-IsSound concurrency t.number (outcome t.number) m s);
        fewer = landed-fewer m t f;
      }

  free-Lands : (m : Mailbox) (t : Task) → IsSound concurrency m → IsFree m.in_flight t → Lands m
  unfolding step begun_mailbox
  free-Lands m t s f = elim (Bool-cases t.running) [
    | inl runs ↦ running-Lands m t s f.found runs
    | inr waits ↦
        let e = free-begins m t f waits in
        let rest =
          running-Lands (begun_mailbox t.number m) (set_running t)
            (subst (HasSound concurrency) e (begin-IsSound concurrency t.number m s))
            (begun-found m t f.found) refl in
        record {
          after = rest.after;
          leads = after_event (begun t.number) tt e rest.leads;
          sound = rest.sound;
          fewer = omega (arith, rest.fewer, length-update t.number m.in_flight);
        }
  ]

  length-nil : (tasks : List Task) → length tasks ≤ 0 → tasks ≡ []
  length-nil [] h = refl
  length-nil (t ∷ tasks) h = absurd (omega (arith, h))

  -- All tasks in flight can be brought to their end.
  pub all-land :
      (n : ℕ) (m : Mailbox)
      → length m.in_flight ≤ n
      → IsSound concurrency m
      → (m' : Mailbox) × (Leads m m' × (m'.in_flight ≡ []))
  unfolding IsSound
  all-land zero m b s = (m, (no_event m, length-nil m.in_flight b))
  all-land (suc n) m b s = elim (Bool-cases (is_empty m.in_flight)) [
    | inl nothing ↦ (m, (no_event m, is_empty-nil m.in_flight nothing))
    | inr busy ↦
        let t = some-IsFree m.in_flight s.0.chained busy in
        let one = free-Lands m t.0 s t.1 in
        let rest = all-land n one.after (omega (arith, one.fewer, b)) one.sound in
        (rest.0, (then-Leads one.leads rest.1.0, rest.1.1))
  ]
