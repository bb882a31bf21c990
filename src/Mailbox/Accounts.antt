-- ===== src/Mailbox/Accounts.antt =====
-- What becomes of the archived e-mails on their way through the buffer to the indexing queue.
use open_archiver.Prelude.{
  ℕ, ◌+◌, ◌≤◌, ◌≡◌, refl, sym, ap, ◌∙◌, inl, inr, Bool, true, false, true-false, Option, none, some,
  List, [], ◌∷◌, ◌++◌, length, append_assoc, append-nil, update_where, subst, is_empty, find,
  Bool-cases, arith,
}
use open_archiver.Archive.Model.{archived}
use open_archiver.Mailbox.{
  Task, Phase, receiving, slot_wait, checking, closing, unwinding, reporting, failing, flushing,
  Mailbox, numbered, flush, Event, landed, is_receiving, is_checking, only,
}

abbrev pub all_ids : List (List ℕ) → List ℕ
all_ids [] = []
all_ids (ids ∷ jobs) = ids ++ all_ids jobs

-- The e-mails of a batch that is on its way to the queue.
abbrev pub held : Phase → List ℕ
held (flushing ids next) = ids
held _ = []

-- The e-mails that were archived, in the order in which their tasks landed.
abbrev pub with_landed : Event → List ℕ → List ℕ
with_landed (landed n (archived id)) ids = ids ++ (id ∷ [])
with_landed _ ids = ids

abbrev pub archived_ids : List ℕ → List Event → List ℕ
archived_ids ids [] = ids
archived_ids ids (event ∷ events) = archived_ids (with_landed event ids) events

abbrev pub is_waiting : Phase → Bool
is_waiting slot_wait = true
is_waiting _ = false

-- The loop waits for a slot only while a task is in flight; once the mailbox is about to be reported
-- as finished, no task and no buffered e-mail is left.
unfoldable pub IsDrained : Phase → Mailbox → Type 0
IsDrained slot_wait m = is_empty m.in_flight ≡ false
IsDrained reporting m = (m.in_flight ≡ []) × (m.email_batch ≡ [])
IsDrained (flushing ids next) m = (is_waiting next ≡ false) × ((held next ≡ []) × IsDrained next m)
IsDrained _ m = Unit

-- The archived e-mails `ids`, in this order: those of the batches that the queue took, then those of
-- the batch on its way, then those in the buffer.
pub record IsAccounted (ids : List ℕ) (m : Mailbox) : Type 0 where
  pub queued : all_ids m.index_jobs ++ (held m.phase ++ m.email_batch) ≡ ids
  pub counted : m.messages_archived ≡ length ids
  pub seen : m.messages_archived + (m.messages_failed + length m.in_flight) ≤ m.messages_seen
  pub drained : IsDrained m.phase m

abbrev pub HasAccount : List ℕ → Option Mailbox → Type 0
HasAccount ids none = Unit
HasAccount ids (some m) = IsAccounted ids m

pub only-IsAccounted :
    (ids : List ℕ) (b : Bool) (m : Mailbox)
    → (b ≡ true → IsAccounted ids m)
    → HasAccount ids (only b m)
only-IsAccounted ids true m h = h refl
only-IsAccounted ids false m h = tt

pub all_ids-append :
    (jobs : List (List ℕ)) (ids : List ℕ) → all_ids (jobs ++ (ids ∷ [])) ≡ all_ids jobs ++ ids
all_ids-append [] ids = append-nil ids
all_ids-append (job ∷ jobs) ids =
    ap (λ l. job ++ l) (all_ids-append jobs ids) ∙ sym (append_assoc job (all_ids jobs) ids)

-- Nothing is on its way.
pub drop_held :
    (taken batch : List ℕ) {h ids : List ℕ}
    → h ≡ []
    → taken ++ (h ++ batch) ≡ ids
    → taken ++ batch ≡ ids
drop_held taken batch {ids = ids} e q = subst (λ h. taken ++ (h ++ batch) ≡ ids) e q

-- Tasks in flight exclude the drained points.
pub busy-IsDrained :
    (phase : Phase) (m m' : Mailbox)
    → IsDrained phase m
    → is_empty m.in_flight ≡ false
    → (is_waiting phase ≡ true → is_empty m'.in_flight ≡ false)
    → IsDrained phase m'
unfolding IsDrained
busy-IsDrained receiving m m' h e w = tt
busy-IsDrained slot_wait m m' h e w = w refl
busy-IsDrained checking m m' h e w = tt
busy-IsDrained closing m m' h e w = tt
busy-IsDrained unwinding m m' h e w = tt
busy-IsDrained failing m m' h e w = tt
busy-IsDrained reporting m m' (i, b) e w = absurd (true-false (sym (ap is_empty i) ∙ e))
busy-IsDrained (flushing ids next) m m' (n, (z, h)) e w =
    (n, (z, busy-IsDrained next m m' h e (λ k. absurd (true-false (sym k ∙ n)))))

pub found-is_empty :
    (n : ℕ) (tasks : List Task) (task : Task)
    → find (numbered n) tasks ≡ some task
    → is_empty tasks ≡ false
found-is_empty n [] task e = ground arith
found-is_empty n (t ∷ tasks) task e = refl

pub updated-is_empty :
    (p : Task → Bool) (f : Task → Task) (tasks : List Task)
    → is_empty tasks ≡ false
    → is_empty (update_where p f tasks) ≡ false
updated-is_empty p f [] e = e
updated-is_empty p f (t ∷ tasks) e = refl

pub is_empty-nil {ℓ} : {A : Type ℓ} (xs : List A) → is_empty xs ≡ true → xs ≡ []
is_empty-nil [] h = refl
is_empty-nil (x ∷ xs) h = absurd (true-false (sym h))

pub flush-IsAccounted :
    (ids : List ℕ) (m : Mailbox) (next : Phase)
    → IsAccounted ids m
    → held m.phase ≡ []
    → held next ≡ []
    → is_waiting next ≡ false
    → ((m' : Mailbox) → m'.in_flight ≡ m.in_flight → m'.email_batch ≡ [] → IsDrained next m')
    → IsAccounted ids (flush next m)
unfolding flush IsDrained
flush-IsAccounted ids m next a e f w d = elim (Bool-cases (is_empty m.email_batch)) [
  | inl nothing ↦
      rw (nothing, flush)
        (record {
          queued = rw f (drop_held _ _ e a.queued);
          counted = a.counted;
          seen = a.seen;
          drained = d _ refl (is_empty-nil m.email_batch nothing);
        })
  | inr some_ids ↦
      rw (some_ids, flush)
        (record {
          queued =
              ap (λ l. all_ids m.index_jobs ++ l) (append-nil m.email_batch)
              ∙ drop_held _ _ e a.queued;
          counted = a.counted;
          seen = a.seen;
          drained = (w, (f, d _ refl refl));
        })
]

pub receiving-held :
    (phase : Phase)
    → is_receiving phase ≡ true
    → (held phase ≡ []) × ((m' : Mailbox) → IsDrained phase m')
unfolding IsDrained
receiving-held receiving h = (refl, λ m'. tt)
receiving-held slot_wait h = absurd (true-false (sym h))
receiving-held checking h = (refl, λ m'. tt)
receiving-held closing h = (refl, λ m'. tt)
receiving-held unwinding h = (refl, λ m'. tt)
receiving-held failing h = (refl, λ m'. tt)
receiving-held reporting h = absurd (true-false (sym h))
receiving-held (flushing ids next) h = absurd (true-false (sym h))

pub checking-held : (phase : Phase) → is_checking phase ≡ true → held phase ≡ []
checking-held receiving h = refl
checking-held slot_wait h = refl
checking-held checking h = refl
checking-held closing h = refl
checking-held unwinding h = refl
checking-held failing h = refl
checking-held reporting h = refl
checking-held (flushing ids next) h = absurd (true-false (sym h))
