-- ===== src/Mailbox/Chain.antt =====
-- The tasks of one key form a chain: each waits for the one before it while that is in flight.
use open_archiver.Prelude.{
  ℕ, ◌<◌, ◌≡◌, refl, sym, ap, ◌∙◌, subst, inl, inr, Bool, true, false, Option, none, some, List, [],
  ◌∷◌, Text, text_eq_iff, find, delete_where, find-All, All, ◌==◌, Bool-cases, arith,
}
use open_archiver.Mailbox.{Task, numbered, with_key}

-- A task with an older one of its key waits for the latest of those.
unfoldable pub IsLinked : Option Task → Task → Type 0
IsLinked none task = Unit
IsLinked (some older) task = (task.prior ≡ some older.number) × (task.running ≡ false)

unfoldable pub IsBefore : Option ℕ → Task → Type 0
IsBefore none task = Unit
IsBefore (some n) task = n < task.number

-- The latest task first: its number is the greatest, and it is linked to the older ones.
unfoldable pub IsChained : List Task → Type 0
unfolding IsLinked IsBefore
IsChained [] = Unit
IsChained (task ∷ older) =
    IsLinked (find (with_key task.key) older) task
    × (All (λ s. s.number < task.number) older × (IsBefore task.prior task × IsChained older))

none-numbered :
    (n : ℕ) (tasks : List Task) → All (λ s. s.number < n) tasks → find (numbered n) tasks ≡ none
none-numbered n [] h = refl
none-numbered n (task ∷ tasks) (h, hs) = ground (arith, none-numbered n tasks hs)

pub delete-none :
    (n : ℕ) (tasks : List Task)
    → All (λ s. s.number < n) tasks
    → delete_where (numbered n) tasks ≡ tasks
delete-none n [] h = refl
delete-none n (task ∷ tasks) (h, hs) = ground (arith, delete-none n tasks hs)

pub All-delete :
    (P : Task → Type 0) (p : Task → Bool) (tasks : List Task)
    → All P tasks
    → All P (delete_where p tasks)
All-delete P p [] h = tt
All-delete P p (task ∷ tasks) (h, hs) = elim (Bool-cases (p task)) [
  | inl e ↦ rw e (All-delete P p tasks hs)
  | inr e ↦ rw e (h, All-delete P p tasks hs)
]

-- What a search finds is still found when others are deleted.
pub find-delete_other :
    (p : Task → Bool) (n : ℕ) (tasks : List Task) (s : Task)
    → find p tasks ≡ some s
    → (s.number == n) ≡ false
    → find p (delete_where (numbered n) tasks) ≡ some s
find-delete_other p n [] s e h = ground arith
find-delete_other p n (task ∷ tasks) s e h = ground (arith, find-delete_other p n tasks s)

pub find-delete_none :
    (p q : Task → Bool) (tasks : List Task)
    → find p tasks ≡ none
    → find p (delete_where q tasks) ≡ none
find-delete_none p q [] e = refl
find-delete_none p q (task ∷ tasks) e = ground (arith, find-delete_none p q tasks)

pub find-below :
    (p : Task → Bool) (n : ℕ) (tasks : List Task) (s : Task)
    → All (λ t. t.number < n) tasks
    → find p tasks ≡ some s
    → s.number < n
find-below p n tasks s h e = (find-All (λ t. t.number < n) p tasks s e h).1

-- A number belongs to one task.
pub find-numbered :
    (p : Task → Bool) (tasks : List Task) (s : Task)
    → IsChained tasks
    → find p tasks ≡ some s
    → find (numbered s.number) tasks ≡ some s
unfolding IsChained
find-numbered p [] s h e = ground arith
find-numbered p (task ∷ tasks) s (l, (b, (q, h))) e =
    ground (arith, find-numbered p tasks s h, find-below p task.number tasks s b)

IsLinked-running :
    (o : Option Task) (task : Task) → IsLinked o task → task.running ≡ true → o ≡ none
unfolding IsLinked
IsLinked-running none task l r = refl
IsLinked-running (some s) task (p, w) r = ground arith

pub found_first :
    (p : Task → Bool) {task s : Task} (tasks : List Task)
    → p task ≡ true
    → find p (task ∷ tasks) ≡ some s
    → task ≡ s
found_first p tasks h e = ground arith

pub found_later :
    (p : Task → Bool) {task s : Task} (tasks : List Task)
    → p task ≡ false
    → find p (task ∷ tasks) ≡ some s
    → find p tasks ≡ some s
found_later p tasks h e = ground arith

pub other_number : (a b n : ℕ) → (a == b) ≡ false → (b == n) ≡ true → (a == n) ≡ false
other_number a b n h k = ground arith

pub found_same : (o : Option Task) {a b : Task} → o ≡ some a → o ≡ some b → a ≡ b
found_same o h k = ground arith

delete-first :
    (task : Task) (tasks : List Task)
    → All (λ s. s.number < task.number) tasks
    → delete_where (numbered task.number) (task ∷ tasks) ≡ tasks
delete-first task tasks b = ground (arith, delete-none task.number tasks b)

-- The oldest task of a key is the only one that may be running, so nothing of its key is left.
pub find-landed :
    (key : Text) (tasks : List Task) (s : Task)
    → IsChained tasks
    → find (with_key key) tasks ≡ some s
    → s.running ≡ true
    → find (with_key key) (delete_where (numbered s.number) tasks) ≡ none
unfolding IsChained
find-landed key [] s h e r = ground arith
find-landed key (task ∷ tasks) s (l, (b, (q, h))) e r = elim (Bool-cases (with_key key task)) [
  | inl own ↦
      let this = found_first (with_key key) tasks own e in
      let alone =
        IsLinked-running (find (with_key task.key) tasks) task l (ap (λ t. t.running) this ∙ r) in
      let rest =
        ap (λ k. find (with_key k) tasks) (sym ((text_eq_iff task.key key).0 own)) ∙ alone in
      subst (λ t. find (with_key key) (delete_where (numbered t.number) (task ∷ tasks)) ≡ none) this
        (ap (find (with_key key)) (delete-first task tasks b) ∙ rest)
  | inr other ↦
      ground (arith, find-landed key tasks s h, find-below (with_key key) task.number tasks s b)
]
