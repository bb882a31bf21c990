-- ===== src/Mailbox/Invariant.antt =====
-- What holds of the loop whenever it awaits: the tasks are chained and tracked, and within their
-- number.
use open_archiver.Prelude.{
  ℕ, suc, ◌+◌, ◌≤◌, ◌<◌, ◌≡◌, refl, sym, ap, ◌∙◌, subst, inl, inr, Bool, true, false, Option, none,
  some, List, [], ◌∷◌, Text, text_eq, text_eq_iff, length, find, find-holds, find-All, map_option,
  text_eq_refl, update_where, delete_where, lookup, insert, remove, lookup-insert, lookup-remove,
  All, ◌==◌, if◌then◌else◌, Bool-cases, Option-cases, arith,
}
use open_archiver.Mailbox.{
  Task, Phase, slot_wait, Mailbox, new_task, numbered, with_key, is_settled, is_latest,
}
use open_archiver.Mailbox.Chain.{
  IsChained, IsLinked, IsBefore, find-delete_none, find-delete_other, find-landed, All-delete,
}
use open_archiver.Mailbox.Moves.{
  set_running, begin-IsChained, land-IsChained, find-update, same_task, All-update,
}

==_refl : (n : ℕ) → (n == n) ≡ true
==_refl n = ground arith

abbrev pub number_of : Option Task → Option ℕ
number_of none = none
number_of (some task) = some task.number

-- Numbers are below the next one, and `keyed` has the latest task in flight of each key.
pub record IsTracked (next : ℕ) (tasks : List Task) (keyed : List (Text × ℕ)) : Type 0 where
  pub chained : IsChained tasks
  pub fresh : All (λ s. s.number < next) tasks
  pub latest : (key : Text) → lookup key keyed ≡ number_of (find (with_key key) tasks)

abbrev pub room : Phase → ℕ
room slot_wait = 0
room _ = 1

unfoldable pub IsSound : ℕ → Mailbox → Type 0
IsSound concurrency m =
    IsTracked m.next_number m.in_flight m.keyed × (length m.in_flight + room m.phase ≤ concurrency)

All-later :
    (n : ℕ) (tasks : List Task) → All (λ s. s.number < n) tasks → All (λ s. s.number < suc n) tasks
All-later n [] h = tt
All-later n (task ∷ tasks) (h, hs) = (omega arith, All-later n tasks hs)

IsLinked-latest :
    (o : Option Task) (task : Task)
    → task.prior ≡ number_of o
    → task.running ≡ false
    → IsLinked o task
unfolding IsLinked
IsLinked-latest none task e r = tt
IsLinked-latest (some s) task e r = (e, r)

IsBefore-latest :
    (o : Option Task) (task : Task)
    → ((s : Task) → o ≡ some s → s.number < task.number)
    → IsBefore (number_of o) task
unfolding IsBefore
IsBefore-latest none task h = tt
IsBefore-latest (some s) task h = h s refl

latest-started :
    (b : Bool) (o : Option ℕ) (p : Option Task) (task : Task)
    → o ≡ number_of p
    → (if b then some task.number else o) ≡ number_of (if b then some task else p)
latest-started true o p task e = refl
latest-started false o p task e = e

number-running :
    (n : ℕ) (o : Option Task)
    → number_of (map_option (λ s. if numbered n s then set_running s else s) o) ≡ number_of o
number-running n none = refl
number-running n (some s) = elim (Bool-cases (s.number == n)) [
  | inl e ↦ rw e refl
  | inr e ↦ rw e refl
]

pub start-IsTracked :
    (next : ℕ) (key : Text) (tasks : List Task) (keyed : List (Text × ℕ))
    → IsTracked next tasks keyed
    → IsTracked (suc next) (new_task next key (lookup key keyed) ∷ tasks) (insert key next keyed)
unfolding IsChained
start-IsTracked next key tasks keyed t = record {
  chained = (
    IsLinked-latest (find (with_key key) tasks) (new_task next key (lookup key keyed))
        (t.latest key) refl,
    (
      t.fresh,
      (
        subst (λ o. IsBefore o (new_task next key (lookup key keyed))) (sym (t.latest key))
            (IsBefore-latest (find (with_key key) tasks) (new_task next key (lookup key keyed))
              (λ s e. (find-All (λ s. s.number < next) (with_key key) tasks s e t.fresh).1)),
        t.chained,
      ),
    ),
  );
  fresh = (omega arith, All-later next tasks t.fresh);
  latest = λ k.
      lookup-insert key k next keyed
      ∙ latest-started (text_eq key k) (lookup k keyed) (find (with_key k) tasks)
          (new_task next key (lookup key keyed)) (t.latest k);
}

pub begin-IsTracked :
    (next n : ℕ) (task : Task) (tasks : List Task) (keyed : List (Text × ℕ))
    → find (numbered n) tasks ≡ some task
    → is_settled task.prior tasks ≡ true
    → IsTracked next tasks keyed
    → IsTracked next (update_where (numbered n) set_running tasks) keyed
begin-IsTracked next n task tasks keyed e f t = record {
  chained = begin-IsChained n tasks task t.chained e f;
  fresh = All-update n next tasks t.fresh;
  latest = λ k.
      t.latest k
      ∙ sym (
          ap number_of (find-update (with_key k) n (λ _. refl) tasks)
          ∙ number-running n (find (with_key k) tasks));
}

-- The entry of a key in `keyed`, after a task with the number `n` and the key has settled.
forget : Text → ℕ → List (Text × ℕ) → List (Text × ℕ)
forget key n keyed =
    if elim (lookup key keyed) as (λ _. Bool) [ none ↦ false | some x ↦ x == n ]
    then remove key keyed
    else keyed

forget-none :
    (key k : Text) (n : ℕ) (keyed : List (Text × ℕ))
    → lookup k keyed ≡ none
    → lookup k (forget key n keyed) ≡ none
unfolding forget
forget-none key k n keyed e = ground (arith, lookup-remove key k keyed)

forget-own :
    (key : Text) (n : ℕ) (keyed : List (Text × ℕ))
    → lookup key keyed ≡ some n
    → lookup key (forget key n keyed) ≡ none
unfolding forget
forget-own key n keyed e =
    rw (e, ==_refl n) (lookup-remove key key keyed ∙ rw (text_eq_refl key) refl)

forget-other :
    (key k : Text) (n m : ℕ) (keyed : List (Text × ℕ))
    → lookup k keyed ≡ some m
    → (m == n) ≡ false
    → lookup k (forget key n keyed) ≡ some m
unfolding forget
forget-other key k n m keyed e h = elim (Bool-cases (text_eq key k)) [
  | inl same ↦ rw (ap (λ x. lookup x keyed) ((text_eq_iff key k).0 same) ∙ e, h) e
  | inr apart ↦
      elim (Bool-cases
        (elim (lookup key keyed) as (λ _. Bool) [ none ↦ false | some x ↦ x == n ])) [
          | inl last ↦ rw last (lookup-remove key k keyed ∙ rw apart e)
          | inr newer ↦ rw newer e
        ]
]

latest-landed :
    (next n : ℕ) (task : Task) (tasks : List Task) (keyed : List (Text × ℕ)) (k : Text)
    → find (numbered n) tasks ≡ some task
    → task.running ≡ true
    → IsTracked next tasks keyed
    → lookup k (forget task.key task.number keyed)
      ≡ number_of (find (with_key k) (delete_where (numbered task.number) tasks))
latest-landed next n task tasks keyed k e r t = elim (Option-cases (find (with_key k) tasks)) [
  | inl nothing ↦
      forget-none task.key k task.number keyed (t.latest k ∙ ap number_of nothing)
      ∙ sym (ap number_of (find-delete_none (with_key k) (numbered task.number) tasks nothing))
  | inr (s, there) ↦ elim (Bool-cases (s.number == task.number)) [
    | inl same ↦
        let this = same_task n (with_key k) tasks s task t.chained there e same in
        let key =
          sym (ap (λ x. x.key) this)
          ∙ (text_eq_iff s.key k).0 (find-holds (with_key k) tasks s there) in
        let gone = find-landed k tasks s t.chained there (ap (λ x. x.running) this ∙ r) in
        let number = ap (λ x. x.number) this in
        let entry =
          ap (λ x. lookup x keyed) key
          ∙ t.latest k
          ∙ ap number_of there
          ∙ ap (λ x. some x) number in
        ap (λ x. lookup x (forget task.key task.number keyed)) (sym key)
        ∙ forget-own task.key task.number keyed entry
        ∙ sym (
            ap number_of
              (ap (λ j. find (with_key k) (delete_where (numbered j) tasks)) (sym number) ∙ gone))
    | inr other ↦
        forget-other task.key k task.number s.number keyed (t.latest k ∙ ap number_of there) other
        ∙ sym (ap number_of (find-delete_other (with_key k) task.number tasks s there other))
  ]
]

pub land-IsTracked :
    (next n : ℕ) (task : Task) (tasks : List Task) (keyed : List (Text × ℕ))
    → find (numbered n) tasks ≡ some task
    → task.running ≡ true
    → IsTracked next tasks keyed
    → IsTracked next
        (delete_where (numbered task.number) tasks)
        (if is_latest task keyed then remove task.key keyed else keyed)
unfolding forget
land-IsTracked next n task tasks keyed e r t = record {
  chained = land-IsChained n tasks task t.chained e r;
  fresh = All-delete (λ s. s.number < next) (numbered task.number) tasks t.fresh;
  latest = λ k. latest-landed next n task tasks keyed k e r t;
}
