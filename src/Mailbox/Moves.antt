-- ===== src/Mailbox/Moves.antt =====
-- A task that begins or lands leaves the tasks chained.
use open_archiver.Prelude.{
  ℕ, ◌<◌, ◌≡◌, refl, sym, ap, ◌∙◌, subst, inl, inr, Bool, true, Option, none, some, List, [], ◌∷◌,
  find, any, update_where, delete_where, find-holds, map_option, All, ◌==◌, ==_iff, if◌then◌else◌,
  Bool-cases, Option-cases, arith,
}
use open_archiver.Mailbox.{Task, numbered, with_key, is_settled}
use open_archiver.Mailbox.Chain.{
  All-delete, IsBefore, IsChained, IsLinked, delete-none, find-delete_none, find-delete_other,
  find-landed, find-numbered, found_first, found_later, found_same, other_number,
}

abbrev pub set_running : Task → Task
set_running task = record task { running = true }

update-none :
    (n : ℕ) (tasks : List Task)
    → All (λ s. s.number < n) tasks
    → update_where (numbered n) set_running tasks ≡ tasks
update-none n [] h = refl
update-none n (task ∷ tasks) (h, hs) = ground (arith, update-none n tasks hs)

pub All-update :
    (n m : ℕ) (tasks : List Task)
    → All (λ s. s.number < m) tasks
    → All (λ s. s.number < m) (update_where (numbered n) set_running tasks)
All-update n m [] h = tt
All-update n m (task ∷ tasks) (h, hs) = elim (Bool-cases (task.number == n)) [
  | inl e ↦ rw e (h, All-update n m tasks hs)
  | inr e ↦ rw e (h, All-update n m tasks hs)
]

find-any :
    (p : Task → Bool) (tasks : List Task) (s : Task) → find p tasks ≡ some s → any p tasks ≡ true
find-any p [] s e = ground arith
find-any p (task ∷ tasks) s e = ground (arith, find-any p tasks s)

pub find-update :
    (p : Task → Bool) (n : ℕ)
    → ((t : Task) → p (set_running t) ≡ p t)
    → (tasks : List Task)
    → find p (update_where (numbered n) set_running tasks)
      ≡ map_option (λ s. if numbered n s then set_running s else s) (find p tasks)
find-update p n keep [] = refl
find-update p n keep (task ∷ tasks) = ground (arith, keep task, find-update p n keep tasks)

IsBefore-running : (o : Option ℕ) (task : Task) → IsBefore o task → IsBefore o (set_running task)
unfolding IsBefore
IsBefore-running none task h = tt
IsBefore-running (some n) task h = h

-- A task that waits for one in flight is not settled.
linked_settled :
    (o : Option Task) (task : Task) (older : List Task)
    → IsLinked o task
    → ((s : Task) → o ≡ some s → find (numbered s.number) older ≡ some s)
    → is_settled task.prior (task ∷ older) ≡ true
    → o ≡ none
unfolding IsLinked is_settled
linked_settled none task older l f h = refl
linked_settled (some s) task older (p, w) f h = ground (
  arith,
  find-any (numbered s.number) older s (f s refl),
  subst (λ o. is_settled o (task ∷ older) ≡ true) p h,
)

IsLinked-update :
    (n : ℕ) (o : Option Task) (task : Task)
    → IsLinked o task
    → IsLinked (map_option (λ s. if numbered n s then set_running s else s) o) task
unfolding IsLinked
IsLinked-update n none task l = tt
IsLinked-update n (some s) task (p, w) = elim (Bool-cases (s.number == n)) [
  | inl e ↦ rw e (p, w)
  | inr e ↦ rw e (p, w)
]

settled-older :
    (prior : Option ℕ) (task : Task) (older : List Task)
    → is_settled prior (task ∷ older) ≡ true
    → is_settled prior older ≡ true
unfolding is_settled
settled-older none task older h = refl
settled-older (some n) task older h = ground arith

pub begin-IsChained :
    (n : ℕ) (tasks : List Task) (task : Task)
    → IsChained tasks
    → find (numbered n) tasks ≡ some task
    → is_settled task.prior tasks ≡ true
    → IsChained (update_where (numbered n) set_running tasks)
unfolding IsChained
begin-IsChained n [] task h e f = tt
begin-IsChained n (t ∷ older) task (l, (b, (q, h))) e f = elim (Bool-cases (t.number == n)) [
  | inl here ↦ rw here (
      let own = found_first (numbered n) older here e in
      let alone =
        linked_settled (find (with_key t.key) older) t older l
          (λ s g. find-numbered (with_key t.key) older s h g)
          (ap (λ x. is_settled x.prior (t ∷ older)) own ∙ f) in
      let same =
        update-none n older
          (subst (λ k. All (λ s. s.number < k) older) ((==_iff t.number n).0 here) b) in
      subst
        (λ o.
          IsLinked (find (with_key t.key) o) (set_running t)
          × (All (λ s. s.number < t.number) o × (IsBefore t.prior (set_running t) × IsChained o)))
        (sym same)
        (
          subst (λ o. IsLinked o (set_running t)) (sym alone) tt,
          (b, (IsBefore-running t.prior t q, h)),
        ))
  | inr later ↦ rw later (
    subst (λ o. IsLinked o t) (sym (find-update (with_key t.key) n (λ _. refl) older))
        (IsLinked-update n (find (with_key t.key) older) t l),
    (
      All-update n t.number older b,
      (
        q,
        begin-IsChained n older task h (found_later (numbered n) older later e)
            (settled-older task.prior t older f),
      ),
    ),
  )
]

-- A task found by its number and one found by another test are the same.
pub same_task :
    (n : ℕ) (p : Task → Bool) (tasks : List Task) (s task : Task)
    → IsChained tasks
    → find p tasks ≡ some s
    → find (numbered n) tasks ≡ some task
    → (s.number == task.number) ≡ true
    → s ≡ task
same_task n p tasks s task h there e same =
    let number =
      (==_iff s.number task.number).0 same
      ∙ (==_iff task.number n).0 (find-holds (numbered n) tasks task e) in
    found_same (find (numbered s.number) tasks) (find-numbered p tasks s h there)
      (ap (λ k. find (numbered k) tasks) number ∙ e)

-- What is left for a task to wait for when another one has landed.
landed-IsLinked :
    (n : ℕ) (t task : Task) (older : List Task)
    → IsChained older
    → find (numbered n) older ≡ some task
    → task.running ≡ true
    → IsLinked (find (with_key t.key) older) t
    → IsLinked (find (with_key t.key) (delete_where (numbered task.number) older)) t
unfolding IsLinked
landed-IsLinked n t task older h e r l = elim (Option-cases (find (with_key t.key) older)) [
  | inl nothing ↦ rw (find-delete_none (with_key t.key) (numbered task.number) older nothing) tt
  | inr (s, there) ↦ elim (Bool-cases (s.number == task.number)) [
    | inl same ↦
        let this = same_task n (with_key t.key) older s task h there e same in
        let gone = find-landed t.key older s h there (ap (λ x. x.running) this ∙ r) in
        subst (λ k. IsLinked (find (with_key t.key) (delete_where (numbered k) older)) t)
          ((==_iff s.number task.number).0 same) (subst (λ o. IsLinked o t) (sym gone) tt)
    | inr other ↦
        subst (λ o. IsLinked o t)
          (there ∙ sym (find-delete_other (with_key t.key) task.number older s there other)) l
  ]
]

pub land-IsChained :
    (n : ℕ) (tasks : List Task) (task : Task)
    → IsChained tasks
    → find (numbered n) tasks ≡ some task
    → task.running ≡ true
    → IsChained (delete_where (numbered task.number) tasks)
unfolding IsChained
land-IsChained n [] task h e r = tt
land-IsChained n (t ∷ older) task (l, (b, (q, h))) e r =
    elim (Bool-cases (t.number == task.number)) [
      | inl here ↦ rw here (
          subst IsChained
            (sym (
              delete-none task.number older (
                subst (λ k. All (λ s. s.number < k) older) ((==_iff t.number task.number).0 here)
                  b)))
            h)
      | inr later ↦ rw later (
          let there =
            found_later (numbered n) older
              (other_number t.number task.number n later
                (find-holds (numbered n) (t ∷ older) task e))
              e in
          (
            landed-IsLinked n t task older h there r l,
            (
              All-delete (λ s. s.number < t.number) (numbered task.number) older b,
              (q, land-IsChained n older task h there r),
            ),
          ))
    ]
