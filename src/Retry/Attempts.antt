-- ===== src/Retry/Attempts.antt =====
-- withRetry: how many attempts are made, and which one is the result.
use open_archiver.Prelude.{
  subst, ℕ, zero, suc, ◌+◌, ◌-◌, ◌≤◌, ◌<◌, ◌≡◌, ◌∙◌, ◌⊎◌, inl, inr, Bool, true, false, not, ◌||◌,
  Option, none, some, leb, Bool-cases, arith,
}
use open_archiver.Retry.{Attempt, returned, failed, round, retry_from, with_retry}

absurd_lt : (n m : ℕ) → n ≤ m → m < n → ⊥
absurd_lt n m h l = omega (arith, h, l)

absurd_le : (a n : ℕ) → a < 1 + n → n < a → ⊥
absurd_le a n h l = omega (arith, h, l)

cases_le : (n m : ℕ) → n ≤ m → (n ≡ m) ⊎ (n + 1 ≤ m)
cases_le n m h = ground arith

module _ {A E : Type 0} (action : ℕ → Attempt A E) (is_retryable : E → Bool) (attempts : ℕ) where
  -- The loop goes on after the attempt: it failed in a way to retry, and it was not the last.
  abbrev pub goes_on : ℕ → Attempt A E → Bool
  goes_on n (returned a) = false
  goes_on n (failed e) = not (leb attempts n || not (is_retryable e))

  round-goes_on :
      (n : ℕ) (r : Attempt A E) (again : Option (ℕ × Attempt A E))
      → goes_on n r ≡ true
      → round action is_retryable attempts n r again ≡ again
  unfolding round
  round-goes_on n r again h = ground arith

  round-stops :
      (n : ℕ) (r : Attempt A E) (again : Option (ℕ × Attempt A E))
      → goes_on n r ≡ false
      → round action is_retryable attempts n r again ≡ some (n, r)
  unfolding round
  round-stops n r again h = ground arith

  goes_on-lt : (n : ℕ) (r : Attempt A E) → goes_on n r ≡ true → n < attempts
  goes_on-lt n r h = ground arith

  -- The attempt of this number ends the loop, and every attempt from the first on did not.
  abbrev pub IsEnd : ℕ → ℕ → Type 0
  IsEnd first n =
      (first ≤ n)
      × (goes_on n (action n) ≡ false)
      × ((m : ℕ) → first ≤ m → m < n → goes_on m (action m) ≡ true)

  bounded : (k : ℕ) → IsEnd 1 k → k ≤ suc (attempts - 1)
  bounded zero end = omega arith
  bounded (suc zero) end = omega arith
  bounded (suc (suc k)) (first, stop, before) =
      let last = goes_on-lt (suc k) (action (suc k)) (before (suc k) (omega arith) (omega arith)) in
      omega (arith, last)

  IsEnd-here : (n : ℕ) → goes_on n (action n) ≡ false → IsEnd n n
  IsEnd-here n stop = (omega arith, stop, λ m h l. elim (absurd_lt n m h l) [ ])

  IsEnd-later : (n k : ℕ) → goes_on n (action n) ≡ true → IsEnd (n + 1) k → IsEnd n k
  IsEnd-later n k on (after, stop, before) = (
    omega (arith, after),
    stop,
    λ m h l. elim (cases_le n m h) [
      | inl same ↦ subst (λ m. goes_on m (action m) ≡ true) same on
      | inr later ↦ before m later l
    ],
  )

  retry_from-IsEnd :
      (f n : ℕ)
      → attempts < suc f + n
      → (k : ℕ) × (retry_from action is_retryable attempts (suc f) n ≡ some (k, action k))
        × IsEnd n k
  unfolding retry_from
  retry_from-IsEnd zero n g = elim (Bool-cases (goes_on n (action n))) [
    | inr stop ↦ (n, round-stops n (action n) none stop, IsEnd-here n stop)
    | inl on ↦ elim (absurd_le attempts n g (goes_on-lt n (action n) on)) [ ]
  ]
  retry_from-IsEnd (suc f) n g =
      let rest = retry_from action is_retryable attempts (suc f) (n + 1) in
      let (k, e, end) = retry_from-IsEnd f (n + 1) (omega (arith, g)) in
      elim (Bool-cases (goes_on n (action n))) [
        | inr stop ↦ (n, round-stops n (action n) rest stop, IsEnd-here n stop)
        | inl on ↦ (k, round-goes_on n (action n) rest on ∙ e, IsEnd-later n k on end)
      ]

  -- withRetry always ends: its result is that of the first attempt that returns, fails in a way
  -- that is not to be retried, or is the last one allowed, and no attempt comes after it. At least
  -- one attempt is made, and at most `attempts` where that is not zero.
  pub with_retry-ends :
      (k : ℕ) × (with_retry action is_retryable attempts ≡ some (k, action k))
      × IsEnd 1 k
      × (k ≤ suc (attempts - 1))
  unfolding with_retry
  with_retry-ends =
      let (k, e, end) = retry_from-IsEnd attempts 1 (omega arith) in (k, e, end, bounded k end)
