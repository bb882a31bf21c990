-- ===== src/Retry.antt =====
-- packages/backend/src/services/ingestion-connectors/helpers/retry.ts. The wait between two
-- attempts, whose length has a random part, is left out.
use open_archiver.Prelude.{
  ℕ, zero, suc, ◌+◌, Bool, true, false, not, ◌||◌, ◌&&◌, Option, none, some, List, [], ◌∷◌, ◌++◌,
  Text, codes, length, ltb, leb, ◌==◌, if◌then◌else◌,
}
pub mod Attempts
pub mod Runs
pub mod Tests

unfoldable pub is_retryable_status : Option ℕ → Bool
is_retryable_status none = false
is_retryable_status (some status) =
    (status == 408) || ((status == 429) || (leb 500 status && leb status 599))

pub data Attempt (A E : Type 0) : Type 0 where
  returned : A → Attempt A E
  failed : E → Attempt A E

module _ {A E : Type 0} (action : ℕ → Attempt A E) (is_retryable : E → Bool) (attempts : ℕ) where
  -- One round of the loop, from what the attempt gave; `again` goes on with the next.
  unfoldable pub round : ℕ → Attempt A E → Option (ℕ × Attempt A E) → Option (ℕ × Attempt A E)
  round attempt (returned a) again = some (attempt, returned a)
  round attempt (failed e) again =
      if leb attempts attempt || not (is_retryable e) then some (attempt, failed e) else again

  -- The loop from this attempt on, with the number of the attempt that ended it; `none` means
  -- that the fuel ran out. `action n` is what the action does when it is run the n-th time.
  unfoldable pub retry_from : ℕ → ℕ → Option (ℕ × Attempt A E)
  retry_from zero attempt = none
  retry_from (suc f) attempt = round attempt (action attempt) (retry_from f (attempt + 1))

  -- withRetry: no attempt comes after that of the number `attempts`.
  unfoldable pub with_retry : Option (ℕ × Attempt A E)
  with_retry = retry_from (suc attempts) 1

abbrev pub max_consecutive_failures : ℕ
max_consecutive_failures = 10

abbrev pub max_samples : ℕ
max_samples = 5

pub record MessageFailureTally : Type 0 where
  pub count : ℕ
  pub consecutive : ℕ
  pub samples : List Text

abbrev pub new_tally : MessageFailureTally
new_tally = record { count = 0; consecutive = 0; samples = [] }

unfoldable pub succeeded : MessageFailureTally → MessageFailureTally
succeeded t = record t { consecutive = 0 }

-- The tally after a skipped message.
unfoldable pub add_failure : Text → Text → MessageFailureTally → MessageFailureTally
add_failure subject message t = record {
  count = t.count + 1;
  consecutive = t.consecutive + 1;
  samples =
      if ltb (length t.samples) max_samples
      then t.samples ++ (subject ++ (codes ": " ++ message)) ∷ []
      else t.samples;
}

-- record: the tally, and whether it throws.
unfoldable pub record_failure : Text → Text → MessageFailureTally → MessageFailureTally × Bool
record_failure subject message t =
    let t' = add_failure subject message t in (t', leb max_consecutive_failures t'.consecutive)
