-- ===== src/Retry/Tests.antt =====
-- Runs of the retry helpers, and the theorems at them.
use open_archiver.Prelude.{
  ℕ, zero, suc, ◌-◌, ◌≤◌, ◌≡◌, refl, Bool, true, some, List, [], ◌∷◌, Text, codes, take,
}
use open_archiver.Retry.{
  Attempt, returned, failed, round, retry_from, with_retry, is_retryable_status, new_tally,
  record_failure, add_failure,
}
use open_archiver.Retry.Attempts.{IsEnd, with_retry-ends}
use open_archiver.Retry.Runs.{
  Event, skipped, run_events, has_streak, fails_first, messages, run_events-streak,
  run_events-result,
}

-- An action that is throttled twice.
abbrev throttled : ℕ → Attempt Text ℕ
throttled zero = returned []
throttled (suc zero) = failed 429
throttled (suc (suc zero)) = failed 503
throttled n = returned (codes "body")

abbrev transient : ℕ → Bool
transient status = is_retryable_status (some status)

retry_test : with_retry throttled transient 3 ≡ some (3, returned (codes "body"))
unfolding with_retry retry_from round is_retryable_status
retry_test = refl

with_retry-ends_example :
    (k : ℕ) × (with_retry throttled transient 3 ≡ some (k, throttled k))
    × IsEnd throttled transient 3 1 k
    × (k ≤ suc (3 - 1))
with_retry-ends_example = with_retry-ends throttled transient 3

abbrev miss : Event
miss = skipped (codes "m") (codes "e")

abbrev nine : List Event
nine = miss ∷ miss ∷ miss ∷ miss ∷ miss ∷ miss ∷ miss ∷ miss ∷ miss ∷ []

run_events-streak_example : (run_events (miss ∷ nine) new_tally).1 ≡ true
unfolding has_streak fails_first
run_events-streak_example = run_events-streak (miss ∷ nine)

run_events-result_example :
    ((run_events nine new_tally).0.count ≡ 9)
    × ((run_events nine new_tally).0.samples ≡ take 5 (messages nine))
unfolding run_events record_failure add_failure
run_events-result_example = run_events-result nine refl
