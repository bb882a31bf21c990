-- ===== src/Retry/Runs.antt =====
-- MessageFailureTally over the messages of a mailbox: when it gives up, and what it reports.
use open_archiver.Prelude.{
  true-false, length-append, ℕ, zero, suc, ◌+◌, ◌≤◌, ◌≡◌, refl, sym, ◌∙◌, ap, inl, inr, Bool, true,
  false, ◌||◌, List, [], ◌∷◌, ◌++◌, Text, codes, length, take, take-append, append_assoc,
  append-nil, ltb, leb, Bool-cases, arith, if◌then◌else◌,
}
use open_archiver.Retry.{MessageFailureTally, new_tally, succeeded, add_failure, record_failure}

pub data Event : Type 0 where
  archived : Event
  skipped : Text → Text → Event

-- The messages of a mailbox in turn, up to the failure that ends it: the tally, and whether one did.
unfoldable pub run_events : List Event → MessageFailureTally → MessageFailureTally × Bool
run_events [] t = (t, false)
run_events (archived ∷ es) t = run_events es (succeeded t)
run_events (skipped subject message ∷ es) t =
    let t' = (record_failure subject message t).0 in
    let rest = run_events es t' in if (record_failure subject message t).1 then (t', true) else rest

-- The events begin with this many failures.
unfoldable pub fails_first : ℕ → List Event → Bool
fails_first zero es = true
fails_first (suc n) [] = false
fails_first (suc n) (archived ∷ es) = false
fails_first (suc n) (skipped subject message ∷ es) = fails_first n es

-- This many failures come one after the other somewhere in the events.
unfoldable pub has_streak : ℕ → List Event → Bool
unfolding fails_first
has_streak n [] = fails_first n []
has_streak n (e ∷ es) = fails_first n (e ∷ es) || has_streak n es

fails_first_mono :
    (a b : ℕ) (es : List Event) → b ≤ a → fails_first a es ≡ true → fails_first b es ≡ true
unfolding fails_first
fails_first_mono a zero es h e = refl
fails_first_mono zero (suc b) es h e = elim (no_suc b h) [ ]
  where
    no_suc : (b : ℕ) → suc b ≤ 0 → ⊥
    no_suc b h = omega (arith, h)
fails_first_mono (suc a) (suc b) [] h e = ground arith
fails_first_mono (suc a) (suc b) (archived ∷ es) h e = ground arith
fails_first_mono (suc a) (suc b) (skipped s m ∷ es) h e =
    fails_first_mono a b es (omega (arith, h)) e

streak-absorbs : (n : ℕ) (es : List Event) → (fails_first n es || has_streak n es) ≡ has_streak n es
unfolding has_streak
streak-absorbs n [] = ground arith
streak-absorbs n (e ∷ es) = ground arith

-- With `a + 1` more failures to go, the events end the mailbox when they begin with those.
run_events-aborts :
    (es : List Event) (t : MessageFailureTally) (a : ℕ)
    → t.consecutive + suc a ≡ 10
    → (run_events es t).1 ≡ (fails_first (suc a) es || has_streak 10 es)
unfolding run_events has_streak fails_first succeeded record_failure add_failure
run_events-aborts [] t a h = refl
run_events-aborts (archived ∷ es) t a h =
    run_events-aborts es (succeeded t) 9 refl ∙ streak-absorbs 10 es
run_events-aborts (skipped s m ∷ es) t zero h = ground (arith, h)
run_events-aborts (skipped s m ∷ es) t (suc a) h =
    let rest = run_events-aborts es (add_failure s m t) a (omega (arith, h)) in
    ground (arith, h, rest, fails_first_mono 9 (suc a) es)

-- A mailbox is given up exactly when ten of its messages fail one after the other, with no success
-- in between.
pub run_events-streak : (es : List Event) → (run_events es new_tally).1 ≡ has_streak 10 es
run_events-streak es = run_events-aborts es new_tally 9 refl ∙ streak-absorbs 10 es

-- What a sample says of each failure.
abbrev pub messages : List Event → List Text
messages [] = []
messages (archived ∷ es) = messages es
messages (skipped subject message ∷ es) = (subject ++ (codes ": " ++ message)) ∷ messages es

take-samples :
    (s : List Text) (m : Text) (ms : List Text)
    → length s ≤ 5
    → take 5 ((if ltb (length s) 5 then s ++ m ∷ [] else s) ++ ms) ≡ take 5 (s ++ m ∷ ms)
take-samples s m ms h = elim (Bool-cases (ltb (length s) 5)) [
  | inl short ↦ rw (short, append_assoc s (m ∷ []) ms) refl
  | inr full ↦
      rw full (take-append 5 s ms (ground arith) ∙ sym (take-append 5 s (m ∷ ms) (ground arith)))
]

take-all : (n : ℕ) (s : List Text) → length s ≤ n → take n s ≡ s
take-all zero [] h = refl
take-all zero (m ∷ s) h = elim (absurd_suc (length s) h) [ ]
  where
    absurd_suc : (n : ℕ) → suc n ≤ 0 → ⊥
    absurd_suc n h = omega (arith, h)
take-all (suc n) [] h = refl
take-all (suc n) (m ∷ s) h = ap (λ s. m ∷ s) (take-all n s (omega (arith, h)))

samples-length :
    (s : List Text) (m : Text)
    → length s ≤ 5
    → length (if ltb (length s) 5 then s ++ m ∷ [] else s) ≤ 5
samples-length s m h = ground (arith, h, length-append s (m ∷ []))

run_events-counts :
    (es : List Event) (t : MessageFailureTally)
    → length t.samples ≤ 5
    → (run_events es t).1 ≡ false
    → ((run_events es t).0.count ≡ t.count + length (messages es))
      × ((run_events es t).0.samples ≡ take 5 (t.samples ++ messages es))
unfolding run_events succeeded record_failure add_failure
run_events-counts [] t h e =
    (omega arith, sym (take-all 5 t.samples h) ∙ ap (take 5) (sym (append-nil t.samples)))
run_events-counts (archived ∷ es) t h e = run_events-counts es (succeeded t) h e
run_events-counts (skipped s m ∷ es) t h e = elim (Bool-cases (leb 10 (t.consecutive + 1))) [
  | inl last ↦ elim (true-false (ground (arith, e, last))) [ ]
  | inr more ↦
      let note = s ++ (codes ": " ++ m) in
      let (count, samples) =
        run_events-counts es (add_failure s m t) (samples-length t.samples note h)
          (ground (arith, e, more)) in
      rw more (omega (arith, count), samples ∙ take-samples t.samples note (messages es) h)
]

-- For a mailbox that is not given up, the tally reports the number of the failures and the first
-- five of them.
pub run_events-result :
    (es : List Event)
    → (run_events es new_tally).1 ≡ false
    → ((run_events es new_tally).0.count ≡ length (messages es))
      × ((run_events es new_tally).0.samples ≡ take 5 (messages es))
run_events-result es e =
    let (count, samples) = run_events-counts es new_tally (omega arith) e in
    (omega (arith, count), samples)
