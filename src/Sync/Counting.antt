-- ===== src/Sync/Counting.antt =====
-- SyncSessionService.recordMailboxResult: which result is the last of its session.
use open_archiver.Prelude.{
  ℕ, suc, ◌+◌, ◌≤◌, ◌≡◌, refl, sym, ◌∙◌, ap, subst, ◌↔◌, inl, inr, true, false, Option, none, some,
  List, [], ◌∷◌, Text, arith, text_eq, text_eq_iff, find, update_where, map_option,
  find-update_where, find-update_where_ne, Bool-cases, if◌then◌else◌,
}
use native.Mathlib.Nat.{zero-add}
use open_archiver.Sync.Model.{
  pure, ◌>>◌, Session, StateValue, Db, done, Act, ◌>>=◌, or_raise, session_is, session_not_found,
}
use open_archiver.Sync.Session.{
  MailboxResult, synced, failed, skipped, MailboxOutcome, record_result, processed, outcome_of,
  merge_result, record_mailbox_result,
}

-- Results as they come in, each for its session.
abbrev pub Reports : Type 0
Reports = List (Text × MailboxResult)

abbrev pub count_for : Text → Reports → ℕ
count_for i [] = 0
count_for i ((j, r) ∷ rs) = if text_eq j i then suc (count_for i rs) else count_for i rs

record_result-processed :
    (r : MailboxResult) (now : ℕ) (s : Session)
    → processed (record_result r now s) ≡ processed s + 1
unfolding record_result
record_result-processed (synced state) now s = omega arith
record_result-processed (failed note) now s = omega arith
record_result-processed (skipped note) now s = omega arith

record_result-total :
    (r : MailboxResult) (now : ℕ) (s : Session)
    → (record_result r now s).total_mailboxes ≡ s.total_mailboxes
unfolding record_result
record_result-total (synced state) now s = refl
record_result-total (failed note) now s = refl
record_result-total (skipped note) now s = refl

record_result-id :
    (r : MailboxResult) (now : ℕ) (i : Text) (s : Session)
    → session_is i (record_result r now s) ≡ session_is i s
unfolding record_result
record_result-id (synced state) now i s = refl
record_result-id (failed note) now i s = refl
record_result-id (skipped note) now i s = refl

module _ (mixed : Text → List (Text × Text) → StateValue) where
  merge_result-sessions :
      (r : MailboxResult) (i : Text) (d : Db)
      → ((merge_result mixed r i d).0.sessions ≡ d.sessions)
        × ((merge_result mixed r i d).1 ≡ done tt)
  unfolding merge_result
  merge_result-sessions (synced []) i d = (refl, refl)
  merge_result-sessions (synced (e ∷ state)) i d = (refl, refl)
  merge_result-sessions (failed note) i d = (refl, refl)
  merge_result-sessions (skipped note) i d = (refl, refl)

  -- The end of recordMailboxResult, once the counters are written.
  abbrev after_count : Text → MailboxResult → ℕ → Option Session → Act MailboxOutcome
  after_count i r now found = do
    session ← or_raise found session_not_found
    merge_result mixed r session.ingestion_source_id
    pure (outcome_of (record_result r now session))

  after_count-keeps :
      (i : Text) (r : MailboxResult) (now : ℕ) (o : Option Session) (d : Db)
      → (after_count i r now o d).0.sessions ≡ d.sessions
  after_count-keeps i r now none d = refl
  after_count-keeps i r now (some s) d =
      let (kept, ended) = merge_result-sessions r s.ingestion_source_id d in
      ground (arith, kept, ended)

  after_count-result :
      (i : Text) (r : MailboxResult) (now : ℕ) (s : Session) (d : Db)
      → (after_count i r now (some s) d).1 ≡ done (outcome_of (record_result r now s))
  after_count-result i r now s d =
      let (kept, ended) = merge_result-sessions r s.ingestion_source_id d in
      ground (arith, kept, ended)

  record-sessions :
      (i : Text) (r : MailboxResult) (d : Db)
      → (record_mailbox_result mixed i r d).0.sessions
        ≡ update_where (session_is i) (record_result r d.now) d.sessions
  unfolding record_mailbox_result
  record-sessions i r d = after_count-keeps i r d.now (find (session_is i) d.sessions) _

  record-result :
      (i : Text) (r : MailboxResult) (d : Db) (s : Session)
      → find (session_is i) d.sessions ≡ some s
      → (record_mailbox_result mixed i r d).1 ≡ done (outcome_of (record_result r d.now s))
  unfolding record_mailbox_result
  record-result i r d s e =
      let d' = record d {
        sessions = update_where (session_is i) (record_result r d.now) d.sessions;
      } in
      ap (λ o. (after_count i r d.now o d').1) e ∙ after_count-result i r d.now s d'

  unfoldable pub record_all : Reports → Db → Db
  record_all [] d = d
  record_all ((i, r) ∷ rs) d = record_all rs (record_mailbox_result mixed i r d).0

  -- A session of this size, at this count of results, is in the table.
  record At (i : Text) (total count : ℕ) (sessions : List Session) : Type 0 where
    row : Session
    found : find (session_is i) sessions ≡ some row
    size : row.total_mailboxes ≡ total
    counted : processed row ≡ count

  record-At_self :
      (i : Text) (r : MailboxResult) (d : Db) {total count : ℕ}
      → At i total count d.sessions
      → At i total (suc count) (record_mailbox_result mixed i r d).0.sessions
  record-At_self i r d a = record {
    row = record_result r d.now a.row;
    found = rw (record-sessions i r d) (
        find-update_where (session_is i) (record_result r d.now) (record_result-id r d.now i)
          d.sessions
        ∙ ap (map_option (record_result r d.now)) a.found);
    size = record_result-total r d.now a.row ∙ a.size;
    counted = omega (arith, record_result-processed r d.now a.row, a.counted);
  }

  record-At_ne :
      (i j : Text) (r : MailboxResult) (d : Db) {total count : ℕ}
      → text_eq j i ≡ false
      → At i total count d.sessions
      → At i total count (record_mailbox_result mixed j r d).0.sessions
  record-At_ne i j r d ne a = record {
    row = a.row;
    size = a.size;
    counted = a.counted;
    found = rw (record-sessions j r d) (
        find-update_where_ne (session_is j) (session_is i) (record_result r d.now)
          (record_result-id r d.now i)
          (λ x h. ground (arith, text_eq_iff x.id i, text_eq_iff x.id j, text_eq_iff j i))
          d.sessions
        ∙ a.found);
  }

  record_all-At :
      (i : Text) (rs : Reports) (d : Db) (total count : ℕ)
      → At i total count d.sessions
      → At i total (count_for i rs + count) (record_all rs d).sessions
  unfolding record_all
  record_all-At i [] d total count a = rw zero-add a
  record_all-At i ((j, r) ∷ rs) d total count a = elim (Bool-cases (text_eq j i)) [
    | inl same ↦
        let e = (text_eq_iff j i).0 same in
        let next = record_all-At i rs (record_mailbox_result mixed j r d).0 total (suc count) (
          subst (λ k. At i total (suc count) (record_mailbox_result mixed k r d).0.sessions) (sym e)
            (record-At_self i r d a)) in
        subst (λ n. At i total n (record_all rs (record_mailbox_result mixed j r d).0).sessions)
          (rw same (omega arith)) next
    | inr other ↦ rw other (
        record_all-At i rs (record_mailbox_result mixed j r d).0 total count
          (record-At_ne i j r d other a))
  ]

  -- A session with nothing recorded yet, and results coming in for it and for others in any order:
  -- the next result for it is recorded, its counters give the number of results so far, and it is
  -- the last one exactly when that number has reached the session's mailboxes.
  pub result-is_last :
      (i : Text) (s : Session) (rs : Reports) (r : MailboxResult) (d : Db)
      → find (session_is i) d.sessions ≡ some s
      → processed s ≡ 0
      → (o : MailboxOutcome) × ((record_mailbox_result mixed i r (record_all rs d)).1 ≡ done o)
        × (o.total_completed + o.total_failed ≡ count_for i rs + 1)
        × ((o.is_last ≡ true) ↔ (s.total_mailboxes ≤ count_for i rs + 1))
  unfolding outcome_of
  result-is_last i s rs r d found fresh =
      let a =
        record_all-At i rs d s.total_mailboxes 0
          (record { row = s; found = found; size = refl; counted = fresh }) in
      let d' = record_all rs d in
      let done_row = record_result r d'.now a.row in
      let n = record_result-processed r d'.now a.row in
      let t = record_result-total r d'.now a.row in
      (
        outcome_of done_row,
        record-result i r d' a.row a.found,
        omega (arith, n, a.counted),
        ground (arith, n, t, a.counted, a.size),
      )
