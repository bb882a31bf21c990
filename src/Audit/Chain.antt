-- ===== src/Audit/Chain.antt =====
-- packages/backend/src/services/AuditService.ts: what verifyAuditLog says of a table, and that
-- createAuditLog keeps the chain whole.
use open_archiver.Prelude.{
  text_eq_iff, ℕ, zero, suc, ◌+◌, ◌<◌, ◌≡◌, refl, sym, ap, ◌∙◌, ◌↔◌, true, Option, none, some, List,
  [], ◌∷◌, ◌++◌, Text, take, drop, length, take-append-drop, length-drop, drop-drop, arith,
}
use open_archiver.Audit.{
  Entry, Row, Table, empty_table, latest_hash, same_hash, Verdict, verified, corrupt, Scan, fault,
  passed, next_page, calculate_hash, create_audit_log, scan, read_page, verify_pages,
  verify_audit_log,
}

pub same_hash_iff : (a b : Option Text) → (same_hash a b ≡ true) ↔ (a ≡ b)
same_hash_iff none none = ground arith
same_hash_iff none (some b) = ground arith
same_hash_iff (some a) none = ground arith
same_hash_iff (some a) (some b) = ground (arith, text_eq_iff a b)

abbrev then_scan : Scan → (Option Text → Scan) → Scan
then_scan (fault v) k = fault v
then_scan (passed p) k = k p

-- The verdict on a table whose one scan gives this.
abbrev pub outcome : Scan → Verdict
outcome (fault f) = corrupt f
outcome (passed p) = verified

next_page-outcome :
    (c : Scan) (k : Option Text → Scan) (again : Option Text → Option Verdict)
    → ((q : Option Text) → again q ≡ some (outcome (k q)))
    → next_page c again ≡ some (outcome (then_scan c k))
next_page-outcome (fault f) k again h = refl
next_page-outcome (passed p) k again h = h p

-- The hash that a row after these must name.
abbrev pub end_hash : Option Text → List Row → Option Text
end_hash p [] = p
end_hash p (log ∷ logs) = end_hash (some log.current_hash) logs

latest_hash-end_hash :
    (log : Row) (logs : List Row) → latest_hash (log ∷ logs) ≡ end_hash (some log.current_hash) logs
unfolding latest_hash
latest_hash-end_hash log [] = refl
latest_hash-end_hash log (next ∷ logs) = latest_hash-end_hash next logs

latest_hash_lem : (rows : List Row) → latest_hash rows ≡ end_hash none rows
unfolding latest_hash
latest_hash_lem [] = refl
latest_hash_lem (log ∷ logs) = latest_hash-end_hash log logs

module _ (sha256 : Text → Text) where
  scan-append :
      (p : Option Text) (xs ys : List Row)
      → scan sha256 p (xs ++ ys) ≡ then_scan (scan sha256 p xs) (λ q. scan sha256 q ys)
  unfolding scan
  scan-append p [] ys = refl
  scan-append p (log ∷ logs) ys = ground (arith, scan-append (some log.current_hash) logs ys)

  page_scan :
      (s : ℕ) (rest : List Row) (p : Option Text) (again : Option Text → Option Verdict)
      → (0 < length rest
          → (q : Option Text) → again q ≡ some (outcome (scan sha256 q (drop (suc s) rest))))
      → read_page sha256 (take (suc s) rest) p again ≡ some (outcome (scan sha256 p rest))
  page_scan s [] p again h = unfold scan in refl
  page_scan s (r ∷ rest) p again h =
      next_page-outcome (scan sha256 p (r ∷ take s rest)) (λ q. scan sha256 q (drop s rest)) again
        (h (omega arith))
      ∙ ap (λ c. some (outcome c))
          (sym (scan-append p (r ∷ take s rest) (drop s rest))
            ∙ ap (λ l. scan sha256 p (r ∷ l)) (take-append-drop s rest))

  -- From any offset, reading page after page gives what one scan of the rest gives.
  pub verify_pages-scan :
      (f size : ℕ) (rows : List Row) (offset : ℕ) (p : Option Text)
      → 0 < size
      → length (drop offset rows) < f
      → verify_pages sha256 f size rows offset p ≡ some (outcome (scan sha256 p (drop offset rows)))
  unfolding verify_pages
  verify_pages-scan zero size rows offset p h k = elim k [ ]
  verify_pages-scan (suc f) zero rows offset p h k = elim h [ ]
  verify_pages-scan (suc f) (suc s) rows offset p h k =
      page_scan s (drop offset rows) p (λ q. verify_pages sha256 f (suc s) rows (offset + suc s) q)
        (λ some_left q.
          verify_pages-scan f (suc s) rows (offset + suc s) q h (
            omega (
              arith,
              length-drop {0} (suc s) (drop offset rows),
              ap length (drop-drop offset (suc s) rows),
            ))
          ∙ rw (drop-drop offset (suc s) rows))

  -- A chain from the hash `p` on: each row names the hash before it and holds its own.
  abbrev pub IsChained : Option Text → List Row → Type 0
  IsChained p [] = Unit {0}
  IsChained p (log ∷ logs) =
      (log.content.previous_hash ≡ p)
      × (log.current_hash ≡ calculate_hash sha256 log.content)
      × IsChained (some log.current_hash) logs

  scan-IsChained :
      (p : Option Text) (rows : List Row) (q : Option Text)
      → scan sha256 p rows ≡ passed q
      → IsChained p rows
  unfolding scan
  scan-IsChained p [] q h = tt
  scan-IsChained p (log ∷ logs) q h = ground (
    arith,
    same_hash_iff log.content.previous_hash p,
    text_eq_iff log.current_hash (calculate_hash sha256 log.content),
    scan-IsChained (some log.current_hash) logs q,
  )

  scan_of_IsChained :
      (p : Option Text) (rows : List Row)
      → IsChained p rows
      → scan sha256 p rows ≡ passed (end_hash p rows)
  unfolding scan
  scan_of_IsChained p [] h = refl
  scan_of_IsChained p (log ∷ logs) h = ground (
    arith,
    same_hash_iff log.content.previous_hash p,
    text_eq_iff log.current_hash (calculate_hash sha256 log.content),
    scan_of_IsChained (some log.current_hash) logs,
  )

  IsChained-append :
      (p : Option Text) (rows : List Row) (log : Row)
      → IsChained p rows
      → log.content.previous_hash ≡ end_hash p rows
      → log.current_hash ≡ calculate_hash sha256 log.content
      → IsChained p (rows ++ log ∷ [])
  IsChained-append p [] log h e c = (e, c, tt)
  IsChained-append p (r ∷ rows) log h e c =
      (h.0, h.1, IsChained-append (some r.current_hash) rows log h.2 e c)

  IsChained-prefix :
      (p : Option Text) (rows more : List Row) → IsChained p (rows ++ more) → IsChained p rows
  IsChained-prefix p [] more h = tt
  IsChained-prefix p (r ∷ rows) more h =
      (h.0, h.1, IsChained-prefix (some r.current_hash) rows more h.2)

  pub verify_audit_log-scan :
      (t : Table) → verify_audit_log sha256 t ≡ some (outcome (scan sha256 none t.rows))
  unfolding verify_audit_log
  verify_audit_log-scan t =
      verify_pages-scan (suc (length t.rows)) 1000 t.rows 0 none (omega arith) (omega arith)

  outcome-IsChained :
      (t : Table) (c : Scan)
      → scan sha256 none t.rows ≡ c
      → outcome c ≡ verified
      → IsChained none t.rows
  outcome-IsChained t (fault f) e h = absurd (cc)
  outcome-IsChained t (passed q) e h = scan-IsChained none t.rows q e

  pub verified_iff :
      (t : Table) → (verify_audit_log sha256 t ≡ some verified) ↔ IsChained none t.rows
  verified_iff t = (
    λ h. outcome-IsChained t (scan sha256 none t.rows) refl (cc (h, verify_audit_log-scan t)),
    λ h. verify_audit_log-scan t ∙ ap (λ c. some (outcome c)) (scan_of_IsChained none t.rows h),
  )

  -- verifyAuditLog always ends with a verdict, and the verdict is "verified" exactly when every
  -- row of the table names the hash of the row before it (the first one none) and holds the hash
  -- of its content.
  pub verify_iff :
      (t : Table)
      → ((v : Verdict) × (verify_audit_log sha256 t ≡ some v))
        × ((verify_audit_log sha256 t ≡ some verified) ↔ IsChained none t.rows)
  verify_iff t = ((_, verify_audit_log-scan t), verified_iff t)

  -- createAuditLog, on a table that verifies, leaves one that verifies.
  pub create-verified :
      (e : Entry) (now : ℕ) (t : Table)
      → IsChained none t.rows
      → IsChained none (create_audit_log sha256 e now t).rows
  unfolding create_audit_log
  create-verified e now t h = IsChained-append none t.rows _ h (latest_hash_lem t.rows) refl

  -- The table after a history of recorded entries, each with its time.
  abbrev pub record_all : List (Entry × ℕ) → Table → Table
  record_all [] t = t
  record_all ((e, now) ∷ es) t = record_all es (create_audit_log sha256 e now t)

  record_all-IsChained :
      (es : List (Entry × ℕ)) (t : Table)
      → IsChained none t.rows
      → IsChained none (record_all es t).rows
  record_all-IsChained [] t h = h
  record_all-IsChained ((e, now) ∷ es) t h =
      record_all-IsChained es (create_audit_log sha256 e now t) (create-verified e now t h)

  -- Every table that createAuditLog alone has written, from an empty one, verifies.
  pub record_all-verified :
      (es : List (Entry × ℕ)) → verify_audit_log sha256 (record_all es empty_table) ≡ some verified
  record_all-verified es = (verified_iff _).1 (record_all-IsChained es empty_table tt)

  -- A table that verifies still verifies when any number of its last rows are deleted, although
  -- the message then says that the chain is complete.
  pub truncated-verified :
      (rows deleted : List Row) (n : ℕ)
      → verify_audit_log sha256 (record { rows = rows ++ deleted; next_id = n }) ≡ some verified
      → verify_audit_log sha256 (record { rows = rows; next_id = n }) ≡ some verified
  truncated-verified rows deleted n h =
      (verified_iff _).1 (IsChained-prefix none rows deleted ((verified_iff _).0 h))
