-- ===== src/Audit/Faults.antt =====
-- packages/backend/src/services/AuditService.ts: which row verifyAuditLog reports, and how.
use open_archiver.Prelude.{
  text_eq, text_eq_iff, ◌≡◌, refl, ap, Option, none, some, List, [], ◌∷◌, ◌++◌, Text, arith,
  Bool-cases, ◌≢◌, ◌⊎◌, inl, inr,
}
use open_archiver.Audit.{
  Row, Table, same_hash, Fault, corrupt, chain_broken, tampered, Scan, fault, passed,
  calculate_hash, scan, verify_audit_log,
}
use open_archiver.Audit.Chain.{same_hash_iff, end_hash, outcome, IsChained, verify_audit_log-scan}

module _ (sha256 : Text → Text) where
  -- The first row at which a chain from `p` breaks, and how.
  pub record FirstFault (p : Option Text) (rows : List Row) (f : Fault) : Type 0 where
    pub before : List Row
    pub culprit : Row
    pub after : List Row
    pub split : rows ≡ before ++ culprit ∷ after
    pub chained : IsChained sha256 p before
    pub reason :
        ((f ≡ chain_broken culprit.id) × (culprit.content.previous_hash ≢ end_hash p before))
        ⊎ ((f ≡ tampered culprit.id)
            × (culprit.content.previous_hash ≡ end_hash p before)
            × (culprit.current_hash ≢ calculate_hash sha256 culprit.content))

  scan-FirstFault :
      (p : Option Text) (rows : List Row) (f : Fault)
      → scan sha256 p rows ≡ fault f
      → FirstFault p rows f
  unfolding scan
  scan-FirstFault p [] f h = absurd (cc)
  scan-FirstFault p (log ∷ logs) f h = elim (Bool-cases (same_hash log.content.previous_hash p)) [
    | inr broken ↦ record {
      before = [];
      culprit = log;
      after = logs;
      split = refl;
      chained = tt;
      reason = inl (ground arith, ground (arith, same_hash_iff log.content.previous_hash p));
    }
    | inl linked ↦
        elim (Bool-cases (text_eq log.current_hash (calculate_hash sha256 log.content))) [
          | inr changed ↦ record {
            before = [];
            culprit = log;
            after = logs;
            split = refl;
            chained = tt;
            reason = inr (
              ground arith,
              ground (arith, same_hash_iff log.content.previous_hash p),
              ground (arith, text_eq_iff log.current_hash (calculate_hash sha256 log.content)),
            );
          }
          | inl sound ↦
              let rest = scan-FirstFault (some log.current_hash) logs f (ground arith) in
              record {
                before = log ∷ rest.before;
                culprit = rest.culprit;
                after = rest.after;
                split = ap (λ l. log ∷ l) rest.split;
                chained = ((same_hash_iff _ _).0 linked, (text_eq_iff _ _).0 sound, rest.chained);
                reason = rest.reason;
              }
        ]
  ]

  outcome-FirstFault :
      (t : Table) (f : Fault) (c : Scan)
      → scan sha256 none t.rows ≡ c
      → outcome c ≡ corrupt f
      → FirstFault none t.rows f
  outcome-FirstFault t f (fault g) e h = scan-FirstFault none t.rows f (cc)
  outcome-FirstFault t f (passed q) e h = absurd (cc)

  -- When verifyAuditLog reports a fault, the row that it names is the first bad one: all rows
  -- before it are chained, and it names another previous hash ("broken") or, its previous hash
  -- being right, does not hold the hash of its content ("tampered").
  pub verify-FirstFault :
      (t : Table) (f : Fault)
      → verify_audit_log sha256 t ≡ some (corrupt f)
      → FirstFault none t.rows f
  verify-FirstFault t f h =
      outcome-FirstFault t f (scan sha256 none t.rows) refl (cc (h, verify_audit_log-scan sha256 t))
