-- ===== src/Mfa/Audited.antt =====
-- MfaService.ts and AuditService.ts together: every call keeps the audit log verifiable, and each
-- verification leaves one entry that says how it ended.
use open_archiver.Prelude.{
  ◌≡◌, refl, sym, subst, inl, inr, Bool, true, false, none, some, List, [], ◌∷◌, ◌++◌, Text, codes,
  Bool-cases, Option-cases,
}
use open_archiver.Audit.{
  Row, Table, new_row, create_audit_log, verify_audit_log, verified, sanitize_entry,
}
use open_archiver.Audit.Canonical.{Value}
use open_archiver.Audit.Chain.{IsChained, create-verified, verified_iff}
use open_archiver.Mfa.Store.{is_token_used, get_pending_secret}
use open_archiver.Mfa.Service.{
  World, Env, Draws, find_user, truthy, is_totp_code, user_event, log_event, check_code,
  verify_fresh, verify_totp, generate_setup_data, finish_enrolment, enroll_totp, disable_totp,
  regenerate_backup_codes, admin_disable_totp,
}
use open_archiver.Mfa.Calls.{
  Call, setup, enroll, verify, disable, regenerate, admin_disable, wait, run_call, run_calls,
  run_calls-keeps, check_code-audit,
}

module _ {Server : Type 0} (env : Env Server) where
  open env use {sha256, redis, verify_sync}

  -- One more row, for this actor and action.
  pub record Audits (t u : Table) (actor action : Text) : Type 0 where
    pub row : Row
    pub appended : u.rows ≡ t.rows ++ row ∷ []
    pub by : row.content.entry.actor_identifier ≡ actor
    pub of_kind : row.content.entry.action_type ≡ action

  log_event-Audits :
      (actor action target ip : Text) (details : Value) (t : Table) (w : World Server)
      → w.audit ≡ t
      → Audits t (log_event env actor action target ip details w).audit actor action
  unfolding log_event create_audit_log sanitize_entry user_event
  log_event-Audits actor action target ip details t w e =
      subst (λ a. Audits a (log_event env actor action target ip details w).audit actor action) e
        (record {
          row = new_row sha256 (user_event actor action target ip details) w.now w.audit;
          appended = refl;
          by = refl;
          of_kind = refl;
        })

  -- The action that verifyTotp records for a result.
  abbrev pub action_for : Bool → Bool → Text
  action_for false totp = codes "MFA_VERIFY_FAIL"
  action_for true true = codes "MFA_VERIFY_SUCCESS"
  action_for true false = codes "BACKUP_CODE_USED"

  verify_fresh-Audits :
      (i code ip : Text) (w : World Server)
      → Audits w.audit
          (verify_fresh env i code ip w).0.audit
          i
          (action_for (verify_fresh env i code ip w).1 (is_totp_code code))
  unfolding verify_fresh
  verify_fresh-Audits i code ip w =
      let same = check_code-audit env i code w in
      elim (Bool-cases (check_code env i code w).1) [
        | inr wrong ↦ rw wrong (log_event-Audits i (codes "MFA_VERIFY_FAIL") i ip _ w.audit _ same)
        | inl right ↦ elim (Bool-cases (is_totp_code code)) [
          | inl totp ↦
              rw (right, totp)
                (log_event-Audits i (codes "MFA_VERIFY_SUCCESS") i ip _ w.audit _ same)
          | inr backup ↦
              rw (right, backup)
                (log_event-Audits i (codes "BACKUP_CODE_USED") i ip _ w.audit _ same)
        ]
      ]

  -- Each call of verifyTotp adds exactly one row to the audit log, for the user, whose action says
  -- how the call ended: a failure (a replay is one), a TOTP success, or a backup code used.
  pub verify_totp-Audits :
      (i code ip : Text) (w : World Server)
      → Audits w.audit
          (verify_totp env i code ip w).0.audit
          i
          (action_for (verify_totp env i code ip w).1 (is_totp_code code))
  unfolding verify_totp
  verify_totp-Audits i code ip w =
      let s = (is_token_used redis i code w.now w.store).0 in
      elim (Bool-cases (is_totp_code code)) [
        | inr backup ↦ rw (backup, verify_totp) (rw backup at (verify_fresh-Audits i code ip w))
        | inl totp ↦ elim (Bool-cases (is_token_used redis i code w.now w.store).1) [
          | inl replay ↦
              rw (totp, replay) (log_event-Audits i (codes "MFA_VERIFY_FAIL") i ip _ w.audit _ refl)
          | inr fresh ↦
              rw (totp, fresh) (rw totp at (verify_fresh-Audits i code ip (record w { store = s })))
        ]
      ]

  log_event-IsChained :
      (actor action target ip : Text) (details : Value) (w : World Server)
      → IsChained sha256 none w.audit.rows
      → IsChained sha256 none (log_event env actor action target ip details w).audit.rows
  unfolding log_event
  log_event-IsChained actor action target ip details w h = create-verified sha256 _ w.now w.audit h

  abbrev Chained : World Server → Type 0
  Chained w = IsChained sha256 none w.audit.rows

  check_code-Chained :
      (i code : Text) (w : World Server) → Chained w → Chained (check_code env i code w).0
  check_code-Chained i code w h =
      subst (λ (t : Table). IsChained sha256 none t.rows) (sym (check_code-audit env i code w)) h

  verify_fresh-Chained :
      (i code ip : Text) (w : World Server) → Chained w → Chained (verify_fresh env i code ip w).0
  unfolding verify_fresh
  verify_fresh-Chained i code ip w h =
      let h' = check_code-Chained i code w h in
      elim (Bool-cases (check_code env i code w).1) [
        | inr wrong ↦ rw wrong (log_event-IsChained i _ i ip _ _ h')
        | inl right ↦ elim (Bool-cases (is_totp_code code)) [
          | inl totp ↦ rw (right, totp) (log_event-IsChained i _ i ip _ _ h')
          | inr backup ↦ rw (right, backup) (log_event-IsChained i _ i ip _ _ h')
        ]
      ]

  verify_totp-Chained :
      (i code ip : Text) (w : World Server) → Chained w → Chained (verify_totp env i code ip w).0
  unfolding verify_totp
  verify_totp-Chained i code ip w h =
      let s = (is_token_used redis i code w.now w.store).0 in
      elim (Bool-cases (is_totp_code code)) [
        | inr backup ↦ rw backup (verify_fresh-Chained i code ip w h)
        | inl totp ↦ elim (Bool-cases (is_token_used redis i code w.now w.store).1) [
          | inl replay ↦ rw (totp, replay) (log_event-IsChained i _ i ip _ _ h)
          | inr fresh ↦ rw (totp, fresh) (verify_fresh-Chained i code ip (record w { store = s }) h)
        ]
      ]

  enroll_totp-Chained :
      (allowed : Bool) (i code ip : Text) (draws : Draws) (w : World Server)
      → Chained w
      → Chained (enroll_totp env allowed i code ip draws w).0
  unfolding enroll_totp finish_enrolment
  enroll_totp-Chained false i code ip draws w h = h
  enroll_totp-Chained true i code ip draws w h =
      elim (Option-cases (truthy (get_pending_secret redis i w.now w.store).1)) [
        | inl expired ↦ rw (expired, enroll_totp) h
        | inr (secret, pending) ↦ elim (Bool-cases (verify_sync code secret w.now)) [
          | inr wrong ↦ rw (pending, enroll_totp) (rw wrong h)
          | inl right ↦ rw (pending, enroll_totp) (rw right (log_event-IsChained i _ i ip _ _ h))
        ]
      ]

  admin_disable-Chained :
      (i actor ip : Text) (w : World Server)
      → Chained w
      → Chained (admin_disable_totp env i actor ip w).0
  unfolding admin_disable_totp
  admin_disable-Chained i actor ip w h = elim (Option-cases (find_user i w.users)) [
    | inl unknown ↦ rw (unknown, admin_disable_totp) h
    | inr (u, found) ↦ elim (Bool-cases u.totp_enabled) [
      | inr off ↦ rw (found, admin_disable_totp) (rw off h)
      | inl on ↦ rw (found, admin_disable_totp) (rw on (log_event-IsChained actor _ i ip _ _ h))
    ]
  ]

  disable-Chained :
      (i code ip : Text) (w : World Server) → Chained w → Chained (disable_totp env i code ip w).0
  unfolding disable_totp
  disable-Chained i code ip w h =
      let h' = check_code-Chained i code w h in
      elim (Bool-cases (check_code env i code w).1) [
        | inr wrong ↦ rw wrong h'
        | inl right ↦ rw right (log_event-IsChained i _ i ip _ _ h')
      ]

  regenerate-Chained :
      (i code ip : Text) (draws : Draws) (w : World Server)
      → Chained w
      → Chained (regenerate_backup_codes env i code ip draws w).0
  unfolding regenerate_backup_codes
  regenerate-Chained i code ip draws w h =
      let h' = check_code-Chained i code w h in
      elim (Bool-cases (check_code env i code w).1) [
        | inr wrong ↦ rw wrong h'
        | inl right ↦ rw right (log_event-IsChained i _ i ip _ _ h')
      ]

  run_call-Chained : (c : Call) (w : World Server) → Chained w → Chained (run_call env c w)
  unfolding run_call generate_setup_data
  run_call-Chained (setup true user secret) w h = h
  run_call-Chained (setup false user secret) w h = h
  run_call-Chained (enroll allowed user code ip draws) w h =
      enroll_totp-Chained allowed user code ip draws w h
  run_call-Chained (verify user code ip) w h = verify_totp-Chained user code ip w h
  run_call-Chained (disable user code ip) w h = disable-Chained user code ip w h
  run_call-Chained (regenerate user code ip draws) w h = regenerate-Chained user code ip draws w h
  run_call-Chained (admin_disable target actor ip) w h = admin_disable-Chained target actor ip w h
  run_call-Chained (wait n) w h = h

  -- Whatever calls of MfaService are made, an audit log that verifies before them does after.
  pub run_calls-verified :
      (cs : List Call) (w : World Server)
      → verify_audit_log sha256 w.audit ≡ some verified
      → verify_audit_log sha256 (run_calls env cs w).audit ≡ some verified
  run_calls-verified cs w h =
      (verified_iff sha256 _).1
        (run_calls-keeps env Chained run_call-Chained cs w ((verified_iff sha256 w.audit).0 h))
