-- ===== src/Mfa/Consistent.antt =====
-- MfaService.ts: every call keeps the users consistent.
use open_archiver.Prelude.{
  ℕ, zero, suc, ◌≡◌, refl, sym, subst, ◌⊎◌, inl, inr, Bool, true, false, some, List, Text, arith,
  length, Bool-cases, Option-cases,
}
use open_archiver.Mfa.Store.{MfaStore, is_token_used, get_pending_secret}
use open_archiver.Mfa.Service.{
  is_totp_code, truthy, MfaError, feature_disabled, setup_expired, invalid_code, err, World, Env,
  Draws, User, find_user, update_user, spend, clear_totp, check_user, check_code, log_event,
  verify_fresh, verify_totp, generate_setup_data, backup_codes, finish_enrolment, enroll_totp,
  disable_totp, regenerate_backup_codes, admin_disable_totp,
}
use open_archiver.Mfa.Users.{
  AllConsistent, find_user-update_self, update_user-AllConsistent, check_code-users,
  check_code-AllConsistent,
}
use open_archiver.Mfa.Calls.{
  Call, setup, enroll, verify, disable, regenerate, admin_disable, wait, run_call, run_calls,
  run_calls-keeps,
}

module _ {Server : Type 0} (env : Env Server) where
  open env use {redis, verify_sync}

  pub length-backup_codes :
      (draw : ℕ → Text × ℕ) (i n : ℕ)
      → (length (backup_codes env draw i n).0 ≡ n) × (length (backup_codes env draw i n).1 ≡ n)
  unfolding backup_codes
  length-backup_codes draw i zero = (refl, refl)
  length-backup_codes draw i (suc n) = omega (arith, length-backup_codes draw (suc i) n)

  check_code-needs :
      (i code : Text) (w : World Server) (u : User)
      → (check_code env i code w).1 ≡ true
      → find_user i w.users ≡ some u
      → u.totp_enabled ≡ true
  unfolding check_code check_user
  check_code-needs i code w u h e = ground arith

  -- After an accepted code the user's row is that of an enrolled user.
  check_code-enrolled :
      (i code : Text) (w : World Server) (u : User)
      → (check_code env i code w).1 ≡ true
      → find_user i (check_code env i code w).0.users ≡ some u
      → u.totp_enabled ≡ true
  check_code-enrolled i code w u h e = elim (check_code-users env i code w) [
    | inl same ↦ check_code-needs i code w u h (rw same at e)
    | inr s ↦
        let row : find_user i (update_user i (spend s.rest) w.users) ≡ some u = rw s.after at e in
        let spent = find_user-update_self i (spend s.rest) w.users (λ v. refl) in
        ground (arith, s.found, s.is_enrolled, row, spent)
  ]

  clear-AllConsistent :
      (i : Text) (us : List User) → AllConsistent us → AllConsistent (update_user i clear_totp us)
  clear-AllConsistent i us all =
      update_user-AllConsistent i clear_totp us (λ u. refl) (λ u e. ground arith) all

  verify_fresh-AllConsistent :
      (i code ip : Text) (w : World Server)
      → AllConsistent w.users
      → AllConsistent (verify_fresh env i code ip w).0.users
  verify_fresh-AllConsistent i code ip w all =
      subst AllConsistent (sym (same i code ip w)) (check_code-AllConsistent env i code w all)
    where
      same :
          (i code ip : Text) (w : World Server)
          → (verify_fresh env i code ip w).0.users ≡ (check_code env i code w).0.users
      same i code ip w = unfold verify_fresh log_event in ground arith

  -- verifyTotp leaves the users alone, or goes on as verify_fresh from the same users.
  pub verify_totp-users :
      (i code ip : Text) (w : World Server)
      → ((verify_totp env i code ip w).0.users ≡ w.users)
        ⊎ ((s : MfaStore Server) × (verify_totp env i code ip w
              ≡ verify_fresh env i code ip (record w { store = s })))
  unfolding verify_totp log_event
  verify_totp-users i code ip w =
      let s = (is_token_used redis i code w.now w.store).0 in
      elim (Bool-cases (is_totp_code code)) [
        | inr backup ↦ inr (w.store, rw backup)
        | inl totp ↦ elim (Bool-cases (is_token_used redis i code w.now w.store).1) [
          | inl replay ↦ inl (ground arith)
          | inr fresh ↦ inr (s, rw (totp, fresh))
        ]
      ]

  verify_totp-AllConsistent :
      (i code ip : Text) (w : World Server)
      → AllConsistent w.users
      → AllConsistent (verify_totp env i code ip w).0.users
  verify_totp-AllConsistent i code ip w all = elim (verify_totp-users i code ip w) [
    | inl same ↦ rw same all
    | inr (s, fresh) ↦ rw fresh (verify_fresh-AllConsistent i code ip (record w { store = s }) all)
  ]

  enrol-AllConsistent :
      (i secret ip : Text) (draws : Draws) (w : World Server)
      → AllConsistent w.users
      → AllConsistent (finish_enrolment env i secret ip draws w).0.users
  unfolding finish_enrolment log_event
  enrol-AllConsistent i secret ip draws w all =
      update_user-AllConsistent i _ w.users (λ u. refl)
        (λ u e. ground (arith, length-backup_codes draws.backup 0 8)) all

  -- enrolTotp leaves the users alone and fails, or finishes the enrolment with the pending secret.
  pub enroll_totp-cases :
      (allowed : Bool) (i code ip : Text) (draws : Draws) (w : World Server)
      → (((enroll_totp env allowed i code ip draws w).0.users ≡ w.users)
          × ((e : MfaError) × ((enroll_totp env allowed i code ip draws w).1 ≡ err e)))
        ⊎ ((secret : Text) × (truthy (get_pending_secret redis i w.now w.store).1 ≡ some secret)
            × (verify_sync code secret w.now ≡ true)
            × (enroll_totp env allowed i code ip draws w
                ≡ finish_enrolment env i secret ip draws
                    (record w { store = (get_pending_secret redis i w.now w.store).0 })))
  unfolding enroll_totp
  enroll_totp-cases false i code ip draws w = inl (refl, (feature_disabled, refl))
  enroll_totp-cases true i code ip draws w =
      elim (Option-cases (truthy (get_pending_secret redis i w.now w.store).1)) [
        | inl expired ↦ inl (ground arith, (setup_expired, ground arith))
        | inr (secret, pending) ↦ elim (Bool-cases (verify_sync code secret w.now)) [
          | inr wrong ↦ inl (ground arith, (invalid_code, ground arith))
          | inl right ↦ inr (secret, pending, right, ground arith)
        ]
      ]

  enroll_totp-AllConsistent :
      (allowed : Bool) (i code ip : Text) (draws : Draws) (w : World Server)
      → AllConsistent w.users
      → AllConsistent (enroll_totp env allowed i code ip draws w).0.users
  enroll_totp-AllConsistent allowed i code ip draws w all =
      elim (enroll_totp-cases allowed i code ip draws w) [
        | inl (same, _) ↦ rw same all
        | inr (secret, _, _, e) ↦ rw e (enrol-AllConsistent i secret ip draws _ all)
      ]

  regenerate-AllConsistent :
      (i code ip : Text) (draws : Draws) (w : World Server)
      → AllConsistent w.users
      → AllConsistent (regenerate_backup_codes env i code ip draws w).0.users
  unfolding regenerate_backup_codes log_event
  regenerate-AllConsistent i code ip draws w all =
      let all' = check_code-AllConsistent env i code w all in
      elim (Bool-cases (check_code env i code w).1) [
        | inr no_match ↦ rw no_match all'
        | inl valid ↦ rw valid (
            update_user-AllConsistent i _ (check_code env i code w).0.users (λ u. refl)
              (λ u e.
                let before = all' i u e in
                let on = check_code-enrolled i code w u valid e in
                ground (arith, before.enrolled on, on, length-backup_codes draws.backup 0 8))
              all')
      ]

  disable-AllConsistent :
      (i code ip : Text) (w : World Server)
      → AllConsistent w.users
      → AllConsistent (disable_totp env i code ip w).0.users
  unfolding disable_totp log_event
  disable-AllConsistent i code ip w all =
      let all' = check_code-AllConsistent env i code w all in
      elim (Bool-cases (check_code env i code w).1) [
        | inr no_match ↦ rw no_match all'
        | inl valid ↦ rw valid (clear-AllConsistent i _ all')
      ]

  admin_disable-AllConsistent :
      (i actor ip : Text) (w : World Server)
      → AllConsistent w.users
      → AllConsistent (admin_disable_totp env i actor ip w).0.users
  unfolding admin_disable_totp log_event
  admin_disable-AllConsistent i actor ip w all = elim (Option-cases (find_user i w.users)) [
    | inl unknown ↦ rw (unknown, admin_disable_totp) all
    | inr (u, found) ↦ elim (Bool-cases u.totp_enabled) [
      | inr off ↦ rw (found, admin_disable_totp) (rw off all)
      | inl on ↦ rw (found, admin_disable_totp) (rw on (clear-AllConsistent i w.users all))
    ]
  ]

  -- Every call keeps the users consistent: one with two-factor authentication on has a secret and
  -- at most eight backup codes, and one with it off has neither.
  pub run_call-AllConsistent :
      (c : Call) (w : World Server) → AllConsistent w.users → AllConsistent (run_call env c w).users
  unfolding run_call generate_setup_data
  run_call-AllConsistent (setup true user secret) w all = all
  run_call-AllConsistent (setup false user secret) w all = all
  run_call-AllConsistent (enroll allowed user code ip draws) w all =
      enroll_totp-AllConsistent allowed user code ip draws w all
  run_call-AllConsistent (verify user code ip) w all = verify_totp-AllConsistent user code ip w all
  run_call-AllConsistent (disable user code ip) w all = disable-AllConsistent user code ip w all
  run_call-AllConsistent (regenerate user code ip draws) w all =
      regenerate-AllConsistent user code ip draws w all
  run_call-AllConsistent (admin_disable target actor ip) w all =
      admin_disable-AllConsistent target actor ip w all
  run_call-AllConsistent (wait n) w all = all

  -- Where every user with a second factor enrolled has a secret and at most eight backup codes, and
  -- every other user neither secret nor codes, every sequence of calls leaves it so.
  pub run_calls-AllConsistent :
      (cs : List Call) (w : World Server)
      → AllConsistent w.users
      → AllConsistent (run_calls env cs w).users
  run_calls-AllConsistent = run_calls-keeps env (λ w. AllConsistent w.users) run_call-AllConsistent
