-- ===== src/Mfa/Calls.antt =====
-- Sequences of calls of MfaService (MfaService.ts), by any callers, with time passing in between.
use open_archiver.Prelude.{ℕ, ◌+◌, ◌≡◌, Bool, List, [], ◌∷◌, Text, arith}
use open_archiver.Mfa.Service.{
  World, Env, Draws, check_secret, check_user, check_code, verify_totp, generate_setup_data,
  enroll_totp, disable_totp, regenerate_backup_codes, admin_disable_totp,
}

pub data Call : Type 0 where
  setup : Bool → Text → Text → Call
  enroll : Bool → Text → Text → Text → Draws → Call
  verify disable : Text → Text → Text → Call
  regenerate : Text → Text → Text → Draws → Call
  admin_disable : Text → Text → Text → Call
  wait : ℕ → Call

module _ {Server : Type 0} (env : Env Server) where
  unfoldable pub run_call : Call → World Server → World Server
  run_call (setup allowed user secret) w = (generate_setup_data env allowed user secret w).0
  run_call (enroll allowed user code ip draws) w = (enroll_totp env allowed user code ip draws w).0
  run_call (verify user code ip) w = (verify_totp env user code ip w).0
  run_call (disable user code ip) w = (disable_totp env user code ip w).0
  run_call (regenerate user code ip draws) w = (regenerate_backup_codes env user code ip draws w).0
  run_call (admin_disable target actor ip) w = (admin_disable_totp env target actor ip w).0
  run_call (wait n) w = record w { now = w.now + n }

  unfoldable pub run_calls : List Call → World Server → World Server
  run_calls [] w = w
  run_calls (c ∷ cs) w = run_calls cs (run_call c w)

  -- An invariant of every call is one of every sequence of calls.
  pub run_calls-keeps :
      (P : World Server → Type 0)
      → ((c : Call) (w : World Server) → P w → P (run_call c w))
      → (cs : List Call) (w : World Server) → P w
      → P (run_calls cs w)
  unfolding run_calls
  run_calls-keeps P keep [] w h = h
  run_calls-keeps P keep (c ∷ cs) w h = run_calls-keeps P keep cs (run_call c w) (keep c w h)

  -- checkCode touches nothing but the users.
  pub check_code-store :
      (user code : Text) (w : World Server) → (check_code env user code w).0.store ≡ w.store
  unfolding check_code check_user check_secret
  check_code-store user code w = ground arith

  pub check_code-now :
      (user code : Text) (w : World Server) → (check_code env user code w).0.now ≡ w.now
  unfolding check_code check_user check_secret
  check_code-now user code w = ground arith

  pub check_code-audit :
      (user code : Text) (w : World Server) → (check_code env user code w).0.audit ≡ w.audit
  unfolding check_code check_user check_secret
  check_code-audit user code w = ground arith
