-- ===== src/Mfa/Replay.antt =====
-- Replay protection of MfaService.verifyTotp over MfaRedisStore's process memory.
use open_archiver.Prelude.{
  ℕ, ◌+◌, ◌≤◌, ◌<◌, ◌≡◌, ◌⊎◌, true, false, Option, none, some, List, Text, arith, text_eq_iff,
  lookup, lookup-insert, lookup-remove, is_some, codes,
}
use open_archiver.Audit.Canonical.{Value}
use open_archiver.Mfa.Store.{
  Redis, MemEntry, MfaStore, used_key, used_token_ttl_s, mem_get, mem_set, store_pending_secret,
  get_pending_secret, delete_pending_secret, store_used_token, is_token_used,
}
use open_archiver.Mfa.Service.{
  World, Env, is_totp_code, log_event, check_code, verify_fresh, verify_totp, generate_setup_data,
  finish_enrolment, enroll_totp, disable_totp, regenerate_backup_codes, admin_disable_totp,
}
use open_archiver.Mfa.Calls.{
  Call, setup, enroll, verify, disable, regenerate, admin_disable, wait, run_call, run_calls,
  run_calls-keeps, check_code-store, check_code-now,
}

-- When the entry for a key stops to count; 0 without one.
abbrev pub expiry : Option MemEntry → ℕ
expiry none = 0
expiry (some e) = e.expires_at

mem_get-expiry :
    (k key : Text) (now b : ℕ) (m : List (Text × MemEntry))
    → b ≤ expiry (lookup k m)
    → now ≤ b
    → b ≤ expiry (lookup k (mem_get key now m).0)
unfolding mem_get
mem_get-expiry k key now b m h l = ground (arith, lookup-remove key k m, text_eq_iff key k)

mem_set-expiry :
    (k key value : Text) (ttl now b : ℕ) (m : List (Text × MemEntry))
    → b ≤ expiry (lookup k m)
    → b ≤ now + ttl
    → b ≤ expiry (lookup k (mem_set key value ttl now m))
unfolding mem_set
mem_set-expiry k key value ttl now b m h l =
    ground (arith, lookup-insert key k (record { value = value; expires_at = now + ttl }) m)

mem_set-expiry_self :
    (key value : Text) (ttl now : ℕ) (m : List (Text × MemEntry))
    → expiry (lookup key (mem_set key value ttl now m)) ≡ now + ttl
unfolding mem_set
mem_set-expiry_self key value ttl now m = ground (
  arith,
  lookup-insert key key (record { value = value; expires_at = now + ttl }) m,
  text_eq_iff key key,
)

mem_get-found :
    (key : Text) (now b : ℕ) (m : List (Text × MemEntry))
    → 0 < b
    → b ≤ expiry (lookup key m)
    → now ≤ b
    → is_some (mem_get key now m).1 ≡ true
unfolding mem_get
mem_get-found key now b m p h l = ground arith

-- With Redis unavailable, the entry for the key `k`, made at the time `t`, is kept until it has
-- outlived its 90 seconds.
pub record Remembers {Server : Type 0} (k : Text) (t now : ℕ) (s : MfaStore Server) : Type 0 where
  pub offline : s.redis_available ≡ false
  pub since : t ≤ now
  pub held : (t + 90000 < now) ⊎ (t + 90000 ≤ expiry (lookup k s.mem_used))

module _ {Server : Type 0} (redis : Redis Server) (k : Text) (t now : ℕ) (s : MfaStore Server)
    (r : Remembers k t now s) where
  store_pending-Remembers :
      (user secret : Text) (ttl : ℕ)
      → Remembers k t now (store_pending_secret redis user secret ttl now s)
  unfolding store_pending_secret
  store_pending-Remembers user secret ttl = ground (arith, r)

  get_pending-Remembers : (user : Text) → Remembers k t now (get_pending_secret redis user now s).0
  unfolding get_pending_secret
  get_pending-Remembers user = ground (arith, r)

  delete_pending-Remembers : (user : Text) → Remembers k t now (delete_pending_secret redis user s)
  unfolding delete_pending_secret
  delete_pending-Remembers user = ground (arith, r)

  store_used-Remembers :
      (user token : Text)
      → Remembers k t now (store_used_token redis user token used_token_ttl_s now s)
  unfolding store_used_token
  store_used-Remembers user token = ground (
    arith,
    r,
    mem_set-expiry k (used_key user token) (codes "1") 90000 now (t + 90000) s.mem_used,
  )

  is_used-Remembers :
      (user token : Text) → Remembers k t now (is_token_used redis user token now s).0
  unfolding is_token_used
  is_used-Remembers user token =
      ground (arith, r, mem_get-expiry k (used_key user token) now (t + 90000) s.mem_used)

-- A stored token is found for 90 seconds.
module _ {Server : Type 0} (redis : Redis Server) (user token : Text) (t now : ℕ)
    (s : MfaStore Server) where
  store_used-starts :
      s.redis_available ≡ false
      → Remembers
          (used_key user token)
          now
          now
          (store_used_token redis user token used_token_ttl_s now s)
  unfolding store_used_token
  store_used-starts h =
      ground (arith, mem_set-expiry_self (used_key user token) (codes "1") 90000 now s.mem_used)

  is_used_of_Remembers :
      Remembers (used_key user token) t now s
      → now ≤ t + 90000
      → (is_token_used redis user token now s).1 ≡ true
  unfolding is_token_used
  is_used_of_Remembers r h =
      ground (arith, mem_get-found (used_key user token) now (t + 90000) s.mem_used)

abbrev RemembersW : {Server : Type 0} → Text → ℕ → World Server → Type 0
RemembersW k t w = Remembers k t w.now w.store

module _ {Server : Type 0} (env : Env Server) (k : Text) (t : ℕ) where
  open env use {redis}

  check_code-Remembers :
      (user code : Text) (w : World Server)
      → RemembersW k t w
      → RemembersW k t (check_code env user code w).0
  check_code-Remembers user code w r =
      rw (check_code-now env user code w, check_code-store env user code w) r

  log_event-Remembers :
      (actor action target ip : Text) (details : Value) (w : World Server)
      → RemembersW k t w
      → RemembersW k t (log_event env actor action target ip details w)
  unfolding log_event
  log_event-Remembers actor action target ip details w r = r

  verify_fresh-Remembers :
      (user code ip : Text) (w : World Server)
      → RemembersW k t w
      → RemembersW k t (verify_fresh env user code ip w).0
  unfolding verify_fresh log_event
  verify_fresh-Remembers user code ip w r =
      let w' = (check_code env user code w).0 in
      ground (
        arith,
        check_code-Remembers user code w r,
        store_used-Remembers redis k t w'.now w'.store (check_code-Remembers user code w r) user
            code,
      )

  verify_totp-Remembers :
      (user code ip : Text) (w : World Server)
      → RemembersW k t w
      → RemembersW k t (verify_totp env user code ip w).0
  unfolding verify_totp log_event
  verify_totp-Remembers user code ip w r =
      let kept = is_used-Remembers redis k t w.now w.store r user code in
      let s = (is_token_used redis user code w.now w.store).0 in
      ground (
        arith,
        kept,
        verify_fresh-Remembers user code ip w r,
        verify_fresh-Remembers user code ip (record w { store = s }) kept,
      )

  run_call-Remembers :
      (c : Call) (w : World Server) → RemembersW k t w → RemembersW k t (run_call env c w)
  unfolding run_call generate_setup_data enroll_totp finish_enrolment disable_totp
      regenerate_backup_codes admin_disable_totp log_event
  run_call-Remembers (setup allowed user secret) w r =
      ground (arith, store_pending-Remembers redis k t w.now w.store r user secret 600)
  run_call-Remembers (enroll allowed user code ip draws) w r =
      let s = (get_pending_secret redis user w.now w.store).0 in
      let kept = get_pending-Remembers redis k t w.now w.store r user in
      ground (arith, kept, delete_pending-Remembers redis k t w.now s kept user)
  run_call-Remembers (verify user code ip) w r = verify_totp-Remembers user code ip w r
  run_call-Remembers (disable user code ip) w r = ground (arith, check_code-Remembers user code w r)
  run_call-Remembers (regenerate user code ip draws) w r =
      ground (arith, check_code-Remembers user code w r)
  run_call-Remembers (admin_disable target actor ip) w r = ground arith
  run_call-Remembers (wait n) w r = ground (arith, r)

module _ {Server : Type 0} (env : Env Server) (user code ip : Text) (w : World Server) where
  open env use {redis}

  verify_fresh-stores :
      (s : MfaStore Server)
      → is_totp_code code ≡ true
      → s.redis_available ≡ false
      → (verify_fresh env user code ip (record w { store = s })).1 ≡ true
      → RemembersW
          (used_key user code)
          w.now
          (verify_fresh env user code ip (record w { store = s })).0
  unfolding verify_fresh log_event
  verify_fresh-stores s d off h =
      let v = record w { store = s } in
      ground (
        arith,
        check_code-store env user code v,
        check_code-now env user code v,
        store_used-starts redis user code w.now w.now s off,
      )

  verify_totp-stores :
      is_totp_code code ≡ true
      → w.store.redis_available ≡ false
      → (verify_totp env user code ip w).1 ≡ true
      → RemembersW (used_key user code) w.now (verify_totp env user code ip w).0
  unfolding verify_totp is_token_used
  verify_totp-stores d off h =
      ground (arith, verify_fresh-stores (is_token_used redis user code w.now w.store).0 d)

  verify_totp-replay :
      (t : ℕ)
      → is_totp_code code ≡ true
      → RemembersW (used_key user code) t w
      → w.now ≤ t + 90000
      → (verify_totp env user code ip w).1 ≡ false
  unfolding verify_totp
  verify_totp-replay t d r h =
      ground (arith, is_used_of_Remembers redis user code t w.now w.store r h)

-- While the store works in process memory, a six-digit code that verifyTotp accepts for a user is
-- refused for that user for the next 90 seconds, whatever calls of the service come in between.
pub accepted_code-replayed :
    {Server : Type 0} (env : Env Server) (user code ip ip' : Text) (w : World Server)
    (between : List Call)
    → is_totp_code code ≡ true
    → w.store.redis_available ≡ false
    → (verify_totp env user code ip w).1 ≡ true
    → (run_calls env between (verify_totp env user code ip w).0).now ≤ w.now + 90000
    → (verify_totp env user code ip' (run_calls env between (verify_totp env user code ip w).0)).1
      ≡ false
accepted_code-replayed env user code ip ip' w between d off h soon =
    let k = used_key user code in
    verify_totp-replay env user code ip' _ w.now d
      (run_calls-keeps env (RemembersW k w.now) (run_call-Remembers env k w.now) between _
        (verify_totp-stores env user code ip w d off h))
      soon
