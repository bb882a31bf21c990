-- ===== src/Mfa/Tests.antt =====
-- Runs of MfaService on a toy environment, and the theorems at those runs.
use open_archiver.Prelude.{
  ℕ, zero, suc, ◌≡◌, refl, true, false, none, some, List, [], ◌∷◌, Text, codes, arith, text_eq,
  text_eq_refl, decimal, length, All, lookup, insert, subst,
}
use open_archiver.Audit.{empty_table, verify_audit_log, verified}
use open_archiver.Names.{decode, encode_char}
use open_archiver.Crypto.{IsSound, IsByte, encrypt, decrypt, to_hex, from_hex}
use open_archiver.Audit.Chain.{record_all-verified}
use open_archiver.Mfa.Store.{
  Redis, setup_key, is_token_used, store_used_token, get_pending_secret, mem_get, mem_set,
}
use open_archiver.Mfa.Service.{
  World, Env, Draws, User, find_user, is_totp_code, to_upper_case, check_code, verify_totp,
  verify_fresh, enroll_totp, finish_enrolment, disable_totp, admin_disable_totp, is_mfa_required,
  backup_codes, log_event, consume, check_user, check_secret,
}
use open_archiver.Mfa.Calls.{wait, verify, admin_disable, run_call, run_calls}
use open_archiver.Mfa.Replay.{accepted_code-replayed}
use open_archiver.Mfa.Users.{AllConsistent}
use open_archiver.Mfa.Consistent.{run_calls-AllConsistent}
use open_archiver.Mfa.Codes.{SpentOne, backup_code-SpentOne}
use open_archiver.Mfa.Enrol.{AreDrawn, enrolled_code-accepted, disable_totp-off}
use open_archiver.Mfa.Audited.{Audits, action_for, verify_totp-Audits, run_calls-verified}

-- A Redis that always throws.
abbrev no_redis : Redis (Unit {0})
no_redis = record {
  set_ex = λ key value ttl now s. (s, false);
  get = λ key now s. none;
  del = λ key s. (s, false);
  exists = λ key now s. none;
}

abbrev zeros : ℕ → Text
zeros zero = []
zeros (suc n) = 0 ∷ zeros n

-- Nothing is hidden: a value is its own ciphertext, a code its own hash, and the one right TOTP
-- code is 123456.
abbrev env : Env (Unit {0})
env = record {
  redis = no_redis;
  ciphers = record {
    scrypt = λ salt. salt;
    seal = λ key iv v. (v, zeros 16);
    open_sealed = λ key iv tag v. some v;
  };
  sha256 = λ t. decimal (length t);
  verify_sync = λ code secret now. text_eq code (codes "123456");
  compare = text_eq;
  hash = λ salt code. code;
}

abbrev bob : Text
bob = codes "bob"

abbrev ip : Text
ip = codes "::1"

abbrev draws : Draws
draws = record { salt = zeros 64; iv = zeros 16; backup = λ i. (i ∷ 0 ∷ 0 ∷ 171 ∷ [], i) }

abbrev fresh_bob : User
fresh_bob = record {
  id = bob;
  totp_enabled = false;
  totp_secret = none;
  totp_enrolled_at = none;
  totp_backup_codes = none;
}

abbrev pending : World (Unit {0})
pending = record {
  users = fresh_bob ∷ [];
  store = record {
    redis_available = true;
    server = tt;
    mem_setup = (setup_key bob, record { value = codes "s3"; expires_at = 600000 }) ∷ [];
    mem_used = [];
  };
  audit = empty_table;
  now = 1000;
}

abbrev stored : Text
stored = encrypt env.ciphers (zeros 64) (zeros 16) (codes "s3")

abbrev enrolled_bob : User
enrolled_bob = record {
  id = bob;
  totp_enabled = true;
  totp_secret = some stored;
  totp_enrolled_at = some 1000;
  totp_backup_codes = some (codes "000000AB" ∷ codes "010000AB" ∷ []);
}

abbrev enrolled : World (Unit {0})
enrolled = record pending {
  users = enrolled_bob ∷ [];
  store = record (pending.store) { redis_available = false; mem_setup = [] };
}

-- The code of the authenticator is accepted, and again only after 90 seconds.
login_test : (verify_totp env bob (codes "123456") ip enrolled).1 ≡ true
unfolding verify_totp verify_fresh is_token_used store_used_token check_code check_user check_secret
    is_totp_code find_user text_eq encrypt decrypt to_hex from_hex mem_get lookup log_event decode
    encode_char
login_test = refl

accepted_code-replayed_example :
    (verify_totp env bob (codes "123456") (codes "::2") (
      run_calls env
        (wait 500 ∷ admin_disable (codes "eve") bob ip ∷ [])
        (verify_totp env bob (codes "123456") ip enrolled).0)).1
    ≡ false
unfolding run_calls run_call admin_disable_totp verify_totp verify_fresh is_token_used
    store_used_token check_code check_user check_secret is_totp_code find_user text_eq encrypt
    decrypt to_hex from_hex mem_get mem_set lookup insert log_event decode encode_char
accepted_code-replayed_example =
    accepted_code-replayed env bob (codes "123456") ip (codes "::2") enrolled
      (wait 500 ∷ admin_disable (codes "eve") bob ip ∷ []) refl refl refl (omega arith)

fresh-AllConsistent : AllConsistent pending.users
unfolding find_user
fresh-AllConsistent i u e = ground arith

run_calls-AllConsistent_example :
    AllConsistent (run_calls env (verify bob (codes "123456") ip ∷ []) pending).users
run_calls-AllConsistent_example =
    run_calls-AllConsistent env (verify bob (codes "123456") ip ∷ []) pending fresh-AllConsistent

backup_code-SpentOne_example :
    SpentOne env bob
      (codes "000000ab")
      enrolled_bob
      (verify_totp env bob (codes "000000ab") ip enrolled).0.users
unfolding verify_totp verify_fresh is_token_used check_code check_user check_secret is_totp_code
    find_user to_upper_case consume text_eq encrypt decrypt to_hex from_hex mem_get lookup log_event
    decode encode_char
backup_code-SpentOne_example =
    backup_code-SpentOne env bob (codes "000000ab") ip enrolled enrolled_bob refl refl refl

draws-AreDrawn : AreDrawn draws
draws-AreDrawn = record {
  salt_size = refl;
  iv_size = refl;
  salt_bytes = omega arith;
  iv_bytes = omega arith;
}

toy-IsSound : IsSound env.ciphers
toy-IsSound = record {
  sealed_bytes = λ key iv v h. h;
  tag_bytes = λ key iv v. omega arith;
  tag_length = λ key iv v. refl;
  open_seal = λ key iv v. refl;
}

abbrev other_codes : List Text
other_codes =
    codes "020000AB"
    ∷ codes "030000AB"
    ∷ codes "040000AB"
    ∷ codes "050000AB"
    ∷ codes "060000AB"
    ∷ codes "070000AB"
    ∷ []

pending_secret :
    (secret : Text)
    → (get_pending_secret no_redis bob 1000 pending.store).1 ≡ some secret
    → All IsByte secret
unfolding get_pending_secret mem_get lookup text_eq
pending_secret secret e =
    let same : codes "s3" ≡ secret = cc in subst (All IsByte) same (omega arith)

enrolled_code-accepted_example :
    (check_code env bob
      (codes "010000AB")
      (enroll_totp env true bob (codes "123456") ip draws pending).0).1
    ≡ true
unfolding enroll_totp finish_enrolment backup_codes get_pending_secret mem_get lookup text_eq
    find_user to_hex to_upper_case
enrolled_code-accepted_example =
    enrolled_code-accepted env toy-IsSound (λ salt c. text_eq_refl c) true bob (codes "123456") ip
      draws pending fresh_bob (codes "000000AB" ∷ []) (codes "010000AB") other_codes draws-AreDrawn
      refl pending_secret refl

disable_totp-off_example :
    ((check_code env bob (codes "010000AB") (disable_totp env bob (codes "123456") ip enrolled).0).1
      ≡ false)
    × (is_mfa_required bob (disable_totp env bob (codes "123456") ip enrolled).0 ≡ false)
unfolding disable_totp check_code check_user check_secret is_totp_code find_user text_eq encrypt
    decrypt to_hex from_hex decode encode_char
disable_totp-off_example =
    disable_totp-off env bob (codes "123456") ip (codes "010000AB") enrolled refl

verify_totp-Audits_example :
    Audits env empty_table
      (verify_totp env bob (codes "1") ip enrolled).0.audit
      bob
      (action_for env (verify_totp env bob (codes "1") ip enrolled).1 (is_totp_code (codes "1")))
verify_totp-Audits_example = verify_totp-Audits env bob (codes "1") ip enrolled

empty-verified : verify_audit_log env.sha256 empty_table ≡ some verified
empty-verified = record_all-verified env.sha256 []

run_calls-verified_example :
    verify_audit_log env.sha256 (run_calls env (verify bob (codes "1") ip ∷ []) enrolled).audit
    ≡ some verified
run_calls-verified_example =
    run_calls-verified env (verify bob (codes "1") ip ∷ []) enrolled empty-verified
