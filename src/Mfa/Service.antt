-- ===== src/Mfa/Service.antt =====
-- packages/backend/src/services/MfaService.ts: enrolment, checking of codes, and disabling, over
-- the users table, the MFA store and the audit log. TOTP, bcrypt, sha256, the ciphers and what is
-- drawn at random are parameters. A database call that throws is not modelled.
use open_archiver.Prelude.{
  ℕ, zero, suc, ◌-◌, ◌/◌, Bool, true, false, ◌&&◌, Option, none, some, List, [], ◌∷◌, map, Text,
  codes, leb, ◌==◌, length, all, text_eq, or_else, if◌then◌else◌,
}
use open_archiver.Audit.{Entry, Table, create_audit_log}
use open_archiver.Audit.Canonical.{Value, obj, end, field, str, bool}
use open_archiver.Crypto.{Primitives, encrypt, decrypt, to_hex}
use open_archiver.Mfa.Store.{
  Redis, MfaStore, setup_secret_ttl_ms, used_token_ttl_s, store_pending_secret, get_pending_secret,
  delete_pending_secret, store_used_token, is_token_used,
}

pub record User : Type 0 where
  pub id : Text
  pub totp_enabled : Bool
  pub totp_secret : Option Text
  pub totp_enrolled_at : Option ℕ
  pub totp_backup_codes : Option (List Text)

pub record World (Server : Type 0) : Type 0 where
  pub users : List User
  pub store : MfaStore Server
  pub audit : Table
  pub now : ℕ

pub data MfaError : Type 0 where
  feature_disabled setup_expired invalid_code user_not_found not_enabled : MfaError

pub data Result {ℓ} (A : Type ℓ) : Type ℓ where
  ok : A → Result A
  err : MfaError → Result A

-- What the service calls and does not implement.
pub record Env (Server : Type 0) : Type 0 where
  pub redis : Redis Server
  pub ciphers : Primitives
  pub sha256 : Text → Text
  pub verify_sync : Text → Text → ℕ → Bool
  pub compare : Text → Text → Bool
  pub hash : ℕ → Text → Text

-- What one call draws at random: a salt and an initialisation vector for encrypt, and for each
-- backup code its four bytes and the salt of its hash.
pub record Draws : Type 0 where
  pub salt : Text
  pub iv : Text
  pub backup : ℕ → Text × ℕ

abbrev pub backup_code_count : ℕ
backup_code_count = 8

-- The first user with this id, and an update of the rows with it.
unfoldable pub find_user : Text → List User → Option User
find_user i [] = none
find_user i (u ∷ us) = if text_eq u.id i then some u else find_user i us

unfoldable pub update_user : Text → (User → User) → List User → List User
update_user i f [] = []
update_user i f (u ∷ us) = (if text_eq u.id i then f u else u) ∷ update_user i f us

-- A nullable text under a truthiness test: the empty one fails it.
abbrev pub truthy : Option Text → Option Text
truthy (some (c ∷ t)) = some (c ∷ t)
truthy _ = none

abbrev pub is_digit : ℕ → Bool
is_digit c = leb 48 c && leb c 57

-- /^\d{6}$/
unfoldable pub is_totp_code : Text → Bool
is_totp_code code = length code == 6 && all is_digit code

-- toUpperCase, on ASCII
abbrev pub upper : ℕ → ℕ
upper c = if leb 97 c && leb c 122 then c - 32 else c

unfoldable pub to_upper_case : Text → Text
to_upper_case t = map upper t

-- A row with other backup codes.
abbrev pub spend : List Text → User → User
spend rest u = record u { totp_backup_codes = some rest }

-- The columns that disabling clears.
abbrev pub clear_totp : User → User
clear_totp u = record u {
  totp_secret = none;
  totp_enabled = false;
  totp_enrolled_at = none;
  totp_backup_codes = none;
}

unfoldable pub is_mfa_required : {Server : Type 0} → Text → World Server → Bool
is_mfa_required user_id w = elim (find_user user_id w.users) [
  | none ↦ false
  | some u ↦ u.totp_enabled
]

-- The entry that the service records about a user.
unfoldable pub user_event : Text → Text → Text → Text → Value → Entry
user_event actor action target actor_ip details = record {
  actor_identifier = actor;
  actor_ip = some actor_ip;
  action_type = action;
  target_type = some (codes "User");
  target_id = some target;
  details = details;
}

module _ {Server : Type 0} (env : Env Server) where
  open env use {redis, ciphers, sha256, verify_sync, compare, hash}

  unfoldable pub log_event : Text → Text → Text → Text → Value → World Server → World Server
  log_event actor action target actor_ip details w = record w {
    audit = create_audit_log sha256 (user_event actor action target actor_ip details) w.now w.audit;
  }

  -- The loop of checkCode over the stored hashes: what is left once the first match is removed.
  unfoldable pub consume : Text → List Text → Option (List Text)
  consume code [] = none
  consume code (h ∷ hs) =
      if compare code h
      then some hs
      else elim (consume code hs) [ none ↦ none | some rest ↦ some (h ∷ rest) ]

  -- The two ways of checkCode, on the user's row and the decrypted secret.
  unfoldable pub check_secret : Text → Text → Text → User → World Server → World Server × Bool
  check_secret user_id code secret u w =
      if is_totp_code code && verify_sync code secret w.now
      then (w, true)
      else elim (consume (to_upper_case code) (or_else u.totp_backup_codes [])) [
        | none ↦ (w, false)
        | some rest ↦ (record w { users = update_user user_id (spend rest) w.users }, true)
      ]

  unfoldable pub check_user : Text → Text → Option User → World Server → World Server × Bool
  check_user user_id code none w = (w, false)
  check_user user_id code (some u) w =
      if u.totp_enabled
      then elim (truthy u.totp_secret) [
        | none ↦ (w, false)
        | some stored ↦ elim (truthy (decrypt ciphers stored)) [
          | none ↦ (w, false)
          | some secret ↦ check_secret user_id code secret u w
        ]
      ]
      else (w, false)

  unfoldable pub check_code : Text → Text → World Server → World Server × Bool
  check_code user_id code w = check_user user_id code (find_user user_id w.users) w

  -- The rest of verifyTotp, once the code is not a replay.
  unfoldable pub verify_fresh : Text → Text → Text → World Server → World Server × Bool
  verify_fresh user_id code ip w =
      let (w', valid) = check_code user_id code w in
      if valid
      then (if is_totp_code code
          then (
            log_event user_id (codes "MFA_VERIFY_SUCCESS") user_id ip
                (obj (field (codes "method") (str (codes "totp")) end))
                (record w' {
                  store = store_used_token redis user_id code used_token_ttl_s w'.now w'.store;
                }),
            true,
          )
          else (log_event user_id (codes "BACKUP_CODE_USED") user_id ip (obj end) w', true))
      else (log_event user_id (codes "MFA_VERIFY_FAIL") user_id ip (obj end) w', false)

  unfoldable pub verify_totp : Text → Text → Text → World Server → World Server × Bool
  verify_totp user_id code ip w =
      let (store, already_used) = is_token_used redis user_id code w.now w.store in
      if is_totp_code code
      then (if already_used
          then (
            log_event user_id (codes "MFA_VERIFY_FAIL") user_id ip
                (obj (field (codes "reason") (str (codes "replay")) end))
                (record w { store = store }),
            false,
          )
          else verify_fresh user_id code ip (record w { store = store }))
      else verify_fresh user_id code ip w

  unfoldable pub generate_setup_data :
      Bool → Text → Text → World Server → World Server × Result (Unit {0})
  generate_setup_data allowed user_id secret w =
      if allowed
      then (
        record w {
          store =
              store_pending_secret redis user_id secret (setup_secret_ttl_ms / 1000) w.now w.store;
        },
        ok tt,
      )
      else (w, err feature_disabled)

  -- generateBackupCodesInternal: the codes and their hashes, with the rounds left.
  unfoldable pub backup_codes : (ℕ → Text × ℕ) → ℕ → ℕ → List Text × List Text
  backup_codes draw i zero = ([], [])
  backup_codes draw i (suc n) =
      let code = to_upper_case (to_hex (draw i).0) in
      let (plain, hashed) = backup_codes draw (suc i) n in
      (code ∷ plain, hash (draw i).1 code ∷ hashed)

  -- What enrolTotp writes once the code is right.
  unfoldable pub finish_enrolment :
      Text → Text → Text → Draws → World Server → World Server × Result (List Text)
  finish_enrolment user_id secret ip draws w =
      let encrypted = encrypt ciphers draws.salt draws.iv secret in
      let (plain, hashed) = backup_codes draws.backup 0 backup_code_count in
      let enrol = λ (u : User). record u {
        totp_secret = some encrypted;
        totp_enabled = true;
        totp_enrolled_at = some w.now;
        totp_backup_codes = some hashed;
      } in
      (
        log_event user_id (codes "TOTP_ENROLLED") user_id ip (obj end) (record w {
          users = update_user user_id enrol w.users;
          store = delete_pending_secret redis user_id w.store;
        }),
        ok plain,
      )

  unfoldable pub enroll_totp :
      Bool → Text → Text → Text → Draws → World Server → World Server × Result (List Text)
  enroll_totp allowed user_id code ip draws w =
      let (store, pending) = get_pending_secret redis user_id w.now w.store in
      let w' = record w { store = store } in
      if allowed
      then elim (truthy pending) [
        | none ↦ (w', err setup_expired)
        | some secret ↦
            if verify_sync code secret w.now
            then finish_enrolment user_id secret ip draws w'
            else (w', err invalid_code)
      ]
      else (w, err feature_disabled)

  unfoldable pub disable_totp : Text → Text → Text → World Server → World Server × Result (Unit {0})
  disable_totp user_id code ip w =
      let (w', valid) = check_code user_id code w in
      if valid
      then (
        log_event user_id (codes "TOTP_DISABLED") user_id ip (obj end)
            (record w' { users = update_user user_id clear_totp w'.users }),
        ok tt,
      )
      else (w', err invalid_code)

  unfoldable pub regenerate_backup_codes :
      Text → Text → Text → Draws → World Server → World Server × Result (List Text)
  regenerate_backup_codes user_id code ip draws w =
      let (w', valid) = check_code user_id code w in
      let (plain, hashed) = backup_codes draws.backup 0 backup_code_count in
      let renew = λ (u : User). record u { totp_backup_codes = some hashed } in
      if valid
      then (
        log_event user_id (codes "BACKUP_CODES_REGENERATED") user_id ip (obj end)
            (record w' { users = update_user user_id renew w'.users }),
        ok plain,
      )
      else (w', err invalid_code)

  unfoldable pub admin_disable_totp :
      Text → Text → Text → World Server → World Server × Result (Unit {0})
  admin_disable_totp target actor ip w = elim (find_user target w.users) [
    | none ↦ (w, err user_not_found)
    | some u ↦
        if u.totp_enabled
        then (
          log_event actor (codes "TOTP_DISABLED") target ip
              (obj (field (codes "adminAction") (bool true) end))
              (record w { users = update_user target clear_totp w.users }),
          ok tt,
        )
        else (w, err not_enabled)
  ]
