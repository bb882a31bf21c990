-- ===== src/Mfa/Enrol.antt =====
-- MfaService.ts: what enrolment and disabling promise.
use open_archiver.Prelude.{
  ℕ, ◌≡◌, refl, sym, ◌∙◌, ap, inl, inr, Bool, true, false, Option, none, some, List, [], ◌∷◌, ◌++◌,
  Text, arith, length, Bool-cases, All,
}
use open_archiver.Crypto.{
  Primitives, IsSound, IsByte, IsScalar, salt_length, iv_length, encrypt, to_hex,
}
use open_archiver.Crypto.RoundTrip.{decrypt-encrypt}
use open_archiver.Mfa.Store.{get_pending_secret}
use open_archiver.Mfa.Service.{
  World, Env, Draws, User, ok, find_user, clear_totp, truthy, check_user, check_code, log_event,
  finish_enrolment, enroll_totp, disable_totp, is_mfa_required,
}
use open_archiver.Mfa.Users.{map_user, find_user-update_self}
use open_archiver.Mfa.Consistent.{enroll_totp-cases}
use open_archiver.Mfa.Codes.{check_code-accepts, backup_codes-HasHash, consume_of_match}

-- The draws of one call have the sizes that Node is asked for.
pub record AreDrawn (draws : Draws) : Type 0 where
  pub salt_size : length draws.salt ≡ salt_length
  pub iv_size : length draws.iv ≡ iv_length
  pub salt_bytes : All IsByte draws.salt
  pub iv_bytes : All IsByte draws.iv

truthy_idem : (o : Option Text) (t : Text) → truthy o ≡ some t → truthy (some t) ≡ some t
truthy_idem none t e = absurd (cc)
truthy_idem (some []) t e = absurd (cc)
truthy_idem (some (c ∷ s)) t e = let same : c ∷ s ≡ t = cc in rw (← same)

-- A secret of bytes is a text without surrogates.
bytes-IsScalar : (t : Text) → All IsByte t → All IsScalar t
bytes-IsScalar [] h = tt
bytes-IsScalar (b ∷ t) (h, hs) = ((omega (arith, h), ground (arith, h)), bytes-IsScalar t hs)

truthy-encrypt :
    (p : Primitives) (salt iv v : Text)
    → length salt ≡ salt_length
    → truthy (some (encrypt p salt iv v)) ≡ some (encrypt p salt iv v)
unfolding encrypt to_hex
truthy-encrypt p [] iv v h = absurd (omega arith)
truthy-encrypt p (b ∷ salt) iv v h = refl

module _ {Server : Type 0} (env : Env Server) where
  open env use {redis, ciphers, compare, hash}

  finish-accepted :
      IsSound ciphers
      → ((salt : ℕ) (c : Text) → compare c (hash salt c) ≡ true)
      → (i secret ip : Text) (draws : Draws) (w : World Server) (u : User) (xs : List Text)
        (c : Text) (ys : List Text)
      → AreDrawn draws
      → find_user i w.users ≡ some u
      → All IsByte secret
      → truthy (some secret) ≡ some secret
      → (finish_enrolment env i secret ip draws w).1 ≡ ok (xs ++ c ∷ ys)
      → (check_code env i c (finish_enrolment env i secret ip draws w).0).1 ≡ true
  unfolding finish_enrolment log_event
  finish-accepted sound law i secret ip draws w u xs c ys drawn found bytes filled e =
      let h = backup_codes-HasHash env draws.backup 0 8 xs c ys (ground arith) in
      let stored = encrypt ciphers draws.salt draws.iv secret in
      check_code-accepts env i c _ _ stored secret
        (find_user-update_self i _ w.users (λ v. refl) ∙ ap (map_user _) found) refl
        (truthy-encrypt ciphers draws.salt draws.iv secret drawn.salt_size)
        (ap truthy (
            decrypt-encrypt ciphers sound draws.salt draws.iv secret drawn.salt_size drawn.iv_size
              drawn.salt_bytes drawn.iv_bytes (bytes-IsScalar secret bytes))
          ∙ filled)
        (rw (h.is_upper, h.split)
          (consume_of_match env c (hash h.salt c) h.before h.after (law h.salt c)))

  -- With sound ciphers, and a bcrypt by which a code matches its own hash: each backup code that
  -- enrolTotp hands to an existing user is accepted by checkCode right after the enrolment.
  pub enrolled_code-accepted :
      IsSound ciphers
      → ((salt : ℕ) (c : Text) → compare c (hash salt c) ≡ true)
      → (allowed : Bool) (i code ip : Text) (draws : Draws) (w : World Server) (u : User)
        (xs : List Text) (c : Text) (ys : List Text)
      → AreDrawn draws
      → find_user i w.users ≡ some u
      → ((secret : Text)
          → (get_pending_secret redis i w.now w.store).1 ≡ some secret
          → All IsByte secret)
      → (enroll_totp env allowed i code ip draws w).1 ≡ ok (xs ++ c ∷ ys)
      → (check_code env i c (enroll_totp env allowed i code ip draws w).0).1 ≡ true
  enrolled_code-accepted sound law allowed i code ip draws w u xs c ys drawn found bytes e =
      elim (enroll_totp-cases env allowed i code ip draws w) [
        | inl (_, (x, failed)) ↦ absurd (cc)
        | inr (secret, pending, _, same) ↦ rw same (
            finish-accepted sound law i secret ip draws _ u xs c ys drawn found
              (bytes secret (truthy-some _ secret pending)) (truthy_idem _ secret pending)
              (rw same at e))
      ]
    where
      truthy-some : (o : Option Text) (t : Text) → truthy o ≡ some t → o ≡ some t
      truthy-some none t e = absurd (cc)
      truthy-some (some []) t e = absurd (cc)
      truthy-some (some (c ∷ s)) t e = e

  check_code-off :
      (i code : Text) (o : Option User) (w : World Server)
      → map_user clear_totp o ≡ find_user i w.users
      → (check_code env i code w).1 ≡ false
  unfolding check_code check_user
  check_code-off i code none w e = ground arith
  check_code-off i code (some u) w e = ground arith

  mfa_required-off :
      (i : Text) (o : Option User) (w : World Server)
      → map_user clear_totp o ≡ find_user i w.users
      → is_mfa_required i w ≡ false
  unfolding is_mfa_required
  mfa_required-off i none w e = ground arith
  mfa_required-off i (some u) w e = ground arith

  -- After a disableTotp that succeeds, checkCode refuses every code of the user, and a login of
  -- the user needs no second factor.
  pub disable_totp-off :
      (i code ip code' : Text) (w : World Server)
      → (disable_totp env i code ip w).1 ≡ ok tt
      → ((check_code env i code' (disable_totp env i code ip w).0).1 ≡ false)
        × (is_mfa_required i (disable_totp env i code ip w).0 ≡ false)
  unfolding disable_totp log_event
  disable_totp-off i code ip code' w e = elim (Bool-cases (check_code env i code w).1) [
    | inr wrong ↦ absurd (ground arith)
    | inl valid ↦
        let users = (check_code env i code w).0.users in
        let row = find_user-update_self i clear_totp users (λ u. refl) in
        (
          rw valid (check_code-off i code' (find_user i users) _ (sym row)),
          rw valid (mfa_required-off i (find_user i users) _ (sym row)),
        )
  ]
