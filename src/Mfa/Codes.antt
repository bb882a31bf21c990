-- ===== src/Mfa/Codes.antt =====
-- MfaService.ts: backup codes, from their making to their use, and disabling.
use open_archiver.Prelude.{
  ℕ, zero, suc, ◌≡◌, refl, sym, ◌∙◌, ap, inl, inr, true, false, some, List, [], ◌∷◌, ◌++◌, Text,
  arith, Bool-cases, Option-cases, All, or_else, is_some,
}
use open_archiver.Crypto.{decrypt, to_hex}
use open_archiver.Mfa.Service.{
  World, Env, User, find_user, update_user, spend, truthy, upper, to_upper_case, is_totp_code,
  consume, check_secret, check_user, check_code, log_event, verify_fresh, verify_totp, backup_codes,
}
use open_archiver.Mfa.Users.{find_user-update_self}

module _ {Server : Type 0} (env : Env Server) where
  open env use {redis, ciphers, compare, hash}

  -- The first stored hash that a code matches, and the others in their order.
  pub record FirstMatch (code : Text) (hs rest : List Text) : Type 0 where
    pub before : List Text
    pub matched : Text
    pub after : List Text
    pub split : hs ≡ before ++ matched ∷ after
    pub left : rest ≡ before ++ after
    pub matches : compare code matched ≡ true
    pub first : All (λ h. compare code h ≡ false) before

  pub consume-FirstMatch :
      (code : Text) (hs rest : List Text)
      → consume env code hs ≡ some rest
      → FirstMatch code hs rest
  unfolding consume
  consume-FirstMatch code [] rest e = absurd (cc)
  consume-FirstMatch code (h ∷ hs) rest e = elim (Bool-cases (compare code h)) [
    | inl yes' ↦ record {
      before = [];
      matched = h;
      after = hs;
      split = refl;
      left = ground arith;
      matches = yes';
      first = tt;
    }
    | inr no' ↦ elim (Option-cases (consume env code hs)) [
      | inl nothing ↦ absurd (ground arith)
      | inr (found, p) ↦
          let m = consume-FirstMatch code hs found p in
          record {
            before = h ∷ m.before;
            matched = m.matched;
            after = m.after;
            split = ap (λ l. h ∷ l) m.split;
            left = (let e' : rest ≡ h ∷ found = ground arith in e' ∙ ap (λ l. h ∷ l) m.left);
            matches = m.matches;
            first = (no', m.first);
          }
    ]
  ]

  pub consume_of_match :
      (code h : Text) (before after : List Text)
      → compare code h ≡ true
      → is_some (consume env code (before ++ h ∷ after)) ≡ true
  unfolding consume
  consume_of_match code h [] after e = ground arith
  consume_of_match code h (b ∷ before) after e =
      ground (arith, consume_of_match code h before after e)

  -- What is left of a user's backup codes when one of them is used.
  pub record SpentOne (i code : Text) (u : User) (users : List User) : Type 0 where
    pub rest : List Text
    pub removed : FirstMatch (to_upper_case code) (or_else u.totp_backup_codes []) rest
    pub row : find_user i users ≡ some (spend rest u)

  check_code-valid :
      (i code : Text) (w : World Server) (u : User)
      → find_user i w.users ≡ some u
      → is_totp_code code ≡ false
      → (check_code env i code w).1 ≡ true
      → (rest : List Text) × (consume env (to_upper_case code) (or_else u.totp_backup_codes [])
          ≡ some rest)
        × ((check_code env i code w).0.users ≡ update_user i (spend rest) w.users)
  unfolding check_code check_user check_secret
  check_code-valid i code w u found long valid =
      elim (Option-cases (consume env (to_upper_case code) (or_else u.totp_backup_codes []))) [
        | inl nothing ↦ absurd (ground arith)
        | inr (rest, c) ↦ (rest, c, ground arith)
      ]

  check_code-SpentOne :
      (i code : Text) (w : World Server) (u : User)
      → find_user i w.users ≡ some u
      → is_totp_code code ≡ false
      → (check_code env i code w).1 ≡ true
      → SpentOne i code u (check_code env i code w).0.users
  check_code-SpentOne i code w u found long valid =
      let (rest, consumed, users) = check_code-valid i code w u found long valid in
      record {
        rest = rest;
        removed = consume-FirstMatch (to_upper_case code) _ rest consumed;
        row = rw (users, find_user-update_self i (spend rest) w.users (λ v. refl), found);
      }

  -- verifyTotp accepts a code that is not six digits only by removing the first stored hash that
  -- it matches from the user's backup codes: the others stay, in their order.
  pub backup_code-SpentOne :
      (i code ip : Text) (w : World Server) (u : User)
      → find_user i w.users ≡ some u
      → is_totp_code code ≡ false
      → (verify_totp env i code ip w).1 ≡ true
      → SpentOne i code u (verify_totp env i code ip w).0.users
  backup_code-SpentOne i code ip w u found long valid =
      let (users, result) = as_check i code ip w long in
      rw users (check_code-SpentOne i code w u found long (sym result ∙ valid))
    where
      as_check :
          (i code ip : Text) (w : World Server)
          → is_totp_code code ≡ false
          → ((verify_totp env i code ip w).0.users ≡ (check_code env i code w).0.users)
            × ((verify_totp env i code ip w).1 ≡ (check_code env i code w).1)
      as_check i code ip w long = unfold verify_totp verify_fresh log_event in ground arith

  pub check_code-accepts :
      (i code : Text) (w : World Server) (u : User) (stored secret : Text)
      → find_user i w.users ≡ some u
      → u.totp_enabled ≡ true
      → truthy u.totp_secret ≡ some stored
      → truthy (decrypt ciphers stored) ≡ some secret
      → is_some (consume env (to_upper_case code) (or_else u.totp_backup_codes [])) ≡ true
      → (check_code env i code w).1 ≡ true
  unfolding check_code check_user check_secret
  check_code-accepts i code w u stored secret e1 e2 e3 e4 e5 = ground arith

  upper_idem : (c : ℕ) → upper (upper c) ≡ upper c
  upper_idem c = ground arith

  to_upper_case_idem : (t : Text) → to_upper_case (to_upper_case t) ≡ to_upper_case t
  unfolding to_upper_case
  to_upper_case_idem [] = refl
  to_upper_case_idem (c ∷ t) = cc (upper_idem c, to_upper_case_idem t)

  -- Where a drawn code stands, its hash stands among the hashes.
  pub record HasHash (c : Text) (hashed : List Text) : Type 0 where
    pub before : List Text
    pub salt : ℕ
    pub after : List Text
    pub split : hashed ≡ before ++ hash salt c ∷ after
    pub is_upper : to_upper_case c ≡ c

  pub backup_codes-HasHash :
      (draw : ℕ → Text × ℕ) (i n : ℕ) (xs : List Text) (c : Text) (ys : List Text)
      → (backup_codes env draw i n).0 ≡ xs ++ c ∷ ys
      → HasHash c (backup_codes env draw i n).1
  unfolding backup_codes
  backup_codes-HasHash draw i zero [] c ys e = absurd (cc)
  backup_codes-HasHash draw i zero (x ∷ xs) c ys e = absurd (cc)
  backup_codes-HasHash draw i (suc n) [] c ys e =
      let same : to_upper_case (to_hex (draw i).0) ≡ c = ground arith in
      record {
        before = [];
        salt = (draw i).1;
        after = (backup_codes env draw (suc i) n).1;
        split = rw same;
        is_upper = rw (← same) (to_upper_case_idem (to_hex (draw i).0));
      }
  backup_codes-HasHash draw i (suc n) (x ∷ xs) c ys e =
      let h = backup_codes-HasHash draw (suc i) n xs c ys (ground arith) in
      record {
        before = hash (draw i).1 (to_upper_case (to_hex (draw i).0)) ∷ h.before;
        salt = h.salt;
        after = h.after;
        split = ap (λ l. hash (draw i).1 (to_upper_case (to_hex (draw i).0)) ∷ l) h.split;
        is_upper = h.is_upper;
      }
