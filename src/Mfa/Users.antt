-- ===== src/Mfa/Users.antt =====
-- The users table under MfaService.ts: lookups after updates, and what holds of every row.
use open_archiver.Prelude.{
  sym, ◌∙◌, subst, Bool-cases, Option-cases, suc, ◌≤◌, ◌≡◌, refl, true, false, Option, none, some,
  List, [], ◌∷◌, Text, arith, text_eq, text_eq_iff, length, or_else, is_some, ◌⊎◌, inl, inr,
}
use open_archiver.Mfa.Service.{
  World, Env, User, find_user, update_user, to_upper_case, spend, consume, check_secret, check_user,
  check_code,
}

abbrev pub map_user : (User → User) → Option User → Option User
map_user f none = none
map_user f (some u) = some (f u)

-- The row of a user after an update of that user, which keeps ids.
pub find_user-update_self :
    (i : Text) (f : User → User) (us : List User)
    → ((u : User) → (f u).id ≡ u.id)
    → find_user i (update_user i f us) ≡ map_user f (find_user i us)
unfolding find_user update_user
find_user-update_self i f [] h = refl
find_user-update_self i f (u ∷ us) h =
    ground (arith, h u, find_user-update_self i f us h, text_eq_iff u.id i)

-- The row of a user, and of another one, after a user's update.
pub find_user-update_ne :
    (i j : Text) (f : User → User) (us : List User)
    → ((u : User) → (f u).id ≡ u.id)
    → text_eq j i ≡ false
    → find_user i (update_user j f us) ≡ find_user i us
unfolding find_user update_user
find_user-update_ne i j f [] h ne = refl
find_user-update_ne i j f (u ∷ us) h ne = ground (
  arith,
  h u,
  find_user-update_ne i j f us h ne,
  text_eq_iff u.id i,
  text_eq_iff u.id j,
  text_eq_iff j i,
)

-- An enrolled user has a secret and at most eight backup codes; any other has neither.
pub record IsConsistent (u : User) : Type 0 where
  pub enrolled :
      u.totp_enabled ≡ true
      → (is_some u.totp_secret ≡ true) × (length (or_else u.totp_backup_codes []) ≤ 8)
  pub not_enrolled : u.totp_enabled ≡ false → (u.totp_secret ≡ none) × (u.totp_backup_codes ≡ none)

-- Every user that a lookup finds is consistent.
abbrev pub AllConsistent : List User → Type 0
AllConsistent us = (i : Text) (u : User) → find_user i us ≡ some u → IsConsistent u

map_user-IsConsistent :
    (f : User → User) (o : Option User) (u : User)
    → ((v : User) → o ≡ some v → IsConsistent (f v))
    → map_user f o ≡ some u
    → IsConsistent u
map_user-IsConsistent f none u h e = absurd (cc)
map_user-IsConsistent f (some v) u h e =
    let same : f v ≡ u = cc in subst IsConsistent same (h v refl)

pub update_user-AllConsistent :
    (i : Text) (f : User → User) (us : List User)
    → ((u : User) → (f u).id ≡ u.id)
    → ((u : User) → find_user i us ≡ some u → IsConsistent (f u))
    → AllConsistent us
    → AllConsistent (update_user i f us)
update_user-AllConsistent i f us keeps fit all j u e = elim (Bool-cases (text_eq i j)) [
  | inl same ↦
      let here : find_user i (update_user i f us) ≡ some u =
        subst (λ k. find_user k (update_user i f us) ≡ some u) (sym ((text_eq_iff i j).0 same)) e in
      map_user-IsConsistent f (find_user i us) u fit
        (sym (find_user-update_self i f us keeps) ∙ here)
  | inr other ↦ all j u (sym (find_user-update_ne j i f us keeps other) ∙ e)
]

module _ {Server : Type 0} (env : Env Server) where
  consume-shorter :
      (code : Text) (hs rest : List Text)
      → consume env code hs ≡ some rest
      → length hs ≡ suc (length rest)
  unfolding consume
  consume-shorter code [] rest e = absurd (cc)
  consume-shorter code (h ∷ hs) rest e = elim (Option-cases (consume env code hs)) [
    | inl nothing ↦ ground arith
    | inr (found, p) ↦ ground (arith, consume-shorter code hs found p)
  ]

  -- A use of a backup code: the user's row, and the codes that are left after it.
  pub record Spends (i code : Text) (w : World Server) : Type 0 where
    pub user : User
    pub rest : List Text
    pub found : find_user i w.users ≡ some user
    pub is_enrolled : user.totp_enabled ≡ true
    pub consumed : consume env (to_upper_case code) (or_else user.totp_backup_codes []) ≡ some rest
    pub after : (check_code env i code w).0.users ≡ update_user i (spend rest) w.users

  check_code-spends :
      (i code : Text) (u : User) (rest : List Text) (w : World Server)
      → find_user i w.users ≡ some u
      → consume env (to_upper_case code) (or_else u.totp_backup_codes []) ≡ some rest
      → ((check_code env i code w).0.users ≡ w.users)
        ⊎ ((check_code env i code w).0.users ≡ update_user i (spend rest) w.users)
  unfolding check_code check_user check_secret
  check_code-spends i code u rest w e c = ground arith

  check_code-keeps :
      (i code : Text) (u : User) (w : World Server)
      → find_user i w.users ≡ some u
      → (consume env (to_upper_case code) (or_else u.totp_backup_codes []) ≡ none)
        ⊎ (u.totp_enabled ≡ false)
      → (check_code env i code w).0.users ≡ w.users
  unfolding check_code check_user check_secret
  check_code-keeps i code u w e c = ground arith

  check_code-unknown :
      (i code : Text) (w : World Server)
      → find_user i w.users ≡ none
      → (check_code env i code w).0.users ≡ w.users
  unfolding check_code check_user
  check_code-unknown i code w e = ground arith

  -- checkCode leaves the users as they are, or uses up one backup code of an enrolled user.
  pub check_code-users :
      (i code : Text) (w : World Server)
      → ((check_code env i code w).0.users ≡ w.users) ⊎ Spends i code w
  check_code-users i code w = elim (Option-cases (find_user i w.users)) [
    | inl unknown ↦ inl (check_code-unknown i code w unknown)
    | inr (u, found) ↦ elim (Bool-cases u.totp_enabled) [
      | inr off ↦ inl (check_code-keeps i code u w found (inr off))
      | inl on ↦
          elim (Option-cases (consume env (to_upper_case code) (or_else u.totp_backup_codes []))) [
            | inl kept ↦ inl (check_code-keeps i code u w found (inl kept))
            | inr (rest, spent) ↦ elim (check_code-spends i code u rest w found spent) [
              | inl same ↦ inl same
              | inr changed ↦ inr (record {
                user = u;
                rest = rest;
                found = found;
                is_enrolled = on;
                consumed = spent;
                after = changed;
              })
            ]
          ]
    ]
  ]

  spend-IsConsistent :
      (i code : Text) (w : World Server) (s : Spends i code w)
      → AllConsistent w.users
      → AllConsistent (update_user i (spend s.rest) w.users)
  spend-IsConsistent i code w s all =
      update_user-AllConsistent i (spend s.rest) w.users (λ u. refl)
        (λ u found.
          let same : u ≡ s.user = cc (s.found) in
          let shorter =
            consume-shorter (to_upper_case code) (or_else s.user.totp_backup_codes []) s.rest
              s.consumed in
          let before = all i s.user s.found in
          rw same (ground (arith, shorter, before.enrolled s.is_enrolled, s.is_enrolled)))
        all

  pub check_code-AllConsistent :
      (i code : Text) (w : World Server)
      → AllConsistent w.users
      → AllConsistent (check_code env i code w).0.users
  check_code-AllConsistent i code w all = elim (check_code-users i code w) [
    | inl same ↦ rw same all
    | inr s ↦ rw s.after (spend-IsConsistent i code w s all)
  ]
