-- ===== src/Names/Paths.antt =====
-- Paths of IngestionService.ts: what their components are when they are split at `/` again.
use open_archiver.Prelude.{
  ℕ, ◌+◌, ◌≤◌, ◌≡◌, refl, sym, subst, inl, inr, true, List, [], ◌∷◌, ◌++◌, Text, join, All,
  All-append, ◌==◌, Bool-cases, arith, append_assoc,
}
use open_archiver.Names.{byte_length, split_on, before_first}
use open_archiver.Names.Sizes.{IsInside, byte_length-append}

pub before_first-IsInside :
    (sep c : ℕ) (parts : List Text)
    → IsInside sep c
    → All (All (IsInside sep)) parts
    → All (All (IsInside sep)) (before_first c parts)
before_first-IsInside sep c [] h hs = ((h, tt), tt)
before_first-IsInside sep c (part ∷ parts) h (k, hs) = ((h, k), hs)

-- One part is a text without the separator; a separator ends a part.
pub split_on-one : (sep : ℕ) (x : Text) → All (IsInside sep) x → split_on sep x ≡ x ∷ []
unfolding split_on
split_on-one sep [] h = refl
split_on-one sep (c ∷ x) (h, hs) = rw (h, split_on-one sep x hs) refl

pub ==_refl : (n : ℕ) → (n == n) ≡ true
==_refl n = ground arith

pub split_on-more :
    (sep : ℕ) (x rest : Text)
    → All (IsInside sep) x
    → split_on sep (x ++ (sep ∷ rest)) ≡ x ∷ split_on sep rest
unfolding split_on
split_on-more sep [] rest h = rw (==_refl sep) refl
split_on-more sep (c ∷ x) rest (h, hs) = rw (h, split_on-more sep x rest hs) refl

pub split_on-IsInside : (sep : ℕ) (t : Text) → All (All (IsInside sep)) (split_on sep t)
unfolding split_on
split_on-IsInside sep [] = (tt, tt)
split_on-IsInside sep (c ∷ t) = elim (Bool-cases (c == sep)) [
  | inl e ↦ rw e (tt, split_on-IsInside sep t)
  | inr e ↦ rw e (before_first-IsInside sep c (split_on sep t) e (split_on-IsInside sep t))
]

-- A text whose parts all take at most the given bytes, when it is split at `/`.
unfoldable pub IsBounded : ℕ → Text → Type 0
IsBounded m t = All (λ part. byte_length part ≤ m) (split_on 0x2f t)

-- A part of a path that is no longer than a clamped one.
unfoldable pub IsPart : Text → Type 0
IsPart part = All (IsInside 0x2f) part × (byte_length part ≤ 109)

pub last-IsBounded : (x : Text) (m : ℕ) → All (IsInside 0x2f) x → byte_length x ≤ m → IsBounded m x
unfolding IsBounded
last-IsBounded x m h k =
    subst (All (λ part. byte_length part ≤ m)) (sym (split_on-one 0x2f x h)) (k, tt)

pub more-IsBounded :
    (x : Text) (m : ℕ) (rest : Text)
    → All (IsInside 0x2f) x
    → byte_length x ≤ m
    → IsBounded m rest
    → IsBounded m (x ++ (0x2f ∷ rest))
unfolding IsBounded
more-IsBounded x m rest h k r =
    subst (All (λ part. byte_length part ≤ m)) (sym (split_on-more 0x2f x rest h)) (k, r)

pub join-IsBounded :
    (m : ℕ) (parts : List Text) (name : Text)
    → All IsPart parts
    → All (IsInside 0x2f) name
    → byte_length name ≤ m
    → IsBounded (109 + m) (join (0x2f ∷ []) parts ++ name)
unfolding IsPart
join-IsBounded m [] name h k l = last-IsBounded name (109 + m) k (omega arith)
join-IsBounded m (x ∷ []) name ((i, b), hs) k l =
    last-IsBounded (x ++ name) (109 + m) (All-append (IsInside 0x2f) x name i k)
      (omega (arith, byte_length-append x name))
join-IsBounded m (x ∷ y ∷ ys) name ((i, b), hs) k l =
    subst (IsBounded (109 + m)) (sym (append_assoc x (0x2f ∷ join (0x2f ∷ []) (y ∷ ys)) name)) (
      more-IsBounded x (109 + m) (join (0x2f ∷ []) (y ∷ ys) ++ name) i (omega arith)
        (join-IsBounded m (y ∷ ys) name hs k l))
