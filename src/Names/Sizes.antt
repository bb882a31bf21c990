-- ===== src/Names/Sizes.antt =====
-- How many bytes a text of IngestionService.ts takes in UTF-8, and which characters it keeps when it
-- is cut, sanitized or joined with a digest.
use open_archiver.Prelude.{
  ℕ, zero, suc, ◌+◌, ◌-◌, ◌≤◌, ◌≡◌, refl, sym, ap, ◌∙◌, inl, inr, Bool, true, false, not, ◌&&◌,
  ◌||◌, Option, some, none, Option-cases, [], ◌∷◌, ◌++◌, Text, length, take, codes, All, leb, ◌==◌,
  if◌then◌else◌, Bool-cases, arith, length-append,
}
use open_archiver.Names.{
  encode_char, encode, byte_length, utf16_length, truncate_to_bytes, at_last_dot, sanitize_char,
  sanitize, has_separator,
}
use open_archiver.Names.Truncate.{fit, byte_length-fit, truncate_to_bytes-fit}

-- A digit of a digest in hexadecimal.
abbrev pub is_hex : ℕ → Bool
is_hex c = (leb 0x30 c && leb c 0x39) || (leb 0x61 c && leb c 0x66)

abbrev pub IsHex : ℕ → Type 0
IsHex c = is_hex c ≡ true

-- What the code relies on of `createHash('sha256').update(value).digest('hex')`.
pub record IsDigest (sha256 : Text → Text) : Type 0 where
  pub digest_length : (t : Text) → length (sha256 t) ≡ 64
  pub digest_hex : (t : Text) → All IsHex (sha256 t)

-- A character that may stand in a file name: no separator and no control character.
abbrev pub is_safe : ℕ → Bool
is_safe c = not (c == 0x2f) && (not (c == 0x5c) && leb 0x20 c)

abbrev pub IsSafe : ℕ → Type 0
IsSafe c = is_safe c ≡ true

abbrev pub IsInside : ℕ → ℕ → Type 0
IsInside sep c = (c == sep) ≡ false

pub byte_length-append : (s t : Text) → byte_length (s ++ t) ≡ byte_length s + byte_length t
unfolding byte_length encode
byte_length-append [] t = omega arith
byte_length-append (c ∷ s) t = ground (
  arith,
  length-append (encode_char c) (encode (s ++ t)),
  length-append (encode_char c) (encode s),
  byte_length-append s t,
)

pub byte_length-hex : (t : Text) → All IsHex t → byte_length t ≡ length t
unfolding byte_length encode encode_char
byte_length-hex [] h = refl
byte_length-hex (c ∷ t) (h, hs) = ground (arith, byte_length-hex t hs)

pub utf16_length-hex : (t : Text) → All IsHex t → utf16_length t ≡ length t
unfolding utf16_length
utf16_length-hex [] h = refl
utf16_length-hex (c ∷ t) (h, hs) = ground (arith, utf16_length-hex t hs)

pub All-weaken {ℓ κ} :
    {P : ℕ → Type ℓ} {Q : ℕ → Type κ} → ((c : ℕ) → P c → Q c) → (t : Text) → All P t → All Q t
All-weaken f [] h = tt
All-weaken f (c ∷ t) (h, hs) = (f c h, All-weaken f t hs)

pub All-take {κ} : (P : ℕ → Type κ) (n : ℕ) (t : Text) → All P t → All P (take n t)
All-take P zero t h = tt
All-take P (suc n) [] h = tt
All-take P (suc n) (c ∷ t) (h, hs) = (h, All-take P n t hs)

pub All-fit {κ} : (P : ℕ → Type κ) (t : Text) (m : ℕ) → All P t → All P (fit t m)
unfolding fit
All-fit P [] m h = tt
All-fit P (c ∷ t) m (h, hs) = elim (Bool-cases (leb (length (encode_char c)) m)) [
  | inl e ↦ rw e (h, All-fit P t (m - length (encode_char c)) hs)
  | inr e ↦ rw e tt
]

pub length-take : (n : ℕ) (t : Text) → n ≤ length t → length (take n t) ≡ n
length-take zero t h = refl
length-take (suc n) [] h = absurd (omega arith)
length-take (suc n) (c ∷ t) h = ground (arith, length-take n t)

pub hex-IsSafe : (c : ℕ) → IsHex c → IsSafe c
hex-IsSafe c h = ground arith

pub safe-IsInside : (c : ℕ) → IsSafe c → IsInside 0x2f c
safe-IsInside c h = ground arith

pub hex-IsInside : (c : ℕ) → IsHex c → IsInside 0x2f c
hex-IsInside c h = ground arith

pub truncate_to_bytes-AtMost : (t : Text) (m : ℕ) → byte_length (truncate_to_bytes t m) ≤ m
truncate_to_bytes-AtMost t m = rw (truncate_to_bytes-fit t m) (byte_length-fit t m)

pub truncate_to_bytes-All {κ} :
    (P : ℕ → Type κ) (t : Text) (m : ℕ) → All P t → All P (truncate_to_bytes t m)
truncate_to_bytes-All P t m h = rw (truncate_to_bytes-fit t m) (All-fit P t m h)

pub byte_length-eml : byte_length (codes ".eml") ≡ 4
unfolding byte_length encode encode_char
byte_length-eml = refl

pub byte_length-dash : byte_length (0x2d ∷ []) ≡ 1
unfolding byte_length encode encode_char
byte_length-dash = refl

pub sanitize-IsSafe : (t : Text) → All IsSafe (sanitize t)
unfolding sanitize sanitize_char
sanitize-IsSafe [] = tt
sanitize-IsSafe (c ∷ t) = (ground arith, sanitize-IsSafe t)

pub has_separator-IsInside : (t : Text) → has_separator t ≡ false → All (IsInside 0x2f) t
unfolding has_separator
has_separator-IsInside [] h = tt
has_separator-IsInside (c ∷ t) h = (ground arith, has_separator-IsInside t (ground arith))

-- What stands at the last dot and before it is the text again.
abbrev pub rejoin : Option (Text × Text) → Text → Text
rejoin none t = t
rejoin (some (base, ext)) t = base ++ ext

pub rejoin-at_last_dot : (t : Text) → rejoin (at_last_dot t) t ≡ t
unfolding at_last_dot
rejoin-at_last_dot [] = refl
rejoin-at_last_dot (c ∷ t) = elim (Option-cases (at_last_dot t)) [
  | inl e ↦
      rw e (elim (Bool-cases (c == 0x2e)) [ inl dot ↦ rw dot refl | inr other ↦ rw other refl ])
  | inr (x, e) ↦ rw e (ap (λ u. c ∷ u) (ap (λ o. rejoin o t) (sym e) ∙ rejoin-at_last_dot t))
]

pub if-All {κ} :
    (P : ℕ → Type κ) (b : Bool) (x y : Text)
    → (b ≡ true → All P x)
    → All P y
    → All P (if b then x else y)
if-All P true x y h k = h refl
if-All P false x y h k = k

pub All-append-inv {κ} : (P : ℕ → Type κ) (s t : Text) → All P (s ++ t) → All P s × All P t
All-append-inv P [] t h = (tt, h)
All-append-inv P (c ∷ s) t (h, hs) = let r = All-append-inv P s t hs in ((h, r.0), r.1)
