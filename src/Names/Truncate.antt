-- ===== src/Names/Truncate.antt =====
-- truncateToBytes.ts cuts where a character ends: the longest run of whole characters in a budget.
use open_archiver.Prelude.{
  ℕ, zero, suc, ◌+◌, ◌-◌, ◌*◌, ◌/◌, ◌%◌, ◌≤◌, ◌<◌, ◌≡◌, refl, sym, ap, ◌∙◌, inl, inr, true, false,
  [], ◌∷◌, ◌++◌, Text, length, take, All, ltb, leb, ltb→lt, leb→le, ==_iff, ◌==◌, if◌then◌else◌,
  Bool-cases, arith, length-append,
}
use native.Mathlib.Nat.{suc-add}
use open_archiver.Names.{
  encode_char, encode, byte_length, decode, byte_at, is_continuation, back_off, utf16_length,
  truncate_to_bytes,
}
use open_archiver.Names.Utf8.{decode-encode}

-- How many bytes a character takes.
abbrev pub width : ℕ → ℕ
width c = length (encode_char c)

-- The longest prefix of a text, in whole characters, that takes at most the given bytes.
unfoldable pub fit : Text → ℕ → Text
fit [] m = []
fit (c ∷ t) m = let rest = fit t (m - width c) in if leb (width c) m then c ∷ rest else []

IsContinuation : ℕ → Type 0
IsContinuation b = is_continuation b ≡ true

-- A character is a byte that is no continuation, and at most three that are.
record IsEncoded (bytes : Text) : Type 0 where
  lead : ℕ
  follow : Text
  split : bytes ≡ lead ∷ follow
  starts : is_continuation lead ≡ false
  continues : All IsContinuation follow
  short : length follow ≤ 3

continuation-mod : (x : ℕ) → is_continuation (0x80 + x % 64) ≡ true
continuation-mod x = ground arith

no_continuation-low : (b : ℕ) → b < 0x80 → is_continuation b ≡ false
no_continuation-low b h = ground arith

no_continuation-high : (b : ℕ) → 0xc0 ≤ b → is_continuation b ≡ false
no_continuation-high b h = ground arith

encode_char-IsEncoded : (c : ℕ) → IsEncoded (encode_char c)
unfolding encode_char IsContinuation
encode_char-IsEncoded c = elim (Bool-cases (ltb c 0x80)) [
  | inl one ↦ rw one (record {
    lead = c;
    follow = [];
    split = refl;
    starts = no_continuation-low c (ltb→lt c 0x80 one);
    continues = tt;
    short = omega arith;
  })
  | inr more ↦ elim (Bool-cases (ltb c 0x800)) [
    | inl two ↦
        rw (more, two)
          (record {
            lead = _;
            follow = _;
            split = refl;
            starts = no_continuation-high (0xc0 + c / 64) (omega arith);
            continues = (continuation-mod c, tt);
            short = omega arith;
          })
    | inr more' ↦ elim (Bool-cases (ltb c 0x10000)) [
      | inl three ↦
          rw (more, more', three)
            (record {
              lead = _;
              follow = _;
              split = refl;
              starts = no_continuation-high (0xe0 + c / 4096) (omega arith);
              continues = (continuation-mod (c / 64), (continuation-mod c, tt));
              short = omega arith;
            })
      | inr four ↦
          rw (more, more', four)
            (record {
              lead = _;
              follow = _;
              split = refl;
              starts = no_continuation-high (0xf0 + c / 262144) (omega arith);
              continues = (
                continuation-mod (c / 4096),
                (continuation-mod (c / 64), (continuation-mod c, tt)),
              );
              short = omega arith;
            })
    ]
  ]
]

byte_at-append :
    (bs rest : Text) (k : ℕ)
    → All IsContinuation bs
    → k < length bs
    → is_continuation (byte_at (bs ++ rest) k) ≡ true
unfolding IsContinuation
byte_at-append [] rest k h l = absurd (omega arith)
byte_at-append (b ∷ bs) rest zero (h, hs) l = h
byte_at-append (b ∷ bs) rest (suc k) (h, hs) l = byte_at-append bs rest k hs (omega arith)

-- From inside a character, the loop backs off to its first byte.
back_off-inside :
    (b : ℕ) (bs rest : Text) (k : ℕ)
    → All IsContinuation bs
    → k ≤ length bs
    → back_off (b ∷ (bs ++ rest)) k ≡ 0
unfolding back_off
back_off-inside b bs rest zero h l = refl
back_off-inside b bs rest (suc k) h l =
    rw (byte_at-append bs rest k h l) (back_off-inside b bs rest k h (omega arith))

byte_at-start : (t : Text) → is_continuation (byte_at (encode t) 0) ≡ false
unfolding encode
byte_at-start [] = ground arith
byte_at-start (c ∷ t) = let e = encode_char-IsEncoded c in rw e.split e.starts

byte_at-shift : (p r : Text) (k : ℕ) → byte_at (p ++ r) (length p + k) ≡ byte_at r k
byte_at-shift [] r k = ap (byte_at r) (omega arith)
byte_at-shift (b ∷ p) r k = rw suc-add (byte_at-shift p r k)

back_off-here : (n : ℕ) (buf : Text) → is_continuation (byte_at buf n) ≡ false → back_off buf n ≡ n
unfolding back_off
back_off-here zero buf h = refl
back_off-here (suc n) buf h = rw h refl

-- Past the first characters, it backs off within what follows them.
back_off-shift :
    (p r : Text) (k n : ℕ)
    → n ≡ length p + k
    → is_continuation (byte_at r 0) ≡ false
    → back_off (p ++ r) n ≡ length p + back_off r k
unfolding back_off
back_off-shift p r zero n e h =
    back_off-here n (p ++ r) (
      ap (λ i. is_continuation (byte_at (p ++ r) i)) e
      ∙ ap is_continuation (byte_at-shift p r 0)
      ∙ h)
    ∙ e
back_off-shift p r (suc k) zero e h = absurd (omega arith)
back_off-shift p r (suc k) (suc n) e h =
    let s = ap (byte_at (p ++ r)) e ∙ byte_at-shift p r (suc k) in
    let rest = back_off-shift p r k n (omega arith) h in
    rw s (elim (Bool-cases (is_continuation (byte_at r (suc k)))) [
      | inl c ↦ rw c rest
      | inr c ↦ rw c e
    ])

take-nil : (n : ℕ) → take {A = ℕ} n [] ≡ []
take-nil zero = refl
take-nil (suc n) = refl

take-shift : (p r : Text) (k : ℕ) → take (length p + k) (p ++ r) ≡ p ++ take k r
take-shift [] r k = ap (λ n. take n r) (omega arith)
take-shift (b ∷ p) r k = rw suc-add (ap (λ t. b ∷ t) (take-shift p r k))

minus_split : {w m : ℕ} → w ≤ m → m ≡ w + (m - w)
minus_split h = omega arith

-- What is kept of the encoded text is the encoded longest prefix.
take-back_off : (t : Text) (m : ℕ) → take (back_off (encode t) m) (encode t) ≡ encode (fit t m)
unfolding encode fit
take-back_off [] m = take-nil (back_off [] m)
take-back_off (c ∷ t) m = elim (Bool-cases (leb (width c) m)) [
  | inl h ↦ rw h (
      ap (λ n. take n (encode_char c ++ encode t))
        (back_off-shift (encode_char c) (encode t) (m - width c) m
          (minus_split (leb→le (width c) m h)) (byte_at-start t))
      ∙ take-shift (encode_char c) (encode t) (back_off (encode t) (m - width c))
      ∙ ap (λ r. encode_char c ++ r) (take-back_off t (m - width c)))
  | inr h ↦
      let e = encode_char-IsEncoded c in
      let short = ap length e.split in
      rw (h, e.split)
        (ap (λ n. take n (e.lead ∷ (e.follow ++ encode t)))
          (back_off-inside e.lead e.follow (encode t) m e.continues (ground (arith, short))))
]

width-Positive : (c : ℕ) → 1 ≤ width c
width-Positive c = let e = encode_char-IsEncoded c in rw e.split (omega arith)

pub width-AtMost : (c : ℕ) → width c ≤ 4
width-AtMost c = let e = encode_char-IsEncoded c in rw e.split (omega (arith, e.short))

pub fit-whole : (t : Text) (m : ℕ) → byte_length t ≤ m → fit t m ≡ t
unfolding fit byte_length encode
fit-whole [] m h = refl
fit-whole (c ∷ t) m h =
    ground (arith, length-append (encode_char c) (encode t), fit-whole t (m - width c))

fit-none : (t : Text) → fit t 0 ≡ []
unfolding fit
fit-none [] = refl
fit-none (c ∷ t) = ground (arith, width-Positive c)

pub byte_length-fit : (t : Text) (m : ℕ) → byte_length (fit t m) ≤ m
unfolding fit byte_length encode
byte_length-fit [] m = omega arith
byte_length-fit (c ∷ t) m = ground (
  arith,
  length-append (encode_char c) (encode (fit t (m - width c))),
  byte_length-fit t (m - width c),
)

-- The test that skips the measuring: four bytes for each code unit are enough.
byte_length-AtMost : (t : Text) → byte_length t ≤ 4 * utf16_length t
unfolding byte_length encode utf16_length
byte_length-AtMost [] = omega arith
byte_length-AtMost (c ∷ t) =
    ground (arith, width-AtMost c, length-append (encode_char c) (encode t), byte_length-AtMost t)

le_trans : {a b c : ℕ} → a ≤ b → b ≤ c → a ≤ c
le_trans h k = omega arith

-- truncateToBytes returns the longest run of whole characters from the start of the text whose
-- UTF-8 encoding takes at most the given number of bytes, on each of its four paths.
pub truncate_to_bytes-fit :
    (text : Text) (max_bytes : ℕ) → truncate_to_bytes text max_bytes ≡ fit text max_bytes
unfolding truncate_to_bytes
truncate_to_bytes-fit text max_bytes = elim (Bool-cases (max_bytes == 0)) [
  | inl none_left ↦
      rw none_left (sym (fit-none text) ∙ ap (fit text) (sym ((==_iff max_bytes 0).0 none_left)))
  | inr some_left ↦ elim (Bool-cases (leb (4 * utf16_length text) max_bytes)) [
    | inl short ↦
        rw (some_left, short)
          (sym (
            fit-whole text max_bytes (
              le_trans (byte_length-AtMost text) (leb→le (4 * utf16_length text) max_bytes short))))
    | inr long ↦ elim (Bool-cases (leb (byte_length text) max_bytes)) [
      | inl fits ↦
          rw (some_left, long, fits)
            (sym (fit-whole text max_bytes (leb→le (byte_length text) max_bytes fits)))
      | inr cut ↦
          rw (some_left, long, cut)
            (ap decode (take-back_off text max_bytes) ∙ decode-encode (fit text max_bytes))
    ]
  ]
]
