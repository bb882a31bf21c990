-- ===== src/Prelude/Strings.antt =====
-- Text. Keys and names that are only compared are native strings; a text that the code walks or
-- builds is the list of its code units.
use Prim.Native.Nat.{◌<◌, ℕ, zero, suc, ◌+◌, ◌/◌, ◌%◌}
use Prim.Native.Char.{code}
use Prim.Native.String.{String}
use mathlib.Core.Bool.{Bool, ◌||◌, ◌&&◌, true, false}
use mathlib.Core.List.{List, [], ◌∷◌, ◌++◌}
use mathlib.Core.Path.{◌≡◌, refl}
use text.Mathlib.Text.{◌==◌ as same_string}
use mathlib.Core.Logic.{◌↔◌, inl, inr}
use native.Mathlib.Omega.{arith}
use open_archiver.Prelude.Lists.{All}
use open_archiver.Prelude.Tests.{Bool-cases, ltb→lt, ltb, ◌==◌, if◌then◌else◌}

abbrev pub Text : Type 0
Text = List ℕ

abbrev pub codes : String → Text
codes String.[] = []
codes (String.◌∷◌ c s) = code c ∷ codes s

-- `a === b` on strings
abbrev pub str_eq : String → String → Bool
str_eq a b = same_string a b

-- `set.has(s)`, `list.includes(s)`
abbrev pub includes : List String → String → Bool
includes [] s = false
includes (x ∷ xs) s = same_string x s || includes xs s

-- `a === b` on texts
unfoldable pub text_eq : Text → Text → Bool
text_eq [] [] = true
text_eq (a ∷ s) (b ∷ t) = a == b && text_eq s t
text_eq _ _ = false

pub text_eq_iff : (s t : Text) → (text_eq s t ≡ true) ↔ (s ≡ t)
unfolding text_eq
text_eq_iff [] [] = ground arith
text_eq_iff [] (b ∷ t) = ground arith
text_eq_iff (a ∷ s) [] = ground arith
text_eq_iff (a ∷ s) (b ∷ t) = ground (arith, text_eq_iff s t)

pub text_eq_refl : (s : Text) → text_eq s s ≡ true
text_eq_refl s = (text_eq_iff s s).1 refl

-- `parts.join(sep)`
abbrev pub join : Text → List Text → Text
join sep [] = []
join sep (x ∷ []) = x
join sep (x ∷ y ∷ ys) = x ++ (sep ++ join sep (y ∷ ys))

-- `String(n)` of a natural number: the digits from the last, on fuel; `suc n` rounds are enough.
digits_from : ℕ → ℕ → Text → Text
digits_from zero n acc = acc
digits_from (suc f) n acc =
    let more = digits_from f (n / 10) ((48 + n % 10) ∷ acc) in
    if ltb n 10 then (48 + n) ∷ acc else more

unfoldable pub decimal : ℕ → Text
unfolding digits_from
decimal n = digits_from (suc n) n []

decimal_test : decimal 1024 ≡ codes "1024"
unfolding decimal
decimal_test = refl

digits_from-All :
    (P : ℕ → Type 0)
    → ((d : ℕ) → d < 10 → P (48 + d))
    → (f n : ℕ) (acc : Text) → All P acc
    → All P (digits_from f n acc)
unfolding digits_from
digits_from-All P h zero n acc a = a
digits_from-All P h (suc f) n acc a = elim (Bool-cases (ltb n 10)) [
  | inl small ↦ rw small (h n (ltb→lt n 10 small), a)
  | inr large ↦
      rw large (digits_from-All P h f (n / 10) ((48 + n % 10) ∷ acc) (h (n % 10) (omega arith), a))
]

-- What holds of the ten digits holds of all that a number is printed with.
pub decimal-All : (P : ℕ → Type 0) → ((d : ℕ) → d < 10 → P (48 + d)) → (n : ℕ) → All P (decimal n)
unfolding decimal
decimal-All P h n = digits_from-All P h (suc n) n [] tt
