-- ===== src/Search/Reading.antt =====
-- Reading a filter back: the literals between double quotes, in which a backslash takes the next
-- character as it is, and the text with the literals emptied.
use open_archiver.Prelude.{
  append_assoc, append-nil, ℕ, ◌≡◌, refl, sym, ◌∙◌, ap, false, ◌||◌, Option, none, some, List, [],
  ◌∷◌, ◌++◌, Text, join, arith, ◌==◌, if◌then◌else◌, All, subst, Bool-cases, inl, inr,
}
use open_archiver.Search.{escape_quotes, quote_meili_string}

pub data Mode : Type 0 where
  outside : Mode
  inside escaped : Text → Mode

abbrev pub Result : Type 0
Result = Option (Text × List Text)

abbrev pub add_char : ℕ → Result → Result
add_char c none = none
add_char c (some (bare, ls)) = some (c ∷ bare, ls)

abbrev pub add_literal : Text → Result → Result
add_literal l none = none
add_literal l (some (bare, ls)) = some (34 ∷ bare, l ∷ ls)

abbrev pub next : Mode → ℕ → Mode
next outside c = if c == 34 then inside [] else outside
next (inside l) c =
    if c == 34 then outside else (if c == 92 then escaped l else inside (l ++ c ∷ []))
next (escaped l) c = inside (l ++ c ∷ [])

abbrev pub emit : Mode → ℕ → Result → Result
emit outside c r = add_char c r
emit (inside l) c r = if c == 34 then add_literal l r else r
emit (escaped l) c r = r

unfoldable pub read : Mode → Text → Result
read outside [] = some ([], [])
read (inside l) [] = none
read (escaped l) [] = none
read m (c ∷ t) = emit m c (read (next m c) t)

abbrev pub read_filter : Text → Result
read_filter t = read outside t

abbrev pub prepend : Text → List Text → Result → Result
prepend bare ls none = none
prepend bare ls (some (bare', ls')) = some (bare ++ bare', ls ++ ls')

-- The text, wherever it stands, reads as these literals in this bare text.
pub record Reads (s bare : Text) (ls : List Text) : Type 0 where
  pub reads : (t : Text) → read outside (s ++ t) ≡ prepend bare ls (read outside t)

prepend_none : (r : Result) → prepend [] [] r ≡ r
prepend_none r = ground arith

prepend-prepend :
    (bare bare' : Text) (ls ls' : List Text) (r : Result)
    → prepend bare ls (prepend bare' ls' r) ≡ prepend (bare ++ bare') (ls ++ ls') r
prepend-prepend bare bare' ls ls' none = refl
prepend-prepend bare bare' ls ls' (some (b, l)) =
    rw (append_assoc bare bare' b, append_assoc ls ls' l) refl

inside-escape :
    (l v t : Text)
    → read (inside l) (escape_quotes v ++ (34 ∷ t)) ≡ add_literal (l ++ v) (read outside t)
unfolding read escape_quotes
inside-escape l [] t = ground (arith, append-nil l)
inside-escape l (c ∷ v) t = elim (Bool-cases (c == 92 || c == 34)) [
  | inl special ↦
      ground (arith, special, inside-escape (l ++ c ∷ []) v t, append_assoc l (c ∷ []) v)
  | inr plain ↦ ground (arith, plain, inside-escape (l ++ c ∷ []) v t, append_assoc l (c ∷ []) v)
]

-- A value that is quoted reads as that value, whatever it contains.
pub quote-Reads : (v : Text) → Reads (quote_meili_string v) (quote_meili_string []) (v ∷ [])
unfolding quote_meili_string read escape_quotes
quote-Reads v = record {
  reads = λ t. ground (arith, inside-escape [] v t, append_assoc (escape_quotes v) (34 ∷ []) t);
}

abbrev pub IsPlain : ℕ → Type 0
IsPlain c = (c == 34) ≡ false

plain-read : (p t : Text) → All IsPlain p → read outside (p ++ t) ≡ prepend p [] (read outside t)
unfolding read
plain-read [] t h = sym (prepend_none (read outside t))
plain-read (c ∷ p) t (h, hs) = ground (arith, h, plain-read p t hs)

pub plain-Reads : (p : Text) → All IsPlain p → Reads p p []
plain-Reads p h = record { reads = λ t. plain-read p t h }

pub Reads-append :
    {s u bare bare' : Text} {ls ls' : List Text}
    → Reads s bare ls
    → Reads u bare' ls'
    → Reads (s ++ u) (bare ++ bare') (ls ++ ls')
Reads-append {s} {u} {bare} {bare'} {ls} {ls'} h k = record {
  reads = λ t. rw (append_assoc s u t) (
      h.reads (u ++ t)
      ∙ ap (prepend bare ls) (k.reads t)
      ∙ prepend-prepend bare bare' ls ls' (read outside t));
}

-- Clauses, each of which reads as its bare form with some of the literals, in order.
pub data ReadsEach : List Text → List Text → List Text → Type 0 where
  done : ReadsEach [] [] []
  clause :
      {c bare : Text} {cs bares ls rest : List Text}
      → Reads c bare ls
      → ReadsEach cs bares rest
      → ReadsEach (c ∷ cs) (bare ∷ bares) (ls ++ rest)

pub ReadsEach-append :
    {cs bares ls ds bares' ls' : List Text}
    → ReadsEach cs bares ls
    → ReadsEach ds bares' ls'
    → ReadsEach (cs ++ ds) (bares ++ bares') (ls ++ ls')
ReadsEach-append done k = k
ReadsEach-append {ls' = ls'} (clause {ls = ls} {rest = rest} h hs) k =
    subst (ReadsEach _ _) (sym (append_assoc ls rest ls')) (clause h (ReadsEach-append hs k))

pub Reads-join :
    (sep : Text) {c bare : Text} {cs bares ls : List Text}
    → All IsPlain sep
    → ReadsEach (c ∷ cs) (bare ∷ bares) ls
    → Reads (join sep (c ∷ cs)) (join sep (bare ∷ bares)) ls
Reads-join sep p (clause {ls = ls} h done) = subst (Reads _ _) (sym (append-nil ls)) h
Reads-join sep p (clause h (clause h' hs)) =
    Reads-append h (Reads-append (plain-Reads sep p) (Reads-join sep p (clause h' hs)))
