-- ===== src/Audit/Order.antt =====
-- The order on keys by which canonicalStringify sorts (AuditService.ts), and the sort itself.
use open_archiver.Prelude.{◌≡◌, refl, ◌≢◌, true, false, List, [], ◌∷◌, Text, arith}
use open_archiver.Audit.Canonical.{Pair, text_le, insert_key}

text_le_total : (s t : Text) → text_le s t ≡ false → text_le t s ≡ true
unfolding text_le
text_le_total [] t h = ground arith
text_le_total (a ∷ s) [] h = refl
text_le_total (a ∷ s) (b ∷ t) h = ground (arith, text_le_total s t)

text_le_antisymm : (s t : Text) → text_le s t ≡ true → text_le t s ≡ true → s ≡ t
unfolding text_le
text_le_antisymm [] [] h k = refl
text_le_antisymm [] (b ∷ t) h k = ground arith
text_le_antisymm (a ∷ s) [] h k = ground arith
text_le_antisymm (a ∷ s) (b ∷ t) h k = ground (arith, text_le_antisymm s t)

text_le_trans : (s t u : Text) → text_le s t ≡ true → text_le t u ≡ true → text_le s u ≡ true
unfolding text_le
text_le_trans [] t u h k = refl
text_le_trans (a ∷ s) [] u h k = ground arith
text_le_trans (a ∷ s) (b ∷ t) [] h k = ground arith
text_le_trans (a ∷ s) (b ∷ t) (c ∷ u) h k = ground (arith, text_le_trans s t u)

-- Pairs with different keys are inserted in any order.
pub insert_key_comm :
    (p q : Pair) (l : List Pair)
    → p.0 ≢ q.0
    → insert_key p (insert_key q l) ≡ insert_key q (insert_key p l)
unfolding insert_key
insert_key_comm p q [] h =
    ground (arith, text_le_total p.0 q.0, text_le_total q.0 p.0, text_le_antisymm p.0 q.0)
insert_key_comm p q (r ∷ l) h = ground (
  arith,
  insert_key_comm p q l h,
  text_le_total p.0 q.0,
  text_le_total q.0 p.0,
  text_le_antisymm p.0 q.0,
  text_le_total p.0 r.0,
  text_le_total q.0 r.0,
  text_le_trans p.0 q.0 r.0,
  text_le_trans q.0 p.0 r.0,
)
