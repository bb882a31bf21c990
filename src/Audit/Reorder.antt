-- ===== src/Audit/Reorder.antt =====
-- canonicalStringify (AuditService.ts) does not see the order in which an object holds its keys,
-- which jsonb does not keep.
use open_archiver.Prelude.{◌≡◌, refl, ap, ◌∙◌, ◌≢◌, Text}
use open_archiver.Audit.Canonical.{
  Value, obj, arr, Values, nil, cons, Fields, end, field, sort_keys, canonical_stringify,
  canonical_items, canonical_pairs,
}
use open_archiver.Audit.Order.{insert_key_comm}
use open_archiver.Audit.{NewEntry, or_null, object_to_hash, calculate_hash}

-- The same value up to the order of keys, at any depth; keys that change places are different.
mutual
  pub data SameValue : Value → Value → Type 0 where
    same : (v : Value) → SameValue v v
    same_arr : {vs ws : Values} → SameItems vs ws → SameValue (arr vs) (arr ws)
    same_obj : {fs gs : Fields} → SameFields fs gs → SameValue (obj fs) (obj gs)

  pub data SameItems : Values → Values → Type 0 where
    same_nil : SameItems nil nil
    same_cons :
        {v w : Value} {vs ws : Values}
        → SameValue v w
        → SameItems vs ws
        → SameItems (cons v vs) (cons w ws)

  pub data SameFields : Fields → Fields → Type 0 where
    same_end : SameFields end end
    same_field :
        {v w : Value} {fs gs : Fields} (key : Text)
        → SameValue v w
        → SameFields fs gs
        → SameFields (field key v fs) (field key w gs)
    swapped :
        {fs : Fields} (key key' : Text) (v v' : Value)
        → key ≢ key'
        → SameFields (field key v (field key' v' fs)) (field key' v' (field key v fs))
    chained : {fs gs hs : Fields} → SameFields fs gs → SameFields gs hs → SameFields fs hs

mutual
  unfolding canonical_stringify

  canonical-SameValue :
      {v w : Value} → SameValue v w → canonical_stringify v ≡ canonical_stringify w
  canonical-SameValue (same v) = refl
  canonical-SameValue (same_arr h) = rw (canonical_items-SameItems h)
  canonical-SameValue (same_obj h) = rw (canonical_pairs-SameFields h)

  canonical_items-SameItems :
      {vs ws : Values} → SameItems vs ws → canonical_items vs ≡ canonical_items ws
  canonical_items-SameItems same_nil = refl
  canonical_items-SameItems (same_cons h k) =
      rw (canonical-SameValue h, canonical_items-SameItems k)

  canonical_pairs-SameFields :
      {fs gs : Fields}
      → SameFields fs gs
      → sort_keys (canonical_pairs fs) ≡ sort_keys (canonical_pairs gs)
  canonical_pairs-SameFields same_end = refl
  canonical_pairs-SameFields (same_field key h k) =
      rw (canonical-SameValue h, canonical_pairs-SameFields k)
  canonical_pairs-SameFields (swapped {fs} key key' v v' h) =
      insert_key_comm _ _ (sort_keys (canonical_pairs fs)) h
  canonical_pairs-SameFields (chained h k) =
      canonical_pairs-SameFields h ∙ canonical_pairs-SameFields k

or_null-SameValue : {v w : Value} → SameValue v w → SameValue (or_null v) (or_null w)
or_null-SameValue (same v) = same (or_null v)
or_null-SameValue (same_arr h) = same_arr h
or_null-SameValue (same_obj h) = same_obj h

-- Whatever the hash function, calculateHash gives one result for two entries that differ only in
-- the order of the keys inside their details, at any depth.
pub calculate_hash-SameValue :
    (sha256 : Text → Text) (e : NewEntry) (details : Value)
    → SameValue e.entry.details details
    → calculate_hash sha256 e
      ≡ calculate_hash sha256 (record e { entry = record (e.entry) { details = details } })
unfolding calculate_hash object_to_hash
calculate_hash-SameValue sha256 e details h = ap sha256 (
    canonical-SameValue (
      same_obj (
        same_field _ (same _) (
          same_field _ (same _) (
            same_field _ (same _) (
              same_field _ (same _) (
                same_field _ (same _) (
                  same_field _ (or_null-SameValue h)
                    (same_field _ (same _) (same_field _ (same _) same_end))))))))))
