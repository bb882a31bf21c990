-- ===== src/Sync/StateMerge.antt =====
-- buildSyncStateMerge of packages/backend/src/services/SyncSessionService.ts: folding one mailbox's
-- sync state into the stored one. `||` of jsonb is an update key by key; between values that are
-- not both objects it makes an array, which stands as the parameter `mixed`.
use open_archiver.Prelude.{
  Bool, ◌||◌, Option, none, some, List, [], ◌∷◌, Text, codes, text_eq, lookup, insert, or_else,
  if◌then◌else◌,
}
use open_archiver.Sync.Model.{StateValue, bucket, plain, SyncState}

-- `a || b` on objects: each key of `b` in turn.
unfoldable pub concat {ℓ} : {V : Type ℓ} → List (Text × V) → List (Text × V) → List (Text × V)
concat a [] = a
concat a ((k, v) ∷ b) = concat (insert k v a) b

-- NESTED_STATE_KEYS
abbrev pub is_nested : Text → Bool
is_nested key =
    text_eq key (codes "google") || text_eq key (codes "microsoft") || text_eq key (codes "imap")

module _ (mixed : Text → List (Text × Text) → StateValue) where
  -- `COALESCE(stored -> key, {}) || value`
  abbrev pub merge_bucket : Option StateValue → List (Text × Text) → StateValue
  merge_bucket none new = bucket (concat [] new)
  merge_bucket (some (bucket old)) new = bucket (concat old new)
  merge_bucket (some (plain t)) new = mixed t new

  -- The loop over the entries: the expression so far, and the scalars put by for the end. `stored`
  -- is the row before the update, which every bucket is read from.
  unfoldable pub merge_entries : SyncState → SyncState → SyncState → SyncState → SyncState
  merge_entries stored expression scalars [] = concat expression scalars
  merge_entries stored expression scalars ((key, bucket new) ∷ entries) =
      if is_nested key
      then merge_entries stored (insert key (merge_bucket (lookup key stored) new) expression)
          scalars entries
      else merge_entries stored expression (insert key (bucket new) scalars) entries
  merge_entries stored expression scalars ((key, plain t) ∷ entries) =
      merge_entries stored expression (insert key (plain t) scalars) entries

  unfoldable pub merge_state : Option SyncState → SyncState → SyncState
  unfolding merge_entries
  merge_state column state = let stored = or_else column [] in merge_entries stored stored [] state
