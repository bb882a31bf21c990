-- ===== src/Sync/Merging.antt =====
-- buildSyncStateMerge of packages/backend/src/services/SyncSessionService.ts: what a report of one
-- mailbox leaves of the tokens of the others.
use open_archiver.Prelude.{
  ◌≡◌, refl, ap, ◌∙◌, true, false, All, text_eq_iff, Option, none, some, List, [], ◌∷◌, Text,
  text_eq, text_eq_refl, lookup, insert, lookup-insert, or_else, arith, if◌then◌else◌, ◌⊎◌,
}
use open_archiver.Sync.Model.{StateValue, bucket, plain, SyncState}
use open_archiver.Sync.StateMerge.{concat, is_nested, merge_bucket, merge_entries, merge_state}

-- The last value of the key.
abbrev pub latest {ℓ} : {V : Type ℓ} → Text → List (Text × V) → Option V
latest m [] = none
latest m ((k, v) ∷ b) = elim (latest m b) [
  | none ↦ if text_eq k m then some v else none
  | some w ↦ some w
]

abbrev pub either {ℓ} : {V : Type ℓ} → Option V → Option V → Option V
either none b = b
either (some v) b = some v

pub lookup-concat {ℓ} :
    {V : Type ℓ} (m : Text) (a b : List (Text × V))
    → lookup m (concat a b) ≡ either (latest m b) (lookup m a)
unfolding concat
lookup-concat m a [] = refl
lookup-concat m a ((k, v) ∷ b) =
    ground (arith, lookup-concat m (insert k v a) b, lookup-insert k m v a)

abbrev in_bucket : Text → Option StateValue → Option Text
in_bucket m none = none
in_bucket m (some (bucket b)) = lookup m b
in_bucket m (some (plain t)) = none

-- The token of a mailbox under a provider's key.
abbrev pub token_of : Text → Text → Option SyncState → Option Text
token_of key m none = none
token_of key m (some state) = in_bucket m (lookup key state)

-- The provider's key holds an object, or nothing yet.
abbrev IsObject : Option StateValue → Type 0
IsObject none = Unit {0}
IsObject (some (bucket b)) = Unit {0}
IsObject (some (plain t)) = ⊥

abbrev pub HasObject : Text → Option SyncState → Type 0
HasObject key none = Unit {0}
HasObject key (some state) = IsObject (lookup key state)

-- What a mailbox reports: its tokens under the provider's key, and plain values before and after it.
pub record Report : Type 0 where
  pub before : List (Text × Text)
  pub tokens : List (Text × Text)
  pub after : List (Text × Text)

abbrev pub with_plain : List (Text × Text) → SyncState → SyncState
with_plain [] rest = rest
with_plain ((k, t) ∷ others) rest = (k, plain t) ∷ with_plain others rest

abbrev HasNone : Text → List (Text × Text) → Type 0
HasNone key others = All (λ o. text_eq o.0 key ≡ false) others

-- The plain values are under other keys.
abbrev pub Carries : Text → Report → Type 0
Carries key r = HasNone key r.before × HasNone key r.after

abbrev put_by : SyncState → List (Text × Text) → SyncState
put_by scalars [] = scalars
put_by scalars ((k, t) ∷ others) = put_by (insert k (plain t) scalars) others

latest-insert_other :
    (key k : Text) (v : StateValue) (scalars : SyncState)
    → text_eq k key ≡ false
    → latest key (insert k v scalars) ≡ latest key scalars
unfolding insert
latest-insert_other key k v [] h = rw h refl
latest-insert_other key k v ((j, w) ∷ scalars) h =
    ground (arith, text_eq_iff j k, latest-insert_other key k v scalars h)

latest-put_by :
    (key : Text) (scalars : SyncState) (others : List (Text × Text))
    → HasNone key others
    → latest key (put_by scalars others) ≡ latest key scalars
latest-put_by key scalars [] h = refl
latest-put_by key scalars ((k, t) ∷ others) (h, hs) =
    latest-put_by key (insert k (plain t) scalars) others hs
    ∙ latest-insert_other key k (plain t) scalars h

module _ (mixed : Text → List (Text × Text) → StateValue) where
  -- The column after a mailbox has reported these tokens under a provider's key.
  abbrev pub merged : Text → Option SyncState → List (Text × Text) → Option SyncState
  merged key column new = some (merge_state mixed column ((key, bucket new) ∷ []))

  merged-bucket :
      (key : Text) (column : Option SyncState) (new : List (Text × Text))
      → is_nested key ≡ true
      → lookup key (merge_state mixed column ((key, bucket new) ∷ []))
        ≡ some (merge_bucket mixed (lookup key (or_else column [])) new)
  unfolding merge_state merge_entries concat
  merged-bucket key column new h = ground (
    arith,
    h,
    text_eq_refl key,
    lookup-insert key key (merge_bucket mixed (lookup key (or_else column [])) new)
        (or_else column []),
  )

  -- The column after a report.
  abbrev pub reported : Text → Option SyncState → Report → Option SyncState
  reported key column r = some (
      merge_state mixed column
        (with_plain r.before ((key, bucket r.tokens) ∷ with_plain r.after [])))

  merge_entries-plain :
      (stored expression scalars rest : SyncState) (others : List (Text × Text))
      → merge_entries mixed stored expression scalars (with_plain others rest)
        ≡ merge_entries mixed stored expression (put_by scalars others) rest
  unfolding merge_entries
  merge_entries-plain stored expression scalars rest [] = refl
  merge_entries-plain stored expression scalars rest ((k, t) ∷ others) =
      merge_entries-plain stored expression (insert k (plain t) scalars) rest others

  reported-bucket :
      (key : Text) (column : Option SyncState) (r : Report)
      → is_nested key ≡ true
      → Carries key r
      → lookup key (
          merge_state mixed column
            (with_plain r.before ((key, bucket r.tokens) ∷ with_plain r.after [])))
        ≡ some (merge_bucket mixed (lookup key (or_else column [])) r.tokens)
  unfolding merge_state merge_entries
  reported-bucket key column r n (b, a) =
      let stored = or_else column [] in
      let new = merge_bucket mixed (lookup key stored) r.tokens in
      ap (lookup key) (
        merge_entries-plain stored stored [] ((key, bucket r.tokens) ∷ with_plain r.after [])
          r.before
        ∙ rw n (merge_entries-plain stored (insert key new stored) (put_by [] r.before) [] r.after))
      ∙ lookup-concat key (insert key new stored) (put_by (put_by [] r.before) r.after)
      ∙ ap (λ o. either o (lookup key (insert key new stored)))
          (latest-put_by key (put_by [] r.before) r.after a ∙ latest-put_by key [] r.before b)
      ∙ lookup-insert key key new stored
      ∙ rw (text_eq_refl key) refl

  merge_bucket-in :
      (m : Text) (v : Option StateValue) (new : List (Text × Text))
      → IsObject v
      → in_bucket m (some (merge_bucket mixed v new)) ≡ either (latest m new) (in_bucket m v)
  unfolding lookup
  merge_bucket-in m none new h = lookup-concat m [] new
  merge_bucket-in m (some (bucket b)) new h = lookup-concat m b new
  merge_bucket-in m (some (plain t)) new h = elim h [ ]

  merge_bucket-IsObject :
      (v : Option StateValue) (new : List (Text × Text))
      → IsObject v
      → IsObject (some (merge_bucket mixed v new))
  merge_bucket-IsObject none new h = tt
  merge_bucket-IsObject (some (bucket b)) new h = tt
  merge_bucket-IsObject (some (plain t)) new h = elim h [ ]

  IsObject-in :
      (key : Text) (column : Option SyncState)
      → HasObject key column
      → IsObject (lookup key (or_else column []))
  unfolding lookup
  IsObject-in key none h = tt
  IsObject-in key (some state) h = h

  -- A report of tokens under a provider's key, which does not hold a plain value: each mailbox has
  -- the token reported for it last, and a mailbox that is not reported keeps its token.
  pub merged-token_of :
      (key : Text) (m : Text) (column : Option SyncState) (new : List (Text × Text))
      → is_nested key ≡ true
      → HasObject key column
      → token_of key m (merged key column new) ≡ either (latest m new) (token_of key m column)
  unfolding lookup
  merged-token_of key m none new n h = rw (merged-bucket key none new n) (lookup-concat m [] new)
  merged-token_of key m (some state) new n h =
      rw (merged-bucket key (some state) new n) (merge_bucket-in m (lookup key state) new h)

  merged-HasObject :
      (key : Text) (column : Option SyncState) (r : Report)
      → is_nested key ≡ true
      → HasObject key column
      → Carries key r
      → HasObject key (reported key column r)
  merged-HasObject key column r n h c =
      rw (reported-bucket key column r n c)
        (merge_bucket-IsObject (lookup key (or_else column [])) r.tokens (IsObject-in key column h))

  reported-token_of :
      (key : Text) (m : Text) (column : Option SyncState) (r : Report)
      → is_nested key ≡ true
      → HasObject key column
      → Carries key r
      → token_of key m (reported key column r) ≡ either (latest m r.tokens) (token_of key m column)
  unfolding lookup
  reported-token_of key m none r n h c =
      rw (reported-bucket key none r n c) (lookup-concat m [] r.tokens)
  reported-token_of key m (some state) r n h c =
      rw (reported-bucket key (some state) r n c) (merge_bucket-in m (lookup key state) r.tokens h)

  -- Two reports of tokens under a provider's key, which does not hold a plain value in the column,
  -- each possibly with plain values under other keys (such as a status message), that have no mailbox
  -- in common: whichever is merged first, every mailbox ends with the same token. Of the plain values
  -- this says nothing.
  pub merged_comm :
      (key : Text) (column : Option SyncState) (r other : Report)
      → is_nested key ≡ true
      → HasObject key column
      → Carries key r
      → Carries key other
      → ((m : Text) → (latest m r.tokens ≡ none) ⊎ (latest m other.tokens ≡ none))
      → (m : Text)
      → token_of key m (reported key (reported key column r) other)
        ≡ token_of key m (reported key (reported key column other) r)
  merged_comm key column r other n h c c' apart m = ground (
    arith,
    apart m,
    reported-token_of key m column r n h c,
    reported-token_of key m column other n h c',
    reported-token_of key m (reported key column r) other n (merged-HasObject key column r n h c)
        c',
    reported-token_of key m (reported key column other) r n
        (merged-HasObject key column other n h c') c,
  )
