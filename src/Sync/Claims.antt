-- ===== src/Sync/Claims.antt =====
-- IngestionService.claimForSync and claimForImport: one cycle holds a source at a time.
use open_archiver.Prelude.{
  ℕ, ◌≡◌, refl, inl, inr, Bool, true, false, Option, none, some, List, [], ◌∷◌, Text, arith,
  text_eq, find, update_where, Bool-cases, Option-cases, All, ◌≤◌, filter, length, is_some,
  update_where-none, map, subst, sym,
}
use open_archiver.Sync.Model.{Status, Source, Db, Outcome, done, source_is}
use open_archiver.Sync.Source.{
  is_cycling, is_syncable, not_cycling, matching, start_sync, start_import, decrypt_source,
  returning, claim, claim_for_sync, claim_for_import,
}

abbrev pub got : {A : Type 0} → Outcome (Option A) → Bool
got (done (some a)) = true
got _ = false

-- All rows with an id are in a cycle; ids are unique in the database.
abbrev pub IsHeld : Text → List Source → Type 0
IsHeld i sources = All (λ s. text_eq s.id i ≡ true → is_cycling s.status ≡ true) sources

-- The id is the key of at most one row.
abbrev pub IsKeyed : Text → List Source → Type 0
IsKeyed i sources = length (filter (source_is i) sources) ≤ 1

-- Of each row with the id, whether it is in a cycle.
abbrev pub cycling_rows : Text → List Source → List Bool
cycling_rows i sources = map (λ s. is_cycling s.status) (filter (source_is i) sources)

IsHeld-All :
    (i : Text) (sources : List Source)
    → IsHeld i sources
    → All (λ b. b ≡ true) (cycling_rows i sources)
IsHeld-All i [] h = tt
IsHeld-All i (s ∷ sources) (h, hs) = elim (Bool-cases (text_eq s.id i)) [
  | inl here ↦ rw here (h here, IsHeld-All i sources hs)
  | inr other ↦ rw other (IsHeld-All i sources hs)
]

All-IsHeld :
    (i : Text) (sources : List Source)
    → All (λ b. b ≡ true) (cycling_rows i sources)
    → IsHeld i sources
All-IsHeld i [] h = tt
All-IsHeld i (s ∷ sources) h = elim (Bool-cases (text_eq s.id i)) [
  | inl here ↦ (let h' = rw here at h in ((λ e. h'.0), All-IsHeld i sources h'.1))
  | inr other ↦ ((λ e. absurd (cc)), All-IsHeld i sources (rw other at h))
]

same_cycling-IsHeld :
    (i : Text) (sources later : List Source)
    → cycling_rows i later ≡ cycling_rows i sources
    → IsHeld i sources
    → IsHeld i later
same_cycling-IsHeld i sources later e h =
    All-IsHeld i later (subst (All (λ b. b ≡ true)) (sym e) (IsHeld-All i sources h))

module _ (i : Text) (ready : Status → Bool) (start : Source → Source) where
  unkeyed-IsHeld :
      (sources : List Source)
      → ((s : Source) → (start s).id ≡ s.id)
      → length (filter (source_is i) sources) ≡ 0
      → IsHeld i (update_where (matching i ready) start sources)
  unfolding matching
  unkeyed-IsHeld [] same e = tt
  unkeyed-IsHeld (s ∷ sources) same e =
      (ground (arith, same s), unkeyed-IsHeld sources same (ground arith))

  unkeyed-none :
      (sources : List Source)
      → length (filter (source_is i) sources) ≡ 0
      → find (matching i ready) sources ≡ none
  unfolding matching
  unkeyed-none [] e = refl
  unkeyed-none (s ∷ sources) e = ground (arith, unkeyed-none sources)

  claimed-IsHeld :
      ((s : Source) → (start s).id ≡ s.id)
      → ((s : Source) → is_cycling (start s).status ≡ true)
      → (sources : List Source) → IsKeyed i sources
      → is_some (find (matching i ready) sources) ≡ true
      → IsHeld i (update_where (matching i ready) start sources)
  unfolding matching
  claimed-IsHeld same h [] k found = tt
  claimed-IsHeld same h (s ∷ sources) k found = elim (Bool-cases (text_eq s.id i)) [
    | inl here ↦
        (ground (arith, h s, unkeyed-none sources), unkeyed-IsHeld sources same (ground arith))
    | inr other ↦
        (ground (arith, same s), claimed-IsHeld same h sources (ground arith) (ground arith))
  ]

  held-no_match :
      ((status : Status) → is_cycling status ≡ true → ready status ≡ false)
      → (sources : List Source) → IsHeld i sources
      → find (matching i ready) sources ≡ none
  unfolding matching
  held-no_match excl [] h = refl
  held-no_match excl (s ∷ sources) (h, hs) =
      ground (arith, excl s.status, held-no_match excl sources hs)

module _ (readable : Text → Bool) where
  returning-keeps :
      (o : Option Source) (change : Source → Source) (d : Db)
      → (returning readable o change d).0 ≡ d
  unfolding returning decrypt_source
  returning-keeps none change d = refl
  returning-keeps (some s) change d = ground arith

  claim-sources :
      (ready : Status → Bool) (start : ℕ → Source → Source) (i : Text) (d : Db)
      → (claim readable ready start i d).0
        ≡ record d { sources = update_where (matching i ready) (start d.now) d.sources }
  unfolding claim
  claim-sources ready start i d =
      returning-keeps (find (matching i ready) d.sources) (start d.now) _

  claim-got :
      (ready : Status → Bool) (start : ℕ → Source → Source) (i : Text) (d : Db)
      → got (claim readable ready start i d).1 ≡ true
      → is_some (find (matching i ready) d.sources) ≡ true
  unfolding claim returning
  claim-got ready start i d h = elim (Option-cases (find (matching i ready) d.sources)) [
    | inl nothing ↦ absurd (let e : false ≡ true = rw nothing at h in cc)
    | inr (s, found) ↦ rw found
  ]

  claim-IsHeld :
      (ready : Status → Bool) (start : ℕ → Source → Source) (i : Text) (d : Db)
      → ((now : ℕ) (s : Source) → (start now s).id ≡ s.id)
      → ((now : ℕ) (s : Source) → is_cycling (start now s).status ≡ true)
      → IsKeyed i d.sources
      → got (claim readable ready start i d).1 ≡ true
      → IsHeld i (claim readable ready start i d).0.sources
  claim-IsHeld ready start i d same h k g = rw (claim-sources ready start i d) (
      claimed-IsHeld i ready (start d.now) (same d.now) (h d.now) d.sources k
        (claim-got ready start i d g))

  claim-held :
      (ready : Status → Bool) (start : ℕ → Source → Source) (i : Text) (d : Db)
      → ((status : Status) → is_cycling status ≡ true → ready status ≡ false)
      → IsHeld i d.sources
      → claim readable ready start i d ≡ (d, done none)
  unfolding claim returning
  claim-held ready start i d excl h =
      let no_row = held-no_match i ready (start d.now) excl d.sources h in
      rw (no_row, update_where-none (matching i ready) (start d.now) d.sources no_row)

  -- Both claims refuse a held source and change nothing.
  held-refused :
      (i : Text) (d : Db)
      → IsHeld i d.sources
      → (claim_for_sync readable i d ≡ (d, done none))
        × (claim_for_import readable i d ≡ (d, done none))
  unfolding claim_for_sync claim_for_import
  held-refused i d h = (
    claim-held is_syncable start_sync i d (λ status e. ground arith) h,
    claim-held not_cycling start_import i d (λ status e. ground arith) h,
  )

  -- Once claimForSync has given a source to a cycle, neither claimForSync nor claimForImport
  -- gives it to another in any later database `d2`, whatever else has changed in it, as long as
  -- the source is still 'syncing' or 'importing'; both leave that database as it is.
  pub claim_for_sync-exclusive :
      (i : Text) (d d2 : Db)
      → IsKeyed i d.sources
      → got (claim_for_sync readable i d).1 ≡ true
      → cycling_rows i d2.sources ≡ cycling_rows i (claim_for_sync readable i d).0.sources
      → (claim_for_sync readable i d2 ≡ (d2, done none))
        × (claim_for_import readable i d2 ≡ (d2, done none))
  claim_for_sync-exclusive i d d2 k g e = held-refused i d2 (
      same_cycling-IsHeld i _ _ e (
        unfold claim_for_sync in
        claim-IsHeld is_syncable start_sync i d (λ now s. refl) (λ now s. refl) k g))

  -- The same once claimForImport has given a source to a cycle: neither claim gives it to another
  -- in any later database `d2`, as long as the source is still 'syncing' or 'importing'.
  pub claim_for_import-exclusive :
      (i : Text) (d d2 : Db)
      → IsKeyed i d.sources
      → got (claim_for_import readable i d).1 ≡ true
      → cycling_rows i d2.sources ≡ cycling_rows i (claim_for_import readable i d).0.sources
      → (claim_for_sync readable i d2 ≡ (d2, done none))
        × (claim_for_import readable i d2 ≡ (d2, done none))
  claim_for_import-exclusive i d d2 k g e = held-refused i d2 (
      same_cycling-IsHeld i _ _ e (
        unfold claim_for_import in
        claim-IsHeld not_cycling start_import i d (λ now s. refl) (λ now s. refl) k g))
