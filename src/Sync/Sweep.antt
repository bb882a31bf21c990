-- ===== src/Sync/Sweep.antt =====
-- The rescue of SyncSessionService.cleanStaleSessions: which sources it sets to 'error', and which
-- sessions it leaves alone.
use open_archiver.Prelude.{
  ℕ, ◌-◌, ◌≡◌, refl, sym, ◌∙◌, subst, inl, inr, Bool, false, not, ◌&&◌, ◌||◌, Option, some, List,
  [], ◌∷◌, Text, arith, any, filter, length, find, update_where, map_option, find-update_where,
  find-update_where_ne, text_eq, text_eq_iff, Bool-cases, if◌then◌else◌,
}
use open_archiver.Sync.Model.{Source, Db, done, pure, modify, source_is, no_session}
use open_archiver.Sync.Source.{is_cycling, initial_import_job_id, continuous_sync_job_id}
use open_archiver.Sync.Claims.{IsKeyed}
use open_archiver.Sync.Session.{
  started_before, has_session, set_error, is_abandoned, release_source, release_each,
  release_sessionless_sources,
}

abbrev error_if : Bool → ℕ → Option Source → Option Source
error_if b now o = if b then map_option (set_error now no_session) o else o

error_if_or :
    (b c : Bool) (now : ℕ) (o : Option Source)
    → error_if c now (error_if b now o) ≡ error_if (b || c) now o
error_if_or b c now o = ground arith

module _ (live : Text → Bool) where
  -- One of the two master jobs of the source is still queued or running.
  abbrev pub is_busy : Text → Bool
  is_busy i = live (initial_import_job_id i) || live (continuous_sync_job_id i)

  abbrev hits : Text → List Source → Bool
  hits i cs = any (λ c. text_eq c.id i && not (is_busy i)) cs

  release_source-row :
      (i : Text) (c : Source) (d : Db)
      → find (source_is i) (release_source live c d).0.sources
        ≡ error_if (text_eq c.id i && not (is_busy i)) d.now (find (source_is i) d.sources)
  unfolding release_source
  release_source-row i c d = elim (Bool-cases (text_eq c.id i)) [
    | inl same ↦
        let e = (text_eq_iff c.id i).0 same in
        let row =
          find-update_where (source_is i) (set_error d.now no_session) (λ x. refl) d.sources in
        subst
          (λ k.
            find (source_is i)
              ((if is_busy k
                  then pure tt
                  else modify (λ d'. record d' {
                    sources = update_where (source_is k) (set_error d'.now no_session) d'.sources;
                  }))
                d).0.sources
            ≡ error_if (text_eq k i && not (is_busy i)) d.now (find (source_is i) d.sources))
          (sym e) (ground (arith, row, text_eq_iff i i))
    | inr other ↦
        let row =
          find-update_where_ne (source_is c.id) (source_is i) (set_error d.now no_session)
            (λ x. refl)
            (λ x h. ground (arith, text_eq_iff x.id i, text_eq_iff x.id c.id, text_eq_iff c.id i))
            d.sources in
        ground (arith, row)
  ]

  release_source-rest :
      (c : Source) (d : Db)
      → ((release_source live c d).0.now ≡ d.now)
        × ((release_source live c d).0.sessions ≡ d.sessions)
        × ((release_source live c d).1 ≡ done tt)
  unfolding release_source
  release_source-rest c d = ground arith

  release_each-row :
      (i : Text) (cs : List Source) (d : Db)
      → find (source_is i) (release_each live cs d).0.sources
        ≡ error_if (hits i cs) d.now (find (source_is i) d.sources)
  unfolding release_each
  release_each-row i [] d = refl
  release_each-row i (c ∷ cs) d =
      let d' = (release_source live c d).0 in
      let (time, _, finished) = release_source-rest c d in
      let later = release_each-row i cs d' in
      let here = release_source-row i c d in
      rw (finished, later, time, here)
        (error_if_or (text_eq c.id i && not (is_busy i)) (hits i cs) d.now
          (find (source_is i) d.sources))

  hits-filter_none :
      (i : Text) (p : Source → Bool) (xs : List Source)
      → length (filter (source_is i) xs) ≡ 0
      → hits i (filter p xs) ≡ false
  hits-filter_none i p [] e = refl
  hits-filter_none i p (x ∷ xs) e = elim (Bool-cases (text_eq x.id i)) [
    | inl same ↦ ground arith
    | inr other ↦ ground (arith, hits-filter_none i p xs)
  ]

  hits-filter :
      (i : Text) (p : Source → Bool) (xs : List Source) (s : Source)
      → IsKeyed i xs
      → find (source_is i) xs ≡ some s
      → hits i (filter p xs) ≡ (p s && not (is_busy i))
  hits-filter i p [] s k e = ground arith
  hits-filter i p (x ∷ xs) s k e = elim (Bool-cases (text_eq x.id i)) [
    | inl same ↦
        let head : x ≡ s = ground arith in
        subst (λ s. hits i (filter p (x ∷ xs)) ≡ (p s && not (is_busy i))) head
          (ground (arith, hits-filter_none i p xs))
    | inr other ↦ ground (arith, hits-filter i p xs s)
  ]

  -- For a source that no other row shares its id with, after a round of releaseSessionlessSources:
  -- it is in 'error' with the rescue's message exactly when it was in a cycle that began before the
  -- cutoff, no session names it, and neither of its master jobs is queued or running; otherwise
  -- its row is as it was.
  pub release_sessionless_sources-row :
      (i : Text) (threshold : ℕ) (d : Db) (s : Source)
      → IsKeyed i d.sources
      → find (source_is i) d.sources ≡ some s
      → find (source_is i) (release_sessionless_sources live threshold d).0.sources
        ≡ some (
            if (is_cycling s.status
                && (started_before (d.now - threshold) s.last_sync_started_at
                    && not (has_session d.sessions s)))
              && not (is_busy i)
            then set_error d.now no_session s
            else s)
  unfolding release_sessionless_sources is_abandoned
  release_sessionless_sources-row i threshold d s k e =
      let p = is_abandoned (d.now - threshold) d.sessions in
      let rest = release_each-row i (filter p d.sources) d in
      let hit = hits-filter i p d.sources s k e in rest ∙ rw (hit, e) (ground arith)
