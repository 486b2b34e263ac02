-- ===== src/Classifier/Lifecycle/Merge/Step.antt =====
-- What the passes of `link` do, as steps on the paths and the absorbed indices.
use session_scope.Common.{
  ℕ, zero, suc, ◌-◌, ◌<◌, ◌≡◌, ◌≢◌, refl, Bool, true, false, ◌||◌, not, Option, none, some, List,
  [], ◌∷◌, arith, inl, inr, nat_eq, contains, Bool-cases, Option-cases,
}
use session_scope.Common.Lists.{All, find-IsIn, length}
use session_scope.Common.Sets.{insert, contains-insert}
use session_scope.Model.Artifact.{Artifact}
use session_scope.Model.Report.{LifecyclePath}
use session_scope.Classifier.Lookup.{EvidenceMap}
use session_scope.Classifier.Lifecycle.Paths.{ArtifactMap, artifact_for_path_with_lookup}
use session_scope.Classifier.Lifecycle.Metadata.{refresh_path_metadata}
use session_scope.Classifier.Lifecycle.Links.{
  merge_path, is_revoke_only_path, is_query_param_transmit_path, is_refresh_path,
}
use session_scope.Classifier.Lifecycle.Merge.{
  Merging, path_at, update, range, run, run_pass, target_index, absorb, absorb_first, revoke_step,
  query_step, refresh_links, refresh_source, refresh_step, links_at,
}

module _ (artifacts : ArtifactMap) (evidence : EvidenceMap) where
  -- A path is merged into another one that is not absorbed, and is absorbed; or the metadata of a
  -- path are set anew.
  pub data Step (m m' : Merging) : Type 0 where
    absorbs :
        (source target : ℕ) (s t : LifecyclePath)
        → path_at m.paths source ≡ some s
        → path_at m.paths target ≡ some t
        → source ≢ target
        → contains m.absorbed target ≡ false
        → m' ≡ record {
          paths = update target (merge_path s) m.paths;
          absorbed = insert source m.absorbed;
        }
        → Step m m'
    updates :
        (target : ℕ)
        → m' ≡ record m { paths = update target (refresh_path_metadata artifacts evidence) m.paths }
        → Step m m'

  pub data Steps (m : Merging) : Merging → Type 0 where
    none_left : Steps m m
    step_then : (m' m'' : Merging) → Steps m m' → Step m' m'' → Steps m m''

  Steps-trans : (a b c : Merging) → Steps a b → Steps b c → Steps a c
  Steps-trans a b c p none_left = p
  Steps-trans a b c p (step_then d e q s) = step_then d c (Steps-trans a b d p q) s

  run-Steps :
      (f : Merging → ℕ → Merging) (m : Merging) (is : List ℕ)
      → ((n : Merging) (i : ℕ) → Steps n (f n i))
      → Steps m (run f m is)
  run-Steps f m [] h = none_left
  run-Steps f m (i ∷ is) h = Steps-trans _ _ _ (h m i) (run-Steps f (f m i) is h)

  absorb-Steps :
      (source target : ℕ) (s t : LifecyclePath) (m : Merging)
      → path_at m.paths source ≡ some s
      → path_at m.paths target ≡ some t
      → source ≢ target
      → contains m.absorbed target ≡ false
      → Steps m (absorb artifacts evidence source s target m)
  unfolding absorb
  absorb-Steps source target s t m hs ht ne free =
      step_then _ _ (step_then _ _ none_left (absorbs source target s t hs ht ne free refl))
        (updates target refl)

  path_of_links :
      (links : Artifact → LifecyclePath → Bool) (o : Option LifecyclePath)
      → links_at artifacts links o ≡ true
      → (t : LifecyclePath) × (o ≡ some t)
  unfolding links_at
  path_of_links links none h = absurd (cc h)
  path_of_links links (some t) h = (t, refl)

  target_index_sound :
      (links : Artifact → LifecyclePath → Bool) (source target : ℕ) (m : Merging)
      → target_index artifacts links source m ≡ some target
      → (source ≢ target)
        × (contains m.absorbed target ≡ false)
        × (links_at artifacts links (path_at m.paths target) ≡ true)
  unfolding target_index
  target_index_sound links source target m h =
      let passed = (find-IsIn _ target (range 0 (length m.paths)) h).1 in
      (ground arith, ground arith, ground arith)

  absorb_first-Steps :
      (links : Artifact → Artifact → LifecyclePath → Bool) (source : ℕ) (s : LifecyclePath)
      (m : Merging)
      → path_at m.paths source ≡ some s
      → Steps m (absorb_first artifacts evidence links source s m)
  unfolding absorb_first
  absorb_first-Steps links source s m hs =
      elim (Option-cases (artifact_for_path_with_lookup artifacts s)) [
        | inl missing ↦ rw (missing, absorb_first) none_left
        | inr (a, found) ↦
            rw (found, absorb_first)
              (elim (Option-cases (target_index artifacts (links a) source m)) [
                | inl no_target ↦ rw (no_target, absorb_first) none_left
                | inr (target, chosen) ↦ rw chosen (
                    let sound = target_index_sound (links a) source target m chosen in
                    let (t, ht) = path_of_links (links a) _ sound.2 in
                    absorb-Steps source target s t m hs ht sound.0 sound.1)
              ])
      ]

  pub revoke_step-Steps : (m : Merging) (i : ℕ) → Steps m (revoke_step artifacts evidence m i)
  unfolding revoke_step
  revoke_step-Steps m i = elim (Option-cases (path_at m.paths i)) [
    | inl out ↦ rw (out, revoke_step) none_left
    | inr (p, here) ↦
        rw (here, revoke_step)
          (elim (Bool-cases (is_revoke_only_path p)) [
            | inl yes' ↦ rw yes' (absorb_first-Steps _ i p m here)
            | inr no' ↦ rw no' none_left
          ])
  ]

  pub query_step-Steps : (m : Merging) (i : ℕ) → Steps m (query_step artifacts evidence m i)
  unfolding query_step
  query_step-Steps m i = elim (Option-cases (path_at m.paths i)) [
    | inl out ↦ rw (out, query_step) none_left
    | inr (p, here) ↦
        rw (here, query_step)
          (elim (Bool-cases
            (contains m.absorbed i || not (is_query_param_transmit_path evidence p))) [
              | inl yes' ↦ rw yes' none_left
              | inr no' ↦ rw no' (absorb_first-Steps _ i p m here)
            ])
  ]

  -- A source of the inner loop leaves the target unabsorbed.
  refresh_source-Steps :
      (target source : ℕ) (m : Merging)
      → target < source
      → contains m.absorbed target ≡ false
      → Steps m (refresh_source artifacts evidence target m source)
        × (contains (refresh_source artifacts evidence target m source).absorbed target ≡ false)
  unfolding refresh_source
  refresh_source-Steps target source m lt free = elim (Option-cases (path_at m.paths source)) [
    | inl out ↦ rw (out, refresh_source) (none_left, free)
    | inr (s, hs) ↦
        rw (hs, refresh_source)
          (elim (Option-cases (path_at m.paths target)) [
            | inl out ↦ rw out (none_left, free)
            | inr (t, ht) ↦
                rw ht
                  (elim (Bool-cases
                    (contains m.absorbed source || not (is_refresh_path artifacts s))) [
                      | inl skip ↦ rw skip (none_left, free)
                      | inr go_on ↦
                          rw go_on (elim (Bool-cases (refresh_links artifacts evidence s t)) [
                            | inl linked ↦ rw linked (
                              step_then _ _ none_left
                                  (absorbs source target s t hs ht (omega arith) free refl),
                              ground (arith, contains-insert source target m.absorbed),
                            )
                            | inr apart ↦ rw apart (none_left, free)
                          ])
                    ])
          ])
  ]

  refresh_sources-Steps :
      (target : ℕ) (m : Merging) (is : List ℕ)
      → All (λ i. target < i) is
      → contains m.absorbed target ≡ false
      → Steps m (run (refresh_source artifacts evidence target) m is)
  refresh_sources-Steps target m [] above free = none_left
  refresh_sources-Steps target m (i ∷ is) above free =
      let (one, still_free) = refresh_source-Steps target i m above.0 free in
      Steps-trans _ _ _ one (
        refresh_sources-Steps target (refresh_source artifacts evidence target m i) is above.1
          still_free)

  range-above : (target first n : ℕ) → target < first → All (λ i. target < i) (range first n)
  range-above target first zero h = tt
  range-above target first (suc n) h = (h, range-above target (suc first) n (omega arith))

  pub refresh_step-Steps : (m : Merging) (i : ℕ) → Steps m (refresh_step artifacts evidence m i)
  unfolding refresh_step
  refresh_step-Steps m i = elim (Option-cases (path_at m.paths i)) [
    | inl out ↦ rw (out, refresh_step) none_left
    | inr (p, here) ↦
        rw (here, refresh_step)
          (elim (Bool-cases (contains m.absorbed i || not (is_refresh_path artifacts p))) [
            | inl skip ↦ rw skip none_left
            | inr go_on ↦ rw go_on (
                let sources = range-above i (suc i) (length m.paths - suc i) (omega arith) in
                step_then _ _
                  (refresh_sources-Steps i m (range (suc i) (length m.paths - suc i)) sources
                    (ground arith))
                  (updates i refl))
          ])
  ]

  -- A pass is a sequence of steps from its paths, with none absorbed.
  pub run_pass-Steps :
      (f : Merging → ℕ → Merging) (paths : List LifecyclePath)
      → ((m : Merging) (i : ℕ) → Steps m (f m i))
      → Steps (record { paths = paths; absorbed = [] }) (run_pass f paths)
  unfolding run_pass
  run_pass-Steps f paths h = run-Steps f _ (range 0 (length paths)) h
