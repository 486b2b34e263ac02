-- ===== src/Classifier/Lifecycle/Merge/Keeps.antt =====
-- No pass of `link` loses evidence.
use mathlib.Core.Option.{some-injective}
use native.Mathlib.Decide.{ℕ_discrete}
use session_scope.Common.{
  ℕ, zero, suc, ◌+◌, ◌≡◌, ◌≢◌, refl, ◌∙◌, sym, ap, subst, false, List, [], ◌∷◌, some, arith, inl,
  inr, contains, nat_eq, Bool-cases,
}
use session_scope.Common.Lists.{IsIn, is_empty}
use session_scope.Common.Sets.{insert, contains-insert}
use session_scope.Model.Lifecycle.{LifecycleStage}
use session_scope.Model.Evidence.{EvidenceId}
use session_scope.Model.Finding.{ArtifactId}
use session_scope.Model.Report.{LifecyclePath}
use session_scope.Classifier.Lookup.{EvidenceMap}
use session_scope.Classifier.Lifecycle.Paths.{ArtifactMap}
use session_scope.Classifier.Lifecycle.Metadata.{refresh_path_metadata}
use session_scope.Classifier.Lifecycle.Links.{merge_path}
use session_scope.Classifier.Lifecycle.Merge.{
  Merging, path_at, update, run_pass, retain, finish, merge_revoke_only_paths,
  merge_query_param_paths, merge_refresh_paths,
}
use session_scope.Classifier.Lifecycle.Merge.Step.{
  Step, absorbs, updates, Steps, none_left, step_then, run_pass-Steps, revoke_step-Steps,
  query_step-Steps, refresh_step-Steps,
}
use session_scope.Classifier.Lifecycle.Merge.Records.{
  Records, IsIn-refresh, Notes-refresh, IsIn-merge_path, Notes-merge_path,
}

path_at-update_same :
    (i : ℕ) (f : LifecyclePath → LifecyclePath) (ps : List LifecyclePath) (p : LifecyclePath)
    → path_at ps i ≡ some p
    → path_at (update i f ps) i ≡ some (f p)
path_at-update_same i f [] p h = absurd (cc h)
path_at-update_same zero f (q ∷ ps) p h = ap (λ x. some (f x)) (some-injective q p h)
path_at-update_same (suc i) f (q ∷ ps) p h = path_at-update_same i f ps p h

path_at-update_ne :
    (i j : ℕ) (f : LifecyclePath → LifecyclePath) (ps : List LifecyclePath)
    → i ≢ j
    → path_at (update i f ps) j ≡ path_at ps j
path_at-update_ne i j f [] h = refl
path_at-update_ne zero zero f (q ∷ ps) h = absurd (h refl)
path_at-update_ne zero (suc j) f (q ∷ ps) h = refl
path_at-update_ne (suc i) zero f (q ∷ ps) h = refl
path_at-update_ne (suc i) (suc j) f (q ∷ ps) h = path_at-update_ne i j f ps (λ e. h (ap suc e))

module _ (a : ArtifactId) (s : LifecycleStage) (e : EvidenceId) where
  -- A path that is not absorbed has the record.
  pub record IsHeld (m : Merging) : Type 0 where
    pub index : ℕ
    pub path : LifecyclePath
    pub here : path_at m.paths index ≡ some path
    pub free : contains m.absorbed index ≡ false
    pub recorded : Records path a s e

  merged_source : (p q : LifecyclePath) → Records p a s e → Records (merge_path p q) a s e
  merged_source p q r =
      ((IsIn-merge_path p q a).1 (inr r.0), (Notes-merge_path p q s e).1 (inr r.1))

  merged_target : (p q : LifecyclePath) → Records q a s e → Records (merge_path p q) a s e
  merged_target p q r =
      ((IsIn-merge_path p q a).1 (inl r.0), (Notes-merge_path p q s e).1 (inl r.1))

  module _ (artifacts : ArtifactMap) (evidence : EvidenceMap) where
    refreshed :
        (p : LifecyclePath)
        → Records p a s e
        → Records (refresh_path_metadata artifacts evidence p) a s e
    refreshed p r = (
      (IsIn-refresh artifacts evidence p a).1 r.0,
      (Notes-refresh artifacts evidence p s e).1 r.1,
    )

    -- A changed path that keeps its record, with any absorbed set that leaves its index out.
    update-IsHeld :
        (m : Merging) (i : ℕ) (f : LifecyclePath → LifecyclePath) (absorbed : List ℕ)
        → ((p : LifecyclePath) → Records p a s e → Records (f p) a s e)
        → (h : IsHeld m) → contains absorbed h.index ≡ false
        → IsHeld (record { paths = update i f m.paths; absorbed = absorbed })
    update-IsHeld m i f absorbed keeps h free = elim (ℕ_discrete i h.index) [
      | yes same ↦ record {
        index = h.index;
        path = f h.path;
        here =
            subst (λ (k : ℕ). path_at (update k f m.paths) h.index ≡ some (f h.path)) (sym same)
              (path_at-update_same h.index f m.paths h.path h.here);
        free = free;
        recorded = keeps h.path h.recorded;
      }
      | no differ ↦ record {
        index = h.index;
        path = h.path;
        here = path_at-update_ne i h.index f m.paths differ ∙ h.here;
        free = free;
        recorded = h.recorded;
      }
    ]

    Step-IsHeld : (m m' : Merging) → Step artifacts evidence m m' → IsHeld m → IsHeld m'
    Step-IsHeld m m' (absorbs source target p q hs ht ne free eq) h =
        rw eq (elim (ℕ_discrete source h.index) [
          | yes same ↦ record {
            index = target;
            path = merge_path p q;
            here = path_at-update_same target (merge_path p) m.paths q ht;
            free = ground (arith, contains-insert source target m.absorbed);
            recorded = merged_source p q (
                subst (λ x. Records x a s e)
                  (some-injective h.path p (sym h.here ∙ (ap (path_at m.paths) (sym same) ∙ hs)))
                  h.recorded);
          }
          | no differ ↦
              update-IsHeld m target (merge_path p) (insert source m.absorbed) (merged_target p) h
                (ground (arith, contains-insert source h.index m.absorbed))
        ])
    Step-IsHeld m m' (updates target eq) h = rw eq (
        update-IsHeld m target (refresh_path_metadata artifacts evidence) m.absorbed refreshed h
          h.free)

    Steps-IsHeld : (m m' : Merging) → Steps artifacts evidence m m' → IsHeld m → IsHeld m'
    Steps-IsHeld m m' none_left h = h
    Steps-IsHeld m m'' (step_then m' _ steps step) h =
        Step-IsHeld m' m'' step (Steps-IsHeld m m' steps h)

  -- A path of the list has the record.
  abbrev pub IsRecorded : List LifecyclePath → Type 0
  IsRecorded ps = (p : LifecyclePath) × IsIn p ps × Records p a s e

  retain-IsIn :
      (absorbed : List ℕ) (i k : ℕ) (ps : List LifecyclePath) (p : LifecyclePath)
      → path_at ps i ≡ some p
      → contains absorbed (k + i) ≡ false
      → IsIn p (retain absorbed k ps)
  unfolding retain
  retain-IsIn absorbed i k [] p h free = absurd (cc h)
  retain-IsIn absorbed zero k (q ∷ ps) p h free =
      let kept : contains absorbed k ≡ false =
        subst (λ (n : ℕ). contains absorbed n ≡ false) (omega arith) free in
      rw kept (inl (some-injective p q (sym h)))
  retain-IsIn absorbed (suc i) k (q ∷ ps) p h free =
      let later =
        retain-IsIn absorbed i (suc k) ps p h
          (subst (λ (n : ℕ). contains absorbed n ≡ false) (omega arith) free) in
      elim (Bool-cases (contains absorbed k)) [
        | inl out ↦ rw out later
        | inr stays ↦ rw stays (inr later)
      ]

  path_at-IsIn :
      (i : ℕ) (ps : List LifecyclePath) (p : LifecyclePath) → path_at ps i ≡ some p → IsIn p ps
  path_at-IsIn i [] p h = absurd (cc h)
  path_at-IsIn zero (q ∷ ps) p h = inl (some-injective p q (sym h))
  path_at-IsIn (suc i) (q ∷ ps) p h = inr (path_at-IsIn i ps p h)

  IsIn-path_at :
      (ps : List LifecyclePath) (p : LifecyclePath) → IsIn p ps → (i : ℕ) × (path_at ps i ≡ some p)
  IsIn-path_at [] p h = elim h [ ]
  IsIn-path_at (q ∷ ps) p (inl same) = (0, ap some (sym same))
  IsIn-path_at (q ∷ ps) p (inr later) = let (i, here) = IsIn-path_at ps p later in (suc i, here)

  finish-IsRecorded : (m : Merging) → IsHeld m → IsRecorded (finish m)
  unfolding finish
  finish-IsRecorded m h = elim (Bool-cases (is_empty m.absorbed)) [
    | inl none' ↦ rw none' (h.path, path_at-IsIn h.index m.paths h.path h.here, h.recorded)
    | inr some' ↦ rw some' (
      h.path,
      retain-IsIn m.absorbed h.index 0 m.paths h.path h.here
          (subst (λ (n : ℕ). contains m.absorbed n ≡ false) (omega arith) h.free),
      h.recorded,
    )
  ]

  module _ (artifacts : ArtifactMap) (evidence : EvidenceMap) where
    pass-IsRecorded :
        (f : Merging → ℕ → Merging) (ps : List LifecyclePath)
        → ((m : Merging) (i : ℕ) → Steps artifacts evidence m (f m i))
        → IsRecorded ps
        → IsRecorded (finish (run_pass f ps))
    pass-IsRecorded f ps step (p, m, r) =
        let (i, here) = IsIn-path_at ps p m in
        finish-IsRecorded _ (
          Steps-IsHeld artifacts evidence _ _ (run_pass-Steps artifacts evidence f ps step)
            (record { index = i; path = p; here = here; free = refl; recorded = r }))

    pub passes-IsRecorded :
        (ps : List LifecyclePath)
        → IsRecorded ps
        → IsRecorded (
            merge_refresh_paths artifacts evidence (
              merge_query_param_paths artifacts evidence
                (merge_revoke_only_paths artifacts evidence ps)))
    unfolding merge_refresh_paths merge_query_param_paths merge_revoke_only_paths
    passes-IsRecorded ps h = pass-IsRecorded _ _ (refresh_step-Steps artifacts evidence) (
        pass-IsRecorded _ _ (query_step-Steps artifacts evidence)
          (pass-IsRecorded _ ps (revoke_step-Steps artifacts evidence) h))
