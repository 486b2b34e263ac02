-- ===== src/Classifier/Lifecycle/Merge/Every.antt =====
-- What holds of each path and survives merging holds of each path of `link`.
use mathlib.Core.Option.{some-injective}
use session_scope.Common.{
  ℕ, zero, suc, ◌≡◌, subst, List, [], ◌∷◌, Option, some, inl, inr, contains, nat_eq, Bool-cases,
  Option-cases, map,
}
use session_scope.Common.Lists.{All, collect, is_empty}
use session_scope.Common.Sorting.{All-sort_by}
use session_scope.Model.Artifact.{Artifact}
use session_scope.Model.Report.{LifecyclePath, ScanReport}
use session_scope.Classifier.Lookup.{EvidenceMap, evidence_by_id}
use session_scope.Classifier.Lifecycle.Paths.{ArtifactMap, artifact_by_id}
use session_scope.Classifier.Lifecycle.Metadata.{refresh_path_metadata, path_for_artifact}
use session_scope.Classifier.Lifecycle.Links.{merge_path}
use session_scope.Classifier.Lifecycle.Merge.{
  Merging, path_at, update, run_pass, retain, finish, merge_revoke_only_paths,
  merge_query_param_paths, merge_refresh_paths, compare_path, sort_inside, sort_paths, link,
}
use session_scope.Classifier.Lifecycle.Merge.Step.{
  Step, absorbs, updates, Steps, none_left, step_then, run_pass-Steps, revoke_step-Steps,
  query_step-Steps, refresh_step-Steps,
}

module _ (P : LifecyclePath → Type 0) where
  All-path_at :
      (ps : List LifecyclePath) (i : ℕ) (p : LifecyclePath) → All P ps → path_at ps i ≡ some p → P p
  All-path_at [] i p h e = absurd (cc e)
  All-path_at (q ∷ ps) zero p h e = subst P (some-injective q p e) h.0
  All-path_at (q ∷ ps) (suc i) p h e = All-path_at ps i p h.1 e

  All-update :
      (i : ℕ) (f : LifecyclePath → LifecyclePath) (ps : List LifecyclePath)
      → All P ps
      → ((p : LifecyclePath) → P p → P (f p))
      → All P (update i f ps)
  All-update i f [] h k = tt
  All-update zero f (p ∷ ps) h k = (k p h.0, h.1)
  All-update (suc i) f (p ∷ ps) h k = (h.0, All-update i f ps h.1 k)

  All-retain :
      (absorbed : List ℕ) (i : ℕ) (ps : List LifecyclePath)
      → All P ps
      → All P (retain absorbed i ps)
  unfolding retain
  All-retain absorbed i [] h = tt
  All-retain absorbed i (p ∷ ps) h = elim (Bool-cases (contains absorbed i)) [
    | inl out ↦ rw out (All-retain absorbed (suc i) ps h.1)
    | inr stays ↦ rw stays (h.0, All-retain absorbed (suc i) ps h.1)
  ]

  All-finish : (m : Merging) → All P m.paths → All P (finish m)
  unfolding finish
  All-finish m h = elim (Bool-cases (is_empty m.absorbed)) [
    | inl none' ↦ rw none' h
    | inr some' ↦ rw some' (All-retain m.absorbed 0 m.paths h)
  ]

  module _ (artifacts : ArtifactMap) (evidence : EvidenceMap)
      (merged : (s t : LifecyclePath) → P s → P t → P (merge_path s t))
      (refreshed : (p : LifecyclePath) → P p → P (refresh_path_metadata artifacts evidence p)) where
    Step-All : (m m' : Merging) → Step artifacts evidence m m' → All P m.paths → All P m'.paths
    Step-All m m' (absorbs source target s t hs ht ne free e) h = rw e (
        All-update target (merge_path s) m.paths h
          (λ p. merged s p (All-path_at m.paths source s h hs)))
    Step-All m m' (updates target e) h =
        rw e (All-update target (refresh_path_metadata artifacts evidence) m.paths h refreshed)

    Steps-All : (m m' : Merging) → Steps artifacts evidence m m' → All P m.paths → All P m'.paths
    Steps-All m m' none_left h = h
    Steps-All m m'' (step_then m' _ steps step) h = Step-All m' m'' step (Steps-All m m' steps h)

    pass-All :
        (f : Merging → ℕ → Merging) (ps : List LifecyclePath)
        → ((m : Merging) (i : ℕ) → Steps artifacts evidence m (f m i))
        → All P ps
        → All P (finish (run_pass f ps))
    pass-All f ps step h =
        All-finish _ (Steps-All _ _ (run_pass-Steps artifacts evidence f ps step) h)

    passes-All :
        (ps : List LifecyclePath)
        → All P ps
        → All P (
            merge_refresh_paths artifacts evidence (
              merge_query_param_paths artifacts evidence
                (merge_revoke_only_paths artifacts evidence ps)))
    unfolding merge_refresh_paths merge_query_param_paths merge_revoke_only_paths
    passes-All ps h = pass-All _ _ (refresh_step-Steps artifacts evidence) (
        pass-All _ _ (query_step-Steps artifacts evidence)
          (pass-All _ ps (revoke_step-Steps artifacts evidence) h))

  All-sort_paths :
      (ps : List LifecyclePath)
      → ((p : LifecyclePath) → P p → P (sort_inside p))
      → All P ps
      → All P (sort_paths ps)
  unfolding sort_paths
  All-sort_paths ps sorted h = All-sort_by P compare_path (map sort_inside ps) (each ps h)
    where
      each : (qs : List LifecyclePath) → All P qs → All P (map sort_inside qs)
      each [] a = tt
      each (q ∷ qs) a = (sorted q a.0, each qs a.1)

  All-collect :
      (f : Artifact → Option LifecyclePath) (as' : List Artifact)
      → All (λ a. (p : LifecyclePath) → f a ≡ some p → P p) as'
      → All P (collect f as')
  All-collect f [] h = tt
  All-collect f (a ∷ as') h = elim (Option-cases (f a)) [
    | inl no' ↦ rw (no', collect) (All-collect f as' h.1)
    | inr (p, e) ↦ rw (e, collect) (h.0 p e, All-collect f as' h.1)
  ]

  pub link-All :
      (report : ScanReport)
      → All
          (λ a. (p : LifecyclePath) → path_for_artifact (evidence_by_id report) a ≡ some p → P p)
          report.artifacts
      → ((s t : LifecyclePath) → P s → P t → P (merge_path s t))
      → ((p : LifecyclePath)
          → P p
          → P (refresh_path_metadata (artifact_by_id report) (evidence_by_id report) p))
      → ((p : LifecyclePath) → P p → P (sort_inside p))
      → All P (link report)
  unfolding link
  link-All report made merged refreshed sorted =
      All-sort_paths _ sorted
        (passes-All _ _ merged refreshed _ (All-collect _ report.artifacts made))
