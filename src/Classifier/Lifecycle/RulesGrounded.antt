-- ===== src/Classifier/Lifecycle/RulesGrounded.antt =====
-- The findings of the rules of lifecycle.rs on one path name its artifact and evidence that it has.
use mathlib.Core.Option.{some-injective}
use session_scope.Common.{
  String, ◌≡◌, refl, ◌⊎◌, sym, subst, Bool, true, false, not, ◌||◌, ◌&&◌, List, [], ◌∷◌, ◌++◌,
  Option, none, some, arith, inl, inr, Bool-cases, Option-cases, map, if◌then◌else◌, ◌==◌,
  string_eq, nat_eq,
}
use session_scope.Common.Lists.{IsIn, IsIn-keep, IsIn-append, find, flat_map}
use session_scope.Model.Lifecycle.{LifecycleStage, lifecycle_stage_eq}
use session_scope.Model.Evidence.{Evidence, EvidenceId}
use session_scope.Model.Finding.{Finding}
use session_scope.Model.Artifact.{
  Artifact, CookieAttributes, CookieAttributeObservation, artifact_type_eq,
}
use session_scope.Model.Report.{LifecyclePath, LifecyclePathStep, ScanReport}
use session_scope.Classifier.Lookup.{evidence_by_id}
use session_scope.Classifier.Lifecycle.Artifacts.{is_refresh_artifact}
use session_scope.Classifier.Lifecycle.Paths.{
  has_stage, evidence_ids_for_stage, fallback_path_ids, sort_ids,
}
use session_scope.Classifier.Lifecycle.Signals.{
  keep_passing, client_cookie_clear_ids, has_server_revoke, has_refresh_detector_evidence,
  has_dynamic_or_provider_refresh,
}
use session_scope.Classifier.Lifecycle.Merge.Records.{Notes, IsIn-sort_ids}
use session_scope.Classifier.Lifecycle.PathRules.{
  classify_issue_without_validate, classify_refresh_without_revoke, classify_reset_without_expiry,
  classify_reset_without_single_use, refresh_dynamic_review, refresh_gap,
}
use session_scope.Classifier.Lifecycle.Cookies.{attribute_missing_or_mismatched}
use session_scope.Classifier.Lifecycle.CookieRules.{
  classify_clear_cookie_only_logout, classify_cookie_clear_attribute_mismatch, mismatch_finding,
  mismatch_ids, mismatched_ids, clear_excerpts,
}

-- The evidence of the cookie's path and domain.
abbrev pub cookie_ids : Option CookieAttributes → List EvidenceId
cookie_ids none = []
cookie_ids (some c) = c.path.evidence_ids ++ c.domain.evidence_ids

-- The path notes the evidence, or the report has it, or the artifact's cookie attributes rest on it.
abbrev pub Cites : ScanReport → LifecyclePath → Artifact → EvidenceId → Type 0
Cites report p a e =
    ((s : LifecycleStage) × Notes p.stages s e)
    ⊎ (IsIn e (map (λ (x : Evidence). x.id) report.evidence)
        ⊎ IsIn e (cookie_ids a.cookie_attributes))

module _ (p : LifecyclePath) (e : EvidenceId) where
  found-Notes :
      (s : LifecycleStage) (x : LifecyclePathStep) (ss : List LifecyclePathStep)
      → find (λ (y : LifecyclePathStep). y.stage == s) ss ≡ some x
      → IsIn e x.evidence_ids
      → Notes ss s e
  found-Notes s x [] h m = absurd (cc h)
  found-Notes s x (y ∷ ss) h m = elim (Bool-cases (y.stage == s)) [
    | inl here ↦
        let same = some-injective y x (rw here at h) in
        inl (ground arith, subst (λ (z : LifecyclePathStep). IsIn e z.evidence_ids) (sym same) m)
    | inr not_here ↦ inr (found-Notes s x ss (rw not_here at h) m)
  ]

  stage-Notes : (s : LifecycleStage) → IsIn e (evidence_ids_for_stage p s) → Notes p.stages s e
  unfolding evidence_ids_for_stage
  stage-Notes s m = elim (Option-cases (find (λ (x : LifecyclePathStep). x.stage == s) p.stages)) [
    | inl no' ↦ absurd (rw (no', evidence_ids_for_stage) at m)
    | inr (x, found) ↦ found-Notes s x p.stages found (rw (found, evidence_ids_for_stage) at m)
  ]

  fallback-Notes : IsIn e (fallback_path_ids p) → (s : LifecycleStage) × Notes p.stages s e
  unfolding fallback_path_ids
  fallback-Notes m = flat p.stages ((IsIn-sort_ids e _).0 m)
    where
      flat :
          (ss : List LifecyclePathStep)
          → IsIn e (flat_map (λ (s : LifecyclePathStep). s.evidence_ids) ss)
          → (s : LifecycleStage) × Notes ss s e
      flat [] m' = elim m' [ ]
      flat (x ∷ ss) m' = elim ((IsIn-append e x.evidence_ids _).0 m') [
        | inl here ↦ (x.stage, inl (refl, here))
        | inr later ↦ let (s, n) = flat ss later in (s, inr n)
      ]

module _ (report : ScanReport) (p : LifecyclePath) (a : Artifact) (e : EvidenceId) where
  abbrev pub Grounded : Finding → Type 0
  Grounded f = (f.artifact_ids ≡ a.id ∷ []) × (IsIn e f.evidence_ids → Cites report p a e)

  abbrev pub GroundedIn : Option Finding → Type 0
  GroundedIn none = Unit
  GroundedIn (some f) = Grounded f

  pub guarded : (b : Bool) (f : Finding) → Grounded f → GroundedIn (if b then none else some f)
  guarded true f h = tt
  guarded false f h = h

  pub from_stage : (s : LifecycleStage) → IsIn e (evidence_ids_for_stage p s) → Cites report p a e
  from_stage s m = inl (s, stage-Notes p e s m)

  pub from_path : IsIn e (fallback_path_ids p) → Cites report p a e
  from_path m = inl (fallback-Notes p e m)

  pub from_either :
      (xs ys : List EvidenceId)
      → (IsIn e xs → Cites report p a e)
      → (IsIn e ys → Cites report p a e)
      → IsIn e (xs ++ ys)
      → Cites report p a e
  from_either xs ys hx hy m = elim ((IsIn-append e xs ys).0 m) [ inl mx ↦ hx mx | inr my ↦ hy my ]

  pub from_sorted :
      (xs : List EvidenceId)
      → (IsIn e xs → Cites report p a e)
      → IsIn e (sort_ids xs)
      → Cites report p a e
  from_sorted xs h m = h ((IsIn-sort_ids e xs).0 m)

  from_clear : IsIn e (client_cookie_clear_ids (evidence_by_id report) p) → Cites report p a e
  unfolding client_cookie_clear_ids keep_passing
  from_clear m = from_stage LifecycleStage.revoke ((IsIn-keep _ e _).0 m).0

  pub issue-Grounded : GroundedIn (classify_issue_without_validate a p)
  unfolding classify_issue_without_validate
  issue-Grounded = guarded _ _ (refl, from_stage LifecycleStage.issue)

  pub expiry-Grounded : GroundedIn (classify_reset_without_expiry a p)
  unfolding classify_reset_without_expiry
  expiry-Grounded = guarded _ _ (refl, from_path)

  pub single_use-Grounded : GroundedIn (classify_reset_without_single_use a p)
  unfolding classify_reset_without_single_use
  single_use-Grounded = guarded _ _ (refl, from_path)

  pub clear-Grounded : GroundedIn (classify_clear_cookie_only_logout (evidence_by_id report) a p)
  unfolding classify_clear_cookie_only_logout
  clear-Grounded = guarded _ _ (refl, from_clear)

  deeper : (b : Bool) (o : Option Finding) → GroundedIn o → GroundedIn (if b then none else o)
  deeper true o h = tt
  deeper false o h = h

  either :
      (b c d : Bool) (f g : Finding)
      → Grounded f
      → Grounded g
      → GroundedIn (if b then none else if c then none else if d then some f else some g)
  either true c d f g hf hg = tt
  either false true d f g hf hg = tt
  either false false true f g hf hg = hf
  either false false false f g hf hg = hg

  pub refresh-Grounded : GroundedIn (classify_refresh_without_revoke (evidence_by_id report) a p)
  unfolding classify_refresh_without_revoke
  refresh-Grounded =
      let evidence = evidence_by_id report in
      either (not (has_stage p LifecycleStage.refresh) || has_server_revoke evidence p)
        (not (is_refresh_artifact a) && not (has_refresh_detector_evidence evidence p))
        (has_dynamic_or_provider_refresh evidence p) (refresh_dynamic_review a p)
        (refresh_gap evidence a p) (refl, from_stage LifecycleStage.refresh)
        (refl, from_stage LifecycleStage.refresh)

  IsIn-mismatched_ids :
      (o : CookieAttributeObservation) (name : String) (excerpts : List String)
      → IsIn e (mismatched_ids o name excerpts)
      → IsIn e o.evidence_ids
  unfolding mismatched_ids
  IsIn-mismatched_ids o name excerpts m =
      elim (Bool-cases (attribute_missing_or_mismatched o name excerpts)) [
        | inl differs ↦ rw (differs, mismatched_ids) at m
        | inr same ↦ absurd (rw (same, mismatched_ids) at m)
      ]

  mismatch-Grounded :
      (c : CookieAttributes)
      → a.cookie_attributes ≡ some c
      → GroundedIn (mismatch_finding (evidence_by_id report) a p c)
  unfolding mismatch_finding mismatch_ids
  mismatch-Grounded c h = guarded _ _ (
    refl,
    from_sorted (clear ++ (of_path ++ of_domain)) (
        from_either clear (of_path ++ of_domain) from_clear (
          from_either of_path of_domain
            (λ m. cookie (inl (IsIn-mismatched_ids c.path "path" excerpts m)))
            (λ m. cookie (inr (IsIn-mismatched_ids c.domain "domain" excerpts m))))),
  )
    where
      excerpts : List String
      excerpts = clear_excerpts (evidence_by_id report) p

      clear : List EvidenceId
      clear = client_cookie_clear_ids (evidence_by_id report) p

      of_path : List EvidenceId
      of_path = mismatched_ids c.path "path" excerpts

      of_domain : List EvidenceId
      of_domain = mismatched_ids c.domain "domain" excerpts

      cookie : IsIn e c.path.evidence_ids ⊎ IsIn e c.domain.evidence_ids → Cites report p a e
      cookie m = inr (
          inr (
            subst (λ o. IsIn e (cookie_ids o)) (sym h)
              ((IsIn-append e c.path.evidence_ids c.domain.evidence_ids).1 m)))

  pub attributes-Grounded :
      GroundedIn (classify_cookie_clear_attribute_mismatch (evidence_by_id report) a p)
  unfolding classify_cookie_clear_attribute_mismatch
  attributes-Grounded = deeper _ _ (on_attributes a.cookie_attributes refl)
    where
      on_attributes :
          (o : Option CookieAttributes)
          → a.cookie_attributes ≡ o
          → GroundedIn
              (elim o [ none ↦ none | some c ↦ mismatch_finding (evidence_by_id report) a p c ])
      on_attributes none h = tt
      on_attributes (some c) h = mismatch-Grounded c h
