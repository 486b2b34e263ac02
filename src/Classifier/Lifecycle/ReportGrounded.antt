-- ===== src/Classifier/Lifecycle/ReportGrounded.antt =====
-- The findings of the rules of lifecycle.rs that read the whole report, and of all rules.
use session_scope.Common.{
  refl, Bool, List, [], ◌∷◌, ◌++◌, Option, none, some, inl, inr, Bool-cases, map, ◌==◌, string_eq,
  length, nat_eq,
}
use session_scope.Common.Lists.{IsIn, keep, IsIn-keep, All, is_empty}
use session_scope.Model.Lifecycle.{LifecycleStage, lifecycle_stage_eq}
use session_scope.Model.Evidence.{Evidence, EvidenceId}
use session_scope.Model.Finding.{Finding}
use session_scope.Model.Artifact.{Artifact, artifact_type_eq}
use session_scope.Model.Report.{LifecyclePath, ScanReport}
use session_scope.Classifier.Lookup.{evidence_by_id}
use session_scope.Classifier.Lifecycle.Paths.{evidence_ids_for_stage, fallback_path_ids}
use session_scope.Classifier.Lifecycle.Signals.{
  keep_passing, sliding_expiry_ids, password_change_handler_ids, linked_logout_handler_ids,
}
use session_scope.Classifier.Lifecycle.Classify.{
  classify_jwt_denylist_absent_on_logout, classify_refresh_family_revocation_absent_on_logout,
  classify_sliding_expiry_without_rotation, classify_password_change_global_revocation_absent,
  extend_single, all_some, rules_for,
}
use session_scope.Classifier.Lifecycle.RulesGrounded.{
  Cites, GroundedIn, Grounded, guarded, from_stage, from_path, from_either, from_sorted,
  issue-Grounded, refresh-Grounded, expiry-Grounded, single_use-Grounded, clear-Grounded,
  attributes-Grounded,
}

module _ (report : ScanReport) (p : LifecyclePath) (a : Artifact) (e : EvidenceId) where
  from_report :
      (test : Evidence → Bool) (xs : List Evidence)
      → IsIn e (map (λ (x : Evidence). x.id) (keep test xs))
      → IsIn e (map (λ (x : Evidence). x.id) xs)
  from_report test [] m = m
  from_report test (x ∷ xs) m = elim (Bool-cases (test x)) [
    | inl kept ↦ elim (rw kept at m) [
      | inl here ↦ inl here
      | inr later ↦ inr (from_report test xs later)
    ]
    | inr dropped ↦ inr (from_report test xs (rw dropped at m))
  ]

  from_logout :
      IsIn e (linked_logout_handler_ids (evidence_by_id report) p report) → Cites report p a e
  unfolding linked_logout_handler_ids keep_passing
  from_logout m = elim (Bool-cases (is_empty direct)) [
    | inl none' ↦ inr (
        inl (
          from_report _ report.evidence (
            from_report _ (keep is_handler report.evidence)
              (rw (none', linked_logout_handler_ids) at m))))
    | inr some' ↦
        from_stage report p a e LifecycleStage.revoke
          ((IsIn-keep _ e (evidence_ids_for_stage p LifecycleStage.revoke)).0
            (rw (some', linked_logout_handler_ids) at m)).0
  ]
    where
      is_handler : Evidence → Bool
      is_handler x = x.detector_id == "logout.handler"

      direct : List EvidenceId
      direct =
          keep_passing (evidence_by_id report) is_handler
            (evidence_ids_for_stage p LifecycleStage.revoke)

  from_single :
      (xs ys : List EvidenceId)
      → (IsIn e xs → Cites report p a e)
      → (IsIn e ys → Cites report p a e)
      → IsIn e (extend_single xs ys)
      → Cites report p a e
  from_single xs ys hx hy m = elim (Bool-cases (length xs == 1)) [
    | inl single ↦ from_either report p a e xs ys hx hy (rw single at m)
    | inr other ↦ hx (rw other at m)
  ]

  abbrev ids : LifecycleStage → List EvidenceId
  unfolding evidence_ids_for_stage
  ids s = evidence_ids_for_stage p s

  abbrev logout : List EvidenceId
  unfolding linked_logout_handler_ids
  logout = linked_logout_handler_ids (evidence_by_id report) p report

  abbrev refresh_or_store : List EvidenceId
  unfolding linked_logout_handler_ids evidence_ids_for_stage
  refresh_or_store = extend_single (logout ++ ids LifecycleStage.refresh) (ids LifecycleStage.store)

  jwt-Grounded :
      GroundedIn report p a e
        (classify_jwt_denylist_absent_on_logout report (evidence_by_id report) a p)
  unfolding classify_jwt_denylist_absent_on_logout
  jwt-Grounded = guarded report p a e _ _ (
    refl,
    from_sorted report p a e
        (extend_single (logout ++ ids LifecycleStage.issue) (ids LifecycleStage.validate))
        (from_single (logout ++ ids LifecycleStage.issue) (ids LifecycleStage.validate)
          (from_either report p a e logout (ids LifecycleStage.issue) from_logout
            (from_stage report p a e LifecycleStage.issue))
          (from_stage report p a e LifecycleStage.validate)),
  )

  family-Grounded :
      GroundedIn report p a e
        (classify_refresh_family_revocation_absent_on_logout report (evidence_by_id report) a p)
  unfolding classify_refresh_family_revocation_absent_on_logout
  family-Grounded = guarded report p a e _ _ (
    refl,
    from_sorted report p a e (extend_single refresh_or_store (ids LifecycleStage.issue)) (
        from_single refresh_or_store (ids LifecycleStage.issue)
          (from_single (logout ++ ids LifecycleStage.refresh) (ids LifecycleStage.store)
            (from_either report p a e logout (ids LifecycleStage.refresh) from_logout
              (from_stage report p a e LifecycleStage.refresh))
            (from_stage report p a e LifecycleStage.store))
          (from_stage report p a e LifecycleStage.issue)),
  )

  sliding-Grounded :
      GroundedIn report p a e
        (classify_sliding_expiry_without_rotation report (evidence_by_id report) a p)
  unfolding classify_sliding_expiry_without_rotation sliding_expiry_ids keep_passing
  sliding-Grounded =
      guarded report p a e _ _ (refl, λ m. from_path report p a e ((IsIn-keep _ e _).0 m).0)

  password-Grounded :
      GroundedIn report p a e
        (classify_password_change_global_revocation_absent report (evidence_by_id report) a p)
  unfolding classify_password_change_global_revocation_absent password_change_handler_ids
      keep_passing
  password-Grounded = guarded report p a e _ _ (
    refl,
    from_sorted report p a e (password_change_handler_ids (evidence_by_id report) p)
        (λ m. from_path report p a e ((IsIn-keep _ e (fallback_path_ids p)).0 m).0),
  )

  all_some-Grounded :
      (os : List (Option Finding))
      → All (GroundedIn report p a e) os
      → All (Grounded report p a e) (all_some os)
  all_some-Grounded [] h = tt
  all_some-Grounded (none ∷ os) h = all_some-Grounded os h.1
  all_some-Grounded (some f ∷ os) h = (h.0, all_some-Grounded os h.1)

  pub rules-Grounded :
      All (Grounded report p a e) (all_some (rules_for report (evidence_by_id report) a p))
  unfolding rules_for
  rules-Grounded = all_some-Grounded (rules_for report (evidence_by_id report) a p) (
    issue-Grounded report p a e,
    (
      refresh-Grounded report p a e,
      (
        expiry-Grounded report p a e,
        (
          single_use-Grounded report p a e,
          (
            clear-Grounded report p a e,
            (
              attributes-Grounded report p a e,
              (jwt-Grounded, (family-Grounded, (sliding-Grounded, (password-Grounded, tt)))),
            ),
          ),
        ),
      ),
    ),
  )
