-- ===== src/Classifier/Lifecycle/Gaps.antt =====
-- The rules on a missing stage, against the lifecycle evidence of the artifacts of a path.
use session_scope.Common.{
  ◌≡◌, ◌↔◌, ◌⊎◌, true, false, Option, none, some, arith, inl, inr, Bool-cases,
}
use session_scope.Common.Lists.{IsIn}
use session_scope.Common.Distinct.{DistinctBy}
use session_scope.Model.Lifecycle.{LifecycleStage, lifecycle_stage_eq}
use session_scope.Model.Evidence.{EvidenceId}
use session_scope.Model.Finding.{Finding}
use session_scope.Model.Artifact.{Artifact, ArtifactType}
use session_scope.Model.Report.{LifecyclePath, ScanReport}
use session_scope.Classifier.Lifecycle.Paths.{has_stage}
use session_scope.Classifier.Lifecycle.Merge.{link}
use session_scope.Classifier.Lifecycle.Merge.Linked.{HasOwner}
use session_scope.Classifier.Lifecycle.PathRules.{
  is_jwt_artifact, is_reset_artifact, classify_issue_without_validate,
  classify_reset_without_expiry, classify_reset_without_single_use,
}
use session_scope.Classifier.Lifecycle.Merge.Filled.{has_stage-HasOwner}

-- The three rules on a stage that is missing next to the issue of an artifact.
pub data GapRule : Type 0 where
  issue_without_validate reset_without_expiry reset_without_single_use : GapRule

abbrev pub run_rule : GapRule → Artifact → LifecyclePath → Option Finding
unfolding classify_issue_without_validate classify_reset_without_expiry
    classify_reset_without_single_use
run_rule GapRule.issue_without_validate = classify_issue_without_validate
run_rule GapRule.reset_without_expiry = classify_reset_without_expiry
run_rule GapRule.reset_without_single_use = classify_reset_without_single_use

abbrev pub missing_stage : GapRule → LifecycleStage
missing_stage GapRule.issue_without_validate = LifecycleStage.validate
missing_stage GapRule.reset_without_expiry = LifecycleStage.expire
missing_stage GapRule.reset_without_single_use = LifecycleStage.revoke

-- The types of artifacts that a rule is about.
abbrev pub Concerns : GapRule → ArtifactType → Type 0
Concerns GapRule.issue_without_validate type =
    (type ≡ ArtifactType.access_jwt) ⊎ (type ≡ ArtifactType.refresh_jwt)
Concerns GapRule.reset_without_expiry type =
    (type ≡ ArtifactType.password_reset_token) ⊎ (type ≡ ArtifactType.email_verification_token)
Concerns GapRule.reset_without_single_use type =
    (type ≡ ArtifactType.password_reset_token) ⊎ (type ≡ ArtifactType.email_verification_token)

abbrev pub Reports : Option Finding → Type 0
Reports none = ⊥
Reports (some f) = Unit

run_rule_iff :
    (g : GapRule) (a : Artifact) (p : LifecyclePath)
    → Reports (run_rule g a p) ↔ (
        Concerns g a.artifact_type
        × (has_stage p LifecycleStage.issue ≡ true)
        × (has_stage p (missing_stage g) ≡ false))
unfolding run_rule classify_issue_without_validate classify_reset_without_expiry
    classify_reset_without_single_use is_jwt_artifact is_reset_artifact
run_rule_iff GapRule.issue_without_validate a p = ground arith
run_rule_iff GapRule.reset_without_expiry a p = ground arith
run_rule_iff GapRule.reset_without_single_use a p = ground arith

-- Where the artifacts of the report have different ids, on a path that `link` returns each of the
-- three gap rules (a JWT issued without validation, a reset token without expiry or without
-- single use) reports exactly when the artifact has a type that the rule concerns, some artifact
-- that the path names has issue evidence, and none has evidence of the stage that the rule
-- misses.
pub run_rule-HasOwner :
    (report : ScanReport) (g : GapRule) (a : Artifact) (p : LifecyclePath)
    → DistinctBy (λ (x : Artifact). x.id) report.artifacts
    → IsIn p (link report)
    → Reports (run_rule g a p) ↔ (
        Concerns g a.artifact_type
        × ((e : EvidenceId) × HasOwner report p LifecycleStage.issue e)
        × (¬ ((e : EvidenceId) × HasOwner report p (missing_stage g) e)))
run_rule-HasOwner report g a p distinct m =
    let rule = run_rule_iff g a p in
    let issued = has_stage-HasOwner report p LifecycleStage.issue distinct m in
    let missing = has_stage-HasOwner report p (missing_stage g) distinct m in
    (
      λ r. ((rule.0 r).0, issued.0 (rule.0 r).1, λ o. cc (missing.1 o, (rule.0 r).2)),
      λ t. rule.1 (
        t.0,
        issued.1 t.1,
        elim (Bool-cases (has_stage p (missing_stage g))) [
          | inl there ↦ absurd (t.2 (missing.0 there))
          | inr not_there ↦ not_there
        ],
      ),
    )
