-- ===== src/Classifier/Lifecycle/PathRules.antt =====
-- The rules of lifecycle.rs that read one path and its evidence.
use session_scope.Common.{
  String, ◌<>◌, Bool, ◌&&◌, ◌||◌, not, Option, none, some, List, [], ◌∷◌, ◌==◌, string_eq,
  if◌then◌else◌,
}
use session_scope.Common.Lists.{head?}
use session_scope.Model.Lifecycle.{LifecycleStage}
use session_scope.Model.Evidence.{EvidenceId}
use session_scope.Model.Finding.{Finding, FindingCategory, Severity}
use session_scope.Model.Artifact.{Artifact, ArtifactType, artifact_type_eq}
use session_scope.Model.Report.{LifecyclePath}
use session_scope.Model.Schema.{stable_finding_id}
use session_scope.Classifier.Lookup.{EvidenceMap}
use session_scope.Classifier.Lifecycle.Artifacts.{or_text, is_refresh_artifact}
use session_scope.Classifier.Lifecycle.Paths.{has_stage, evidence_ids_for_stage, fallback_path_ids}
use session_scope.Classifier.Lifecycle.Signals.{
  has_refresh_detector_evidence, has_client_cookie_clear, has_server_revoke,
  has_dynamic_or_provider_refresh,
}

pub record FindingSpec : Type 0 where
  pub rule_id : String
  pub category : FindingCategory
  pub severity : Severity
  pub evidence_ids : List EvidenceId
  pub title : String
  pub description : String
  pub suggested_fix : String
  pub reviewer_question : String

unfoldable pub finding : Artifact → LifecyclePath → FindingSpec → Finding
unfolding stable_finding_id
finding artifact path spec = record {
  id =
      stable_finding_id (
        spec.rule_id
        ∷ path.id
        ∷ artifact.id
        ∷ or_text (head? spec.evidence_ids) "no_evidence"
        ∷ []);
  category = spec.category;
  severity = spec.severity;
  artifact_ids = artifact.id ∷ [];
  evidence_ids = spec.evidence_ids;
  title = spec.title;
  description = spec.description;
  suggested_fix = some spec.suggested_fix;
  reviewer_question = some spec.reviewer_question;
}

unfoldable pub is_jwt_artifact : ArtifactType → Bool
is_jwt_artifact type = type == ArtifactType.access_jwt || type == ArtifactType.refresh_jwt

unfoldable pub classify_issue_without_validate : Artifact → LifecyclePath → Option Finding
unfolding is_jwt_artifact has_stage evidence_ids_for_stage finding
classify_issue_without_validate artifact path =
    if not (is_jwt_artifact artifact.artifact_type)
      || not (has_stage path LifecycleStage.issue)
      || has_stage path LifecycleStage.validate
    then none
    else some (
        finding artifact path (record {
          rule_id = "lifecycle_issue_without_validate";
          category = FindingCategory.lifecycle_gap;
          severity = Severity.medium;
          evidence_ids = evidence_ids_for_stage path LifecycleStage.issue;
          title =
              "JWT `"
              <> (or_text artifact.display_name "JWT"
                  <> "` is issued without linked validation evidence");
          description =
              "JWT issue evidence was linked into a lifecycle path, but no validation evidence was linked for the same artifact.";
          suggested_fix =
              "Add or identify verification evidence that validates this token before claims are trusted.";
          reviewer_question = "Where is this issued JWT validated before use?";
        }))

unfoldable pub refresh_dynamic_review : Artifact → LifecyclePath → Finding
unfolding evidence_ids_for_stage finding
refresh_dynamic_review artifact path = finding artifact path (record {
  rule_id = "lifecycle_refresh_dynamic_review";
  category = FindingCategory.dynamic_review_required;
  severity = Severity.low;
  evidence_ids = evidence_ids_for_stage path LifecycleStage.refresh;
  title =
      "Token `"
      <> (or_text artifact.display_name "token"
          <> "` has dynamic refresh behavior without linked revocation evidence");
  description =
      "Refresh lifecycle evidence appears provider-managed or dynamic, and no deterministic source-bound revoke or rotation evidence was linked for the same artifact.";
  suggested_fix =
      "Confirm the provider or runtime refresh policy rotates or revokes previous refresh tokens.";
  reviewer_question =
      "Which provider setting or runtime path revokes previous refresh tokens for `"
      <> (or_text artifact.display_name "token" <> "`?");
})

unfoldable pub refresh_gap : EvidenceMap → Artifact → LifecyclePath → Finding
unfolding has_client_cookie_clear evidence_ids_for_stage finding
refresh_gap evidence artifact path = finding artifact path (record {
  rule_id = "lifecycle_refresh_without_revoke";
  category = FindingCategory.lifecycle_gap;
  severity = Severity.medium;
  evidence_ids = evidence_ids_for_stage path LifecycleStage.refresh;
  title =
      "Token `"
      <> (or_text artifact.display_name "token"
          <> "` has refresh evidence without linked revocation evidence");
  description =
      "Refresh lifecycle evidence was linked, but no source-bound revoke or rotation evidence was linked for the same artifact.";
  suggested_fix = "Rotate refresh tokens and revoke the previous token when issuing a replacement.";
  reviewer_question =
      if has_client_cookie_clear evidence path
      then "Where is the previous refresh token revoked or marked used server-side, beyond clearing the client cookie?"
      else "Where is the previous refresh token revoked or marked used during refresh?";
})

unfoldable pub classify_refresh_without_revoke :
    EvidenceMap → Artifact → LifecyclePath → Option Finding
unfolding has_stage has_server_revoke is_refresh_artifact has_refresh_detector_evidence
    has_dynamic_or_provider_refresh refresh_dynamic_review refresh_gap
classify_refresh_without_revoke evidence artifact path =
    if not (has_stage path LifecycleStage.refresh) || has_server_revoke evidence path
    then none
    else if not (is_refresh_artifact artifact) && not (has_refresh_detector_evidence evidence path)
    then none
    else if has_dynamic_or_provider_refresh evidence path
    then some (refresh_dynamic_review artifact path)
    else some (refresh_gap evidence artifact path)

unfoldable pub is_reset_artifact : ArtifactType → Bool
is_reset_artifact type =
    type == ArtifactType.password_reset_token || type == ArtifactType.email_verification_token

unfoldable pub classify_reset_without_single_use : Artifact → LifecyclePath → Option Finding
unfolding is_reset_artifact has_stage fallback_path_ids finding
classify_reset_without_single_use artifact path =
    if not (is_reset_artifact artifact.artifact_type)
      || not (has_stage path LifecycleStage.issue)
      || has_stage path LifecycleStage.revoke
    then none
    else some (
        finding artifact path (record {
          rule_id = "lifecycle_reset_without_single_use";
          category = FindingCategory.lifecycle_gap;
          severity = Severity.low;
          evidence_ids = fallback_path_ids path;
          title =
              "Token `"
              <> (or_text artifact.display_name "reset token"
                  <> "` has no linked single-use or revocation evidence");
          description =
              "Reset or verification token evidence was linked, but no source-bound single-use, consume, or revocation evidence was linked for the same artifact.";
          suggested_fix =
              "Store reset and verification tokens with expiry and mark them consumed after successful use.";
          reviewer_question =
              "Where is this reset or verification token consumed so it cannot be reused?";
        }))

unfoldable pub classify_reset_without_expiry : Artifact → LifecyclePath → Option Finding
unfolding is_reset_artifact has_stage fallback_path_ids finding
classify_reset_without_expiry artifact path =
    if not (is_reset_artifact artifact.artifact_type)
      || not (has_stage path LifecycleStage.issue)
      || has_stage path LifecycleStage.expire
    then none
    else some (
        finding artifact path (record {
          rule_id = "lifecycle_reset_without_expiry";
          category = FindingCategory.lifecycle_gap;
          severity = Severity.low;
          evidence_ids = fallback_path_ids path;
          title =
              "Token `"
              <> (or_text artifact.display_name "reset token" <> "` has no linked expiry evidence");
          description =
              "Reset or verification token evidence was linked, but no source-bound expiry or TTL evidence was linked for the same artifact.";
          suggested_fix = "Store reset and verification tokens with a short expiry.";
          reviewer_question = "Where is this reset or verification token expired?";
        }))

unfoldable pub is_session_artifact : ArtifactType → Bool
is_session_artifact type =
    type == ArtifactType.session_cookie
    || type == ArtifactType.signed_cookie
    || type == ArtifactType.session_record
    || type == ArtifactType.refresh_jwt
    || type == ArtifactType.unknown
