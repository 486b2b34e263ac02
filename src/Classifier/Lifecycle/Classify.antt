-- ===== src/Classifier/Lifecycle/Classify.antt =====
-- The rules of lifecycle.rs that read the report around a path, and `classify`.
use session_scope.Common.{
  ◌<>◌, ◌||◌, not, Option, none, some, List, [], ◌∷◌, ◌++◌, ◌==◌, nat_eq, if◌then◌else◌,
}
use session_scope.Common.Lists.{is_empty, length}
use session_scope.Model.Lifecycle.{LifecycleStage}
use session_scope.Model.Evidence.{EvidenceId}
use session_scope.Model.Finding.{Finding, FindingCategory, Severity}
use session_scope.Model.Artifact.{Artifact, ArtifactType, artifact_type_eq}
use session_scope.Model.Report.{LifecyclePath, ScanReport}
use session_scope.Classifier.Lookup.{EvidenceMap, evidence_by_id}
use session_scope.Classifier.Lifecycle.Artifacts.{or_text, is_refresh_artifact}
use session_scope.Classifier.Lifecycle.Paths.{
  has_stage, evidence_ids_for_stage, sort_ids, artifact_by_id, artifact_for_path_with_lookup,
}
use session_scope.Classifier.Lifecycle.Signals.{
  linked_logout_handler_ids, has_linked_jwt_denylist_or_revoke, has_linked_refresh_family_revoke,
  has_sliding_expiry_evidence, has_linked_rotation_evidence, sliding_expiry_ids,
  password_change_handler_ids, has_linked_password_change_global_revoke,
}
use session_scope.Classifier.Lifecycle.PathRules.{
  finding, is_session_artifact, classify_issue_without_validate, classify_refresh_without_revoke,
  classify_reset_without_expiry, classify_reset_without_single_use,
}
use session_scope.Classifier.Lifecycle.CookieRules.{
  classify_clear_cookie_only_logout, classify_cookie_clear_attribute_mismatch,
}

-- `if evidence_ids.len() == 1 { evidence_ids.extend(more) }`
abbrev pub extend_single : List EvidenceId → List EvidenceId → List EvidenceId
extend_single ids more = if length ids == 1 then ids ++ more else ids

unfoldable pub classify_jwt_denylist_absent_on_logout :
    ScanReport → EvidenceMap → Artifact → LifecyclePath → Option Finding
unfolding has_stage linked_logout_handler_ids has_linked_jwt_denylist_or_revoke
    evidence_ids_for_stage sort_ids finding
classify_jwt_denylist_absent_on_logout report evidence artifact path =
    let logout_ids = linked_logout_handler_ids evidence path report in
    if not (artifact.artifact_type == ArtifactType.access_jwt)
      || not (has_stage path LifecycleStage.issue || has_stage path LifecycleStage.validate)
      || is_empty logout_ids
      || has_linked_jwt_denylist_or_revoke evidence path report
    then none
    else some (
        finding artifact path (record {
          rule_id = "jwt_denylist_absent_on_logout_review";
          category = FindingCategory.lifecycle_gap;
          severity = Severity.medium;
          evidence_ids = sort_ids (
              extend_single (logout_ids ++ evidence_ids_for_stage path LifecycleStage.issue)
                (evidence_ids_for_stage path LifecycleStage.validate));
          title =
              "JWT `"
              <> (or_text artifact.display_name "access_jwt"
                  <> "` has logout evidence without linked denylist evidence");
          description =
              "A logout handler and access-JWT lifecycle evidence were detected in linked source context, but no source-bound denylist, blocklist, or token revocation-store insertion evidence was linked for the same logout flow.";
          suggested_fix =
              "Insert the JWT identifier into a denylist/blocklist or revoke-store on logout, or document the intentional short-TTL stateless model for reviewer confirmation.";
          reviewer_question =
              "Where does logout revoke or denylist outstanding `"
              <> (or_text artifact.display_name "access_jwt" <> "` tokens?");
        }))

unfoldable pub classify_refresh_family_revocation_absent_on_logout :
    ScanReport → EvidenceMap → Artifact → LifecyclePath → Option Finding
unfolding is_refresh_artifact has_stage linked_logout_handler_ids has_linked_refresh_family_revoke
    evidence_ids_for_stage sort_ids finding
classify_refresh_family_revocation_absent_on_logout report evidence artifact path =
    let logout_ids = linked_logout_handler_ids evidence path report in
    if not (is_refresh_artifact artifact)
      || not (
          has_stage path LifecycleStage.issue
          || has_stage path LifecycleStage.store
          || has_stage path LifecycleStage.refresh
          || has_stage path LifecycleStage.validate)
      || is_empty logout_ids
      || has_linked_refresh_family_revoke evidence path report
    then none
    else some (
        finding artifact path (record {
          rule_id = "refresh_family_revocation_absent_on_logout_review";
          category = FindingCategory.lifecycle_gap;
          severity = Severity.medium;
          evidence_ids = sort_ids (
              extend_single
                (extend_single (logout_ids ++ evidence_ids_for_stage path LifecycleStage.refresh)
                  (evidence_ids_for_stage path LifecycleStage.store))
                (evidence_ids_for_stage path LifecycleStage.issue));
          title =
              "Refresh token `"
              <> (or_text artifact.display_name "refresh_token"
                  <> "` has logout evidence without family revocation");
          description =
              "Logout and refresh-token lifecycle evidence were detected in linked source context, but no source-bound user-scoped or refresh-family revocation evidence was linked for the logout flow.";
          suggested_fix =
              "Revoke the user's refresh-token family, delete user-scoped refresh-token records, or remove the refresh-family cache key during logout.";
          reviewer_question =
              "Where does logout revoke every refresh token in the `"
              <> (or_text artifact.display_name "refresh_token"
                  <> "` family or for the current user?");
        }))

unfoldable pub classify_sliding_expiry_without_rotation :
    ScanReport → EvidenceMap → Artifact → LifecyclePath → Option Finding
unfolding is_session_artifact has_sliding_expiry_evidence has_linked_rotation_evidence
    sliding_expiry_ids finding
classify_sliding_expiry_without_rotation report evidence artifact path =
    if not (is_session_artifact artifact.artifact_type)
      || not (has_sliding_expiry_evidence evidence path)
      || has_linked_rotation_evidence evidence path report
    then none
    else some (
        finding artifact path (record {
          rule_id = "sliding_expiry_without_rotation_review";
          category = FindingCategory.lifecycle_gap;
          severity = Severity.low;
          evidence_ids = sliding_expiry_ids evidence path;
          title =
              "Session `"
              <> (or_text artifact.display_name "session"
                  <> "` uses sliding expiry without linked rotation");
          description =
              "Sliding or rolling TTL/Max-Age evidence was detected, but no linked session regeneration, session-key cycling, refresh-token rotation, or reissue evidence was found for the same lifecycle path.";
          suggested_fix =
              "Pair sliding expiry with session or refresh-token rotation, or document the framework-managed rotation behavior for reviewer confirmation.";
          reviewer_question =
              "Where is `"
              <> (or_text artifact.display_name "session"
                  <> "` rotated when its idle/sliding expiry is extended?");
        }))

unfoldable pub classify_password_change_global_revocation_absent :
    ScanReport → EvidenceMap → Artifact → LifecyclePath → Option Finding
unfolding password_change_handler_ids has_linked_password_change_global_revoke sort_ids finding
classify_password_change_global_revocation_absent report evidence artifact path =
    let handler_ids = password_change_handler_ids evidence path in
    if is_empty handler_ids || has_linked_password_change_global_revoke evidence path report
    then none
    else some (
        finding artifact path (record {
          rule_id = "password_change_global_revocation_absent_review";
          category = FindingCategory.lifecycle_gap;
          severity = Severity.medium;
          evidence_ids = sort_ids handler_ids;
          title = "Password-change handler lacks linked global session revocation";
          description =
              "A password-change handler was detected, but no linked global session invalidation, refresh-family revocation, or token-version bump evidence was found in the same source scope.";
          suggested_fix =
              "After password changes, revoke all active sessions/refresh-token families or bump a token/session version checked during authentication.";
          reviewer_question =
              "Where are existing sessions and refresh-token families invalidated after this password change?";
        }))

-- `findings.extend` of each rule in turn.
abbrev pub all_some : List (Option Finding) → List Finding
all_some [] = []
all_some (none ∷ fs) = all_some fs
all_some (some f ∷ fs) = f ∷ all_some fs

unfoldable pub rules_for :
    ScanReport → EvidenceMap → Artifact → LifecyclePath → List (Option Finding)
unfolding classify_issue_without_validate classify_refresh_without_revoke
    classify_reset_without_expiry classify_reset_without_single_use
    classify_clear_cookie_only_logout classify_cookie_clear_attribute_mismatch
    classify_jwt_denylist_absent_on_logout classify_refresh_family_revocation_absent_on_logout
    classify_sliding_expiry_without_rotation classify_password_change_global_revocation_absent
rules_for report evidence artifact path =
    classify_issue_without_validate artifact path
    ∷ classify_refresh_without_revoke evidence artifact path
    ∷ classify_reset_without_expiry artifact path
    ∷ classify_reset_without_single_use artifact path
    ∷ classify_clear_cookie_only_logout evidence artifact path
    ∷ classify_cookie_clear_attribute_mismatch evidence artifact path
    ∷ classify_jwt_denylist_absent_on_logout report evidence artifact path
    ∷ classify_refresh_family_revocation_absent_on_logout report evidence artifact path
    ∷ classify_sliding_expiry_without_rotation report evidence artifact path
    ∷ classify_password_change_global_revocation_absent report evidence artifact path
    ∷ []

unfoldable pub artifact_for_path : ScanReport → LifecyclePath → Option Artifact
unfolding artifact_by_id artifact_for_path_with_lookup
artifact_for_path report path = artifact_for_path_with_lookup (artifact_by_id report) path

unfoldable pub classify_path : ScanReport → EvidenceMap → LifecyclePath → List Finding
unfolding artifact_for_path rules_for
classify_path report evidence path = elim (artifact_for_path report path) [
  | none ↦ []
  | some artifact ↦ all_some (rules_for report evidence artifact path)
]

unfoldable pub classify_paths : ScanReport → EvidenceMap → List LifecyclePath → List Finding
unfolding classify_path
classify_paths report evidence [] = []
classify_paths report evidence (path ∷ paths) =
    classify_path report evidence path ++ classify_paths report evidence paths

unfoldable pub classify : ScanReport → List Finding
unfolding evidence_by_id classify_paths
classify report = classify_paths report (evidence_by_id report) report.lifecycle_paths
