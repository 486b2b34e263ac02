-- ===== src/Classifier/Lifecycle/Tests.antt =====
-- Tests of lifecycle.rs, and its theorems on a report with a token, its logout and a refresh.
use session_scope.Common.{
  ◌≡◌, refl, ◌↔◌, Bool, Option, none, some, [], ◌∷◌, map, inl, inr, string_eq, nat_dec, string_dec,
}
use session_scope.Common.Lists.{IsIn, head?}
use session_scope.Common.Distinct.{DistinctBy}
use session_scope.Model.Samples
use session_scope.Model.Lifecycle.{LifecycleStage, LifecycleStage-discrete}
use session_scope.Model.Evidence.{Evidence, EvidenceId}
use session_scope.Model.Artifact.{Artifact, ArtifactType, ArtifactType-discrete, no_evidence}
use session_scope.Model.Finding.{Finding}
use session_scope.Model.Report.{LifecyclePath, ScanReport}
use session_scope.Classifier.Lifecycle.Artifacts.{normalized_artifact_name, lifecycle_ids_for_stage}
use session_scope.Classifier.Lifecycle.Cookies.{option_value_from_excerpt}
use session_scope.Classifier.Lifecycle.Merge.{link}
use session_scope.Classifier.Lifecycle.Merge.Records.{Notes}
use session_scope.Classifier.Lifecycle.Merge.Keeps.{IsRecorded}
use session_scope.Classifier.Lifecycle.Merge.Linked.{HasOwner, link-IsRecorded, link-Notes_iff}
use session_scope.Classifier.Lifecycle.Gaps.{
  GapRule, run_rule, missing_stage, Concerns, Reports, run_rule-HasOwner,
}
use session_scope.Classifier.Lifecycle.Classify.{classify}
use session_scope.Classifier.Lifecycle.Grounded.{IsGrounded, classify-IsGrounded}

abbrev issued : Evidence
issued = Samples.evidence_at "e1" LifecycleStage.issue "jwt.issue" 10

abbrev revoked : Evidence
revoked = Samples.evidence_at "e2" LifecycleStage.revoke "logout.token_revoke" 40

abbrev access : Artifact
access =
    record (Samples.artifact_with "a1" ArtifactType.access_jwt
      (record no_evidence { issue = "e1" ∷ [] })) { display_name = some "access token" }

abbrev logout : Artifact
logout =
    record (Samples.artifact_with "a2" ArtifactType.unknown
      (record no_evidence { revoke = "e2" ∷ [] })) { display_name = some "Access-Token" }

abbrev tokens : ScanReport
tokens = record Samples.report {
  artifacts = access ∷ logout ∷ [];
  evidence = issued ∷ revoked ∷ [];
}

abbrev or_first : Option LifecyclePath → LifecyclePath
or_first none = record {
  id = "";
  artifact_ids = [];
  stages = [];
  confidence = access.confidence;
  dynamic = Bool.false;
  reviewer_question = none;
}
or_first (some p) = p

test_name : normalized_artifact_name logout ≡ "access_token"
unfolding normalized_artifact_name
test_name = refl

test_option :
    option_value_from_excerpt "res.clearCookie('sid', { Path : '/app' })" "path" ≡ some "/app"
unfolding option_value_from_excerpt
test_option = refl

-- The path of the logout is merged into that of the token.
test_link : map (λ (p : LifecyclePath). p.artifact_ids) (link tokens) ≡ ("a1" ∷ "a2" ∷ []) ∷ []
unfolding link nat_dec string_dec LifecycleStage-discrete ArtifactType-discrete
test_link = refl

abbrev first : LifecyclePath
first = or_first (head? (link tokens))

first_linked : IsIn first (link tokens)
unfolding link nat_dec string_dec LifecycleStage-discrete ArtifactType-discrete
first_linked = inl refl

tokens_distinct : DistinctBy (λ (x : Artifact). x.id) tokens.artifacts
unfolding string_dec
tokens_distinct = ((refl, tt), (tt, tt))

link-IsRecorded_example : IsRecorded "a2" LifecycleStage.revoke "e2" (link tokens)
unfolding lifecycle_ids_for_stage
link-IsRecorded_example =
    link-IsRecorded tokens logout LifecycleStage.revoke "e2" (inr (inl refl)) (inl refl)

link-Notes_iff_example :
    Notes first.stages LifecycleStage.revoke "e2" ↔ HasOwner tokens first LifecycleStage.revoke "e2"
link-Notes_iff_example =
    link-Notes_iff tokens first LifecycleStage.revoke "e2" tokens_distinct first_linked

run_rule-HasOwner_example : Reports (run_rule GapRule.issue_without_validate access first) ↔ (
    Concerns GapRule.issue_without_validate access.artifact_type
    × ((e : EvidenceId) × HasOwner tokens first LifecycleStage.issue e)
    × (¬ (
        (e : EvidenceId) × HasOwner tokens first (missing_stage GapRule.issue_without_validate) e)))
run_rule-HasOwner_example =
    run_rule-HasOwner tokens GapRule.issue_without_validate access first tokens_distinct
      first_linked

abbrev linked : ScanReport
linked = record tokens { lifecycle_paths = link tokens }

abbrev or_any : Option Finding → Finding
or_any none = Samples.gap
or_any (some f) = f

abbrev unvalidated : Finding
unvalidated = or_any (head? (classify linked))

classify-IsGrounded_example : IsGrounded linked unvalidated "e1"
unfolding classify link nat_dec string_dec LifecycleStage-discrete ArtifactType-discrete
classify-IsGrounded_example = classify-IsGrounded linked unvalidated "e1" (inl refl) (inl refl)
