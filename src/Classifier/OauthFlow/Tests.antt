-- ===== src/Classifier/OauthFlow/Tests.antt =====
-- A flow with no evidence but its own.
use session_scope.Common.{◌≡◌, refl, ◌↔◌, [], ◌∷◌, length, string_dec}
use session_scope.Common.Lists.{All}
use session_scope.Model.Samples
use session_scope.Model.Lifecycle.{LifecycleStage}
use session_scope.Model.Artifact.{Artifact, ArtifactType, ArtifactType-discrete, no_evidence}
use session_scope.Model.Report.{ScanReport}
use session_scope.Classifier.OauthFlow.Classify.{classify}
use session_scope.Classifier.OauthFlow.Quiet.{IsFlow, IsQuiet, classify-IsQuiet}

abbrev flow : Artifact
flow =
    Samples.artifact_with "flow" ArtifactType.oauth_auth_code_flow
      (record no_evidence { issue = "e1" ∷ [] })

abbrev bare : ScanReport
bare = record Samples.report {
  artifacts = flow ∷ [];
  evidence = Samples.evidence_at "e1" LifecycleStage.issue "oauth.flow.auth_code" 3 ∷ [];
}

test_bare : length (classify bare) ≡ 2
unfolding classify string_dec ArtifactType-discrete
test_bare = refl

classify-IsQuiet_example :
    (classify bare ≡ []) ↔ All (λ a. IsFlow bare a → IsQuiet bare a) bare.artifacts
classify-IsQuiet_example = classify-IsQuiet bare
