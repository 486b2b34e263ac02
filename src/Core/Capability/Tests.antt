-- ===== src/Core/Capability/Tests.antt =====
-- The filter on a small report.
use session_scope.Common.{
  ◌≡◌, refl, true, [], ◌∷◌, map, string_dec, nat_dec, string_eq, contains, inl,
}
use session_scope.Common.Lists.{All, IsIn}
use session_scope.Model.Lifecycle.{LifecycleStage-discrete}
use session_scope.Model.Artifact.{Artifact, ArtifactType-discrete}
use session_scope.Model.Evidence.{Evidence}
use session_scope.Model.Report.{ScanReport, FileScanResult, SkippedReasonKind-discrete}
use session_scope.Model.Samples
use session_scope.Core.Capability.Matching.{CapabilityArea, artifact_matches, evidence_matches}
use session_scope.Core.Capability.Filter.{filter_report}
use session_scope.Core.Capability.Closure.{filter_report-IsClosed, filter_report-keeps}
use session_scope.Core.Capability.Counts.{IsBalanced, IsRelevant, filter_report-summary}

abbrev refresh_view : ScanReport
refresh_view = filter_report Samples.report CapabilityArea.refresh

keeps_gap : IsIn Samples.gap refresh_view.findings
unfolding filter_report string_dec nat_dec LifecycleStage-discrete ArtifactType-discrete
    SkippedReasonKind-discrete
keeps_gap = inl refl

filter_report-IsClosed_example :
    IsIn Samples.gap Samples.report.findings
    × All
        (λ (a : Artifact).
          contains Samples.gap.artifact_ids a.id ≡ true
          → IsIn a (filter_report Samples.report CapabilityArea.refresh).artifacts)
        Samples.report.artifacts
    × All
        (λ (e : Evidence).
          contains Samples.gap.evidence_ids e.id ≡ true
          → IsIn e (filter_report Samples.report CapabilityArea.refresh).evidence)
        Samples.report.evidence
filter_report-IsClosed_example =
    filter_report-IsClosed Samples.report CapabilityArea.refresh Samples.gap keeps_gap

filter_report-keeps_example :
    All
      (λ (a : Artifact).
        artifact_matches CapabilityArea.cookies a ≡ true
        → IsIn a (filter_report Samples.report CapabilityArea.cookies).artifacts)
      Samples.report.artifacts
    × All
        (λ (e : Evidence).
          evidence_matches CapabilityArea.cookies e ≡ true
          → IsIn e (filter_report Samples.report CapabilityArea.cookies).evidence)
        Samples.report.evidence
filter_report-keeps_example = filter_report-keeps Samples.report CapabilityArea.cookies

filter_report-summary_example :
    IsBalanced (filter_report Samples.report CapabilityArea.refresh).summary
    × ((filter_report Samples.report CapabilityArea.refresh).summary.diagnostics ≡ [])
    × All IsRelevant (filter_report Samples.report CapabilityArea.refresh).files
filter_report-summary_example = filter_report-summary Samples.report CapabilityArea.refresh

-- The binary file has neither artifacts nor evidence, and the session is no refresh token.
test_files : map (λ (f : FileScanResult). f.path) refresh_view.files ≡ "app.js" ∷ []
unfolding filter_report string_dec nat_dec LifecycleStage-discrete ArtifactType-discrete
    SkippedReasonKind-discrete
test_files = refl

test_artifacts : map (λ (a : Artifact). a.id) refresh_view.artifacts ≡ "a2" ∷ []
unfolding filter_report string_dec nat_dec LifecycleStage-discrete ArtifactType-discrete
    SkippedReasonKind-discrete
test_artifacts = refl
