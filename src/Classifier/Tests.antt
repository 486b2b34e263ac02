-- ===== src/Classifier/Tests.antt =====
-- The classifiers on small reports.
use session_scope.Common.{
  ◌≡◌, refl, ◌↔◌, ◌≢◌, true, false, List, [], ◌∷◌, map, string_dec, nat_dec, string_eq, contains,
  some,
}
use session_scope.Common.Lists.{All, IsIn, any, length}
use session_scope.Common.FirstBy.{HasDistinctKeys}
use session_scope.Model.Evidence.{Evidence}
use session_scope.Model.Artifact.{ArtifactType, Artifact, ArtifactType-discrete}
use session_scope.Model.Finding.{Severity, Finding}
use session_scope.Model.Lifecycle.{LifecycleStage-discrete}
use session_scope.Model.Samples
use session_scope.Classifier.Lookup.{evidence_by_id}
use session_scope.Classifier.Order.{sort_findings}
use session_scope.Classifier.SessionFixation.Records.{FixationRecord}
use session_scope.Classifier.SessionFixation.Classify.{
  Place-discrete, place_eq, finding_of, classify,
}
use session_scope.Classifier.QueryParams.Classify.{seen_eq}
use session_scope.Classifier.QueryParams.Classify as Query
use session_scope.Classifier.QueryParams.Reported as QueryReported
use session_scope.Classifier.ClientStorage.Classify as Storage
use session_scope.Classifier.ClientStorage.Reported as StorageReported

abbrev login : FixationRecord
login = record { artifact = Samples.session; evidence = Samples.login }

abbrev rotation : FixationRecord
rotation = record { artifact = Samples.session; evidence = Samples.regenerate }

finding_of-severity_iff_example :
    ((Query.finding_of (evidence_by_id Samples.report) Samples.token).severity ≡ Severity.high) ↔ (
      (any
          (λ (e : Evidence). e.dynamic)
          (Query.query_param_evidence Samples.token (evidence_by_id Samples.report))
        ≡ false)
      × (Samples.token.artifact_type ≢ ArtifactType.unknown_token)
      × (Samples.token.artifact_type ≢ ArtifactType.password_reset_token)
      × (Samples.token.artifact_type ≢ ArtifactType.email_verification_token))
finding_of-severity_iff_example =
    QueryReported.finding_of-severity_iff (evidence_by_id Samples.report) Samples.token

classify-evidence_example :
    HasDistinctKeys StorageReported.id_of (Storage.classify Samples.report)
    × All
        (λ f.
          (e : Evidence) × IsIn e Samples.report.evidence
          × (Storage.finding_of Samples.report e ≡ some f))
        (Storage.classify Samples.report)
    × All
        (λ e.
          (f : Finding)
          → Storage.finding_of Samples.report e ≡ some f
          → contains (map StorageReported.id_of (Storage.classify Samples.report)) f.id ≡ true)
        Samples.report.evidence
classify-evidence_example = StorageReported.classify-evidence Samples.report

-- Runs of the classifiers.
test_no_rotation :
    length
      (classify (record Samples.report { evidence = Samples.login ∷ Samples.store_after ∷ [] }))
    ≡ 1
unfolding classify string_dec nat_dec LifecycleStage-discrete Place-discrete
test_no_rotation = refl

test_query : map (λ (f : Finding). f.severity) (Query.classify Samples.report) ≡ Severity.high ∷ []
unfolding Query.classify string_dec nat_dec LifecycleStage-discrete Query.Rule-discrete
    Query.Seen-discrete ArtifactType-discrete
test_query = refl

test_storage :
    map (λ (f : Finding). f.artifact_ids) (Storage.classify Samples.report) ≡ ("a1" ∷ []) ∷ []
unfolding Storage.classify string_dec nat_dec
test_storage = refl

test_sorted : map (λ (f : Finding). f.id) (sort_findings Samples.report).findings ≡ "f2" ∷ "f1" ∷ []
unfolding sort_findings string_dec nat_dec
test_sorted = refl
