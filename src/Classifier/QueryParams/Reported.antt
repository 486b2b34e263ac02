-- ===== src/Classifier/QueryParams/Reported.antt =====
-- The artifacts that `classify` of query_params.rs reports, and how it grades them.
use session_scope.Common.{◌≡◌, ◌↔◌, ◌≢◌, Bool, false, not, List, arith, string_eq}
use session_scope.Common.Lists.{is_empty, any}
use session_scope.Model.Evidence.{Evidence}
use session_scope.Model.Finding.{Severity}
use session_scope.Model.Artifact.{Artifact, ArtifactType, artifact_type_eq}
use session_scope.Classifier.Lookup.{EvidenceMap}
use session_scope.Classifier.QueryParams.Classify.{
  Rule, seen_eq, query_param_evidence, rule_id_for_artifact, finding_for_artifact, rule_text,
  finding_of,
}

-- Whether the artifact is read from a query at all.
abbrev pub is_read : EvidenceMap → Artifact → Bool
is_read by_id a = not (is_empty (query_param_evidence a by_id))

rule_text-severity_iff :
    (r : Rule) → ((rule_text r).severity ≡ Severity.high) ↔ (r ≡ Rule.auth_token_acceptance)
unfolding rule_text
rule_text-severity_iff Rule.auth_token_acceptance = ground arith
rule_text-severity_iff Rule.reset_or_verification_review = ground arith
rule_text-severity_iff Rule.token_acceptance_review = ground arith

rule_id_for_artifact_iff :
    (a : Artifact) (evidence : List Evidence)
    → (rule_id_for_artifact a evidence ≡ Rule.auth_token_acceptance) ↔ (
        (any (λ (e : Evidence). e.dynamic) evidence ≡ false)
        × (a.artifact_type ≢ ArtifactType.unknown_token)
        × (a.artifact_type ≢ ArtifactType.password_reset_token)
        × (a.artifact_type ≢ ArtifactType.email_verification_token))
unfolding rule_id_for_artifact
rule_id_for_artifact_iff a evidence = ground arith

-- The finding of an artifact has high severity exactly when none of its query evidence is dynamic
-- and its type is neither an unknown token nor a token of a password reset or of an e-mail
-- verification.
pub finding_of-severity_iff :
    (by_id : EvidenceMap) (a : Artifact)
    → ((finding_of by_id a).severity ≡ Severity.high) ↔ (
        (any (λ (e : Evidence). e.dynamic) (query_param_evidence a by_id) ≡ false)
        × (a.artifact_type ≢ ArtifactType.unknown_token)
        × (a.artifact_type ≢ ArtifactType.password_reset_token)
        × (a.artifact_type ≢ ArtifactType.email_verification_token))
unfolding finding_of finding_for_artifact
finding_of-severity_iff by_id a =
    let evidence = query_param_evidence a by_id in
    let one = rule_text-severity_iff (rule_id_for_artifact a evidence) in
    let two = rule_id_for_artifact_iff a evidence in (λ h. two.0 (one.0 h), λ h. one.1 (two.1 h))
