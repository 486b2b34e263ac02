-- ===== src/Classifier/OauthFlow/Classify.antt =====
-- `classify` of oauth_flow.rs: the findings of the authorization-code flows of a report.
use session_scope.Common.{
  Option, none, some, List, [], ◌∷◌, ◌++◌, ◌==◌, string_eq, contains, if◌then◌else◌, not,
}
use session_scope.Common.Lists.{keep, flat_map}
use session_scope.Common.Sets.{insert}
use session_scope.Model.Evidence.{Evidence, EvidenceId}
use session_scope.Model.Finding.{Finding, FindingId}
use session_scope.Model.Artifact.{Artifact, ArtifactType, artifact_type_eq}
use session_scope.Model.Report.{ScanReport}
use session_scope.Classifier.OauthFlow.Rules.{
  seen, classify_pkce, classify_redirect_uri, classify_nonce, state_missing, state_static,
  state_unverified,
}

-- The set of ids is read by membership.
unfoldable pub artifact_evidence_ids : Artifact → List EvidenceId
artifact_evidence_ids artifact =
    let l = artifact.lifecycle_evidence in
    l.issue
    ++ (l.store
        ++ (l.transmit ++ (l.validate ++ (l.refresh ++ (l.revoke ++ (l.expire ++ l.introspect))))))

unfoldable pub artifact_evidence : ScanReport → Artifact → List Evidence
unfolding artifact_evidence_ids
artifact_evidence report artifact =
    keep (λ (e : Evidence). contains (artifact_evidence_ids artifact) e.id) report.evidence

abbrev pub from_option : Option Finding → List Finding
from_option none = []
from_option (some f) = f ∷ []

unfoldable pub classify_state : ScanReport → Artifact → List Evidence → List Finding
unfolding state_missing state_static state_unverified
classify_state report artifact evidence =
    from_option (state_missing report artifact evidence)
    ++ (from_option (state_static report artifact evidence)
        ++ from_option (state_unverified report artifact evidence))

unfoldable pub flow_findings : ScanReport → Artifact → List Evidence → List Finding
unfolding classify_pkce classify_state classify_nonce classify_redirect_uri
flow_findings report artifact evidence =
    from_option (classify_pkce report artifact evidence)
    ++ (classify_state report artifact evidence
        ++ (classify_nonce report artifact evidence
            ++ from_option (classify_redirect_uri report artifact evidence)))

unfoldable pub classify_artifact : ScanReport → Artifact → List Finding
unfolding artifact_evidence flow_findings
classify_artifact report artifact =
    let evidence = artifact_evidence report artifact in
    if not (artifact.artifact_type == ArtifactType.oauth_auth_code_flow)
    then []
    else if seen evidence "oauth.flow.auth_code"
    then flow_findings report artifact evidence
    else []

unfoldable pub dedupe_from : List FindingId → List Finding → List Finding
unfolding insert
dedupe_from seen_ids [] = []
dedupe_from seen_ids (f ∷ fs) =
    let rest = dedupe_from (insert f.id seen_ids) fs in
    if contains seen_ids f.id then rest else f ∷ rest

unfoldable pub dedupe_findings : List Finding → List Finding
unfolding dedupe_from
dedupe_findings findings = dedupe_from [] findings

unfoldable pub classify : ScanReport → List Finding
unfolding classify_artifact dedupe_findings
classify report = dedupe_findings (flat_map (classify_artifact report) report.artifacts)
