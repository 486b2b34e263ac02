-- ===== src/Classifier/OauthFlow/Rules.antt =====
-- Rules of oauth_flow.rs: what the evidence of an authorization-code flow lacks.
use session_scope.Common.{
  String, Bool, ◌&&◌, ◌||◌, not, Option, none, some, List, [], ◌∷◌, ◌++◌, map, ◌==◌, string_eq,
  if◌then◌else◌,
}
use session_scope.Common.Lists.{keep, any, find, head?, is_empty}
use session_scope.Model.Evidence.{Evidence, EvidenceId}
use session_scope.Model.Finding.{Finding, FindingCategory, Severity}
use session_scope.Model.Artifact.{Artifact, artifact_type_eq}
use session_scope.Model.Report.{ScanReport}
use session_scope.Model.Schema.{stable_finding_id}
use session_scope.Classifier.Lifecycle.Artifacts.{or_text}
use session_scope.Classifier.Lifecycle.PathRules.{FindingSpec}

unfoldable pub detector_ids : List Evidence → String → List EvidenceId
detector_ids evidence detector_id =
    map (λ (e : Evidence). e.id) (keep (λ (e : Evidence). e.detector_id == detector_id) evidence)

-- The first of the ids that has evidence in the report.
unfoldable pub first_evidence : ScanReport → List EvidenceId → Option Evidence
first_evidence report [] = none
first_evidence report (id ∷ ids) = elim (find (λ (e : Evidence). e.id == id) report.evidence) [
  | some e ↦ some e
  | none ↦ first_evidence report ids
]

abbrev path_of : Option Evidence → String
path_of none = "unknown_path"
path_of (some e) = e.location.path

unfoldable pub finding : ScanReport → Artifact → FindingSpec → Finding
unfolding stable_finding_id first_evidence
finding report artifact spec = record {
  id = stable_finding_id (
      spec.rule_id
      ∷ artifact.id
      ∷ or_text (head? spec.evidence_ids) "no_evidence"
      ∷ path_of (first_evidence report spec.evidence_ids)
      ∷ []);
  category = spec.category;
  severity = spec.severity;
  artifact_ids = artifact.id ∷ [];
  evidence_ids = spec.evidence_ids;
  title = spec.title;
  description = spec.description;
  suggested_fix = some spec.suggested_fix;
  reviewer_question = some spec.reviewer_question;
}

-- Some evidence is of the detector.
abbrev pub seen : List Evidence → String → Bool
seen evidence detector_id = any (λ (e : Evidence). e.detector_id == detector_id) evidence

module _ (report : ScanReport) (artifact : Artifact) (evidence : List Evidence) where
  unfoldable pub pkce_ids : List EvidenceId
  unfolding detector_ids
  pkce_ids =
      let ids =
        detector_ids evidence "oauth.flow.auth_code"
        ++ detector_ids evidence "oauth.flow.framework_default" in
      if is_empty ids then artifact.lifecycle_evidence.issue else ids

  unfoldable pub classify_pkce : Option Finding
  unfolding finding pkce_ids
  classify_pkce =
      if seen evidence "oauth.pkce.present"
      then none
      else some (
          finding report artifact (record {
            rule_id = "oauth_pkce_missing_review";
            category = FindingCategory.dynamic_review_required;
            severity = Severity.medium;
            evidence_ids = pkce_ids;
            title = "OAuth authorization-code flow has no source-visible PKCE evidence";
            description =
                "The authorization-code flow construction was detected without a source-visible `code_challenge`, `code_challenge_method`, `code_verifier`, or library PKCE option in the same flow evidence. Some providers and client libraries enable PKCE by default, so this requires review rather than a deterministic misconfiguration conclusion.";
            suggested_fix =
                "Configure PKCE explicitly with an S256 code challenge when the OAuth/OIDC client library allows it, or document the provider/library default that enforces PKCE.";
            reviewer_question =
                "Does this OAuth/OIDC provider or client library enforce PKCE for this authorization-code flow in production?";
          }))

  unfoldable pub classify_redirect_uri : Option Finding
  unfolding finding detector_ids
  classify_redirect_uri =
      if not (seen evidence "oauth.redirect_uri.broad")
      then none
      else some (
          finding report artifact (record {
            rule_id = "oauth_redirect_uri_wildcard_review";
            category = FindingCategory.dynamic_review_required;
            severity = Severity.medium;
            evidence_ids = detector_ids evidence "oauth.redirect_uri.broad";
            title = "OAuth redirect URI literal appears broad or wildcarded";
            description =
                "A source-visible `redirect_uri` / `redirect_uris` literal contains a wildcard or broad host-only shape. Final matching is enforced by the authorization server, so this is review-required evidence rather than proof of provider-side configuration.";
            suggested_fix =
                "Register exact redirect URIs with concrete hosts and callback paths; avoid wildcard or bare-host redirect URI entries unless the provider constrains them elsewhere.";
            reviewer_question =
                "Does the authorization server restrict this client to exact redirect URIs despite the broad source literal?";
          }))

  unfoldable pub nonce_missing : Finding
  unfolding finding detector_ids
  nonce_missing = finding report artifact (record {
    rule_id = "oidc_nonce_missing";
    category = FindingCategory.missing_validation_evidence;
    severity = Severity.medium;
    evidence_ids =
        detector_ids evidence "oauth.oidc.openid_scope"
        ++ detector_ids evidence "oauth.flow.auth_code";
    title = "OIDC authorization flow has no source-visible nonce parameter";
    description =
        "The flow requests an OIDC `openid` scope, but SessionScope did not find source-visible nonce evidence in the authorization request construction.";
    suggested_fix =
        "Generate a per-request nonce, include it in the OIDC authorization request, and verify the same nonce during ID-token validation.";
    reviewer_question =
        "Does a framework/provider layer add an OIDC nonce for this authorization request?";
  })

  unfoldable pub nonce_unverified : Finding
  unfolding finding detector_ids
  nonce_unverified = finding report artifact (record {
    rule_id = "oidc_nonce_unverified_review";
    category = FindingCategory.missing_validation_evidence;
    severity = Severity.medium;
    evidence_ids = detector_ids evidence "oauth.nonce.present";
    title = "OIDC nonce is set without visible ID-token nonce verification";
    description =
        "OIDC flow evidence includes a nonce, but SessionScope did not find same-flow ID-token verification options or comparison evidence for that nonce.";
    suggested_fix =
        "Pass the expected nonce to the ID-token verification API or compare the validated ID-token nonce claim with the issued nonce.";
    reviewer_question = "Where is the OIDC nonce checked during ID-token verification?";
  })

  unfoldable pub classify_nonce : List Finding
  unfolding nonce_missing nonce_unverified detector_ids
  classify_nonce =
      let has_nonce = not (is_empty (detector_ids evidence "oauth.nonce.present")) in
      if not (seen evidence "oauth.oidc.openid_scope")
      then []
      else if not has_nonce
      then nonce_missing ∷ []
      else if not (seen evidence "oauth.nonce.verified")
      then nonce_unverified ∷ []
      else []

  unfoldable pub state_missing : Option Finding
  unfolding finding detector_ids
  state_missing =
      if not (
        any
          (λ (e : Evidence).
            e.detector_id == "oauth.state.present" || e.detector_id == "oauth.state.static")
          evidence)
      then some (
          finding report artifact (record {
            rule_id = "oauth_state_missing";
            category = FindingCategory.missing_validation_evidence;
            severity = Severity.medium;
            evidence_ids = detector_ids evidence "oauth.flow.auth_code";
            title = "OAuth authorization-code flow has no source-visible state parameter";
            description =
                "The authorization-code flow construction lacks source-visible `state` evidence. State is the caller-visible CSRF/correlation value that should be generated per authorization request and verified on callback.";
            suggested_fix =
                "Generate a cryptographically random state value, bind it to server-side or signed client-side state, include it in the authorization request, and verify it on callback.";
            reviewer_question =
                "Does another framework/provider layer add and validate OAuth state for this flow?";
          }))
      else none

  unfoldable pub state_static : Option Finding
  unfolding finding detector_ids
  state_static =
      if seen evidence "oauth.state.static"
      then some (
          finding report artifact (record {
            rule_id = "oauth_state_static_review";
            category = FindingCategory.dynamic_review_required;
            severity = Severity.medium;
            evidence_ids = detector_ids evidence "oauth.state.static";
            title = "OAuth state appears to be assigned from a static literal";
            description =
                "State evidence is source-visible but appears to come from a literal value rather than per-request cryptographic randomness. The literal value is redacted from evidence.";
            suggested_fix =
                "Generate state with a cryptographically secure random source for each authorization request and avoid committing static state values.";
            reviewer_question =
                "Is this literal only test code, or can production requests reuse the same OAuth state value?";
          }))
      else none

  unfoldable pub state_unverified : Option Finding
  unfolding finding detector_ids
  state_unverified =
      if seen evidence "oauth.state.callback_read" && not (seen evidence "oauth.state.verified")
      then some (
          finding report artifact (record {
            rule_id = "oauth_state_unverified_review";
            category = FindingCategory.missing_validation_evidence;
            severity = Severity.high;
            evidence_ids =
                detector_ids evidence "oauth.state.callback_read"
                ++ detector_ids evidence "oauth.state.present";
            title = "OAuth callback reads state without visible verification";
            description =
                "Callback evidence reads an OAuth `state` value, but SessionScope did not find a source-visible comparison against server-side session/cache state or a signed cookie/helper value in the same flow evidence.";
            suggested_fix =
                "Compare the callback state with the value stored when the authorization request was issued, then reject mismatches before exchanging the code.";
            reviewer_question =
                "Where is this callback state compared with the originally issued state value?";
          }))
      else none
