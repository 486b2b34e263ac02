-- ===== src/Classifier/ClientStorage/Classify.antt =====
-- `classify` of client_storage.rs: a finding for each evidence that has a rule, once for each id.
use session_scope.Common.{
  String, Bool, ◌||◌, Option, none, some, List, [], ◌∷◌, map, ◌==◌, string_eq, contains,
  if◌then◌else◌,
}
use session_scope.Common.Lists.{keep, collect}
use session_scope.Common.Sets.{insert}
use session_scope.Model.Evidence.{Evidence, EvidenceId}
use session_scope.Model.Finding.{Finding, FindingId, FindingCategory, Severity}
use session_scope.Model.Artifact.{Artifact}
use session_scope.Model.Report.{ScanReport}
use session_scope.Model.Schema.{stable_finding_id}

pub record Spec : Type 0 where
  pub rule_id : String
  pub category : FindingCategory
  pub severity : Severity
  pub title : String
  pub description : String
  pub suggested_fix : String
  pub reviewer_question : String

unfoldable pub spec_of : String → Option Spec
spec_of detector_id =
    if detector_id == "client_storage.local_storage.set_item"
    then some (record {
      rule_id = "token_in_local_storage";
      category = FindingCategory.high_confidence_misconfiguration;
      severity = Severity.high;
      title = "Token is stored in localStorage";
      description =
          "Token-shaped evidence is written to localStorage, where browser JavaScript can read it and where it can persist beyond the intended authentication lifecycle.";
      suggested_fix =
          "Use an HttpOnly, Secure cookie or another storage pattern that prevents direct script access when possible.";
      reviewer_question = "Can this token be moved out of localStorage on every production path?";
    })
    else if detector_id == "client_storage.session_storage.set_item"
    then some (record {
      rule_id = "token_in_session_storage";
      category = FindingCategory.high_confidence_misconfiguration;
      severity = Severity.high;
      title = "Token is stored in sessionStorage";
      description =
          "Token-shaped evidence is written to sessionStorage, where browser JavaScript can read it for the lifetime of the tab/session.";
      suggested_fix =
          "Use an HttpOnly, Secure cookie or another storage pattern that prevents direct script access when possible.";
      reviewer_question = "Can this token be moved out of sessionStorage on every production path?";
    })
    else if detector_id == "client_storage.url_path_or_fragment.token"
    then some (record {
      rule_id = "token_in_url_path_or_fragment";
      category = FindingCategory.high_confidence_misconfiguration;
      severity = Severity.high;
      title = "Token-shaped value is embedded in a URL path or fragment";
      description =
          "Token-shaped evidence appears in a URL path segment or fragment identifier. URL material can be logged, cached, copied, or exposed to browser history and referrers depending on use.";
      suggested_fix =
          "Keep tokens out of URLs; transmit them through safer authorization channels or server-managed session state.";
      reviewer_question =
          "Can this URL construction avoid embedding token-shaped material in the path or fragment?";
    })
    else if detector_id == "client_storage.browser.client_secret"
    then some (record {
      rule_id = "client_secret_in_browser_code";
      category = FindingCategory.dynamic_review_required;
      severity = Severity.high;
      title = "Client secret-like evidence appears in browser-shipped code";
      description =
          "A `client_secret` / `clientSecret` literal or identifier appears in a path that matches browser-client heuristics. SessionScope cannot prove bundling/runtime reachability, so this requires review.";
      suggested_fix =
          "Keep OAuth client secrets server-side only; browser clients should use public-client flows such as authorization code with PKCE and no client secret.";
      reviewer_question = "Is this file ever bundled or served to a browser in production?";
    })
    else none

unfoldable pub artifact_has_evidence : Artifact → EvidenceId → Bool
artifact_has_evidence artifact id =
    contains artifact.lifecycle_evidence.issue id
    || contains artifact.lifecycle_evidence.store id
    || contains artifact.lifecycle_evidence.transmit id
    || contains artifact.lifecycle_evidence.validate id
    || contains artifact.lifecycle_evidence.refresh id
    || contains artifact.lifecycle_evidence.revoke id
    || contains artifact.lifecycle_evidence.expire id
    || contains artifact.lifecycle_evidence.introspect id

unfoldable pub artifacts_for_evidence : ScanReport → EvidenceId → List Artifact
unfolding artifact_has_evidence
artifacts_for_evidence report id = keep (λ a. artifact_has_evidence a id) report.artifacts

unfoldable pub finding_with : ScanReport → Evidence → Spec → Finding
unfolding artifacts_for_evidence stable_finding_id
finding_with report evidence spec = record {
  id = stable_finding_id (spec.rule_id ∷ evidence.id ∷ evidence.location.path ∷ []);
  category = spec.category;
  severity = spec.severity;
  artifact_ids = map (λ (a : Artifact). a.id) (artifacts_for_evidence report evidence.id);
  evidence_ids = evidence.id ∷ [];
  title = spec.title;
  description = spec.description;
  suggested_fix = some spec.suggested_fix;
  reviewer_question = some spec.reviewer_question;
}

unfoldable pub finding_of : ScanReport → Evidence → Option Finding
unfolding spec_of finding_with
finding_of report evidence = elim (spec_of evidence.detector_id) [
  | none ↦ none
  | some spec ↦ some (finding_with report evidence spec)
]

-- The first finding of each id stays.
unfoldable pub dedupe_from : List FindingId → List Finding → List Finding
unfolding insert
dedupe_from seen [] = []
dedupe_from seen (f ∷ fs) =
    let rest = dedupe_from (insert f.id seen) fs in if contains seen f.id then rest else f ∷ rest

unfoldable pub dedupe_findings : List Finding → List Finding
unfolding dedupe_from
dedupe_findings findings = dedupe_from [] findings

unfoldable pub classify : ScanReport → List Finding
unfolding finding_of dedupe_findings
classify report = dedupe_findings (collect (finding_of report) report.evidence)
