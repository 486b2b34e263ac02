-- ===== src/Classifier/QueryParams/Classify.antt =====
-- `classify` of query_params.rs: one finding for each rule and artifact with query evidence.
use Prim.Native.String.{compare as compare_text}
use session_scope.Common.{
  String, ◌<>◌, Bool, ◌&&◌, ◌||◌, Option, none, some, List, [], ◌∷◌, ◌++◌, map, ◌==◌, string_eq,
  string_dec, Eq, contains, if◌then◌else◌,
}
use session_scope.Common.Lists.{keep, any, collect, head?, is_empty}
use session_scope.Common.Sorting.{sort_by, dedup}
use session_scope.Common.Sets.{get, insert}
use session_scope.Model.Lifecycle.{LifecycleStage, lifecycle_stage_eq}
use session_scope.Model.Evidence.{Evidence}
use session_scope.Model.Finding.{ArtifactId, Finding, FindingCategory, Severity}
use session_scope.Model.Artifact.{Artifact, ArtifactType, artifact_type_eq}
use session_scope.Model.Report.{ScanReport}
use session_scope.Model.Schema.{stable_finding_id}
use session_scope.Classifier.Lookup.{EvidenceMap, evidence_by_id}

-- The three rule ids.
pub data Rule : Type 0 where
  auth_token_acceptance reset_or_verification_review token_acceptance_review : Rule

unfoldable pub Rule-discrete : Discrete Rule
Rule-discrete = hlevel

instance abbrev pub rule_eq : Eq Rule
rule_eq = record { dec = Rule-discrete }

abbrev rule_id : Rule → String
rule_id Rule.auth_token_acceptance = "query_param_auth_token_acceptance"
rule_id Rule.reset_or_verification_review = "query_param_reset_or_verification_review"
rule_id Rule.token_acceptance_review = "query_param_token_acceptance_review"

abbrev pub is_query_evidence : Evidence → Bool
is_query_evidence e =
    e.lifecycle_stage == LifecycleStage.transmit
    && (e.detector_id == "query_param.read" || e.detector_id == "query_param.read.dynamic")

unfoldable pub query_param_evidence : Artifact → EvidenceMap → List Evidence
unfolding get
query_param_evidence artifact by_id =
    keep is_query_evidence (collect (get by_id) artifact.lifecycle_evidence.transmit)

unfoldable pub rule_id_for_artifact : Artifact → List Evidence → Rule
rule_id_for_artifact artifact evidence =
    if any (λ (e : Evidence). e.dynamic) evidence
      || artifact.artifact_type == ArtifactType.unknown_token
    then Rule.token_acceptance_review
    else if artifact.artifact_type == ArtifactType.password_reset_token
        || artifact.artifact_type == ArtifactType.email_verification_token
    then Rule.reset_or_verification_review
    else Rule.auth_token_acceptance

abbrev or_text : Option String → String → String
or_text none s = s
or_text (some t) s = t

-- The part of a finding that its rule decides, but for the title.
pub record RuleText : Type 0 where
  pub category : FindingCategory
  pub severity : Severity
  pub before_name : String
  pub after_name : String
  pub description : String
  pub suggested_fix : String
  pub reviewer_question : String

unfoldable pub rule_text : Rule → RuleText
rule_text Rule.auth_token_acceptance = record {
  category = FindingCategory.high_confidence_misconfiguration;
  severity = Severity.high;
  before_name = "Token `";
  after_name = "` is accepted from a URL query parameter";
  description =
      "Authentication token evidence is read from request query parameters. URLs are commonly logged, cached, copied, and sent in referrers, so query transport can expose bearer-style credentials outside the intended boundary.";
  suggested_fix =
      "Accept authentication tokens in headers, secure cookies, or another non-URL transport whenever possible.";
  reviewer_question =
      "Which route accepts this token from the query string, and can it move to a non-URL transport?";
}
rule_text Rule.reset_or_verification_review = record {
  category = FindingCategory.dynamic_review_required;
  severity = Severity.low;
  before_name = "Token `";
  after_name = "` is accepted from a reset or verification query parameter";
  description =
      "Reset or verification token evidence is read from request query parameters. This can be intentional, but reviewers should confirm expiry, single-use behavior, and redirect handling.";
  suggested_fix =
      "Keep reset and verification tokens short-lived, single-use, and avoid forwarding them through redirects, logs, or third-party referrers.";
  reviewer_question =
      "Where are expiry, single-use consumption, and post-use redirect behavior enforced for this flow?";
}
rule_text Rule.token_acceptance_review = record {
  category = FindingCategory.dynamic_review_required;
  severity = Severity.low;
  before_name = "Token-like query parameter `";
  after_name = "` needs review";
  description =
      "A token-like or dynamically named query parameter was read from request data, but static analysis could not determine a precise authentication token type.";
  suggested_fix =
      "Confirm whether this query parameter carries credential material and move authentication tokens out of URLs when it does.";
  reviewer_question =
      "What runtime query parameter name is accepted here, and what token type does it carry?";
}

unfoldable pub finding_for_artifact : Rule → Artifact → List Evidence → Finding
unfolding rule_text sort_by dedup stable_finding_id
finding_for_artifact rule artifact evidence =
    let text = rule_text rule in
    let evidence_ids = dedup (sort_by compare_text (map (λ (e : Evidence). e.id) evidence)) in
    record {
      id = stable_finding_id (
          rule_id rule
          ∷ artifact.id
          ∷ or_text (head? evidence_ids) "no_evidence"
          ∷ or_text artifact.display_name "dynamic"
          ∷ []);
      category = text.category;
      severity = text.severity;
      artifact_ids = artifact.id ∷ [];
      evidence_ids = evidence_ids;
      title = text.before_name <> (or_text artifact.display_name "token" <> text.after_name);
      description = text.description;
      suggested_fix = some text.suggested_fix;
      reviewer_question = some text.reviewer_question;
    }

abbrev pub Seen : Type 0
Seen = Rule × ArtifactId

unfoldable pub Seen-discrete : Discrete Seen
Seen-discrete = hlevel (Rule-discrete, string_dec)

instance abbrev pub seen_eq : Eq Seen
seen_eq = record { dec = Seen-discrete }

module _ (by_id : EvidenceMap) where
  unfoldable pub key_of : Artifact → Seen
  unfolding query_param_evidence rule_id_for_artifact
  key_of artifact =
      (rule_id_for_artifact artifact (query_param_evidence artifact by_id), artifact.id)

  unfoldable pub finding_of : Artifact → Finding
  unfolding query_param_evidence rule_id_for_artifact finding_for_artifact
  finding_of artifact =
      let evidence = query_param_evidence artifact by_id in
      finding_for_artifact (rule_id_for_artifact artifact evidence) artifact evidence

  -- An artifact adds its finding and its key, or neither.
  unfoldable pub classify_one : Artifact → List Seen → List Seen × List Finding
  unfolding query_param_evidence key_of finding_of insert
  classify_one artifact seen =
      if is_empty (query_param_evidence artifact by_id)
      then (seen, [])
      else if contains seen (key_of artifact)
      then (seen, [])
      else (insert (key_of artifact) seen, finding_of artifact ∷ [])

  unfoldable pub classify_all : List Artifact → List Seen → List Finding
  unfolding classify_one
  classify_all [] seen = []
  classify_all (a ∷ as') seen =
      let (seen', findings) = classify_one a seen in findings ++ classify_all as' seen'

unfoldable pub classify : ScanReport → List Finding
unfolding evidence_by_id classify_all
classify report = classify_all (evidence_by_id report) report.artifacts []
