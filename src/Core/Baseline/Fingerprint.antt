-- ===== src/Core/Baseline/Fingerprint.antt =====
-- `create_baseline` of baseline.rs: a finding's fingerprints, and the baseline of a report.
use Prim.Native.String.{compare as compare_text}
use session_scope.Common.{
  ℕ, ◌-◌, ◌^◌, Ordering, compare, String, ◌<>◌, Bool, true, false, Option, none, some, List, [],
  ◌∷◌, ◌++◌, map, string_eq,
}
use session_scope.Common.Lists.{collect}
use session_scope.Common.Sorting.{sort_by, dedup, then_with}
use session_scope.Common.Sets.{get, collect_map}
use session_scope.Common.Text.{hex_digits}
use session_scope.Model.Evidence.{
  Evidence, EvidenceId, SourceLocation, SanitizedExcerpt, confidence_name, source_location_eq,
}
use session_scope.Model.Lifecycle.{stage_name}
use session_scope.Model.Finding.{Finding, category_stable_name, severity_stable_name}
use session_scope.Model.Report.{ScanReport}
use session_scope.Model.Baseline.{Baseline, BaselineFinding, baseline_schema_version}
use session_scope.Model.Schema.{stable_hash}
use session_scope.Core.Redaction.Values.{Regexes}
use session_scope.Core.Redaction.Sanitize.{sanitize_report}

abbrev EvidenceMap : Type 0
EvidenceMap = List (EvidenceId × Evidence)

unfoldable pub evidence_by_id : ScanReport → EvidenceMap
unfolding collect_map
evidence_by_id report = collect_map [] (map (λ e. (e.id, e)) report.evidence)

unfoldable pub stable_fingerprint : List String → String
unfolding stable_hash
stable_fingerprint parts = "fingerprint_" <> hex_digits 16 (stable_hash parts)

abbrev or_empty : Option String → String
or_empty none = ""
or_empty (some s) = s

unfoldable pub semantic_fingerprint : Finding → String
unfolding category_stable_name severity_stable_name
semantic_fingerprint finding = stable_fingerprint (
    category_stable_name finding.category
    ∷ severity_stable_name finding.severity
    ∷ finding.title
    ∷ finding.description
    ∷ or_empty finding.suggested_fix
    ∷ or_empty finding.reviewer_question
    ∷ [])

abbrev bool_name : Bool → String
bool_name true = "true"
bool_name false = "false"

abbrev excerpt_text : Option SanitizedExcerpt → String
excerpt_text none = ""
excerpt_text (some x) = x.inner

evidence_parts : Option Evidence → EvidenceId → List String
unfolding stage_name confidence_name
evidence_parts none id = id ∷ []
evidence_parts (some e) id =
    stage_name e.lifecycle_stage
    ∷ e.detector_id
    ∷ confidence_name e.confidence
    ∷ bool_name e.dynamic
    ∷ bool_name e.framework_default
    ∷ excerpt_text e.excerpt
    ∷ []

fingerprint_parts : EvidenceMap → List EvidenceId → List String
unfolding evidence_parts get
fingerprint_parts by_id [] = []
fingerprint_parts by_id (id ∷ ids) = evidence_parts (get by_id id) id ++ fingerprint_parts by_id ids

unfoldable pub evidence_fingerprint : List EvidenceId → EvidenceMap → String
unfolding fingerprint_parts
evidence_fingerprint ids by_id = stable_fingerprint (fingerprint_parts by_id ids)

-- An absent line or column counts as `usize::MAX`.
abbrev or_max : Option ℕ → ℕ
or_max none = 2 ^ 64 - 1
or_max (some n) = n

abbrev compare_location : SourceLocation → SourceLocation → Ordering
compare_location l r = then_with (compare_text l.path r.path) (
    then_with (compare (or_max l.line) (or_max r.line))
      (compare (or_max l.column) (or_max r.column)))

unfoldable pub sort_locations : List SourceLocation → List SourceLocation
unfolding sort_by
sort_locations = sort_by compare_location

unfoldable pub baseline_finding : Finding → EvidenceMap → BaselineFinding
unfolding sort_by sort_locations dedup get semantic_fingerprint evidence_fingerprint
baseline_finding finding by_id =
    let evidence_ids = sort_by compare_text finding.evidence_ids in
    record {
      id = finding.id;
      category = finding.category;
      severity = finding.severity;
      title = finding.title;
      semantic_fingerprint = semantic_fingerprint finding;
      evidence_fingerprint = evidence_fingerprint evidence_ids by_id;
      artifact_ids = sort_by compare_text finding.artifact_ids;
      evidence_ids = evidence_ids;
      source_locations = dedup (
          sort_locations
            (map (λ (e : Evidence). e.location) (collect (λ id. get by_id id) evidence_ids)));
    }

abbrev pub compare_baseline_finding : BaselineFinding → BaselineFinding → Ordering
compare_baseline_finding l r = then_with (compare_text l.id r.id) (
    then_with (compare_text l.semantic_fingerprint r.semantic_fingerprint)
      (compare_text l.evidence_fingerprint r.evidence_fingerprint))

abbrev pub sort_fields : BaselineFinding → BaselineFinding
sort_fields finding = record finding {
  artifact_ids = sort_by compare_text finding.artifact_ids;
  evidence_ids = sort_by compare_text finding.evidence_ids;
  source_locations = sort_locations finding.source_locations;
}

unfoldable pub sort_baseline_findings : List BaselineFinding → List BaselineFinding
unfolding sort_by sort_locations
sort_baseline_findings findings = sort_by compare_baseline_finding (map sort_fields findings)

unfoldable pub create_baseline : Regexes → ScanReport → String → Baseline
unfolding sanitize_report evidence_by_id baseline_finding sort_baseline_findings
create_baseline rx report created_by =
    let report = sanitize_report rx report in
    let by_id = evidence_by_id report in
    record {
      schema_version = baseline_schema_version;
      report_schema_version = report.schema_version;
      created_by = created_by;
      findings = sort_baseline_findings (map (λ f. baseline_finding f by_id) report.findings);
    }
