-- ===== src/Core/Capability/Filter.antt =====
-- `filter_report` of capability.rs: the sets of ids it gathers, and the report it keeps.
use session_scope.Common.{
  ℕ, Bool, true, false, not, ◌||◌, none, some, List, [], ◌∷◌, map, string_eq, contains,
  if◌then◌else◌,
}
use session_scope.Common.Lists.{keep, length, is_empty, flat_map}
use session_scope.Common.Sets.{insert, extend, bump}
use session_scope.Model.Evidence.{Evidence, EvidenceId}
use session_scope.Model.Finding.{ArtifactId, Finding}
use session_scope.Model.Artifact.{Artifact}
use session_scope.Model.Report.{
  LifecyclePath, LifecyclePathStep, FileScanResult, SkippedReasonKind, skipped_reason_kind_eq, kind,
  ScanSummary, ScanReport,
}
use session_scope.Core.Capability.Matching.{
  CapabilityArea, artifact_matches, evidence_matches, lifecycle_stage_matches,
  collect_artifact_evidence, artifact_has_evidence, path_matches, finding_matches,
}

-- The two sets that the filter gathers.
pub record Kept : Type 0 where
  pub artifact_ids : List ArtifactId
  pub evidence_ids : List EvidenceId

unfoldable pub seed : CapabilityArea → ScanReport → Kept
unfolding artifact_matches evidence_matches extend
seed area report = record {
  artifact_ids =
      extend [] (map (λ (a : Artifact). a.id) (keep (artifact_matches area) report.artifacts));
  evidence_ids =
      extend [] (map (λ (e : Evidence). e.id) (keep (evidence_matches area) report.evidence));
}

-- The artifacts that have evidence of the set come in.
unfoldable pub add_artifacts : List Artifact → Kept → Kept
unfolding artifact_has_evidence insert
add_artifacts [] k = k
add_artifacts (a ∷ as') k = add_artifacts as' (
    if artifact_has_evidence a k.evidence_ids
    then record k { artifact_ids = insert a.id k.artifact_ids }
    else k)

-- The evidence of the artifacts of the set comes in.
unfoldable pub add_evidence : CapabilityArea → List Artifact → Kept → Kept
unfolding collect_artifact_evidence
add_evidence area [] k = k
add_evidence area (a ∷ as') k = add_evidence area as' (
    if contains k.artifact_ids a.id
    then record k { evidence_ids = collect_artifact_evidence a k.evidence_ids area }
    else k)

abbrev pub stage_evidence : CapabilityArea → List LifecyclePathStep → List EvidenceId
stage_evidence area stages =
    flat_map (λ (step : LifecyclePathStep). step.evidence_ids)
      (keep (λ (step : LifecyclePathStep). lifecycle_stage_matches area step.stage) stages)

-- A path that matches brings its artifacts and the evidence of the area's stages.
unfoldable pub add_paths : CapabilityArea → List LifecyclePath → Kept → Kept
unfolding path_matches extend lifecycle_stage_matches
add_paths area [] k = k
add_paths area (p ∷ ps) k = add_paths area ps (
    if path_matches p k.artifact_ids k.evidence_ids
    then record {
      artifact_ids = extend k.artifact_ids p.artifact_ids;
      evidence_ids = extend k.evidence_ids (stage_evidence area p.stages);
    }
    else k)

unfoldable pub add_findings : List Finding → Kept → Kept
unfolding extend
add_findings [] k = k
add_findings (f ∷ fs) k = add_findings fs (record {
  artifact_ids = extend k.artifact_ids f.artifact_ids;
  evidence_ids = extend k.evidence_ids f.evidence_ids;
})

unfoldable pub filter_file : List ArtifactId → List EvidenceId → FileScanResult → FileScanResult
filter_file artifact_ids evidence_ids file = record file {
  artifacts = keep (λ (a : Artifact). contains artifact_ids a.id) file.artifacts;
  evidence = keep (λ (e : Evidence). contains evidence_ids e.id) file.evidence;
  diagnostics = [];
}

-- The counts by reason, a file at a time.
unfoldable pub count_reasons :
    List (SkippedReasonKind × ℕ) → List FileScanResult → List (SkippedReasonKind × ℕ)
unfolding bump kind
count_reasons m [] = m
count_reasons m (f ∷ fs) =
    count_reasons (elim f.skipped_reason [ none ↦ m | some reason ↦ bump (kind reason) m ]) fs

abbrev pub is_scanned : FileScanResult → Bool
is_scanned f = elim f.skipped_reason [ none ↦ true | some reason ↦ false ]

unfoldable pub summarize_files : List FileScanResult → ScanSummary
unfolding count_reasons
summarize_files files = record {
  files_discovered = length files;
  files_scanned = length (keep is_scanned files);
  files_skipped = length (keep (λ f. not (is_scanned f)) files);
  diagnostics = flat_map (λ (f : FileScanResult). f.diagnostics) files;
  worker_panic_count = 0;
  skipped_by_reason = count_reasons [] files;
}

abbrev pub has_content : FileScanResult → Bool
has_content file =
    not (is_empty file.artifacts) || not (is_empty file.evidence) || not (is_empty file.diagnostics)

-- The sets before the findings are chosen.
unfoldable pub gathered : CapabilityArea → ScanReport → Kept
unfolding seed add_artifacts add_evidence add_paths
gathered area report =
    add_paths area report.lifecycle_paths
      (add_evidence area report.artifacts (add_artifacts report.artifacts (seed area report)))

unfoldable pub kept_findings : CapabilityArea → ScanReport → List Finding
unfolding gathered finding_matches
kept_findings area report =
    let k = gathered area report in
    keep (λ f. finding_matches area f k.artifact_ids k.evidence_ids) report.findings

unfoldable pub kept_ids : CapabilityArea → ScanReport → Kept
unfolding kept_findings add_findings
kept_ids area report = add_findings (kept_findings area report) (gathered area report)

unfoldable pub filter_report : ScanReport → CapabilityArea → ScanReport
unfolding kept_findings kept_ids filter_file summarize_files path_matches
filter_report report area =
    let k = kept_ids area report in
    let files = keep has_content (map (filter_file k.artifact_ids k.evidence_ids) report.files) in
    record {
      schema_version = report.schema_version;
      summary = summarize_files files;
      files = files;
      artifacts = keep (λ (a : Artifact). contains k.artifact_ids a.id) report.artifacts;
      evidence = keep (λ (e : Evidence). contains k.evidence_ids e.id) report.evidence;
      lifecycle_paths =
          keep (λ p. path_matches p k.artifact_ids k.evidence_ids) report.lifecycle_paths;
      findings = kept_findings area report;
    }
