-- ===== src/Model/Report.antt =====
-- crates/sessionscope-model/src/report.rs, and the lifecycle paths of lifecycle.rs
use session_scope.Common.{
  ℕ, ◌+◌, ◌*◌, String, Bool, false, Option, none, some, List, [], ◌∷◌, Eq, ◌==◌, string_eq, ltb,
  if◌then◌else◌,
}
use session_scope.Common.Lists.{keep, length}
use session_scope.Model.Evidence.{EvidenceId, Confidence, Evidence}
use session_scope.Model.Lifecycle.{LifecycleStage}
use session_scope.Model.Finding.{ArtifactId, Finding}
use session_scope.Model.Artifact.{Artifact}

pub record LifecyclePathStep : Type 0 where
  pub stage : LifecycleStage
  pub evidence_ids : List EvidenceId

abbrev pub LifecyclePathId : Type 0
LifecyclePathId = String

pub record LifecyclePath : Type 0 where
  pub id : LifecyclePathId
  pub artifact_ids : List ArtifactId
  pub stages : List LifecyclePathStep
  pub confidence : Confidence
  pub dynamic : Bool
  pub reviewer_question : Option String

pub data Language : Type 0 where
  java_script type_script python json yaml toml text unknown : Language

unfoldable pub Language-discrete : Discrete Language
Language-discrete = hlevel

instance abbrev pub language_eq : Eq Language
language_eq = record { dec = Language-discrete }

pub data SkippedReason : Type 0 where
  binary too_large unsupported excluded ignored sensitive_path symlink : SkippedReason
  read_error : String → SkippedReason
  timeout : SkippedReason

pub data SkippedReasonKind : Type 0 where
  binary too_large unsupported excluded ignored sensitive_path symlink : SkippedReasonKind
  read_error timeout : SkippedReasonKind

unfoldable pub SkippedReasonKind-discrete : Discrete SkippedReasonKind
SkippedReasonKind-discrete = hlevel

instance abbrev pub skipped_reason_kind_eq : Eq SkippedReasonKind
skipped_reason_kind_eq = record { dec = SkippedReasonKind-discrete }

unfoldable pub kind : SkippedReason → SkippedReasonKind
kind SkippedReason.binary = SkippedReasonKind.binary
kind SkippedReason.too_large = SkippedReasonKind.too_large
kind SkippedReason.unsupported = SkippedReasonKind.unsupported
kind SkippedReason.excluded = SkippedReasonKind.excluded
kind SkippedReason.ignored = SkippedReasonKind.ignored
kind SkippedReason.sensitive_path = SkippedReasonKind.sensitive_path
kind SkippedReason.symlink = SkippedReasonKind.symlink
kind (SkippedReason.read_error message) = SkippedReasonKind.read_error
kind SkippedReason.timeout = SkippedReasonKind.timeout

pub record FileScanResult : Type 0 where
  pub path : String
  pub language : Language
  pub artifacts : List Artifact
  pub evidence : List Evidence
  pub diagnostics : List String
  pub skipped_reason : Option SkippedReason

unfoldable pub scanned : String → Language → FileScanResult
scanned path language = record {
  path = path;
  language = language;
  artifacts = [];
  evidence = [];
  diagnostics = [];
  skipped_reason = none;
}

unfoldable pub skipped : String → Language → SkippedReason → FileScanResult
skipped path language reason = record {
  path = path;
  language = language;
  artifacts = [];
  evidence = [];
  diagnostics = [];
  skipped_reason = some reason;
}

-- The counts of `skipped_by_reason` are `u32` values; a scan of fewer than 2 ^ 32 files keeps them exact.
pub record ScanSummary : Type 0 where
  pub files_discovered : ℕ
  pub files_scanned : ℕ
  pub files_skipped : ℕ
  pub diagnostics : List String
  pub worker_panic_count : ℕ
  pub skipped_by_reason : List (SkippedReasonKind × ℕ)

pub record ScanReport : Type 0 where
  pub schema_version : String
  pub summary : ScanSummary
  pub files : List FileScanResult
  pub artifacts : List Artifact
  pub evidence : List Evidence
  pub lifecycle_paths : List LifecyclePath
  pub findings : List Finding

abbrev pub sum_counts : List (SkippedReasonKind × ℕ) → ℕ
sum_counts [] = 0
sum_counts ((k, n) ∷ m) = n + sum_counts m

abbrev is_permission_denied : Option SkippedReason → Bool
is_permission_denied (some (SkippedReason.read_error message)) = message == "permission denied"
is_permission_denied _ = false

unfoldable pub has_critical_failures : ScanReport → Bool
has_critical_failures report =
    let total_skipped = sum_counts report.summary.skipped_by_reason in
    if ltb 0 total_skipped
    then ltb total_skipped
        (length (keep (λ f. is_permission_denied f.skipped_reason) report.files) * 2)
    else false
