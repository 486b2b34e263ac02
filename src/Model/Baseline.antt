-- ===== src/Model/Baseline.antt =====
-- crates/sessionscope-model/src/baseline.rs
use session_scope.Common.{ℕ, String, Option, List, Eq}
use session_scope.Model.Evidence.{EvidenceId, SourceLocation}
use session_scope.Model.Finding.{ArtifactId, FindingId, FindingCategory, Severity}

abbrev pub baseline_schema_version : String
baseline_schema_version = "0.1.0"

abbrev pub diff_schema_version : String
diff_schema_version = "0.1.0"

pub record BaselineFinding : Type 0 where
  pub id : FindingId
  pub category : FindingCategory
  pub severity : Severity
  pub title : String
  pub semantic_fingerprint : String
  pub evidence_fingerprint : String
  pub artifact_ids : List ArtifactId
  pub evidence_ids : List EvidenceId
  pub source_locations : List SourceLocation

pub record Baseline : Type 0 where
  pub schema_version : String
  pub report_schema_version : String
  pub created_by : String
  pub findings : List BaselineFinding

pub data DiffChangeKind : Type 0 where
  new unchanged changed moved resolved : DiffChangeKind

unfoldable pub DiffChangeKind-discrete : Discrete DiffChangeKind
DiffChangeKind-discrete = hlevel

instance abbrev pub diff_change_kind_eq : Eq DiffChangeKind
diff_change_kind_eq = record { dec = DiffChangeKind-discrete }

unfoldable pub change_rank : DiffChangeKind → ℕ
change_rank DiffChangeKind.new = 0
change_rank DiffChangeKind.unchanged = 1
change_rank DiffChangeKind.changed = 2
change_rank DiffChangeKind.moved = 3
change_rank DiffChangeKind.resolved = 4

pub record DiffSummary : Type 0 where
  pub new : ℕ
  pub unchanged : ℕ
  pub changed : ℕ
  pub moved : ℕ
  pub resolved : ℕ

pub record DiffFindingChange : Type 0 where
  pub kind : DiffChangeKind
  pub baseline : Option BaselineFinding
  pub current : Option BaselineFinding

pub record DiffReport : Type 0 where
  pub schema_version : String
  pub baseline_schema_version : String
  pub current_report_schema_version : String
  pub summary : DiffSummary
  pub changes : List DiffFindingChange
