-- ===== src/Model/Samples.antt =====
-- Small reports for the tests.
use session_scope.Common.{ℕ, String, false, none, some, List, [], ◌∷◌}
use session_scope.Model.Lifecycle.{LifecycleStage}
use session_scope.Model.Evidence.{Confidence, Evidence}
use session_scope.Model.Finding.{Finding, FindingCategory, Severity}
use session_scope.Model.Artifact.{Artifact, ArtifactType, LifecycleEvidence, no_evidence}
use session_scope.Model.Report.{FileScanResult, Language, SkippedReason, ScanReport}
use session_scope.Model.Schema.{schema_version}

abbrev pub finding_named : String → Severity → List String → List String → Finding
finding_named id severity artifact_ids evidence_ids = record {
  id = id;
  category = FindingCategory.lifecycle_gap;
  severity = severity;
  artifact_ids = artifact_ids;
  evidence_ids = evidence_ids;
  title = "Refresh is missing";
  description = "d";
  suggested_fix = none;
  reviewer_question = none;
}

abbrev pub evidence_at : String → LifecycleStage → String → ℕ → Evidence
evidence_at id stage detector line = record {
  id = id;
  lifecycle_stage = stage;
  location = record { path = "app.js"; line = some line; column = none };
  detector_id = detector;
  confidence = Confidence.high;
  excerpt = none;
  dynamic = false;
  framework_default = false;
}

abbrev pub artifact_with : String → ArtifactType → LifecycleEvidence → Artifact
artifact_with id type evidence = record {
  id = id;
  artifact_type = type;
  display_name = some "sid";
  locations = [];
  lifecycle_evidence = evidence;
  confidence = Confidence.high;
  framework_hints = "express" ∷ "scope:login" ∷ [];
  cookie_attributes = none;
  jwt_attributes = none;
  token_boundary_attributes = none;
}

-- A login at line 10, a store at 12, a query token, and a cookie.
abbrev pub login : Evidence
login = evidence_at "e1" LifecycleStage.issue "session.auth_transition" 10

abbrev pub store_after : Evidence
store_after = evidence_at "e2" LifecycleStage.store "session.store_after_auth" 12

abbrev pub query : Evidence
query = evidence_at "e3" LifecycleStage.transmit "query_param.read" 20

abbrev pub storage : Evidence
storage = evidence_at "e4" LifecycleStage.store "client_storage.local_storage.set_item" 30

abbrev pub regenerate : Evidence
regenerate = evidence_at "e5" LifecycleStage.refresh "session.regenerate" 15

abbrev pub session : Artifact
session =
    artifact_with "a1" ArtifactType.session_cookie
      (record no_evidence { issue = "e1" ∷ []; store = "e2" ∷ "e4" ∷ [] })

abbrev pub token : Artifact
token =
    artifact_with "a2" ArtifactType.refresh_jwt
      (record no_evidence { transmit = "e3" ∷ []; refresh = "e5" ∷ [] })

abbrev pub gap : Finding
gap = finding_named "f1" Severity.medium ("a2" ∷ []) ("e5" ∷ [])

abbrev pub minor : Finding
minor = finding_named "f2" Severity.high ("a1" ∷ []) ("e4" ∷ [])

abbrev pub good_file : FileScanResult
good_file = record {
  path = "app.js";
  language = Language.java_script;
  artifacts = session ∷ token ∷ [];
  evidence = login ∷ store_after ∷ query ∷ storage ∷ regenerate ∷ [];
  diagnostics = "note" ∷ [];
  skipped_reason = none;
}

abbrev pub binary_file : FileScanResult
binary_file = record {
  path = "logo.png";
  language = Language.unknown;
  artifacts = [];
  evidence = [];
  diagnostics = "binary" ∷ [];
  skipped_reason = some SkippedReason.binary;
}

abbrev pub report : ScanReport
report = record {
  schema_version = schema_version;
  summary = record {
    files_discovered = 2;
    files_scanned = 1;
    files_skipped = 1;
    diagnostics = [];
    worker_panic_count = 0;
    skipped_by_reason = [];
  };
  files = good_file ∷ binary_file ∷ [];
  artifacts = session ∷ token ∷ [];
  evidence = login ∷ store_after ∷ query ∷ storage ∷ regenerate ∷ [];
  lifecycle_paths = [];
  findings = gap ∷ minor ∷ [];
}
