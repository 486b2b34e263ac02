-- ===== src/Model/Finding.antt =====
-- crates/sessionscope-model/src/finding.rs
use session_scope.Common.{ℕ, String, Option, List, Eq}
use session_scope.Model.Evidence.{EvidenceId}

pub data FindingCategory : Type 0 where
  high_confidence_misconfiguration : FindingCategory
  missing_validation_evidence : FindingCategory
  lifecycle_gap : FindingCategory
  dynamic_review_required : FindingCategory
  framework_default_assumed : FindingCategory

unfoldable pub FindingCategory-discrete : Discrete FindingCategory
FindingCategory-discrete = hlevel

instance abbrev pub finding_category_eq : Eq FindingCategory
finding_category_eq = record { dec = FindingCategory-discrete }

unfoldable pub category_rank : FindingCategory → ℕ
category_rank FindingCategory.high_confidence_misconfiguration = 0
category_rank FindingCategory.missing_validation_evidence = 1
category_rank FindingCategory.lifecycle_gap = 2
category_rank FindingCategory.dynamic_review_required = 3
category_rank FindingCategory.framework_default_assumed = 4

unfoldable pub category_stable_name : FindingCategory → String
category_stable_name FindingCategory.high_confidence_misconfiguration =
    "high_confidence_misconfiguration"
category_stable_name FindingCategory.missing_validation_evidence = "missing_validation_evidence"
category_stable_name FindingCategory.lifecycle_gap = "lifecycle_gap"
category_stable_name FindingCategory.dynamic_review_required = "dynamic_review_required"
category_stable_name FindingCategory.framework_default_assumed = "framework_default_assumed"

pub data Severity : Type 0 where
  info low medium high : Severity

unfoldable pub Severity-discrete : Discrete Severity
Severity-discrete = hlevel

instance abbrev pub severity_eq : Eq Severity
severity_eq = record { dec = Severity-discrete }

-- The declaration order, by which the derived `Ord` compares.
unfoldable pub severity_order : Severity → ℕ
severity_order Severity.info = 0
severity_order Severity.low = 1
severity_order Severity.medium = 2
severity_order Severity.high = 3

unfoldable pub severity_stable_name : Severity → String
severity_stable_name Severity.info = "info"
severity_stable_name Severity.low = "low"
severity_stable_name Severity.medium = "medium"
severity_stable_name Severity.high = "high"

abbrev pub ArtifactId : Type 0
ArtifactId = String

abbrev pub FindingId : Type 0
FindingId = String

pub record Finding : Type 0 where
  pub id : FindingId
  pub category : FindingCategory
  pub severity : Severity
  pub artifact_ids : List ArtifactId
  pub evidence_ids : List EvidenceId
  pub title : String
  pub description : String
  pub suggested_fix : Option String
  pub reviewer_question : Option String
