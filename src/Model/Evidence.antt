-- ===== src/Model/Evidence.antt =====
-- crates/sessionscope-model/src/evidence.rs. An id is a transparent wrapper of its text.
use session_scope.Common.{ℕ, String, Bool, Option, Eq, string_dec, nat_dec}
use session_scope.Model.Lifecycle.{LifecycleStage}

pub data Confidence : Type 0 where
  low medium high : Confidence

unfoldable pub Confidence-discrete : Discrete Confidence
Confidence-discrete = hlevel

instance abbrev pub confidence_eq : Eq Confidence
confidence_eq = record { dec = Confidence-discrete }

unfoldable pub confidence_rank : Confidence → ℕ
confidence_rank Confidence.low = 0
confidence_rank Confidence.medium = 1
confidence_rank Confidence.high = 2

unfoldable pub confidence_name : Confidence → String
confidence_name Confidence.low = "low"
confidence_name Confidence.medium = "medium"
confidence_name Confidence.high = "high"

abbrev pub EvidenceId : Type 0
EvidenceId = String

pub record SourceLocation : Type 0 where
  pub path : String
  pub line : Option ℕ
  pub column : Option ℕ

unfoldable pub SourceLocation-discrete : Discrete SourceLocation
SourceLocation-discrete = hlevel (string_dec, nat_dec)

instance abbrev pub source_location_eq : Eq SourceLocation
source_location_eq = record { dec = SourceLocation-discrete }

-- The wrapped text is private to the crate: every value comes from `from_sanitized`.
pub record SanitizedExcerpt : Type 0 where
  pub inner : String

unfoldable pub from_sanitized : String → SanitizedExcerpt
from_sanitized value = record { inner = value }

unfoldable pub replace_with_sanitized : SanitizedExcerpt → String → SanitizedExcerpt
replace_with_sanitized excerpt value = record excerpt { inner = value }

pub record Evidence : Type 0 where
  pub id : EvidenceId
  pub lifecycle_stage : LifecycleStage
  pub location : SourceLocation
  pub detector_id : String
  pub confidence : Confidence
  pub excerpt : Option SanitizedExcerpt
  pub dynamic : Bool
  pub framework_default : Bool
