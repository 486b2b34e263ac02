-- ===== src/Detectors/Traits.antt =====
-- crates/sessionscope-detectors/src/traits.rs
use session_scope.Common.{String, Option, List, []}
use session_scope.Model.Artifact.{Artifact}
use session_scope.Model.Evidence.{Evidence}
use session_scope.Model.Report.{Language}

pub record DetectorInput : Type 0 where
  pub path : String
  pub language : Language
  pub source : String

pub record DetectionOutput : Type 0 where
  pub artifacts : List Artifact
  pub evidence : List Evidence
  pub diagnostics : List String

abbrev pub empty_output : DetectionOutput
empty_output = record { artifacts = []; evidence = []; diagnostics = [] }

-- The trait: `none` is a panic.
pub record Detector : Type 0 where
  pub id : String
  pub detect : DetectorInput → Option DetectionOutput
