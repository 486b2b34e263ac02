-- ===== src/Cli/Enforcement.antt =====
-- crates/sessionscope-cli/src/enforcement.rs: which findings fail a run. A path is its text.
pub mod Policy
pub mod Outcome
pub mod Messages
mod Tests
use session_scope.Common.{
  ℕ, ◌-◌, String, ◌<>◌, Bool, true, false, not, ◌&&◌, Option, none, some, List, [], ◌∷◌, ◌++◌, map,
  if◌then◌else◌, ◌==◌, Eq, string_eq, contains, leb, ltb,
}
use session_scope.Common.Lists.{keep, length, take}
use session_scope.Common.Result.{Result, ok, err, ◌>>=◌}
use session_scope.Common.Text.{split, trim, is_nil, replace_char, decimal, join}
use session_scope.Model.Finding.{
  Severity, FindingCategory, finding_category_eq, severity_order, Finding, FindingId,
}
use session_scope.Model.Report.{ScanReport}

pub data PolicyMode : Type 0 where
  advisory enforce : PolicyMode

unfoldable pub PolicyMode-discrete : Discrete PolicyMode
PolicyMode-discrete = hlevel

instance abbrev pub policy_mode_eq : Eq PolicyMode
policy_mode_eq = record { dec = PolicyMode-discrete }

pub record EnforcementOptions : Type 0 where
  pub mode : PolicyMode
  pub fail_severity : Severity
  pub fail_categories : Option (List FindingCategory)
  pub include_finding_ids : List String
  pub exclude_finding_ids : List String
  pub baseline : Option String

pub record EnforcementResult : Type 0 where
  pub blocking_findings : List Finding

abbrev pub default_options : EnforcementOptions
default_options = record {
  mode = PolicyMode.advisory;
  fail_severity = Severity.high;
  fail_categories = none;
  include_finding_ids = [];
  exclude_finding_ids = [];
  baseline = none;
}

-- What the program does not implement: reading a file (`Err` carries the displayed error), and
-- `serde_json` on a baseline report, of which only the ids of the findings are read.
pub record Files : Type 0 where
  pub read_to_string : String → Result String
  pub parse_baseline : String → Option (List FindingId)

pub load_baseline_ids : Files → String → Result (List String)
load_baseline_ids files path = elim (files.read_to_string path) [
  | err message ↦ err ("failed to read baseline " <> (path <> (": " <> message)))
  | ok contents ↦ elim (files.parse_baseline contents) [
    | none ↦ err ("failed to parse baseline " <> (path <> " as JSON report"))
    | some ids ↦ ok ids
  ]
]

abbrev category_allowed : Option (List FindingCategory) → FindingCategory → Bool
category_allowed none category = true
category_allowed (some categories) category = contains categories category

unfoldable pub blocks : EnforcementOptions → Finding → List String → Bool
unfolding severity_order
blocks options finding baseline_ids =
    if contains options.exclude_finding_ids finding.id
    then false
    else if contains options.include_finding_ids finding.id
    then true
    else if contains baseline_ids finding.id
    then false
    else leb (severity_order options.fail_severity) (severity_order finding.severity)
      && category_allowed options.fail_categories finding.category

pub baseline_ids_of : Files → Option String → Result (List String)
unfolding load_baseline_ids
baseline_ids_of files none = ok []
baseline_ids_of files (some path) = load_baseline_ids files path

unfoldable pub evaluate : Files → EnforcementOptions → ScanReport → Result EnforcementResult
unfolding baseline_ids_of
evaluate files options report = do
  baseline_ids ← baseline_ids_of files options.baseline
  if options.mode == PolicyMode.advisory
      then ok (record { blocking_findings = [] })
      else ok (record {
        blocking_findings = keep (λ finding. blocks options finding baseline_ids) report.findings;
      })

unfoldable pub parse_mode : String → Result PolicyMode
parse_mode value =
    if value == "advisory"
    then ok PolicyMode.advisory
    else if value == "enforce"
    then ok PolicyMode.enforce
    else err "mode must be advisory or enforce"

unfoldable pub parse_severity : String → Result Severity
parse_severity value =
    if value == "info"
    then ok Severity.info
    else if value == "low"
    then ok Severity.low
    else if value == "medium"
    then ok Severity.medium
    else if value == "high"
    then ok Severity.high
    else err "fail severity must be info, low, medium, or high"

unfoldable pub parse_category : String → Result FindingCategory
parse_category value =
    if value == "high_confidence_misconfiguration"
    then ok FindingCategory.high_confidence_misconfiguration
    else if value == "missing_validation_evidence"
    then ok FindingCategory.missing_validation_evidence
    else if value == "lifecycle_gap"
    then ok FindingCategory.lifecycle_gap
    else if value == "dynamic_review_required"
    then ok FindingCategory.dynamic_review_required
    else if value == "framework_default_assumed"
    then ok FindingCategory.framework_default_assumed
    else err "fail category must match a SessionScope finding category"

unfoldable pub severity_name : Severity → String
severity_name Severity.info = "info"
severity_name Severity.low = "low"
severity_name Severity.medium = "medium"
severity_name Severity.high = "high"

unfoldable pub category_name : FindingCategory → String
category_name FindingCategory.high_confidence_misconfiguration = "high_confidence_misconfiguration"
category_name FindingCategory.missing_validation_evidence = "missing_validation_evidence"
category_name FindingCategory.lifecycle_gap = "lifecycle_gap"
category_name FindingCategory.dynamic_review_required = "dynamic_review_required"
category_name FindingCategory.framework_default_assumed = "framework_default_assumed"

-- `- {id} {severity} {category} {title}`, with the line feeds of the title made spaces.
failure_line : Finding → String
unfolding severity_name category_name replace_char
failure_line finding =
    "- "
    <> (finding.id
        <> (" "
            <> (severity_name finding.severity
                <> (" "
                    <> (category_name finding.category
                        <> (" " <> replace_char 10 " " finding.title))))))

overflow_lines : ℕ → List String
overflow_lines n =
    if ltb 5 n then ("- ...and " <> (decimal (n - 5) <> " more blocking finding(s)")) ∷ [] else []

unfoldable pub failure_lines : EnforcementResult → List String
unfolding failure_line overflow_lines
failure_lines result =
    ("enforce mode blocked " <> (decimal (length result.blocking_findings) <> " finding(s)"))
    ∷ (map failure_line (take 5 result.blocking_findings)
        ++ overflow_lines (length result.blocking_findings))

unfoldable pub format_failure : EnforcementResult → String
unfolding failure_lines join
format_failure result = join "\n" (failure_lines result)

unfoldable pub split_values : String → List String
unfolding split trim
split_values value = keep (λ item. not (is_nil item)) (map trim (split 44 value))
