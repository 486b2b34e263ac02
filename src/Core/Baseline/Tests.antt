-- ===== src/Core/Baseline/Tests.antt =====
-- Baselines and diffs of a small report.
use Prim.Native.String.{compare as compare_text}
use mathlib.Core.List.{Perm}
use session_scope.Common.{
  String, ◌≡◌, refl, [], ◌∷◌, map, length, string_dec, nat_dec, list_dec, option_dec,
}
use session_scope.Common.Lists.{All}
use session_scope.Common.Sorting.{IsSorted}
use session_scope.Common.Sets.{insert}
use session_scope.Common.Text.{hex_digits}
use session_scope.Model.Evidence.{SourceLocation-discrete}
use session_scope.Model.Finding.{Severity, Finding}
use session_scope.Model.Baseline.{Baseline, BaselineFinding, DiffFindingChange, DiffChangeKind}
use session_scope.Model.Samples
use session_scope.Core.Redaction.Values.{Regexes}
use session_scope.Core.Baseline.Fingerprint.{
  semantic_fingerprint, stable_fingerprint, create_baseline,
}
use session_scope.Core.Baseline.Diff.{
  Key-discrete, diff_findings, diff_baseline, sanitized_baseline,
}
use session_scope.Core.Baseline.Partition.{Distinct, baselines, currents}
use session_scope.Core.Baseline.Summary.{old_count, current_count}
use session_scope.Core.Baseline.Whole.{HasDistinctIds, diff_baseline-perm, diff_baseline-counts}
use session_scope.Core.Baseline.Ordered.{Pairwise, IsBefore, Precedes, diff_baseline-IsOrdered}
use session_scope.Core.Baseline.SelfDiff.{IsUnchanged, diff_baseline-create_baseline}

-- Patterns that match nothing.
abbrev no_match : Regexes
no_match = record { replace_all = λ pattern replacement text. text }

abbrev accepted_finding : String → BaselineFinding
accepted_finding id = record {
  id = id;
  category = Samples.gap.category;
  severity = Severity.medium;
  title = "t";
  semantic_fingerprint = "fingerprint_0";
  evidence_fingerprint = "fingerprint_1";
  artifact_ids = [];
  evidence_ids = [];
  source_locations = [];
}

abbrev accepted : Baseline
accepted = record {
  schema_version = "0.1.0";
  report_schema_version = "0.5.0";
  created_by = "sessionscope";
  findings = accepted_finding "f1" ∷ accepted_finding "f9" ∷ [];
}

accepted-Distinct : Distinct accepted.findings
unfolding string_dec
accepted-Distinct = ((refl, tt), (tt, tt))

report-HasDistinctIds : HasDistinctIds Samples.report
unfolding string_dec
report-HasDistinctIds = ((refl, tt), (tt, tt))

diff_baseline-perm_example :
    Perm
      (baselines (diff_baseline no_match accepted Samples.report).changes)
      (sanitized_baseline no_match accepted).findings
    × Perm
        (currents (diff_baseline no_match accepted Samples.report).changes)
        (create_baseline no_match Samples.report accepted.created_by).findings
diff_baseline-perm_example =
    diff_baseline-perm no_match accepted Samples.report accepted-Distinct report-HasDistinctIds

diff_baseline-counts_example :
    (old_count (diff_baseline no_match accepted Samples.report).summary ≡ length accepted.findings)
    × (current_count (diff_baseline no_match accepted Samples.report).summary
        ≡ length Samples.report.findings)
diff_baseline-counts_example =
    diff_baseline-counts no_match accepted Samples.report accepted-Distinct report-HasDistinctIds

diff_baseline-create_baseline_example :
    All IsUnchanged
      (diff_baseline no_match (create_baseline no_match Samples.report "ci") Samples.report).changes
    × ((diff_baseline no_match
          (create_baseline no_match Samples.report "ci")
          Samples.report).summary
        ≡ record {
          new = 0;
          unchanged = length Samples.report.findings;
          changed = 0;
          moved = 0;
          resolved = 0;
        })
diff_baseline-create_baseline_example =
    diff_baseline-create_baseline no_match Samples.report "ci" report-HasDistinctIds

diff_baseline-IsOrdered_example :
    Pairwise IsBefore (diff_baseline no_match accepted Samples.report).changes
    × Pairwise Precedes (create_baseline no_match Samples.report accepted.created_by).findings
    × All
        (λ (f : BaselineFinding).
          IsSorted compare_text f.artifact_ids × IsSorted compare_text f.evidence_ids)
        (create_baseline no_match Samples.report accepted.created_by).findings
diff_baseline-IsOrdered_example = diff_baseline-IsOrdered no_match accepted Samples.report

-- One finding that is kept, one that is found again under another id, one resolved, one new.
abbrev other_key : BaselineFinding → BaselineFinding
other_key f = record f { semantic_fingerprint = "fingerprint_2" }

test_kinds :
    map
      (λ (c : DiffFindingChange). c.kind)
      (diff_findings
        (accepted_finding "f1" ∷ accepted_finding "f2" ∷ accepted_finding "f3" ∷ [])
        (accepted_finding "f1" ∷ accepted_finding "f4" ∷ other_key (accepted_finding "f5") ∷ []))
    ≡ DiffChangeKind.unchanged ∷ DiffChangeKind.moved ∷ DiffChangeKind.resolved ∷ DiffChangeKind.new
      ∷ []
unfolding diff_findings string_dec nat_dec Key-discrete list_dec option_dec SourceLocation-discrete
    insert
test_kinds = refl

-- The fingerprint that the source's own test pins.
abbrev pinned : Finding
pinned =
    record (Samples.finding_named "finding_pinned" Severity.medium [] ("evidence_pinned" ∷ [])) {
      title = "pinned title";
      description = "pinned description";
    }

test_fingerprint : semantic_fingerprint pinned ≡ "fingerprint_7ed7872573c47bc7"
unfolding semantic_fingerprint stable_fingerprint hex_digits
test_fingerprint = refl
