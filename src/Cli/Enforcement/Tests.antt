-- ===== src/Cli/Enforcement/Tests.antt =====
-- The policy and its messages on a small report.
use session_scope.Common.{◌≡◌, refl, ◌↔◌, string_dec, none, some, [], ◌∷◌, arith, inl}
use session_scope.Common.Lists.{All, IsIn}
use session_scope.Common.Result.{ok, err}
use session_scope.Common.Text.{join, split, trim}
use session_scope.Model.Finding.{FindingCategory, Severity, severity_order}
use session_scope.Model.Samples
use session_scope.Cli.Enforcement.{
  PolicyMode, PolicyMode-discrete, EnforcementOptions, EnforcementResult, Files, default_options,
  baseline_ids_of, blocks, evaluate, parse_severity, parse_category, severity_name, category_name,
  split_values, format_failure, failure_lines,
}
use session_scope.Cli.Enforcement.Policy.{Blocks, evaluate-Blocks, IsStricter, evaluate-IsStricter}
use session_scope.Cli.Enforcement.Outcome.{Outcome, evaluate-Outcome_iff}
use session_scope.Cli.Enforcement.Messages.{
  parse_names_iff, IsValue, split_values-join, split-format_failure,
}

-- A disk with no file.
abbrev empty_disk : Files
empty_disk = record { read_to_string = λ path. err "not found"; parse_baseline = λ contents. none }

abbrev lax : EnforcementOptions
lax = record default_options { mode = PolicyMode.enforce }

abbrev strict : EnforcementOptions
strict = record lax { fail_severity = Severity.medium }

abbrev lax_result : EnforcementResult
lax_result = record { blocking_findings = Samples.minor ∷ [] }

abbrev nothing_blocks : EnforcementResult
nothing_blocks = record { blocking_findings = [] }

abbrev strict_result : EnforcementResult
strict_result = record { blocking_findings = Samples.gap ∷ Samples.minor ∷ [] }

lax_run : evaluate empty_disk lax Samples.report ≡ ok lax_result
unfolding evaluate blocks PolicyMode-discrete
lax_run = refl

strict_run : evaluate empty_disk strict Samples.report ≡ ok strict_result
unfolding evaluate blocks PolicyMode-discrete
strict_run = refl

no_baseline : baseline_ids_of empty_disk none ≡ ok []
unfolding baseline_ids_of
no_baseline = refl

evaluate-Blocks_example :
    (r : EnforcementResult) × (evaluate empty_disk lax Samples.report ≡ ok r)
    × (IsIn Samples.minor r.blocking_findings
        ↔ (IsIn Samples.minor Samples.report.findings × Blocks lax [] Samples.minor))
evaluate-Blocks_example =
    evaluate-Blocks empty_disk lax Samples.report [] Samples.minor refl no_baseline

-- A disk with a baseline that has accepted one of the findings, and a policy that names it.
abbrev one_accepted : Files
one_accepted = record {
  read_to_string = λ path. ok "{}";
  parse_baseline = λ contents. some (Samples.gap.id ∷ []);
}

abbrev strict_baseline : EnforcementOptions
strict_baseline = record strict { baseline = some "baseline.json" }

baseline_run : evaluate one_accepted strict_baseline Samples.report ≡ ok lax_result
unfolding evaluate blocks PolicyMode-discrete string_dec
baseline_run = refl

evaluate-Outcome_iff_example :
    (evaluate one_accepted strict_baseline Samples.report ≡ ok lax_result)
    ↔ Outcome one_accepted strict_baseline Samples.report (ok lax_result)
evaluate-Outcome_iff_example =
    evaluate-Outcome_iff one_accepted strict_baseline Samples.report (ok lax_result)

strict-IsStricter : IsStricter lax strict
strict-IsStricter = record {
  threshold = unfold severity_order in omega arith;
  excluded = λ id m. m;
  included = λ id m. m;
  categories = λ c h. h;
}

evaluate-IsStricter_example : IsIn Samples.minor strict_result.blocking_findings
evaluate-IsStricter_example =
    evaluate-IsStricter empty_disk lax strict Samples.report [] lax_result strict_result
      Samples.minor strict-IsStricter refl refl no_baseline no_baseline lax_run strict_run
      (inl refl)

parse_names_iff_example :
    ((parse_severity "high" ≡ ok Severity.high) ↔ ("high" ≡ severity_name Severity.high))
    × ((parse_category "high" ≡ ok FindingCategory.lifecycle_gap)
        ↔ ("high" ≡ category_name FindingCategory.lifecycle_gap))
parse_names_iff_example = parse_names_iff "high" Severity.high FindingCategory.lifecycle_gap

values_IsValue : All IsValue ("f1" ∷ "f2" ∷ [])
unfolding trim
values_IsValue = ((refl, refl), ((refl, refl), tt))

split_values-join_example : split_values (join "," ("f1" ∷ "f2" ∷ [])) ≡ "f1" ∷ "f2" ∷ []
split_values-join_example =
    split_values-join ("f1" ∷ "f2" ∷ []) values_IsValue (omega arith, (omega arith, tt))

split-format_failure_example : split 10 (format_failure strict_result) ≡ failure_lines strict_result
split-format_failure_example = split-format_failure strict_result (omega arith, (omega arith, tt))
