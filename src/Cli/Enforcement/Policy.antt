-- ===== src/Cli/Enforcement/Policy.antt =====
-- Which findings `evaluate` blocks, against the policy stated as rules.
use session_scope.Common.{
  ◌≤◌, String, ◌≡◌, refl, ◌↔◌, true, Option, none, some, List, arith, contains, string_eq, subst,
  Bool-cases, inl, inr,
}
use session_scope.Common.Lists.{keep, IsIn, IsIn-keep, contains_iff}
use session_scope.Common.Result.{ok}
use session_scope.Model.Finding.{FindingCategory, finding_category_eq, severity_order, Finding}
use session_scope.Model.Report.{ScanReport}
use session_scope.Cli.Enforcement.{
  PolicyMode, EnforcementOptions, EnforcementResult, Files, baseline_ids_of, category_allowed,
  blocks, evaluate,
}

-- The category list, when there is one, names the category.
abbrev pub Allows : Option (List FindingCategory) → FindingCategory → Type 0
Allows none category = Unit
Allows (some categories) category = IsIn category categories

-- The policy as rules: an exclusion beats all, an inclusion beats the baseline and the threshold.
pub data Blocks (o : EnforcementOptions) (known : List String) (f : Finding) : Type 0 where
  by_inclusion :
      ¬ IsIn f.id o.exclude_finding_ids → IsIn f.id o.include_finding_ids → Blocks o known f
  by_threshold :
      ¬ IsIn f.id o.exclude_finding_ids
      → ¬ IsIn f.id known
      → severity_order o.fail_severity ≤ severity_order f.severity
      → Allows o.fail_categories f.category
      → Blocks o known f

category_allowed_iff :
    (allowed : Option (List FindingCategory)) (c : FindingCategory)
    → (category_allowed allowed c ≡ true) ↔ Allows allowed c
category_allowed_iff none c = (λ h. tt, λ h. refl)
category_allowed_iff (some categories) c = contains_iff categories c

module _ (o : EnforcementOptions) (known : List String) (f : Finding) where
  pub blocks-Blocks : blocks o f known ≡ true → Blocks o known f
  unfolding blocks
  blocks-Blocks h = elim (Bool-cases (contains o.include_finding_ids f.id)) [
    | inl included ↦
        by_inclusion (λ m. ground (arith, (contains_iff o.exclude_finding_ids f.id).1 m))
          ((contains_iff o.include_finding_ids f.id).0 included)
    | inr other ↦
        by_threshold (λ m. ground (arith, (contains_iff o.exclude_finding_ids f.id).1 m))
          (λ m. ground (arith, (contains_iff known f.id).1 m)) (ground arith)
          ((category_allowed_iff o.fail_categories f.category).0 (ground arith))
  ]

  pub Blocks-blocks : Blocks o known f → blocks o f known ≡ true
  unfolding blocks
  Blocks-blocks (by_inclusion out in') = ground (
    arith,
    contains_iff o.exclude_finding_ids f.id,
    (contains_iff o.include_finding_ids f.id).1 in',
  )
  Blocks-blocks (by_threshold out new sev cat) = ground (
    arith,
    contains_iff o.exclude_finding_ids f.id,
    contains_iff known f.id,
    (category_allowed_iff o.fail_categories f.category).1 cat,
  )

-- What enforce mode returns once the baseline is loaded.
evaluate-enforce :
    (files : Files) (o : EnforcementOptions) (report : ScanReport) (known : List String)
    → o.mode ≡ PolicyMode.enforce
    → baseline_ids_of files o.baseline ≡ ok known
    → evaluate files o report
      ≡ ok (record { blocking_findings = keep (λ finding. blocks o finding known) report.findings })
unfolding evaluate
evaluate-enforce files o report known enforcing loaded = rw loaded (ground arith)

evaluated-blocks :
    (files : Files) (o : EnforcementOptions) (report : ScanReport) (known : List String)
    (r : EnforcementResult)
    → o.mode ≡ PolicyMode.enforce
    → baseline_ids_of files o.baseline ≡ ok known
    → evaluate files o report ≡ ok r
    → r.blocking_findings ≡ keep (λ finding. blocks o finding known) report.findings
evaluated-blocks files o report known r enforcing loaded done =
    cc (evaluate-enforce files o report known enforcing loaded)

-- In enforce mode, when the baseline loads to the ids `known` (none without a baseline),
-- `evaluate` returns a result, and a finding is among its blocking ones exactly when it is in the
-- report and the rules block it: it is not excluded, and it is included, or it is not known,
-- reaches the severity threshold and has an allowed category.
pub evaluate-Blocks :
    (files : Files) (o : EnforcementOptions) (report : ScanReport) (known : List String)
    (f : Finding)
    → o.mode ≡ PolicyMode.enforce
    → baseline_ids_of files o.baseline ≡ ok known
    → (r : EnforcementResult) × (evaluate files o report ≡ ok r)
      × (IsIn f r.blocking_findings ↔ (IsIn f report.findings × Blocks o known f))
evaluate-Blocks files o report known f enforcing loaded =
    let filtered = IsIn-keep (λ finding. blocks o finding known) f report.findings in
    (
      record { blocking_findings = keep (λ finding. blocks o finding known) report.findings },
      evaluate-enforce files o report known enforcing loaded,
      (
        λ m. ((filtered.0 m).0, blocks-Blocks o known f (filtered.0 m).1),
        λ m. filtered.1 (m.0, Blocks-blocks o known f m.1),
      ),
    )

-- A stricter policy, against the same baseline, blocks nothing that the laxer one lets pass.
pub record IsStricter (lax strict : EnforcementOptions) : Type 0 where
  pub threshold : severity_order strict.fail_severity ≤ severity_order lax.fail_severity
  pub excluded :
      (id : String) → IsIn id strict.exclude_finding_ids → IsIn id lax.exclude_finding_ids
  pub included :
      (id : String) → IsIn id lax.include_finding_ids → IsIn id strict.include_finding_ids
  pub categories :
      (c : FindingCategory) → Allows lax.fail_categories c → Allows strict.fail_categories c

Blocks-IsStricter :
    (lax strict : EnforcementOptions) (known : List String) (f : Finding)
    → IsStricter lax strict
    → blocks lax f known ≡ true
    → blocks strict f known ≡ true
Blocks-IsStricter lax strict known f s h =
    Blocks-blocks strict known f (tighten (blocks-Blocks lax known f h))
  where
    tighten : Blocks lax known f → Blocks strict known f
    tighten (by_inclusion out inside) =
        by_inclusion (λ m. out (s.excluded f.id m)) (s.included f.id inside)
    tighten (by_threshold out new sev cat) =
        by_threshold (λ m. out (s.excluded f.id m)) new (omega (arith, s.threshold))
          (s.categories f.category cat)

-- Let two policies in enforce mode evaluate the same report against baselines that load to the
-- same ids, the strict one with a threshold that is no higher, exclusions that the lax one has
-- too, all inclusions of the lax one, and every category that the lax one allows. Then each
-- finding that the lax policy blocks is blocked by the strict one.
pub evaluate-IsStricter :
    (files : Files) (lax strict : EnforcementOptions) (report : ScanReport) (known : List String)
    (r r' : EnforcementResult) (f : Finding)
    → IsStricter lax strict
    → lax.mode ≡ PolicyMode.enforce
    → strict.mode ≡ PolicyMode.enforce
    → baseline_ids_of files lax.baseline ≡ ok known
    → baseline_ids_of files strict.baseline ≡ ok known
    → evaluate files lax report ≡ ok r
    → evaluate files strict report ≡ ok r'
    → IsIn f r.blocking_findings
    → IsIn f r'.blocking_findings
evaluate-IsStricter files lax strict report known r r' f s lm sm ll sl lr sr m =
    let (inside, blocked) =
      (IsIn-keep (λ finding. blocks lax finding known) f report.findings).0
        (subst (IsIn f) (evaluated-blocks files lax report known r lm ll lr) m) in
    rw (evaluated-blocks files strict report known r' sm sl sr) (
      (IsIn-keep (λ finding. blocks strict finding known) f report.findings).1
        (inside, Blocks-IsStricter lax strict known f s blocked))
