-- ===== src/Cli/Enforcement/Outcome.antt =====
-- What `evaluate` returns on every branch, errors included.
use session_scope.Common.{
  String, ◌<>◌, ◌≡◌, ◌↔◌, ◌⊎◌, refl, sym, ap, ◌∙◌, inl, inr, Option, none, some, List, [], ◌∷◌,
  arith, Bool-cases, Option-cases, if◌then◌else◌, ◌==◌,
}
use session_scope.Common.Lists.{keep}
use session_scope.Common.Result.{Result, ok, err, ok-injective, err_unique, Result-cases}
use session_scope.Model.Finding.{Finding}
use session_scope.Model.Report.{ScanReport}
use session_scope.Cli.Enforcement.{
  PolicyMode, PolicyMode-discrete, policy_mode_eq, EnforcementOptions, EnforcementResult, Files,
  load_baseline_ids, baseline_ids_of, blocks, evaluate,
}
use session_scope.Cli.Enforcement.Policy.{Blocks, blocks-Blocks, Blocks-blocks}

-- The baseline has these ids: none where there is none, or those of a file that is read and parsed.
abbrev pub Loads : Files → Option String → List String → Type 0
Loads files none known = known ≡ []
Loads files (some path) known =
    (contents : String) × (files.read_to_string path ≡ ok contents)
    × (files.parse_baseline contents ≡ some known)

-- The baseline cannot be had: its file is not read, or is read and does not parse.
abbrev pub Fails : Files → Option String → String → Type 0
Fails files none message = ⊥
Fails files (some path) message =
    ((why : String) × (files.read_to_string path ≡ err why)
      × (message ≡ "failed to read baseline " <> (path <> (": " <> why))))
    ⊎ ((contents : String) × (files.read_to_string path ≡ ok contents)
        × (files.parse_baseline contents ≡ none)
        × (message ≡ "failed to parse baseline " <> (path <> " as JSON report")))

-- The second list has the elements of the first that satisfy the property, in their order.
abbrev pub Selects : {A : Type 0} → (A → Type 0) → List A → List A → Type 0
Selects {A} P [] ys = ys ≡ []
Selects {A} P (x ∷ xs) ys =
    (P x × ((zs : List A) × (ys ≡ x ∷ zs) × Selects P xs zs)) ⊎ ((¬ P x) × Selects P xs ys)

-- Nothing in advisory mode, and in enforce mode the findings that the rules block.
abbrev pub Chooses :
    PolicyMode → EnforcementOptions → List String → List Finding → List Finding → Type 0
Chooses PolicyMode.advisory o known findings blocking = blocking ≡ []
Chooses PolicyMode.enforce o known findings blocking = Selects (Blocks o known) findings blocking

abbrev pub Outcome : Files → EnforcementOptions → ScanReport → Result EnforcementResult → Type 0
Outcome files o report (err message) = Fails files o.baseline message
Outcome files o report (ok r) =
    (known : List String) × Loads files o.baseline known
    × Chooses o.mode o known report.findings r.blocking_findings

module _ (files : Files) (path : String) where
  load_unread :
      (why : String)
      → files.read_to_string path ≡ err why
      → load_baseline_ids files path ≡ err ("failed to read baseline " <> (path <> (": " <> why)))
  unfolding load_baseline_ids
  load_unread why unread = rw (unread, load_baseline_ids) refl

  load_unparsed :
      (contents : String)
      → files.read_to_string path ≡ ok contents
      → files.parse_baseline contents ≡ none
      → load_baseline_ids files path
        ≡ err ("failed to parse baseline " <> (path <> " as JSON report"))
  unfolding load_baseline_ids
  load_unparsed contents read bad = rw (read, bad, load_baseline_ids) refl

  load_parsed :
      (contents : String) (ids : List String)
      → files.read_to_string path ≡ ok contents
      → files.parse_baseline contents ≡ some ids
      → load_baseline_ids files path ≡ ok ids
  unfolding load_baseline_ids
  load_parsed contents ids read parsed = rw (read, parsed, load_baseline_ids) refl

  Loads-load_baseline_ids :
      (known : List String)
      → load_baseline_ids files path ≡ ok known
      → Loads files (some path) known
  Loads-load_baseline_ids known h = elim (Result-cases (files.read_to_string path)) [
    | inl (why, unread) ↦ ground (arith, load_unread why unread)
    | inr (contents, read) ↦ elim (Option-cases (files.parse_baseline contents)) [
      | inl bad ↦ ground (arith, load_unparsed contents read bad)
      | inr (ids, parsed) ↦ (
        contents,
        read,
        cc (parsed, ok-injective ids known (sym (load_parsed contents ids read parsed) ∙ h)),
      )
    ]
  ]

  Fails-load_baseline_ids :
      (message : String)
      → load_baseline_ids files path ≡ err message
      → Fails files (some path) message
  Fails-load_baseline_ids message h = elim (Result-cases (files.read_to_string path)) [
    | inl (why, unread) ↦ inl (why, unread, err_unique _ _ _ h (load_unread why unread))
    | inr (contents, read) ↦ elim (Option-cases (files.parse_baseline contents)) [
      | inl bad ↦ inr (contents, read, bad, err_unique _ _ _ h (load_unparsed contents read bad))
      | inr (ids, parsed) ↦ ground (arith, load_parsed contents ids read parsed)
    ]
  ]

module _ (files : Files) where
  Loads-baseline_ids_of :
      (b : Option String) (known : List String)
      → (baseline_ids_of files b ≡ ok known) ↔ Loads files b known
  unfolding baseline_ids_of
  Loads-baseline_ids_of none known = (λ h. sym (ok-injective [] known h), λ l. ap ok (sym l))
  Loads-baseline_ids_of (some path) known =
      (Loads-load_baseline_ids files path known, λ l. load_parsed files path l.0 known l.1 l.2)

  Fails-baseline_ids_of :
      (b : Option String) (message : String)
      → (baseline_ids_of files b ≡ err message) ↔ Fails files b message
  unfolding baseline_ids_of
  Fails-baseline_ids_of none message = (λ h. ground arith, λ f. elim f [ ])
  Fails-baseline_ids_of (some path) message = (
    Fails-load_baseline_ids files path message,
    λ f. elim f [
      | inl (why, unread, text) ↦ load_unread files path why unread ∙ ap err (sym text)
      | inr (contents, read, bad, text) ↦
          load_unparsed files path contents read bad ∙ ap err (sym text)
    ],
  )

module _ (o : EnforcementOptions) (known : List String) where
  Selects-keep :
      (fs gs : List Finding)
      → (keep (λ f. blocks o f known) fs ≡ gs) ↔ Selects (Blocks o known) fs gs
  Selects-keep [] gs = (sym, sym)
  Selects-keep (f ∷ fs) gs = elim (Bool-cases (blocks o f known)) [
    | inl blocked ↦ rw blocked (
      λ h. inl (blocks-Blocks o known f blocked, (_, sym h, (Selects-keep fs _).0 refl)),
      λ s. elim s [
        | inl (b, (zs, e, rest)) ↦ ap (λ l. f ∷ l) ((Selects-keep fs zs).1 rest) ∙ sym e
        | inr (n, rest) ↦ absurd (n (blocks-Blocks o known f blocked))
      ],
    )
    | inr passed ↦ rw passed (
      λ h. inr (λ b. cc (Blocks-blocks o known f b, passed), (Selects-keep fs gs).0 h),
      λ s. elim s [
        | inl (b, rest) ↦ absurd (cc (Blocks-blocks o known f b, passed))
        | inr (n, rest) ↦ (Selects-keep fs gs).1 rest
      ],
    )
  ]

-- The findings of the result, by the mode.
Chooses-evaluate :
    (m : PolicyMode) (o : EnforcementOptions) (known : List String) (fs gs : List Finding)
    → ((if m == PolicyMode.advisory then [] else keep (λ f. blocks o f known) fs) ≡ gs)
      ↔ Chooses m o known fs gs
unfolding PolicyMode-discrete
Chooses-evaluate PolicyMode.advisory o known fs gs = (sym, sym)
Chooses-evaluate PolicyMode.enforce o known fs gs = Selects-keep o known fs gs

evaluate_loaded :
    (files : Files) (o : EnforcementOptions) (report : ScanReport) (known : List String)
    → baseline_ids_of files o.baseline ≡ ok known
    → evaluate files o report
      ≡ ok (record {
        blocking_findings =
            if o.mode == PolicyMode.advisory
            then []
            else keep (λ f. blocks o f known) report.findings;
      })
unfolding evaluate
evaluate_loaded files o report known loaded =
    rw loaded
      (elim (Bool-cases (o.mode == PolicyMode.advisory)) [ inl h ↦ rw h refl | inr h ↦ rw h refl ])

evaluate_failed :
    (files : Files) (o : EnforcementOptions) (report : ScanReport) (message : String)
    → baseline_ids_of files o.baseline ≡ err message
    → evaluate files o report ≡ err message
unfolding evaluate
evaluate_failed files o report message failed = rw failed refl

-- `evaluate` fails with a message exactly when, in either mode, a baseline is named whose file is
-- not read, or is read and does not parse, the message being the one of that case; and it returns
-- a result exactly when no baseline is named or its file is read and parses, and the blocking
-- findings are none in advisory mode, and in enforce mode those findings of the report that the
-- rules block, in their order.
pub evaluate-Outcome_iff :
    (files : Files) (o : EnforcementOptions) (report : ScanReport) (e : Result EnforcementResult)
    → (evaluate files o report ≡ e) ↔ Outcome files o report e
evaluate-Outcome_iff files o report (err message) = (
  λ h. elim (Result-cases (baseline_ids_of files o.baseline)) [
    | inl (m, failed) ↦
        (Fails-baseline_ids_of files o.baseline message).0
          (failed ∙ ap err (err_unique _ m message (evaluate_failed files o report m failed) h))
    | inr (known, loaded) ↦ ground (arith, evaluate_loaded files o report known loaded)
  ],
  λ f.
      evaluate_failed files o report message ((Fails-baseline_ids_of files o.baseline message).1 f),
)
evaluate-Outcome_iff files o report (ok r) = (
  λ h. elim (Result-cases (baseline_ids_of files o.baseline)) [
    | inl (m, failed) ↦ ground (arith, evaluate_failed files o report m failed)
    | inr (known, loaded) ↦ (
      known,
      (Loads-baseline_ids_of files o.baseline known).0 loaded,
      (Chooses-evaluate o.mode o known report.findings r.blocking_findings).0 (
          ap (λ (q : EnforcementResult). q.blocking_findings)
            (ok-injective _ r (sym (evaluate_loaded files o report known loaded) ∙ h))),
    )
  ],
  λ c.
      evaluate_loaded files o report c.0 ((Loads-baseline_ids_of files o.baseline c.0).1 c.1)
      ∙ ap (λ gs. ok (record { blocking_findings = gs }))
          ((Chooses-evaluate o.mode o c.0 report.findings r.blocking_findings).1 c.2),
)
