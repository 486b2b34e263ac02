-- ===== src/Core/Baseline/SelfDiff.antt =====
-- The diff of a report and the baseline that was made of it.
use mathlib.Core.Option.{some-injective}
use session_scope.Common.{
  ℕ, String, ◌≡◌, refl, sym, ◌∙◌, ap, subst, true, false, ◌||◌, Option, none, some, List, [], ◌∷◌,
  map, arith, ◌==◌, string_eq, list_eq, eq_self, contains, inl, inr, length,
}
use session_scope.Common.Lists.{All, All-append, All-IsIn, IsIn-All, IsIn}
use session_scope.Common.Sorting.{All-sort_by}
use session_scope.Common.Sets.{get, get-collect_map, NodupKeys, contains-insert}
use session_scope.Model.Evidence.{source_location_eq}
use session_scope.Model.Report.{ScanReport}
use session_scope.Model.Baseline.{
  Baseline, BaselineFinding, DiffFindingChange, DiffChangeKind, DiffReport, DiffSummary,
}
use session_scope.Core.Redaction.Values.{Regexes, redact_sensitive_values}
use session_scope.Core.Baseline.Fingerprint.{create_baseline}
use session_scope.Core.Baseline.Diff.{
  Key, Progress, start, take_same, match_by_id, match_by_fingerprint, fingerprint_step, add_new,
  by_id, by_fingerprint, compare_matched, diff_findings, diff_baseline, compare_change,
  sanitized_baseline, tally, summarize_onto, summarize, no_changes,
}
use session_scope.Core.Baseline.Partition.{Distinct}
use session_scope.Core.Baseline.Summary.{old_count}
use session_scope.Core.Baseline.Whole.{
  HasDistinctIds, create_baseline-Distinct, create_baseline-length, diff_baseline-counts,
}

abbrev pub IsUnchanged : DiffFindingChange → Type 0
IsUnchanged c = c.kind ≡ DiffChangeKind.unchanged

abbrev by_id_pairs : List BaselineFinding → List (String × BaselineFinding)
by_id_pairs = map (λ (f : BaselineFinding). (f.id, f))

-- The map of findings with distinct ids has each of them under its id.
NodupKeys-Distinct : (fs : List BaselineFinding) → Distinct fs → NodupKeys (by_id_pairs fs)
unfolding get
NodupKeys-Distinct [] d = tt
NodupKeys-Distinct (f ∷ fs) d = (absent f.id fs d.0, NodupKeys-Distinct fs d.1)
  where
    absent :
        (k : String) (gs : List BaselineFinding)
        → All (λ (g : BaselineFinding). (g.id == k) ≡ false) gs
        → get (by_id_pairs gs) k ≡ none
    absent k [] a = refl
    absent k (g ∷ gs) a = rw a.0 (absent k gs a.1)

get-IsIn :
    (f : BaselineFinding) (fs : List BaselineFinding)
    → Distinct fs
    → IsIn f fs
    → get (by_id_pairs fs) f.id ≡ some f
unfolding get
get-IsIn f [] d m = elim m [ ]
get-IsIn f (g ∷ gs) d (inl e) = ground (arith, e, eq_self f.id)
get-IsIn f (g ∷ gs) d (inr m) =
    let apart = All-IsIn (λ (x : BaselineFinding). (x.id == g.id) ≡ false) f gs d.0 m in
    ground (arith, get-IsIn f gs d.1 m)

module _ (rx : Regexes) where
  abbrev retitle : BaselineFinding → BaselineFinding
  retitle f = record f { title = redact_sensitive_values rx f.title }

  compare_matched-retitle : (f : BaselineFinding) → IsUnchanged (compare_matched (retitle f) f)
  unfolding compare_matched
  compare_matched-retitle f =
      rw
        (eq_self f.semantic_fingerprint, eq_self f.evidence_fingerprint, eq_self f.source_locations)
        refl

  -- What the first pass must have done: only unchanged pairs, and all of these ids marked.
  record IsSettled (s : Progress) : Type 0 where
    changes : All IsUnchanged s.changes
    sides : (k : String) → contains s.matched_baseline k ≡ contains s.matched_current k

  take_same-IsSettled :
      (f : BaselineFinding) (o : Option BaselineFinding) (s : Progress)
      → o ≡ some f
      → IsSettled s
      → IsSettled (take_same (retitle f) o s)
  take_same-IsSettled f none s e h = absurd (cc e)
  take_same-IsSettled f (some g) s e h =
      let same : g ≡ f = some-injective g f e in
      record {
        changes = All-append IsUnchanged s.changes _ h.changes (
          subst (λ (c : BaselineFinding). IsUnchanged (compare_matched (retitle f) c)) (sym same)
              (compare_matched-retitle f),
          tt,
        );
        sides = λ k. ground (
          arith,
          contains-insert f.id k s.matched_baseline,
          contains-insert g.id k s.matched_current,
          h.sides k,
          ap (λ (x : BaselineFinding). x.id) same,
        );
      }

  match_by_id-IsSettled :
      (fs : List BaselineFinding) (current : List (String × BaselineFinding)) (s : Progress)
      → All (λ (f : BaselineFinding). get current f.id ≡ some f) fs
      → IsSettled s
      → IsSettled (match_by_id current (map retitle fs) s)
  unfolding match_by_id
  match_by_id-IsSettled [] current s a h = h
  match_by_id-IsSettled (f ∷ fs) current s a h =
      match_by_id-IsSettled fs current _ a.1 (take_same-IsSettled f (get current f.id) s a.0 h)

  take_same-marks :
      (f : BaselineFinding) (o : Option BaselineFinding) (s : Progress) (k : String)
      → o ≡ some f
      → contains (take_same (retitle f) o s).matched_baseline k
        ≡ (f.id == k || contains s.matched_baseline k)
  take_same-marks f none s k e = absurd (cc e)
  take_same-marks f (some g) s k e = contains-insert f.id k s.matched_baseline

  match_by_id-keeps :
      (fs : List BaselineFinding) (current : List (String × BaselineFinding)) (s : Progress)
      (k : String)
      → All (λ (f : BaselineFinding). get current f.id ≡ some f) fs
      → contains s.matched_baseline k ≡ true
      → contains (match_by_id current (map retitle fs) s).matched_baseline k ≡ true
  unfolding match_by_id
  match_by_id-keeps [] current s k a h = h
  match_by_id-keeps (f ∷ fs) current s k a h =
      match_by_id-keeps fs current (take_same (retitle f) (get current f.id) s) k a.1
        (ground (arith, take_same-marks f (get current f.id) s k a.0))

  match_by_id-marks :
      (fs : List BaselineFinding) (current : List (String × BaselineFinding)) (s : Progress)
      → All (λ (f : BaselineFinding). get current f.id ≡ some f) fs
      → All
          (λ (f : BaselineFinding).
            contains (match_by_id current (map retitle fs) s).matched_baseline f.id ≡ true)
          fs
  unfolding match_by_id
  match_by_id-marks [] current s a = tt
  match_by_id-marks (f ∷ fs) current s a = (
    match_by_id-keeps fs current (take_same (retitle f) (get current f.id) s) f.id a.1
        (ground (arith, take_same-marks f (get current f.id) s f.id a.0, eq_self f.id)),
    match_by_id-marks fs current (take_same (retitle f) (get current f.id) s) a.1,
  )

  -- The other passes have nothing to do at findings that are marked.
  match_by_fingerprint-marked :
      (groups : List (Key × List BaselineFinding)) (fs : List BaselineFinding) (s : Progress)
      → All (λ (f : BaselineFinding). contains s.matched_baseline f.id ≡ true) fs
      → match_by_fingerprint groups (map retitle fs) s ≡ s
  unfolding match_by_fingerprint fingerprint_step
  match_by_fingerprint-marked groups [] s a = refl
  match_by_fingerprint-marked groups (f ∷ fs) s a =
      ap (match_by_fingerprint groups (map retitle fs)) (rw a.0 refl)
      ∙ match_by_fingerprint-marked groups fs s a.1

  add_new-marked :
      (seen : List String) (fs : List BaselineFinding) (changes : List DiffFindingChange)
      → All (λ (f : BaselineFinding). contains seen f.id ≡ true) fs
      → add_new seen fs changes ≡ changes
  unfolding add_new
  add_new-marked seen [] changes a = refl
  add_new-marked seen (f ∷ fs) changes a =
      ap (add_new seen fs) (rw a.0 refl) ∙ add_new-marked seen fs changes a.1

  found_each :
      (fs : List BaselineFinding)
      → Distinct fs
      → All (λ (f : BaselineFinding). get (by_id fs) f.id ≡ some f) fs
  unfolding by_id
  found_each fs d = IsIn-All _ fs (λ f m.
      get-collect_map [] (by_id_pairs fs) f.id f (NodupKeys-Distinct fs d) (get-IsIn f fs d m))

  diff_findings-same :
      (fs : List BaselineFinding)
      → Distinct fs
      → All IsUnchanged (diff_findings (map retitle fs) fs)
  unfolding diff_findings
  diff_findings-same fs d =
      let found = found_each fs d in
      let s = match_by_id (by_id fs) (map retitle fs) start in
      let settled =
        match_by_id-IsSettled fs (by_id fs) start found
          (record { changes = tt; sides = λ k. refl }) in
      let marks = match_by_id-marks fs (by_id fs) start found in
      let idle = match_by_fingerprint-marked (by_fingerprint [] fs) fs s marks in
      let seen : All (λ (f : BaselineFinding). contains s.matched_current f.id ≡ true) fs =
        IsIn-All _ fs (λ f m. sym (settled.sides f.id) ∙ All-IsIn _ f fs marks m) in
      subst (λ (t : Progress). All IsUnchanged (add_new t.matched_current fs t.changes)) (sym idle)
        (subst (All IsUnchanged) (sym (add_new-marked s.matched_current fs s.changes seen))
          settled.changes)

-- The counts that unchanged findings leave at zero.
abbrev IsQuiet : DiffSummary → Type 0
IsQuiet s = (s.new ≡ 0) × (s.changed ≡ 0) × (s.moved ≡ 0) × (s.resolved ≡ 0)

tally-IsQuiet :
    (s : DiffSummary) (k : DiffChangeKind)
    → k ≡ DiffChangeKind.unchanged
    → IsQuiet s
    → IsQuiet (tally s k)
unfolding tally
tally-IsQuiet s k e q = rw e q

summarize_onto-IsQuiet :
    (s : DiffSummary) (cs : List DiffFindingChange)
    → All IsUnchanged cs
    → IsQuiet s
    → IsQuiet (summarize_onto s cs)
unfolding summarize_onto
summarize_onto-IsQuiet s [] h q = q
summarize_onto-IsQuiet s (c ∷ cs) h q =
    summarize_onto-IsQuiet (tally s c.kind) cs h.1 (tally-IsQuiet s c.kind h.0 q)

summary_eq :
    (n u c m r v : ℕ)
    → n ≡ 0
    → u ≡ v
    → c ≡ 0
    → m ≡ 0
    → r ≡ 0
    → Path DiffSummary
        (record { new = n; unchanged = u; changed = c; moved = m; resolved = r })
        (record { new = 0; unchanged = v; changed = 0; moved = 0; resolved = 0 })
summary_eq n u c m r v en eu ec em er = rw (en, eu, ec, em, er) refl

unchanged_only :
    (s : DiffSummary) (n : ℕ)
    → IsQuiet s
    → old_count s ≡ n
    → s ≡ record { new = 0; unchanged = n; changed = 0; moved = 0; resolved = 0 }
unchanged_only s n (en, ec, em, er) h =
    let u : s.unchanged ≡ n = omega arith in
    summary_eq s.new s.unchanged s.changed s.moved s.resolved n en u ec em er

module _ (rx : Regexes) (report : ScanReport) (by : String) (d : HasDistinctIds report) where
  abbrev made : Baseline
  made = create_baseline rx report by

  abbrev self_diff : DiffReport
  self_diff = diff_baseline rx made report

  self_diff-IsUnchanged : All IsUnchanged self_diff.changes
  unfolding diff_baseline create_baseline sanitized_baseline
  self_diff-IsUnchanged =
      All-sort_by IsUnchanged compare_change _
        (diff_findings-same rx made.findings (create_baseline-Distinct rx report by d))

  self_diff-IsQuiet : IsQuiet self_diff.summary
  unfolding diff_baseline summarize
  self_diff-IsQuiet =
      summarize_onto-IsQuiet no_changes self_diff.changes self_diff-IsUnchanged
        (refl, refl, refl, refl)

-- Where the findings of a report have different ids, the diff of the report against the baseline
-- created of it has only unchanged changes, and its summary counts each finding of the report as
-- unchanged and nothing else.
pub diff_baseline-create_baseline :
    (rx : Regexes) (report : ScanReport) (by : String)
    → HasDistinctIds report
    → All IsUnchanged (diff_baseline rx (create_baseline rx report by) report).changes
      × ((diff_baseline rx (create_baseline rx report by) report).summary ≡ record {
        new = 0;
        unchanged = length report.findings;
        changed = 0;
        moved = 0;
        resolved = 0;
      })
diff_baseline-create_baseline rx report by d =
    let baseline = create_baseline rx report by in
    let counts =
      diff_baseline-counts rx baseline report (create_baseline-Distinct rx report by d) d in
    (
      self_diff-IsUnchanged rx report by d,
      unchanged_only _ _ (self_diff-IsQuiet rx report by d)
          (counts.0 ∙ create_baseline-length rx report by),
    )
