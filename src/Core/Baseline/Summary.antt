-- ===== src/Core/Baseline/Summary.antt =====
-- The diff of a baseline and a report as a whole: its changes and its counts.
use mathlib.Core.List.{filter_map}
use session_scope.Common.{
  ℕ, ◌+◌, String, ◌≡◌, ◌∙◌, Option, none, some, List, [], ◌∷◌, arith, string_eq, contains,
  Bool-cases, inl, inr, length,
}
use session_scope.Common.Lists.{All, All-append}
use session_scope.Common.Sets.{get}
use session_scope.Model.Baseline.{BaselineFinding, DiffFindingChange, DiffChangeKind, DiffSummary}
use session_scope.Core.Baseline.Diff.{
  Key, Progress, start, take_same, settle, match_by_id, match_by_fingerprint, fingerprint_step,
  add_new, by_id, compare_matched, diff_findings, summarize_onto, tally,
}
use session_scope.Core.Baseline.Partition.{baselines, currents}

-- Which sides a change of each kind has.
abbrev pub Sides : DiffChangeKind → Option BaselineFinding → Option BaselineFinding → Type 0
Sides DiffChangeKind.new none (some c) = Unit
Sides DiffChangeKind.resolved (some b) none = Unit
Sides DiffChangeKind.unchanged (some b) (some c) = Unit
Sides DiffChangeKind.changed (some b) (some c) = Unit
Sides DiffChangeKind.moved (some b) (some c) = Unit
Sides _ _ _ = ⊥

abbrev pub IsShaped : DiffFindingChange → Type 0
IsShaped c = Sides c.kind c.baseline c.current

compare_matched-IsShaped : (b c : BaselineFinding) → IsShaped (compare_matched b c)
unfolding compare_matched
compare_matched-IsShaped b c = ground arith

take_same-IsShaped :
    (b : BaselineFinding) (o : Option BaselineFinding) (s : Progress)
    → All IsShaped s.changes
    → All IsShaped (take_same b o s).changes
take_same-IsShaped b none s h = h
take_same-IsShaped b (some c) s h =
    All-append IsShaped s.changes _ h (compare_matched-IsShaped b c, tt)

match_by_id-IsShaped :
    (current : List (String × BaselineFinding)) (bs : List BaselineFinding) (s : Progress)
    → All IsShaped s.changes
    → All IsShaped (match_by_id current bs s).changes
unfolding match_by_id
match_by_id-IsShaped current [] s h = h
match_by_id-IsShaped current (b ∷ bs) s h =
    match_by_id-IsShaped current bs _ (take_same-IsShaped b (get current b.id) s h)

settle-IsShaped :
    (b : BaselineFinding) (o : Option BaselineFinding) (s : Progress)
    → All IsShaped s.changes
    → All IsShaped (settle b o s).changes
settle-IsShaped b none s h = All-append IsShaped s.changes _ h (tt, tt)
settle-IsShaped b (some c) s h = All-append IsShaped s.changes _ h (tt, tt)

match_by_fingerprint-IsShaped :
    (groups : List (Key × List BaselineFinding)) (bs : List BaselineFinding) (s : Progress)
    → All IsShaped s.changes
    → All IsShaped (match_by_fingerprint groups bs s).changes
unfolding match_by_fingerprint fingerprint_step
match_by_fingerprint-IsShaped groups [] s h = h
match_by_fingerprint-IsShaped groups (b ∷ bs) s h =
    match_by_fingerprint-IsShaped groups bs _
      (elim (Bool-cases (contains s.matched_baseline b.id)) [
        | inl old ↦ rw old h
        | inr new ↦ rw new (settle-IsShaped b _ s h)
      ])

add_new-IsShaped :
    (seen : List String) (cs : List BaselineFinding) (changes : List DiffFindingChange)
    → All IsShaped changes
    → All IsShaped (add_new seen cs changes)
unfolding add_new
add_new-IsShaped seen [] changes h = h
add_new-IsShaped seen (c ∷ cs) changes h =
    add_new-IsShaped seen cs _ (elim (Bool-cases (contains seen c.id)) [
      | inl old ↦ rw old h
      | inr new ↦ rw new (All-append IsShaped changes _ h (tt, tt))
    ])

pub diff_findings-IsShaped : (bs cs : List BaselineFinding) → All IsShaped (diff_findings bs cs)
unfolding diff_findings
diff_findings-IsShaped bs cs =
    add_new-IsShaped _ cs _
      (match_by_fingerprint-IsShaped _ bs _ (match_by_id-IsShaped (by_id cs) bs start tt))

-- The counts of a summary that have a baseline finding, and those that have a current one.
abbrev pub old_count : DiffSummary → ℕ
old_count s = s.unchanged + s.changed + s.moved + s.resolved

abbrev pub current_count : DiffSummary → ℕ
current_count s = s.new + s.unchanged + s.changed + s.moved

tally_step :
    (s : DiffSummary) (k : DiffChangeKind) (b c : Option BaselineFinding)
    (cs : List DiffFindingChange)
    → Sides k b c
    → (old_count (tally s k) + length (baselines cs)
        ≡ old_count s + length (baselines (record { kind = k; baseline = b; current = c } ∷ cs)))
      × (current_count (tally s k) + length (currents cs)
          ≡ current_count s
            + length (currents (record { kind = k; baseline = b; current = c } ∷ cs)))
unfolding tally filter_map
tally_step s DiffChangeKind.new none none cs h = elim h [ ]
tally_step s DiffChangeKind.new none (some c) cs h = (omega arith, omega arith)
tally_step s DiffChangeKind.new (some b) c cs h = elim h [ ]
tally_step s DiffChangeKind.unchanged none c cs h = elim h [ ]
tally_step s DiffChangeKind.unchanged (some b) none cs h = elim h [ ]
tally_step s DiffChangeKind.unchanged (some b) (some c) cs h = (omega arith, omega arith)
tally_step s DiffChangeKind.changed none c cs h = elim h [ ]
tally_step s DiffChangeKind.changed (some b) none cs h = elim h [ ]
tally_step s DiffChangeKind.changed (some b) (some c) cs h = (omega arith, omega arith)
tally_step s DiffChangeKind.moved none c cs h = elim h [ ]
tally_step s DiffChangeKind.moved (some b) none cs h = elim h [ ]
tally_step s DiffChangeKind.moved (some b) (some c) cs h = (omega arith, omega arith)
tally_step s DiffChangeKind.resolved none c cs h = elim h [ ]
tally_step s DiffChangeKind.resolved (some b) none cs h = (omega arith, omega arith)
tally_step s DiffChangeKind.resolved (some b) (some c) cs h = elim h [ ]

pub summarize_onto-counts :
    (s : DiffSummary) (cs : List DiffFindingChange)
    → All IsShaped cs
    → (old_count (summarize_onto s cs) ≡ old_count s + length (baselines cs))
      × (current_count (summarize_onto s cs) ≡ current_count s + length (currents cs))
unfolding summarize_onto filter_map
summarize_onto-counts s [] h = (omega arith, omega arith)
summarize_onto-counts s (c ∷ cs) h =
    let rest = summarize_onto-counts (tally s c.kind) cs h.1 in
    let step = tally_step s c.kind c.baseline c.current cs h.0 in (rest.0 ∙ step.0, rest.1 ∙ step.1)
