-- ===== src/Core/Baseline/Diff.antt =====
-- `diff_baseline` of baseline.rs: three passes that pair baseline and current findings.
use Prim.Native.String.{compare as compare_text}
use session_scope.Common.{
  ◌+◌, Ordering, compare, String, not, ◌&&◌, Option, none, some, List, [], ◌∷◌, ◌++◌, map, ◌==◌,
  string_eq, list_eq, if◌then◌else◌, contains, Eq, string_dec,
}
use session_scope.Common.Lists.{find}
use session_scope.Common.Sorting.{sort_by, then_with}
use session_scope.Common.Sets.{get, collect_map, push, insert}
use session_scope.Model.Evidence.{source_location_eq}
use session_scope.Model.Report.{ScanReport}
use session_scope.Model.Baseline.{
  Baseline, BaselineFinding, DiffChangeKind, DiffSummary, DiffFindingChange, DiffReport,
  diff_schema_version, change_rank,
}
use session_scope.Core.Redaction.Values.{Regexes, redact_sensitive_values}
use session_scope.Core.Baseline.Fingerprint.{create_baseline}

abbrev pub Key : Type 0
Key = String × String

unfoldable pub Key-discrete : Discrete Key
Key-discrete = hlevel string_dec

instance abbrev pub key_eq : Eq Key
key_eq = record { dec = Key-discrete }

unfoldable pub fingerprint_key : BaselineFinding → Key
fingerprint_key f = (f.semantic_fingerprint, f.evidence_fingerprint)

unfoldable pub sanitized_baseline : Regexes → Baseline → Baseline
sanitized_baseline rx baseline = record baseline {
  created_by = redact_sensitive_values rx baseline.created_by;
  findings =
      map (λ (f : BaselineFinding). record f { title = redact_sensitive_values rx f.title })
        baseline.findings;
}

abbrev matched_kind : BaselineFinding → BaselineFinding → DiffChangeKind
matched_kind baseline current =
    if baseline.semantic_fingerprint == current.semantic_fingerprint
      && baseline.evidence_fingerprint == current.evidence_fingerprint
    then if baseline.source_locations == current.source_locations
      then DiffChangeKind.unchanged
      else DiffChangeKind.moved
    else DiffChangeKind.changed

unfoldable pub compare_matched : BaselineFinding → BaselineFinding → DiffFindingChange
compare_matched baseline current = record {
  kind = matched_kind baseline current;
  baseline = some baseline;
  current = some current;
}

-- `current_by_fingerprint`: the current findings of each key, in their order.
unfoldable pub by_fingerprint :
    List (Key × List BaselineFinding) → List BaselineFinding → List (Key × List BaselineFinding)
unfolding push fingerprint_key
by_fingerprint m [] = m
by_fingerprint m (f ∷ fs) = by_fingerprint (push (fingerprint_key f) f m) fs

unfoldable pub by_id : List BaselineFinding → List (String × BaselineFinding)
unfolding collect_map
by_id fs = collect_map [] (map (λ f. (f.id, f)) fs)

unfoldable pub find_fingerprint_match :
    BaselineFinding → List (Key × List BaselineFinding) → List String → Option BaselineFinding
unfolding get fingerprint_key
find_fingerprint_match baseline groups matched_current =
    elim (get groups (fingerprint_key baseline)) [
      | none ↦ none
      | some findings ↦ find (λ current. not (contains matched_current current.id)) findings
    ]

pub record Progress : Type 0 where
  pub matched_baseline : List String
  pub matched_current : List String
  pub changes : List DiffFindingChange

abbrev pub start : Progress
start = record { matched_baseline = []; matched_current = []; changes = [] }

-- One pair found by either of the first two passes.
abbrev pub pair : BaselineFinding → BaselineFinding → DiffFindingChange → Progress → Progress
pair baseline current change s = record {
  matched_baseline = insert baseline.id s.matched_baseline;
  matched_current = insert current.id s.matched_current;
  changes = s.changes ++ change ∷ [];
}

abbrev pub moved : BaselineFinding → BaselineFinding → DiffFindingChange
moved baseline current = record {
  kind = DiffChangeKind.moved;
  baseline = some baseline;
  current = some current;
}

abbrev pub resolve : BaselineFinding → Progress → Progress
resolve baseline s = record s {
  matched_baseline = insert baseline.id s.matched_baseline;
  changes =
      s.changes
      ++ record { kind = DiffChangeKind.resolved; baseline = some baseline; current = none } ∷ [];
}

-- The first pass at one baseline finding, given the current finding of its id.
abbrev pub take_same : BaselineFinding → Option BaselineFinding → Progress → Progress
take_same b none s = s
take_same b (some c) s = pair b c (compare_matched b c) s

unfoldable pub match_by_id :
    List (String × BaselineFinding) → List BaselineFinding → Progress → Progress
unfolding get compare_matched
match_by_id current [] s = s
match_by_id current (b ∷ bs) s = match_by_id current bs (take_same b (get current b.id) s)

abbrev pub settle : BaselineFinding → Option BaselineFinding → Progress → Progress
settle b none s = resolve b s
settle b (some c) s = pair b c (moved b c) s

-- The second pass at one baseline finding.
unfoldable pub fingerprint_step :
    List (Key × List BaselineFinding) → BaselineFinding → Progress → Progress
unfolding find_fingerprint_match
fingerprint_step groups b s =
    if contains s.matched_baseline b.id
    then s
    else settle b (find_fingerprint_match b groups s.matched_current) s

unfoldable pub match_by_fingerprint :
    List (Key × List BaselineFinding) → List BaselineFinding → Progress → Progress
match_by_fingerprint groups [] s = s
match_by_fingerprint groups (b ∷ bs) s =
    match_by_fingerprint groups bs (fingerprint_step groups b s)

abbrev pub fresh : BaselineFinding → DiffFindingChange
fresh current = record { kind = DiffChangeKind.new; baseline = none; current = some current }

unfoldable pub add_new :
    List String → List BaselineFinding → List DiffFindingChange → List DiffFindingChange
add_new matched_current [] changes = changes
add_new matched_current (c ∷ cs) changes =
    add_new matched_current cs
      (if contains matched_current c.id then changes else changes ++ fresh c ∷ [])

abbrev pub id_of : Option BaselineFinding → Option BaselineFinding → String
id_of (some current) baseline = current.id
id_of none (some baseline) = baseline.id
id_of none none = ""

abbrev pub compare_change : DiffFindingChange → DiffFindingChange → Ordering
compare_change l r =
    then_with (compare (change_rank l.kind) (change_rank r.kind))
      (compare_text (id_of l.current l.baseline) (id_of r.current r.baseline))

unfoldable pub tally : DiffSummary → DiffChangeKind → DiffSummary
tally s DiffChangeKind.new = record s { new = s.new + 1 }
tally s DiffChangeKind.unchanged = record s { unchanged = s.unchanged + 1 }
tally s DiffChangeKind.changed = record s { changed = s.changed + 1 }
tally s DiffChangeKind.moved = record s { moved = s.moved + 1 }
tally s DiffChangeKind.resolved = record s { resolved = s.resolved + 1 }

unfoldable pub summarize_onto : DiffSummary → List DiffFindingChange → DiffSummary
unfolding tally
summarize_onto s [] = s
summarize_onto s (c ∷ cs) = summarize_onto (tally s c.kind) cs

abbrev pub no_changes : DiffSummary
no_changes = record { new = 0; unchanged = 0; changed = 0; moved = 0; resolved = 0 }

unfoldable pub summarize : List DiffFindingChange → DiffSummary
unfolding summarize_onto
summarize = summarize_onto no_changes

-- The three passes over the findings of both sides.
unfoldable pub diff_findings : List BaselineFinding → List BaselineFinding → List DiffFindingChange
unfolding match_by_id match_by_fingerprint fingerprint_step add_new by_id by_fingerprint
diff_findings baseline current =
    let s = match_by_id (by_id current) baseline start in
    let s = match_by_fingerprint (by_fingerprint [] current) baseline s in
    add_new s.matched_current current s.changes

unfoldable pub diff_baseline : Regexes → Baseline → ScanReport → DiffReport
unfolding sanitized_baseline create_baseline diff_findings sort_by summarize
diff_baseline rx baseline current_report =
    let baseline = sanitized_baseline rx baseline in
    let current_baseline = create_baseline rx current_report baseline.created_by in
    let changes =
      sort_by compare_change (diff_findings baseline.findings current_baseline.findings) in
    record {
      schema_version = diff_schema_version;
      baseline_schema_version = baseline.schema_version;
      current_report_schema_version = current_report.schema_version;
      summary = summarize changes;
      changes = changes;
    }
