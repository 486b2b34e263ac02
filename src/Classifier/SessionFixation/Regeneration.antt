-- ===== src/Classifier/SessionFixation/Regeneration.antt =====
-- `has_nearby_regeneration`: the lines after a transition in which a regeneration counts.
use session_scope.Common.{
  ℕ, zero, suc, ◌+◌, Bool, false, ◌&&◌, not, Option, none, some, List, [], ◌∷◌, ◌==◌, string_eq,
  ltb, leb, if◌then◌else◌, min,
}
use session_scope.Common.Lists.{any, keep, collect}
use session_scope.Classifier.SessionFixation.Records.{
  FixationRecord, link_distance, same_scope, abs_diff,
}

-- The lines of the transitions in the path and the scope of one of them.
abbrev pub transition_line_in : FixationRecord → FixationRecord → Option ℕ
transition_line_in transition r =
    if r.evidence.location.path == transition.evidence.location.path && same_scope transition r
    then r.evidence.location.line
    else none

-- `Iterator::min`.
unfoldable pub min_of : List ℕ → Option ℕ
min_of [] = none
min_of (n ∷ ns) = elim (min_of ns) [ none ↦ some n | some m ↦ some (min n m) ]

unfoldable pub next_transition_line : FixationRecord → ℕ → List FixationRecord → Option ℕ
unfolding min_of same_scope
next_transition_line transition line transitions =
    min_of (keep (ltb line) (collect (transition_line_in transition) transitions))

-- `checked_sub(1)`, or the distance from the transition, and never more than that.
-- A line is far below `usize::MAX`, so that adding the distance does not overflow.
abbrev pub last_line : ℕ → Option ℕ → ℕ
last_line line none = min (line + link_distance) (line + link_distance)
last_line line (some zero) = min (line + link_distance) (line + link_distance)
last_line line (some (suc n)) = min n (line + link_distance)

abbrev pub in_lines : Option ℕ → Option ℕ → ℕ → Bool
in_lines none r max_line = false
in_lines (some t) none max_line = false
in_lines (some t) (some r) max_line = leb r max_line && leb (abs_diff t r) link_distance

unfoldable pub regeneration_in_transition_range : FixationRecord → FixationRecord → ℕ → Bool
unfolding same_scope
regeneration_in_transition_range transition regeneration max_line =
    if not (
      transition.evidence.location.path == regeneration.evidence.location.path
      && same_scope transition regeneration)
    then false
    else if transition.evidence.detector_id == "session.privilege_transition"
        && regeneration.evidence.framework_default
    then false
    else in_lines transition.evidence.location.line regeneration.evidence.location.line max_line

unfoldable pub regenerated_from :
    FixationRecord → List FixationRecord → List FixationRecord → Option ℕ → Bool
unfolding next_transition_line regeneration_in_transition_range
regenerated_from transition regenerations transitions none = false
regenerated_from transition regenerations transitions (some line) =
    let max_line = last_line line (next_transition_line transition line transitions) in
    any (λ r. regeneration_in_transition_range transition r max_line) regenerations

unfoldable pub has_nearby_regeneration :
    FixationRecord → List FixationRecord → List FixationRecord → Bool
unfolding regenerated_from
has_nearby_regeneration transition regenerations transitions =
    regenerated_from transition regenerations transitions transition.evidence.location.line
