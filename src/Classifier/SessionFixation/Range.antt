-- ===== src/Classifier/SessionFixation/Range.antt =====
-- The regenerations that `has_nearby_regeneration` accepts.
use session_scope.Common.{
  ℕ, ◌+◌, ◌≤◌, ◌<◌, ◌≡◌, true, false, ◌&&◌, Option, none, some, List, ◌==◌, string_eq,
}
use session_scope.Common.Lists.{All}
use session_scope.Classifier.SessionFixation.Records.{FixationRecord, link_distance, same_scope}
use session_scope.Classifier.SessionFixation.Regeneration.{transition_line_in}

abbrev Before : ℕ → Option ℕ → Type 0
Before n none = Unit
Before n (some m) = n < m

abbrev pub Holds : (ℕ → Type 0) → Option ℕ → Type 0
Holds P none = Unit
Holds P (some n) = P n

-- A regeneration `r` that counts for the transition `t` at a line.
abbrev pub Covers : FixationRecord → ℕ → List FixationRecord → FixationRecord → ℕ → Type 0
Covers t line transitions r at =
    (r.evidence.location.line ≡ some at)
    × (r.evidence.location.path ≡ t.evidence.location.path)
    × (same_scope t r ≡ true)
    × ((t.evidence.detector_id == "session.privilege_transition" && r.evidence.framework_default)
        ≡ false)
    × (at ≤ line + link_distance)
    × (line ≤ at + link_distance)
    × All (λ t'. Holds (λ l. line < l → at < l) (transition_line_in t t')) transitions

-- The tests of a regeneration but for the lines.
abbrev Related : FixationRecord → FixationRecord → Type 0
Related t r =
    (r.evidence.location.path ≡ t.evidence.location.path)
    × (same_scope t r ≡ true)
    × ((t.evidence.detector_id == "session.privilege_transition" && r.evidence.framework_default)
        ≡ false)
