-- ===== src/Core/Redaction/Window.antt =====
-- When the window of lines round a source location exists.
use session_scope.Common.{ℕ, ◌+◌, ◌<◌, ◌^◌, String, ◌≡◌, ◌↔◌, none, List, [], ◌∷◌, arith}
use session_scope.Common.Lists.{length}
use session_scope.Common.Text.{lines}
use session_scope.Core.Redaction.Excerpt.{line_context, window_of}

window_of-none_iff :
    (ls : List String) (n k : ℕ)
    → n + k < 2 ^ 64
    → (window_of ls n k ≡ none) ↔ ((0 < n) × (0 < length ls) × (length ls + k + 1 < n))
unfolding window_of
window_of-none_iff [] n k h = ground arith
window_of-none_iff (l ∷ ls) n k h = ground arith

-- Where the line number and the number of context lines add up to less than 2 ^ 64,
-- `line_context` panics exactly when the line number is not 0, the source has lines, and the line
-- number is greater than the number of lines and context lines and one together.
pub line_context_panics_iff :
    (source : String) (line_number context_lines : ℕ)
    → line_number + context_lines < 2 ^ 64
    → (line_context source line_number context_lines ≡ none) ↔ (
        (0 < line_number)
        × (0 < length (lines source))
        × (length (lines source) + context_lines + 1 < line_number))
unfolding line_context
line_context_panics_iff source n k h = ground (arith, window_of-none_iff (lines source) n k h)
