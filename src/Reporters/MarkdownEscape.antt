-- ===== src/Reporters/MarkdownEscape.antt =====
-- crates/sessionscope-reporters/src/markdown_escape.rs
pub mod Reader
pub mod Span
mod Tests
use Prim.Native.Char.{Char, code}
use session_scope.Common.{
  ℕ, zero, suc, ◌+◌, String, ◌<>◌, Bool, ◌||◌, List, [], ◌∷◌, map, eqb, ltb, if◌then◌else◌,
}
use session_scope.Common.Text.{trim, lines, join}

-- The arms of the `match` on a character.
unfoldable pub escape_html_char : Char → String
escape_html_char c =
    if eqb (code c) 38
    then "&amp;"
    else if eqb (code c) 60
    then "&lt;"
    else if eqb (code c) 62
    then "&gt;"
    else String.◌∷◌ c String.[]

-- `\`, `` ` ``, `*`, `_`, `{`, `}`, `[`, `]`, `(`, `)`, `#`, `!` and `|`.
abbrev pub is_markdown : ℕ → Bool
is_markdown n =
    eqb n 92
    || eqb n 96
    || eqb n 42
    || eqb n 95
    || eqb n 123
    || eqb n 125
    || eqb n 91
    || eqb n 93
    || eqb n 40
    || eqb n 41
    || eqb n 35
    || eqb n 33
    || eqb n 124

unfoldable pub escape_markdown_char : Char → String
unfolding escape_html_char
escape_markdown_char c =
    if is_markdown (code c) then "\\" <> String.◌∷◌ c String.[] else escape_html_char c

unfoldable pub escape_html : String → String
unfolding escape_html_char
escape_html String.[] = String.[]
escape_html (String.◌∷◌ c s) = escape_html_char c <> escape_html s

unfoldable pub escape_markdown_html : String → String
unfolding escape_markdown_char
escape_markdown_html String.[] = String.[]
escape_markdown_html (String.◌∷◌ c s) = escape_markdown_char c <> escape_markdown_html s

unfoldable pub inline_text : String → String
unfolding lines trim escape_markdown_html join
inline_text value = join "<br>" (map (λ line. escape_markdown_html (trim line)) (lines value))

unfoldable pub table_cell : String → String
unfolding inline_text
table_cell value = inline_text value

unfoldable pub inline_html_text : String → String
unfolding lines trim escape_html join
inline_html_text value = join "<br>" (map (λ line. escape_html (trim line)) (lines value))

-- `text.split(|ch| ch != '`').map(str::len)`: the runs of backticks, the first one apart.
unfoldable pub backtick_runs : String → ℕ × List ℕ
backtick_runs String.[] = (0, [])
backtick_runs (String.◌∷◌ c s) =
    let (h, t) = backtick_runs s in if eqb (code c) 96 then (suc h, t) else (0, h ∷ t)

abbrev pub larger : ℕ → ℕ → ℕ
larger m n = if ltb m n then n else m

abbrev pub largest : List ℕ → ℕ
largest [] = 0
largest (n ∷ ns) = larger n (largest ns)

unfoldable pub longest_backtick_run : String → ℕ
unfolding backtick_runs
longest_backtick_run text = let (h, t) = backtick_runs text in largest (h ∷ t)

-- `"`".repeat(n)`
unfoldable pub backticks : ℕ → String
backticks zero = ""
backticks (suc n) = "`" <> backticks n

abbrev pub starts_with_backtick : String → Bool
starts_with_backtick String.[] = Bool.false
starts_with_backtick (String.◌∷◌ c s) = eqb (code c) 96

abbrev pub ends_with_backtick : String → Bool
ends_with_backtick String.[] = Bool.false
ends_with_backtick (String.◌∷◌ c String.[]) = eqb (code c) 96
ends_with_backtick (String.◌∷◌ c (String.◌∷◌ d s)) = ends_with_backtick (String.◌∷◌ d s)

unfoldable pub code_span : String → String
unfolding inline_html_text longest_backtick_run backticks
code_span value =
    let text = inline_html_text value in
    let delimiter = backticks (longest_backtick_run text + 1) in
    if starts_with_backtick text || ends_with_backtick text
    then delimiter <> (" " <> (text <> (" " <> delimiter)))
    else delimiter <> (text <> delimiter)
