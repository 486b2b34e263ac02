-- ===== src/Reporters/MarkdownEscape/Tests.antt =====
-- Tests of markdown_escape.rs, and the theorems at concrete texts.
use session_scope.Common.{◌<>◌, ◌≡◌, ◌≢◌, refl, false, Option, some}
use session_scope.Reporters.MarkdownEscape.{
  table_cell, code_span, starts_with_backtick, ends_with_backtick,
}
use session_scope.Reporters.MarkdownEscape.Reader.{Place, read_text, table_cell-IsRead}
use session_scope.Reporters.MarkdownEscape.Span.{body_of, delimiter_of, code_span-IsClosed}

test_table_cell : table_cell " a|b\r\n<img> & [x](y)" ≡ "a\\|b<br>&lt;img&gt; &amp; \\[x\\]\\(y\\)"
unfolding table_cell
test_table_cell = refl

test_span : code_span "a``b" ≡ "```a``b```"
unfolding code_span
test_span = refl

test_padded_span : code_span "`<" ≡ "`` `&lt; ``"
unfolding code_span
test_padded_span = refl

test_unescaped : read_text Place.plain "a|b" ≡ Option.none
unfolding read_text
test_unescaped = refl

test_tag : read_text Place.plain "<img>" ≡ Option.none
unfolding read_text
test_tag = refl

table_cell-IsRead_example :
    read_text Place.plain (table_cell "a|b\n<img> & [x](y)") ≡ some Place.plain
table_cell-IsRead_example = table_cell-IsRead "a|b\n<img> & [x](y)"

code_span-IsClosed_example :
    (code_span "`a``" ≡ delimiter_of "`a``" <> (body_of "`a``" <> delimiter_of "`a``"))
    × (body_of "`a``" ≢ " `a`" <> (delimiter_of "`a``" <> " "))
    × (starts_with_backtick (body_of "`a``") ≡ false)
    × (ends_with_backtick (body_of "`a``") ≡ false)
code_span-IsClosed_example = code_span-IsClosed "`a``" " `a`" " "
