-- ===== src/Reporters/MarkdownEscape/Reader.antt =====
-- A reader of Markdown, to state what the escaping of markdown_escape.rs keeps out.
use Prim.Native.Char.{Char, code}
use mathlib.Core.Option.{some-injective, none-ne-some}
use text.Mathlib.TextLemmas.{nil-append, cons-append}
use session_scope.Common.{
  ℕ, String, ◌<>◌, ◌≡◌, ◌≢◌, ◌∙◌, ap, refl, Bool, true, false, inl, inr, Bool-cases, Option, none,
  some, List, [], ◌∷◌, map, ◌||◌, arith, eqb, if◌then◌else◌,
}
use session_scope.Common.Lists.{All}
use session_scope.Common.Text.{
  trim, trim_start_matches, trim_end_matches, is_whitespace, lines, lines_of, strip_cr, split_on,
  join,
}
use session_scope.Common.Text.Laws.{Lacks}
use session_scope.Reporters.MarkdownEscape.{
  is_markdown, escape_html_char, escape_markdown_char, escape_markdown_html, inline_text,
  table_cell,
}

-- Where the reader stands: in plain text, behind a backslash, or inside the tag `<br>`.
pub data Place : Type 0 where
  plain : Place
  escaped : Place
  tag : ℕ → Place

-- The text has the character of this number.
abbrev pub one_of : String → ℕ → Bool
one_of String.[] n = false
one_of (String.◌∷◌ c s) n = eqb n (code c) || one_of s n

-- The characters that Markdown reads as marks, in a text or as the border of a table cell.
abbrev pub marks : String
marks = "\\`*_{}[]()#!|"

-- One character. In plain text no mark, `>` or line feed may stand, and `<` opens a
-- tag; the tag goes on with `b`, `r` and `>` alone.
abbrev pub read_char : Place → Char → Option Place
read_char Place.plain c =
    if eqb (code c) 92
    then some Place.escaped
    else if eqb (code c) 60
    then some (Place.tag 98)
    else if one_of marks (code c) || eqb (code c) 62 || eqb (code c) 10
    then none
    else some Place.plain
read_char Place.escaped c = if eqb (code c) 10 then none else some Place.plain
read_char (Place.tag n) c =
    if eqb (code c) n
    then if eqb n 98
      then some (Place.tag 114)
      else if eqb n 114
      then some (Place.tag 62)
      else some Place.plain
    else none

unfoldable pub read_text : Place → String → Option Place
read_text p String.[] = some p
read_text p (String.◌∷◌ c s) = elim (read_char p c) [ none ↦ none | some q ↦ read_text q s ]

eqb-false : {m n : ℕ} → eqb m n ≡ false → m ≢ n
eqb-false h = ground arith

read_text-append :
    (p q : Place) (s t : String) → read_text p s ≡ some q → read_text p (s <> t) ≡ read_text q t
unfolding read_text
read_text-append p q String.[] t h = rw nil-append (ap (λ x. read_text x t) (some-injective p q h))
read_text-append p q (String.◌∷◌ c s) t h = rw cons-append (
    (elim (read_char p c)
        as (λ o.
          elim o [ none ↦ none | some r ↦ read_text r s ] ≡ some q
          → elim o [ none ↦ none | some r ↦ read_text r (s <> t) ] ≡ read_text q t) [
            | none ↦ λ e. absurd (none-ne-some q e)
            | some r ↦ λ e. read_text-append r q s t e
          ])
      h)

read_escaped :
    (c : Char) → code c ≢ 10 → read_text Place.escaped (String.◌∷◌ c String.[]) ≡ some Place.plain
unfolding read_text
read_escaped c h = ground arith

-- What the code does not escape is no mark.
unescaped-one_of : (n : ℕ) → is_markdown n ≡ false → one_of marks n ≡ false
unescaped-one_of n h = ground arith

read_kept :
    (c : Char)
    → code c ≢ 10
    → is_markdown (code c) ≡ false
    → code c ≢ 60
    → code c ≢ 62
    → read_text Place.plain (String.◌∷◌ c String.[]) ≡ some Place.plain
unfolding read_text
read_kept c h m l g = ground (arith, unescaped-one_of (code c) m)

read_char-escape :
    (c : Char) → code c ≢ 10 → read_text Place.plain (escape_markdown_char c) ≡ some Place.plain
unfolding read_text escape_markdown_char escape_html_char
read_char-escape c h = elim (Bool-cases (is_markdown (code c))) [
  | inl m ↦ rw m (
      read_text-append Place.plain Place.escaped "\\" (String.◌∷◌ c String.[]) refl
      ∙ read_escaped c h)
  | inr o ↦ rw o (elim (Bool-cases (eqb (code c) 38)) [
    | inl a ↦ rw a refl
    | inr a ↦ rw a (elim (Bool-cases (eqb (code c) 60)) [
      | inl l ↦ rw l refl
      | inr l ↦ rw l (elim (Bool-cases (eqb (code c) 62)) [
        | inl g ↦ rw g refl
        | inr g ↦ rw g (read_kept c h o (eqb-false l) (eqb-false g))
      ])
    ])
  ])
]

read_text-escape :
    (s : String) → Lacks 10 s → read_text Place.plain (escape_markdown_html s) ≡ some Place.plain
unfolding escape_markdown_html read_text
read_text-escape String.[] h = refl
read_text-escape (String.◌∷◌ c s) h =
    read_text-append Place.plain Place.plain (escape_markdown_char c) (escape_markdown_html s)
      (read_char-escape c h.0)
    ∙ read_text-escape s h.1

Lacks-trim_start :
    (d : ℕ) (p : Char → Bool) (s : String) → Lacks d s → Lacks d (trim_start_matches p s)
unfolding trim_start_matches
Lacks-trim_start d p String.[] h = h
Lacks-trim_start d p (String.◌∷◌ c s) h = ground (arith, Lacks-trim_start d p s h.1)

Lacks-trim_end : (d : ℕ) (p : Char → Bool) (s : String) → Lacks d s → Lacks d (trim_end_matches p s)
unfolding trim_end_matches
Lacks-trim_end d p String.[] h = h
Lacks-trim_end d p (String.◌∷◌ c s) h = ground (arith, Lacks-trim_end d p s h.1)

Lacks-trim : (d : ℕ) (s : String) → Lacks d s → Lacks d (trim s)
unfolding trim
Lacks-trim d s h = Lacks-trim_end d is_whitespace _ (Lacks-trim_start d is_whitespace s h)

Lacks-if :
    (d : ℕ) (b : Bool) (c : Char)
    → Lacks d (String.◌∷◌ c String.[])
    → Lacks d (if b then String.[] else String.◌∷◌ c String.[])
Lacks-if d true c h = tt
Lacks-if d false c h = h

Lacks-strip_cr : (d : ℕ) (s : String) → Lacks d s → Lacks d (strip_cr s)
unfolding strip_cr
Lacks-strip_cr d String.[] h = h
Lacks-strip_cr d (String.◌∷◌ c String.[]) h = Lacks-if d (eqb (code c) 13) c h
Lacks-strip_cr d (String.◌∷◌ c (String.◌∷◌ e s)) h = (h.0, Lacks-strip_cr d (String.◌∷◌ e s) h.1)

split_on-All : (d : ℕ) (s : String) → Lacks d (split_on d s).0 × All (Lacks d) (split_on d s).1
unfolding split_on
split_on-All d String.[] = (tt, tt)
split_on-All d (String.◌∷◌ c s) = elim (Bool-cases (eqb (code c) d)) [
  | inl e ↦ rw e (tt, split_on-All d s)
  | inr e ↦ rw e ((eqb-false e, (split_on-All d s).0), (split_on-All d s).1)
]

lines_of-All :
    (d : ℕ) (h : String) (t : List String)
    → Lacks d h
    → All (Lacks d) t
    → All (Lacks d) (lines_of h t)
unfolding lines_of
lines_of-All d String.[] [] a b = tt
lines_of-All d (String.◌∷◌ c s) [] a b = (a, tt)
lines_of-All d h (x ∷ r) a b = (Lacks-strip_cr d h a, lines_of-All d x r b.0 b.1)

lines-All : (s : String) → All (Lacks 10) (lines s)
unfolding lines
lines-All s =
    let both = split_on-All 10 s in
    lines_of-All 10 (split_on 10 s).0 (split_on 10 s).1 both.0 both.1

abbrev escaped_lines : List String → String
unfolding join escape_markdown_html trim
escaped_lines ls = join "<br>" (map (λ line. escape_markdown_html (trim line)) ls)

read_lines :
    (ls : List String)
    → All (Lacks 10) ls
    → read_text Place.plain (escaped_lines ls) ≡ some Place.plain
unfolding join read_text escaped_lines
read_lines [] h = refl
read_lines (l ∷ []) h = read_text-escape (trim l) (Lacks-trim 10 l h.0)
read_lines (l ∷ m ∷ ls) h =
    read_text-append Place.plain Place.plain (escape_markdown_html (trim l)) _
      (read_text-escape (trim l) (Lacks-trim 10 l h.0))
    ∙ (read_text-append Place.plain Place.plain "<br>" (escaped_lines (m ∷ ls)) refl
        ∙ read_lines (m ∷ ls) h.1)

-- A reader of Markdown, for whom a backslash escapes the next character, goes through the whole
-- of a table cell without meeting a line feed, one of the characters \ ` * _ { } [ ] ( ) # ! |
-- that is not escaped, or a `<` or `>` that is not of a tag `<br>`, and ends in plain text.
pub table_cell-IsRead :
    (value : String) → read_text Place.plain (table_cell value) ≡ some Place.plain
unfolding table_cell inline_text
table_cell-IsRead value = read_lines (lines value) (lines-All value)
