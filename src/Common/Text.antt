-- ===== src/Common/Text.antt =====
-- Rust's `str` methods that the program calls, by recursion over the characters.
pub mod Laws
use Prim.Native.Nat.{ℕ, zero, suc, ◌+◌, ◌-◌, ◌*◌, ◌/◌, ◌%◌, ◌≤◌, ◌<◌}
use Prim.Native.Char.{Char, code}
use Prim.Native.String.{String, ◌++◌ as ◌<>◌, len, count}
use mathlib.Core.Path.{◌≡◌, refl, ap, ◌∙◌}
use mathlib.Core.Bool.{Bool, true, false, ◌&&◌, ◌||◌, not}
use mathlib.Core.Option.{Option, none, some}
use mathlib.Core.List.{List, [], ◌∷◌, ◌++◌}
use native.Mathlib.Omega.{arith}
use text.Mathlib.Text.{find?}
use session_scope.Common.Equality.{if◌then◌else◌, ◌==◌, eqb, string_eq, leb, ltb}

abbrev pub is_nil : String → Bool
is_nil String.[] = true
is_nil (String.◌∷◌ c s) = false

-- `str::contains`.
abbrev pub contains_text : String → String → Bool
contains_text s needle = elim (find? s needle) [ none ↦ false | some i ↦ true ]

-- `char::is_ascii_whitespace`.
abbrev pub is_ascii_whitespace : Char → Bool
is_ascii_whitespace c =
    eqb (code c) 9 || eqb (code c) 10 || eqb (code c) 12 || eqb (code c) 13 || eqb (code c) 32

-- `char::is_whitespace`: the code points with Unicode's property White_Space.
unfoldable pub is_whitespace : Char → Bool
is_whitespace c =
    let n = code c in
    leb 9 n && leb n 13
    || eqb n 32
    || eqb n 0x85
    || eqb n 0xa0
    || eqb n 0x1680
    || leb 0x2000 n && leb n 0x200a
    || eqb n 0x2028
    || eqb n 0x2029
    || eqb n 0x202f
    || eqb n 0x205f
    || eqb n 0x3000

module _ (p : Char → Bool) where
  unfoldable pub trim_start_matches : String → String
  trim_start_matches String.[] = String.[]
  trim_start_matches (String.◌∷◌ c s) =
      let rest = trim_start_matches s in if p c then rest else String.◌∷◌ c s

  unfoldable pub trim_end_matches : String → String
  trim_end_matches String.[] = String.[]
  trim_end_matches (String.◌∷◌ c s) =
      let rest = trim_end_matches s in if p c && is_nil rest then String.[] else String.◌∷◌ c rest

  -- What stands behind the last character that passes: the right half of `rsplit_once`.
  unfoldable pub after_last : String → Option String
  after_last String.[] = none
  after_last (String.◌∷◌ c s) = elim (after_last s) [
    | some r ↦ some r
    | none ↦ if p c then some s else none
  ]

unfoldable pub trim : String → String
unfolding trim_start_matches trim_end_matches is_whitespace
trim s = trim_end_matches is_whitespace (trim_start_matches is_whitespace s)

-- `str::replace` of one character by another.
unfoldable pub replace_char : ℕ → Char → String → String
replace_char old new String.[] = String.[]
replace_char old new (String.◌∷◌ c s) =
    String.◌∷◌ (if eqb (code c) old then new else c) (replace_char old new s)

-- `str::find` of a character and `split_at` behind it.
unfoldable pub split_after : ℕ → String → Option (String × String)
split_after d String.[] = none
split_after d (String.◌∷◌ c s) =
    if eqb (code c) d
    then some (String.◌∷◌ c String.[], s)
    else elim (split_after d s) [ none ↦ none | some (l, r) ↦ some (String.◌∷◌ c l, r) ]

-- `str::split`: the first segment, and those after each separator.
unfoldable pub split_on : ℕ → String → String × List String
split_on d String.[] = (String.[], [])
split_on d (String.◌∷◌ c s) =
    let (h, t) = split_on d s in if eqb (code c) d then (String.[], h ∷ t) else (String.◌∷◌ c h, t)

unfoldable pub split : ℕ → String → List String
unfolding split_on
split d s = let (h, t) = split_on d s in h ∷ t

-- `[String]::join`.
unfoldable pub join : String → List String → String
join sep [] = ""
join sep (s ∷ []) = s
join sep (s ∷ t ∷ r) = s <> (sep <> join sep (t ∷ r))

-- A carriage return that ends the text is taken off.
unfoldable pub strip_cr : String → String
strip_cr String.[] = String.[]
strip_cr (String.◌∷◌ c s) = elim s [
  | String.[] ↦ if eqb (code c) 13 then String.[] else String.◌∷◌ c String.[]
  | String.◌∷◌ d r ↦ String.◌∷◌ c (strip_cr s)
]

unfoldable pub lines_of : String → List String → List String
unfolding strip_cr
lines_of h [] = if is_nil h then [] else h ∷ []
lines_of h (x ∷ r) = strip_cr h ∷ lines_of x r

-- `str::lines`: `\n` or `\r\n` ends a line, and an empty last line does not count.
unfoldable pub lines : String → List String
unfolding lines_of split_on
lines s = let (h, t) = split_on 10 s in lines_of h t

abbrev pub char_or : Char → String → ℕ → Char
char_or c String.[] n = c
char_or c (String.◌∷◌ d s) zero = d
char_or c (String.◌∷◌ d s) (suc n) = char_or c s n

unfoldable pub lower_char : Char → Char
lower_char c =
    if leb 65 (code c) && leb (code c) 90
    then char_or c "abcdefghijklmnopqrstuvwxyz" (code c - 65)
    else c

unfoldable pub to_ascii_lowercase : String → String
unfolding lower_char
to_ascii_lowercase String.[] = String.[]
to_ascii_lowercase (String.◌∷◌ c s) = String.◌∷◌ (lower_char c) (to_ascii_lowercase s)

-- `chars().take(n).collect()`
unfoldable pub take_chars : ℕ → String → String
take_chars zero s = String.[]
take_chars (suc n) String.[] = String.[]
take_chars (suc n) (String.◌∷◌ c s) = String.◌∷◌ c (take_chars n s)

abbrev pub digit : ℕ → Char
digit n = char_or "?" "0123456789abcdef" n

-- `{:016x}` at sixteen digits: the digits of a number in base 16, padded with zeros.
unfoldable pub hex_digits : ℕ → ℕ → String
hex_digits zero n = String.[]
hex_digits (suc k) n = hex_digits k (n / 16) <> String.◌∷◌ (digit (n % 16)) String.[]

decimal_on : ℕ → ℕ → String → String
decimal_on zero n acc = acc
decimal_on (suc f) n acc =
    let more = decimal_on f (n / 10) (String.◌∷◌ (digit (n % 10)) acc) in
    if ltb n 10 then String.◌∷◌ (digit n) acc else more

-- `ToString` of an unsigned integer: a number has fewer digits than its successor has units.
unfoldable pub decimal : ℕ → String
unfolding decimal_on
decimal n = decimal_on (suc n) n String.[]

-- `str::strip_prefix`.
unfoldable pub strip_prefix : String → String → Option String
strip_prefix String.[] s = some s
strip_prefix (String.◌∷◌ c p) String.[] = none
strip_prefix (String.◌∷◌ c p) (String.◌∷◌ d s) =
    let rest = strip_prefix p s in if eqb (code c) (code d) then rest else none
