-- ===== src/Core/Source/Endings.antt =====
-- The line endings of a source against a reading in one pass.
use Prim.Native.Char.{Char, code}
use session_scope.Common.{
  ℕ, String, ◌≡◌, refl, Bool, false, ◌&&◌, eqb, if◌then◌else◌, arith, Bool-cases, inl, inr, ◌≢◌,
}
use session_scope.Common.Text.{replace_char}
use session_scope.Common.Text.Laws.{Lacks}
use session_scope.Core.Source.{contains_code, replace_crlf, normalize_line_endings}

abbrev pub begins_with : ℕ → String → Bool
begins_with n String.[] = false
begins_with n (String.◌∷◌ c s) = eqb (code c) n

-- A carriage return is dropped before a line feed and becomes one elsewhere.
unfoldable pub unified : String → String
unified String.[] = String.[]
unified (String.◌∷◌ c s) =
    let rest = unified s in
    if begins_with 10 s && eqb (code c) 13
    then rest
    else String.◌∷◌ (if eqb (code c) 13 then "\n" else c) rest

replace-replace_crlf : (s : String) → replace_char 13 "\n" (replace_crlf s) ≡ unified s
unfolding replace_char replace_crlf unified
replace-replace_crlf String.[] = refl
replace-replace_crlf (String.◌∷◌ c String.[]) = refl
replace-replace_crlf (String.◌∷◌ c (String.◌∷◌ d s)) =
    ground (arith, replace-replace_crlf s, replace-replace_crlf (String.◌∷◌ d s))

unified_same : (s : String) → contains_code 13 s ≡ false → unified s ≡ s
unfolding contains_code unified
unified_same String.[] h = refl
unified_same (String.◌∷◌ c s) h = ground (arith, unified_same s)

pub normalize_line_endings-unified : (s : String) → normalize_line_endings s ≡ unified s
unfolding normalize_line_endings
normalize_line_endings-unified s = ground (arith, replace-replace_crlf s, unified_same s)

code_replaced : (c : Char) → code (if eqb (code c) 13 then "\n" else c) ≢ 13
code_replaced c = elim (Bool-cases (eqb (code c) 13)) [
  | inl h ↦ rw h (ground arith)
  | inr h ↦ rw h (ground arith)
]

pub unified-Lacks : (s : String) → Lacks 13 (unified s)
unfolding unified
unified-Lacks String.[] = tt
unified-Lacks (String.◌∷◌ c s) = ground (arith, code_replaced c, unified-Lacks s)
