-- ===== src/Core/Pipeline/Config.antt =====
-- `ScanConfig` of crates/sessionscope-core/src/config.rs, the languages of source.rs, and paths as text.
use Prim.Native.Char.{Char, code}
use session_scope.Common.{
  ℕ, String, ◌<>◌, Bool, ◌||◌, Option, none, some, List, ◌==◌, string_eq, eqb, if◌then◌else◌,
}
use session_scope.Common.Text.{after_last, replace_char, strip_prefix, is_nil}
use session_scope.Model.Report.{Language}

-- The budget is a number of nanoseconds.
pub record ScanConfig : Type 0 where
  pub root : String
  pub canonical_root : String
  pub max_file_size_bytes : ℕ
  pub include_patterns : List String
  pub exclude_patterns : List String
  pub exclude_dirs : List String
  pub sensitive_patterns : List String
  pub custom_include_patterns : Bool
  pub per_file_budget : ℕ

abbrev or_text : Option String → String → String
or_text none s = s
or_text (some t) s = t

abbrev is_slash : Char → Bool
is_slash c = eqb (code c) 47

abbrev is_dot : Char → Bool
is_dot c = eqb (code c) 46

-- `Path::file_name` of the path of a file.
unfoldable pub file_name : String → String
unfolding after_last
file_name path = or_text (after_last is_slash path) path

-- `Path::extension`: what stands behind the last dot, unless that dot begins the name.
unfoldable pub extension_of : String → Option String
unfolding after_last
extension_of String.[] = none
extension_of (String.◌∷◌ c rest) = after_last is_dot rest

abbrev language_of : Option String → Language
language_of none = Language.unknown
language_of (some e) =
    if e == "js" || e == "jsx"
    then Language.java_script
    else if e == "ts" || e == "tsx"
    then Language.type_script
    else if e == "py"
    then Language.python
    else if e == "json"
    then Language.json
    else if e == "yaml" || e == "yml"
    then Language.yaml
    else if e == "toml"
    then Language.toml
    else if e == "txt" || e == "md"
    then Language.text
    else Language.unknown

unfoldable pub classify_language : String → Language
unfolding extension_of file_name
classify_language path = language_of (extension_of (file_name path))

-- `normalize_path` of discovery.rs.
unfoldable pub normalize_path : String → String
unfolding replace_char
normalize_path path = replace_char 92 "/" path

-- `Path::strip_prefix` by whole components, on paths with single separators.
unfoldable pub strip_root : String → String → Option String
unfolding strip_prefix after_last
strip_root root path = if path == root then some "" else elim (after_last is_slash root) [
  | none ↦ strip_prefix (root <> "/") path
  | some last ↦ if is_nil last then strip_prefix root path else strip_prefix (root <> "/") path
]

unfoldable pub display_path : ScanConfig → String → String
unfolding strip_root normalize_path
display_path config path = elim (strip_root config.root path) [
  | none ↦ normalize_path path
  | some relative ↦ normalize_path relative
]
