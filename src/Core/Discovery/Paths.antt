-- ===== src/Core/Discovery/Paths.antt =====
-- Globs and paths of discovery.rs. The walk of the tree, the globs and the answers of the file
-- system are parameters.
use session_scope.Common.{
  String, ◌<>◌, Bool, false, not, ◌&&◌, ◌||◌, Option, none, some, List, [], ◌∷◌, ◌++◌, ◌==◌,
  string_eq, contains, any, if◌then◌else◌,
}
use session_scope.Common.Text.{trim, replace_char, is_nil, split, strip_prefix}
use session_scope.Common.Result.{Result, ok, err, ◌>>=◌}
use session_scope.Common.Lists.{keep}
use session_scope.Core.Source.{FileType, is_some, starts_with, contains_code}
use session_scope.Core.Pipeline.Config.{file_name, strip_root}

-- An entry of the walk.
pub record DirEntry : Type 0 where
  pub path : String
  pub path_is_symlink : Bool
  pub file_type : Option FileType

-- What stands outside: `Glob::new`, which gives an error for a pattern that is none, the building of
-- a set and its matches, `fs::symlink_metadata(path).ok()` and `fs::canonicalize(path).ok()`, and
-- the walk with its filter of entries.
pub record Tree : Type 0 where
  pub glob_error : String → Option String
  pub build_error : List String → Option String
  pub is_match : List String → String → Bool
  pub symlink_metadata : String → Option FileType
  pub canonicalize : String → Option String
  pub walk : (String → Bool) → List (Result DirEntry)

abbrev pub or_text : Option String → String → String
or_text none s = s
or_text (some t) s = t

-- `str::starts_with`.
abbrev begins : String → String → Bool
begins prefix text = is_some (strip_prefix prefix text)

-- `Path::file_name`, which is none for a root and for a parent directory.
unfoldable pub base_name : String → Option String
unfolding file_name
base_name path =
    let name = file_name path in if is_nil name || name == ".." then none else some name

unfoldable pub is_in_excluded_dir : String → List String → Bool
unfolding split
is_in_excluded_dir path exclude_dirs =
    any (λ name. contains exclude_dirs name) (keep (λ name. not (is_nil name)) (split 47 path))

-- A failed strip is the reason `Excluded`.
unfoldable pub relative_path : String → String → Option String
unfolding strip_root
relative_path root path = strip_root root path

module _ (tree : Tree) where
  unfoldable pub add_one_glob : List String → String → Result (List String)
  add_one_glob builder pattern = elim (tree.glob_error pattern) [
    | none ↦ ok (builder ++ (pattern ∷ []))
    | some message ↦ err message
  ]

  unfoldable pub add_glob_pattern : List String → String → Result (List String)
  unfolding trim replace_char add_one_glob contains_code strip_prefix
  add_glob_pattern builder pattern =
      let normalized = replace_char 92 "/" (trim pattern) in
      if is_nil normalized
      then ok builder
      else add_one_glob builder normalized >>= λ added.
          if not (contains_code 47 normalized) && not (begins "**/" normalized)
          then add_one_glob added ("**/" <> normalized)
          else ok added

  unfoldable pub add_patterns : List String → List String → Result (List String)
  unfolding add_glob_pattern
  add_patterns builder [] = ok builder
  add_patterns builder (p ∷ ps) = add_glob_pattern builder p >>= λ added. add_patterns added ps

  unfoldable pub build : List String → Result (List String)
  build builder = elim (tree.build_error builder) [ none ↦ ok builder | some message ↦ err message ]

  unfoldable pub compile_globs : List String → Result (List String)
  unfolding add_patterns build
  compile_globs patterns = add_patterns [] patterns >>= build

  unfoldable pub path_is_inside_canonical_root : String → String → Bool
  unfolding starts_with
  path_is_inside_canonical_root path canonical_root = elim (tree.canonicalize path) [
    | none ↦ false
    | some canonical ↦ starts_with canonical canonical_root
  ]
