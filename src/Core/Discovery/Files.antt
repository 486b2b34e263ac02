-- ===== src/Core/Discovery/Files.antt =====
-- `discover_files` of discovery.rs: what becomes of each entry of the walk.
use Prim.Native.String.{compare as compare_text}
use session_scope.Common.{
  String, Bool, true, false, not, ◌||◌, Ordering, Option, none, some, List, [], ◌∷◌, ◌++◌, ◌==◌,
  string_eq, ◌⊎◌, inl, inr, if◌then◌else◌,
}
use session_scope.Common.Result.{Result, ok, err, ◌>>=◌}
use session_scope.Common.Sorting.{sort_by}
use session_scope.Model.Report.{FileScanResult, SkippedReason, skipped}
use session_scope.Core.Source.{FileType}
use session_scope.Core.Pipeline.Config.{ScanConfig, classify_language, normalize_path}
use session_scope.Core.Pipeline.Scan.{DiscoveryResult, compare_path}
use session_scope.Core.Discovery.Paths.{
  DirEntry, Tree, or_text, base_name, is_in_excluded_dir, relative_path, compile_globs,
  path_is_inside_canonical_root,
}

-- The compiled globs of a configuration.
pub record GlobSets : Type 0 where
  pub include_globs : List String
  pub exclude_globs : List String
  pub sensitive_globs : List String

abbrev pub is_file : Option FileType → Bool
is_file (some FileType.regular) = true
is_file (some FileType.symlink) = false
is_file (some FileType.other) = false
is_file none = false

abbrev pub is_link : Option FileType → Bool
is_link (some FileType.symlink) = true
is_link (some FileType.regular) = false
is_link (some FileType.other) = false
is_link none = false

module _ (tree : Tree) (config : ScanConfig) where
  -- The filter of entries: an excluded directory is not entered.
  unfoldable pub filter_entry : String → Bool
  unfolding relative_path is_in_excluded_dir
  filter_entry path = if path == config.root then true else elim (relative_path config.root path) [
    | none ↦ false
    | some relative ↦ not (is_in_excluded_dir relative config.exclude_dirs)
  ]

  unfoldable pub is_symlink : DirEntry → Bool
  is_symlink entry = entry.path_is_symlink || is_link (tree.symlink_metadata entry.path)

  unfoldable pub symlink_display : String → String
  unfolding relative_path normalize_path base_name
  symlink_display path = elim (relative_path config.root path) [
    | none ↦ or_text (base_name path) "<symlink>"
    | some relative ↦ normalize_path relative
  ]

  module _ (globs : GlobSets) where
    unfoldable pub skip_reason : String → Option SkippedReason
    unfolding is_in_excluded_dir
    skip_reason relative =
        if tree.is_match globs.sensitive_globs relative
        then some SkippedReason.sensitive_path
        else if is_in_excluded_dir relative config.exclude_dirs
            || tree.is_match globs.exclude_globs relative
        then some SkippedReason.excluded
        else if not (tree.is_match globs.include_globs relative)
        then (if config.custom_include_patterns
            then some SkippedReason.excluded
            else some SkippedReason.unsupported)
        else none

    -- A file inside the root, with its path below the root.
    unfoldable pub decide : String → Option String → FileScanResult ⊎ String
    unfolding base_name skip_reason classify_language normalize_path skipped
    decide path none = inl (
        skipped (or_text (base_name path) "<outside-root>") (classify_language path)
          SkippedReason.excluded)
    decide path (some relative) = elim (skip_reason relative) [
      | some reason ↦ inl (skipped (normalize_path relative) (classify_language path) reason)
      | none ↦ inr path
    ]

    -- An entry is passed over, or is skipped with a result, or is a file to scan.
    unfoldable pub visit : DirEntry → Option (FileScanResult ⊎ String)
    unfolding is_symlink symlink_display classify_language path_is_inside_canonical_root
        relative_path decide base_name skipped
    visit entry =
        if is_symlink entry
        then some (
            inl (
              skipped (symlink_display entry.path) (classify_language entry.path)
                SkippedReason.symlink))
        else if not (is_file entry.file_type)
        then none
        else if not (path_is_inside_canonical_root tree entry.path config.canonical_root)
        then some (
            inl (
              skipped (or_text (base_name entry.path) "<outside-root>")
                (classify_language entry.path) SkippedReason.symlink))
        else some (decide entry.path (relative_path config.root entry.path))

    unfoldable pub push : Option (FileScanResult ⊎ String) → DiscoveryResult → DiscoveryResult
    push none d = d
    push (some (inl result)) d = record d { skipped = d.skipped ++ (result ∷ []) }
    push (some (inr path)) d = record d { files = d.files ++ (path ∷ []) }

    unfoldable pub visit_all : List (Result DirEntry) → DiscoveryResult → Result DiscoveryResult
    unfolding visit push
    visit_all [] d = ok d
    visit_all (err message ∷ entries) d = err message
    visit_all (ok entry ∷ entries) d = visit_all entries (push (visit entry) d)

  unfoldable pub sort_key : String → String
  unfolding relative_path normalize_path
  sort_key path = elim (relative_path config.root path) [
    | none ↦ normalize_path path
    | some relative ↦ normalize_path relative
  ]

  unfoldable pub compare_key : String → String → Ordering
  unfolding sort_key
  compare_key left right = compare_text (sort_key left) (sort_key right)

  unfoldable pub sort_result : DiscoveryResult → DiscoveryResult
  unfolding sort_by compare_key
  sort_result d = record {
    files = sort_by compare_key d.files;
    skipped = sort_by compare_path d.skipped;
  }

  unfoldable pub discover_files : Result DiscoveryResult
  unfolding compile_globs visit_all sort_result filter_entry
  discover_files = compile_globs tree config.include_patterns >>= λ include_globs.
      compile_globs tree config.exclude_patterns >>= λ exclude_globs.
      compile_globs tree config.sensitive_patterns >>= λ sensitive_globs.
      visit_all
        (record {
          include_globs = include_globs;
          exclude_globs = exclude_globs;
          sensitive_globs = sensitive_globs;
        })
        (tree.walk filter_entry) (record { files = []; skipped = [] })
      >>= λ d. ok (sort_result d)
