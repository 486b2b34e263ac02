-- ===== src/Core/Discovery/Accepted.antt =====
-- Which entry of a walk is a file to scan.
use session_scope.Common.{
  String, ◌≡◌, refl, ap, ◌↔◌, ◌⊎◌, inl, inr, Bool, true, false, ◌||◌, Option, none, some, arith,
  Option-cases, Bool-cases, if◌then◌else◌, not,
}
use session_scope.Common.Result.{Result, ok, err}
use session_scope.Model.Report.{FileScanResult, SkippedReason}
use session_scope.Core.Source.{FileType, starts_with}
use session_scope.Core.Pipeline.Config.{ScanConfig, strip_root}
use session_scope.Core.Discovery.Paths.{
  DirEntry, Tree, is_in_excluded_dir, relative_path, path_is_inside_canonical_root,
}
use session_scope.Core.Discovery.Files.{GlobSets, is_file, is_symlink, skip_reason, decide, visit}

-- The gates of an entry.
module _ (link file inside : Bool) (a b : FileScanResult) (c : FileScanResult ⊎ String) where
  abbrev gated : Option (FileScanResult ⊎ String)
  gated =
      if link
      then some (inl a)
      else if not file
      then none
      else if not inside
      then some (inl b)
      else some c

  gated_iff :
      (path : String)
      → (gated ≡ some (inr path))
        ↔ ((link ≡ false) × (file ≡ true) × (inside ≡ true) × (c ≡ inr path))
  gated_iff path = ground arith

  gated-none_iff : (gated ≡ none) ↔ ((link || file) ≡ false)
  gated-none_iff = ground arith

-- The tests of a path below the root.
reasons_iff :
    (sensitive in_excluded excluded included : Bool) (a b c : SkippedReason)
    → ((if sensitive
          then some a
          else if in_excluded || excluded
          then some b
          else if not included
          then some c
          else none)
        ≡ none)
      ↔ ((sensitive ≡ false) × (in_excluded ≡ false) × (excluded ≡ false) × (included ≡ true))
reasons_iff sensitive in_excluded excluded included a b c = ground arith

module _ (tree : Tree) (config : ScanConfig) where
  -- A symbolic link or a file: what discovery has to answer for.
  abbrev pub is_candidate : Result DirEntry → Bool
  is_candidate (err message) = false
  is_candidate (ok entry) = is_symlink tree config entry || is_file entry.file_type

  module _ (globs : GlobSets) where
    pub record IsListed (entry : DirEntry) : Type 0 where
      pub canonical : String
      pub relative : String
      pub is_no_link : is_symlink tree config entry ≡ false
      pub is_regular : entry.file_type ≡ some FileType.regular
      pub resolves : tree.canonicalize entry.path ≡ some canonical
      pub inside : starts_with canonical config.canonical_root ≡ true
      pub below : strip_root config.root entry.path ≡ some relative
      pub is_not_sensitive : tree.is_match globs.sensitive_globs relative ≡ false
      pub is_not_in_excluded : is_in_excluded_dir relative config.exclude_dirs ≡ false
      pub is_not_excluded : tree.is_match globs.exclude_globs relative ≡ false
      pub is_included : tree.is_match globs.include_globs relative ≡ true

    skip_reason_iff :
        (relative : String)
        → (skip_reason tree config globs relative ≡ none) ↔ (
            (tree.is_match globs.sensitive_globs relative ≡ false)
            × (is_in_excluded_dir relative config.exclude_dirs ≡ false)
            × (tree.is_match globs.exclude_globs relative ≡ false)
            × (tree.is_match globs.include_globs relative ≡ true))
    unfolding skip_reason
    skip_reason_iff relative = elim (Bool-cases config.custom_include_patterns) [
      | inl h ↦ rw h (reasons_iff _ _ _ _ _ _ _)
      | inr h ↦ rw h (reasons_iff _ _ _ _ _ _ _)
    ]

    decide_iff :
        (path : String) (below : Option String) (p : String)
        → (decide tree config globs path below ≡ inr p) ↔ (
            (path ≡ p)
            × ((relative : String) × (below ≡ some relative)
                × (skip_reason tree config globs relative ≡ none)))
    unfolding decide
    decide_iff path none p = ground arith
    decide_iff path (some relative) p =
        elim (Option-cases (skip_reason tree config globs relative)) [
          | inl h ↦ rw (h, decide) (λ e. (ground arith, (relative, refl, h)), λ x. ap inr x.0)
          | inr (reason, h) ↦ rw (h, decide) (ground arith)
        ]

    inside_iff :
        (path root : String)
        → (path_is_inside_canonical_root tree path root ≡ true) ↔ (
            (canonical : String) × (tree.canonicalize path ≡ some canonical)
            × (starts_with canonical root ≡ true))
    unfolding path_is_inside_canonical_root
    inside_iff path root = elim (Option-cases (tree.canonicalize path)) [
      | inl h ↦ rw h (ground arith)
      | inr (canonical, h) ↦ rw h (ground arith)
    ]

    is_file_iff : (t : Option FileType) → (is_file t ≡ true) ↔ (t ≡ some FileType.regular)
    is_file_iff none = ground arith
    is_file_iff (some t) = ground arith

    visit_iff :
        (entry : DirEntry) (path : String)
        → (visit tree config globs entry ≡ some (inr path)) ↔ (
            (is_symlink tree config entry ≡ false)
            × (is_file entry.file_type ≡ true)
            × (path_is_inside_canonical_root tree entry.path config.canonical_root ≡ true)
            × (decide tree config globs entry.path (relative_path config.root entry.path)
                ≡ inr path))
    unfolding visit
    visit_iff entry path = gated_iff _ _ _ _ _ _ path

    pub visit-is_candidate :
        (entry : DirEntry)
        → (visit tree config globs entry ≡ none) ↔ (is_candidate (ok entry) ≡ false)
    unfolding visit
    visit-is_candidate entry = gated-none_iff _ _ _ _ _ _

    pub visit-IsListed :
        (entry : DirEntry) (path : String)
        → (visit tree config globs entry ≡ some (inr path)) ↔ (IsListed entry × (entry.path ≡ path))
    unfolding relative_path
    visit-IsListed entry path = (
      λ h.
          let (is_no_link, file, here, decided) = (visit_iff entry path).0 h in
          let (same, (relative, below, passed)) = (decide_iff entry.path _ path).0 decided in
          let (canonical, resolves, inside) =
            (inside_iff entry.path config.canonical_root).0 here in
          let (sensitive, in_excluded, excluded, included) = (skip_reason_iff relative).0 passed in
          (
            record {
              canonical = canonical;
              relative = relative;
              is_no_link = is_no_link;
              is_regular = (is_file_iff entry.file_type).0 file;
              resolves = resolves;
              inside = inside;
              below = below;
              is_not_sensitive = sensitive;
              is_not_in_excluded = in_excluded;
              is_not_excluded = excluded;
              is_included = included;
            },
            same,
          ),
      λ (l, same). (visit_iff entry path).1 (
        l.is_no_link,
        (is_file_iff entry.file_type).1 l.is_regular,
        (inside_iff entry.path config.canonical_root).1 (l.canonical, l.resolves, l.inside),
        (decide_iff entry.path _ path).1 (
          same,
          (
            l.relative,
            l.below,
            (skip_reason_iff l.relative).1
                (l.is_not_sensitive, l.is_not_in_excluded, l.is_not_excluded, l.is_included),
          ),
        ),
      ),
    )
