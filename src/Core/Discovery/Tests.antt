-- ===== src/Core/Discovery/Tests.antt =====
-- The discovery of a tree with a source, a file of secrets, a link and a directory.
use session_scope.Common.{
  String, ◌≡◌, refl, ◌↔◌, ◌+◌, false, none, some, [], ◌∷◌, map, length, ◌==◌, string_eq, string_dec,
  contains, if◌then◌else◌,
}
use session_scope.Common.Lists.{IsIn, keep}
use session_scope.Common.Result.{Result, ok}
use session_scope.Model.Report.{FileScanResult, SkippedReason}
use session_scope.Core.Source.{FileType}
use session_scope.Core.Pipeline.Config.{ScanConfig}
use session_scope.Core.Pipeline.Defaults.{new, set_include_patterns}
use session_scope.Core.Pipeline.Scan.{DiscoveryResult}
use session_scope.Core.Discovery.Paths.{DirEntry, Tree}
use session_scope.Core.Discovery.Files.{GlobSets, filter_entry, discover_files}
use session_scope.Core.Discovery.Accepted.{is_candidate, IsListed}
use session_scope.Core.Discovery.Listed.{IsCompiled, discover_files-IsListed}

abbrev entry_at : String → FileType → Result DirEntry
entry_at path type = ok (record { path = path; path_is_symlink = false; file_type = some type })

-- Globs match as they are spelled.
abbrev tree : Tree
tree = record {
  glob_error = λ pattern. none;
  build_error = λ builder. none;
  is_match = λ globs path. contains globs path;
  symlink_metadata =
      λ path. some (if path == "/app/link.js" then FileType.symlink else FileType.regular);
  canonicalize = λ path. some path;
  walk = λ filter.
      entry_at "/app/b.js" FileType.regular
      ∷ entry_at "/app/.env" FileType.regular
      ∷ entry_at "/app/link.js" FileType.symlink
      ∷ entry_at "/app/a.js" FileType.regular
      ∷ entry_at "/app/src" FileType.other
      ∷ [];
}

abbrev config : ScanConfig
unfolding set_include_patterns new
config = set_include_patterns ("a.js" ∷ "b.js" ∷ ".env" ∷ []) (new (λ path. none) "/app")

abbrev or_nothing : Result DiscoveryResult → DiscoveryResult
or_nothing (ok d) = d
or_nothing e = record { files = []; skipped = [] }

abbrev found : DiscoveryResult
found = or_nothing (discover_files tree config)

test_files : found.files ≡ "/app/a.js" ∷ "/app/b.js" ∷ []
unfolding discover_files string_dec config
test_files = refl

test_reasons :
    map (λ (f : FileScanResult). f.skipped_reason) found.skipped
    ≡ some SkippedReason.sensitive_path ∷ some SkippedReason.symlink ∷ []
unfolding discover_files string_dec config
test_reasons = refl

found_ok : discover_files tree config ≡ ok found
unfolding discover_files string_dec config
found_ok = refl

discover_files-IsListed_example :
    (globs : GlobSets) × IsCompiled tree config globs
    × ((path : String)
        → IsIn path found.files ↔ (
            (entry : DirEntry) × IsIn (ok entry) (tree.walk (filter_entry tree config))
            × IsListed tree config globs entry
            × (entry.path ≡ path)))
    × (length found.files + length found.skipped
        ≡ length (keep (is_candidate tree config) (tree.walk (filter_entry tree config))))
discover_files-IsListed_example = discover_files-IsListed tree config found found_ok
