-- ===== src/Core/Pipeline/Defaults.antt =====
-- The construction of a ScanConfig and its setters, of crates/sessionscope-core/src/config.rs.
use session_scope.Common.{ℕ, String, Option, none, some, true, false, List, [], ◌∷◌, ◌++◌}
use session_scope.Core.Pipeline.Config.{ScanConfig}

unfoldable pub default_max_file_size_bytes : ℕ
default_max_file_size_bytes = 512000

-- Two seconds.
unfoldable pub default_per_file_budget : ℕ
default_per_file_budget = 2000000000

unfoldable pub default_include_patterns : List String
default_include_patterns =
    "**/*.js" ∷ "**/*.jsx" ∷ "**/*.ts" ∷ "**/*.tsx" ∷ "**/*.py" ∷ "**/*.json" ∷ "**/*.yaml"
    ∷ "**/*.yml" ∷ "**/*.toml" ∷ []

unfoldable pub default_exclude_patterns : List String
default_exclude_patterns =
    "package-lock.json" ∷ "yarn.lock" ∷ "pnpm-lock.yaml" ∷ "poetry.lock" ∷ "Pipfile.lock"
    ∷ "Cargo.lock" ∷ []

unfoldable pub sensitive_patterns : List String
sensitive_patterns =
    ".env" ∷ ".env.*" ∷ "**/.env" ∷ "**/.env.*" ∷ "*.pem" ∷ "*.key" ∷ "*.p12" ∷ "*.pfx" ∷ "id_rsa"
    ∷ "id_dsa" ∷ "**/id_rsa" ∷ "**/id_dsa" ∷ []

-- What cannot be resolved stays as it is. The argument is `fs::canonicalize(path).ok()`.
unfoldable pub canonicalize_or_fallback : (String → Option String) → String → String
canonicalize_or_fallback canonicalize path = elim (canonicalize path) [
  | none ↦ path
  | some canonical ↦ canonical
]

unfoldable pub new : (String → Option String) → String → ScanConfig
unfolding canonicalize_or_fallback default_include_patterns default_exclude_patterns
    sensitive_patterns default_max_file_size_bytes default_per_file_budget
new canonicalize root = record {
  root = root;
  canonical_root = canonicalize_or_fallback canonicalize root;
  max_file_size_bytes = default_max_file_size_bytes;
  include_patterns = default_include_patterns;
  exclude_patterns = default_exclude_patterns;
  exclude_dirs =
      ".git" ∷ "node_modules" ∷ ".venv" ∷ "venv" ∷ "dist" ∷ "build" ∷ "target" ∷ "coverage"
      ∷ ".next" ∷ "__pycache__" ∷ [];
  sensitive_patterns = sensitive_patterns;
  custom_include_patterns = false;
  per_file_budget = default_per_file_budget;
}

unfoldable pub set_include_patterns : List String → ScanConfig → ScanConfig
set_include_patterns patterns config = record config {
  include_patterns = patterns;
  custom_include_patterns = true;
}

unfoldable pub add_exclude_patterns : List String → ScanConfig → ScanConfig
add_exclude_patterns patterns config = record config {
  exclude_patterns = config.exclude_patterns ++ patterns;
}

unfoldable pub set_max_file_size_bytes : ℕ → ScanConfig → ScanConfig
set_max_file_size_bytes bytes config = record config { max_file_size_bytes = bytes }

unfoldable pub set_per_file_budget : ℕ → ScanConfig → ScanConfig
set_per_file_budget budget config = record config { per_file_budget = budget }
