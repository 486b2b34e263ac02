-- ===== src/Lib.antt =====
-- SessionScope finds how a code base issues, stores, sends, checks, renews and revokes session
-- artifacts, and reports the gaps. Detectors read the files and yield artifacts and evidence, the
-- classifiers turn these into lifecycle paths and findings of a report, the core redacts what the
-- report shows, keeps baselines and capability views, and the command line enforces a policy.
--
-- Which file models which part (paths from the root of the repository):
-- - Common: helpers. The comparisons, sets, maps, sorts and texts of Rust's library as far as the
--   program uses them. A `BTreeSet` is a list that is read by membership, a `BTreeMap` a list of
--   pairs that is read by key, a path is its text.
-- - Model: crates/sessionscope-model/src, one module for each file (Lifecycle, Evidence, Finding,
--   Artifact, Report with the lifecycle paths, Baseline, Schema). Ids are transparent wrappers of
--   texts and stand as texts. An order that Rust derives is a rank (`severity_order`, ...).
-- - Core/Redaction: crates/sessionscope-core/src/redaction.rs. Cookies redacts cookie lines,
--   Entropy is `looks_high_entropy`, Values the chain of patterns (`redact_sensitive_values`),
--   Excerpt the excerpts and the window of a line, Sanitize the functions `sanitize_*` on each
--   record.
-- - Core/Baseline: crates/sessionscope-core/src/baseline.rs. Fingerprint is `create_baseline`,
--   Diff is `diff_baseline`: each pass over the findings is a function on the record Progress,
--   which has the two sets of matched ids and the changes so far.
-- - Core/Capability: crates/sessionscope-core/src/capability.rs. Matching has the tests of an
--   area, Filter the steps of `filter_report` on the record Kept, which has the two sets of ids.
-- - Detectors: crates/sessionscope-detectors/src. Traits has the input and the output of a
--   detector and the trait as a record, Registry is `DetectorRegistry`: `run` and
--   `run_with_deadline`.
-- - Core/Source: crates/sessionscope-core/src/source.rs. `read_source_under_root` with its checks
--   before and after the file is opened, and the line endings.
-- - Core/Discovery: crates/sessionscope-core/src/discovery.rs. Paths has the globs and the paths,
--   Files is `discover_files`: the visit of each entry of the walk.
-- - Core/Pipeline: crates/sessionscope-core/src/pipeline.rs. Config has `ScanConfig` of
--   config.rs, `classify_language` of source.rs and the displayed paths, Defaults the
--   construction and the setters of a configuration, File is `scan_file`, Workers is
--   `scan_files`, Scan is `scan_path`.
-- - Cli/Enforcement: crates/sessionscope-cli/src/enforcement.rs. `evaluate` decides which
--   findings of a report fail a run.
-- - Classifier: crates/sessionscope-classifier/src. Order is `sort_findings` of lib.rs;
--   SessionFixation, QueryParams, ClientStorage and OauthFlow are the files of these names. Each
--   takes the evidence and the artifacts of a report to findings.
-- - Classifier/Lifecycle: crates/sessionscope-classifier/src/lifecycle.rs. Artifacts compares
--   names and types, Paths looks up the artifact of a path, Metadata is `path_for_artifact` and
--   `refresh_path_metadata`, Links is `merge_path` with the tests that precede it, Merge is
--   `link`: a merging pass is a loop over the indices on the record Merging, which has the paths
--   and the indices already absorbed. Signals has the tests of evidence, Cookies the reading of
--   cookie options, PathRules and CookieRules the ten rules, Classify is `classify`.
-- - Reporters/MarkdownEscape: crates/sessionscope-reporters/src/markdown_escape.rs. Its child
--   Reader is a reader of Markdown, to say what escaping keeps out, and Span is about the
--   delimiters.
-- `scan_path` runs the detectors over the files that discovery found and sanitizes what they
-- yield; Core/Pipeline/Inside puts discovery, reading and scanning together. The classifiers add
-- findings, which `sort_findings` orders. A report goes through `filter_report` for one area, to
-- `evaluate`, `create_baseline` and `diff_baseline`; the last two sanitize what they read.
--
-- What is assumed: the regular expressions are the parameter Regexes, a function that replaces
-- the matches of a pattern, with no law assumed of it; the reading and parsing of a baseline are
-- the parameter Files, what the system answers about a source the record FileSystem, about a
-- tree, its walk and the globs the record Tree, none with a law assumed; `scan_path` takes the
-- reading of a source and the clock as the record Surroundings, and what discovery found as an
-- argument; a detector may panic, a worker may die, and the clock may read anything. Numbers of
-- lines and of characters are natural numbers; the hash wraps around at 64 bits, and so does the
-- end of the window of a line. Every loop is a recursion over the sequence it reads; the digits
-- of a number are written with as much fuel as its successor, and files are cut into chunks,
-- which are not empty, with as much fuel as there are files.
--
-- Not modelled: the detectors, the classifiers of cookies, JWTs, bearer tokens and trust
-- boundaries, the documents of the reporters, the commands and their project configuration, whose
-- work is mostly matching by third-party crates, input and output; the derives of serde.
pub mod Common
pub mod Model
pub mod Detectors
pub mod Cli
pub mod Core
pub mod Classifier
pub mod Reporters
