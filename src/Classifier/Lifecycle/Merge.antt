-- ===== src/Classifier/Lifecycle/Merge.antt =====
-- `link` of lifecycle.rs: the paths of all artifacts, and the three passes that merge them.
pub mod Step
pub mod Every
pub mod Made
pub mod Linked
pub mod Filled
pub mod Keeps
pub mod Records
use Prim.Native.String.{compare as compare_text}
use session_scope.Common.{
  ℕ, zero, suc, ◌-◌, Ordering, Bool, false, ◌&&◌, ◌||◌, not, Option, none, some, List, [], ◌∷◌, map,
  ◌==◌, string_eq, nat_eq, contains, if◌then◌else◌,
}
use session_scope.Common.Lists.{collect, find, is_empty, length}
use session_scope.Common.Sorting.{sort_by, then_with}
use session_scope.Common.Order.{compare_list}
use session_scope.Common.Sets.{insert}
use session_scope.Model.Lifecycle.{lifecycle_stage_eq}
use session_scope.Model.Artifact.{Artifact}
use session_scope.Model.Report.{LifecyclePath, LifecyclePathStep, ScanReport}
use session_scope.Classifier.Lookup.{EvidenceMap, evidence_by_id}
use session_scope.Classifier.Lifecycle.Artifacts.{
  compatible_refresh_artifacts, compatible_query_param_artifacts,
}
use session_scope.Classifier.Lifecycle.Paths.{
  ArtifactMap, artifact_by_id, artifact_for_path_with_lookup,
}
use session_scope.Classifier.Lifecycle.Metadata.{
  refresh_path_metadata, path_for_artifact, sort_step, compare_stage,
}
use session_scope.Classifier.Lifecycle.Links.{
  merge_path, is_revoke_only_path, is_query_param_transmit_path, is_refresh_path,
  paths_have_linkable_source_context, revoke_paths_are_linkable,
}

-- `paths[i]`, for an index in range.
abbrev pub path_at : List LifecyclePath → ℕ → Option LifecyclePath
path_at [] i = none
path_at (p ∷ ps) zero = some p
path_at (p ∷ ps) (suc i) = path_at ps i

-- A change of `paths[i]`.
abbrev pub update : ℕ → (LifecyclePath → LifecyclePath) → List LifecyclePath → List LifecyclePath
update i f [] = []
update zero f (p ∷ ps) = f p ∷ ps
update (suc i) f (p ∷ ps) = p ∷ update i f ps

-- `first..(first + n)`
abbrev pub range : ℕ → ℕ → List ℕ
range first zero = []
range first (suc n) = first ∷ range (suc first) n

-- The variables of a pass: the paths, and the indices of those merged into others.
pub record Merging : Type 0 where
  pub paths : List LifecyclePath
  pub absorbed : List ℕ

-- `retain` of the paths whose index is not absorbed, from index `i` on.
unfoldable pub retain : List ℕ → ℕ → List LifecyclePath → List LifecyclePath
retain absorbed i [] = []
retain absorbed i (p ∷ ps) =
    if contains absorbed i then retain absorbed (suc i) ps else p ∷ retain absorbed (suc i) ps

unfoldable pub finish : Merging → List LifecyclePath
unfolding retain
finish m = if is_empty m.absorbed then m.paths else retain m.absorbed 0 m.paths

abbrev run : (Merging → ℕ → Merging) → Merging → List ℕ → Merging
run step m [] = m
run step m (i ∷ is) = run step (step m i) is

unfoldable pub run_pass : (Merging → ℕ → Merging) → List LifecyclePath → Merging
run_pass step paths = run step (record { paths = paths; absorbed = [] }) (range 0 (length paths))

module _ (artifacts : ArtifactMap) where
  abbrev pub links_at : (Artifact → LifecyclePath → Bool) → Option LifecyclePath → Bool
  unfolding artifact_for_path_with_lookup
  links_at links none = false
  links_at links (some target) = elim (artifact_for_path_with_lookup artifacts target) [
    | none ↦ false
    | some a ↦ links a target
  ]

  -- The first path other than `source` that is not absorbed and that `links` accepts.
  unfoldable pub target_index : (Artifact → LifecyclePath → Bool) → ℕ → Merging → Option ℕ
  unfolding links_at
  target_index links source m =
      find
        (λ target.
          not (target == source)
          && not (contains m.absorbed target)
          && links_at links (path_at m.paths target))
        (range 0 (length m.paths))

module _ (artifacts : ArtifactMap) (evidence : EvidenceMap) where
  -- `source` is merged into the target, whose metadata are set anew, and is absorbed.
  unfoldable pub absorb : ℕ → LifecyclePath → ℕ → Merging → Merging
  unfolding merge_path refresh_path_metadata insert
  absorb source source_path target m = record {
    paths =
        update target (refresh_path_metadata artifacts evidence)
          (update target (merge_path source_path) m.paths);
    absorbed = insert source m.absorbed;
  }

  unfoldable pub absorb_first :
      (Artifact → Artifact → LifecyclePath → Bool) → ℕ → LifecyclePath → Merging → Merging
  unfolding artifact_for_path_with_lookup target_index absorb
  absorb_first links source source_path m =
      elim (artifact_for_path_with_lookup artifacts source_path) [
        | none ↦ m
        | some a ↦ elim (target_index artifacts (links a) source m) [
          | none ↦ m
          | some target ↦ absorb source source_path target m
        ]
      ]

  unfoldable pub revoke_step : Merging → ℕ → Merging
  unfolding is_revoke_only_path absorb_first revoke_paths_are_linkable
  revoke_step m source = elim (path_at m.paths source) [
    | none ↦ m
    | some path ↦
        if is_revoke_only_path path
        then absorb_first (λ s t target. revoke_paths_are_linkable evidence s t path target) source
            path m
        else m
  ]

  unfoldable pub query_step : Merging → ℕ → Merging
  unfolding is_query_param_transmit_path absorb_first compatible_query_param_artifacts
      paths_have_linkable_source_context
  query_step m source = elim (path_at m.paths source) [
    | none ↦ m
    | some path ↦
        if contains m.absorbed source || not (is_query_param_transmit_path evidence path)
        then m
        else absorb_first
            (λ s t target.
              not (is_query_param_transmit_path evidence target)
              && compatible_query_param_artifacts s t
              && paths_have_linkable_source_context evidence path target)
            source path m
  ]

  -- Whether the refresh pass merges one path into another: both have artifacts, which agree.
  unfoldable pub refresh_links : LifecyclePath → LifecyclePath → Bool
  unfolding artifact_for_path_with_lookup compatible_refresh_artifacts
      paths_have_linkable_source_context
  refresh_links source target = elim (artifact_for_path_with_lookup artifacts target) [
    | none ↦ false
    | some t ↦ elim (artifact_for_path_with_lookup artifacts source) [
      | none ↦ false
      | some s ↦
          compatible_refresh_artifacts s t
          && paths_have_linkable_source_context evidence source target
    ]
  ]

  -- The body of the inner loop, and of the outer one.
  unfoldable pub refresh_source : ℕ → Merging → ℕ → Merging
  unfolding is_refresh_path refresh_links merge_path insert
  refresh_source target m source = elim (path_at m.paths source) [
    | none ↦ m
    | some source_path ↦ elim (path_at m.paths target) [
      | none ↦ m
      | some target_path ↦
          if contains m.absorbed source || not (is_refresh_path artifacts source_path)
          then m
          else if refresh_links source_path target_path
          then record {
            paths = update target (merge_path source_path) m.paths;
            absorbed = insert source m.absorbed;
          }
          else m
    ]
  ]

  unfoldable pub refresh_step : Merging → ℕ → Merging
  unfolding is_refresh_path refresh_source refresh_path_metadata
  refresh_step m target = elim (path_at m.paths target) [
    | none ↦ m
    | some path ↦
        if contains m.absorbed target || not (is_refresh_path artifacts path)
        then m
        else (let m' =
              run (refresh_source target) m (range (suc target) (length m.paths - suc target)) in
            record m' { paths = update target (refresh_path_metadata artifacts evidence) m'.paths })
  ]

  unfoldable pub merge_revoke_only_paths : List LifecyclePath → List LifecyclePath
  unfolding run_pass revoke_step finish
  merge_revoke_only_paths paths = finish (run_pass revoke_step paths)

  unfoldable pub merge_query_param_paths : List LifecyclePath → List LifecyclePath
  unfolding run_pass query_step finish
  merge_query_param_paths paths = finish (run_pass query_step paths)

  unfoldable pub merge_refresh_paths : List LifecyclePath → List LifecyclePath
  unfolding run_pass refresh_step finish
  merge_refresh_paths paths = finish (run_pass refresh_step paths)

-- The derived `Ord` of steps, and the order of paths.
unfoldable pub compare_step : LifecyclePathStep → LifecyclePathStep → Ordering
unfolding compare_stage compare_list
compare_step left right =
    then_with (compare_stage left right)
      (compare_list compare_text left.evidence_ids right.evidence_ids)

unfoldable pub compare_path : LifecyclePath → LifecyclePath → Ordering
unfolding compare_step compare_list
compare_path left right =
    then_with (compare_list compare_text left.artifact_ids right.artifact_ids) (
      then_with (compare_list compare_step left.stages right.stages)
        (compare_text left.id right.id))

-- `sort_paths` sorts the ids of a path and leaves them otherwise.
unfoldable pub sort_inside : LifecyclePath → LifecyclePath
unfolding sort_by sort_step compare_stage
sort_inside path = record path {
  artifact_ids = sort_by compare_text path.artifact_ids;
  stages = sort_by compare_stage (map sort_step path.stages);
}

unfoldable pub sort_paths : List LifecyclePath → List LifecyclePath
unfolding sort_inside sort_by compare_path
sort_paths paths = sort_by compare_path (map sort_inside paths)

unfoldable pub link : ScanReport → List LifecyclePath
unfolding evidence_by_id artifact_by_id path_for_artifact merge_revoke_only_paths
    merge_query_param_paths merge_refresh_paths sort_paths
link report =
    let evidence = evidence_by_id report in
    let artifacts = artifact_by_id report in
    let paths = collect (path_for_artifact evidence) report.artifacts in
    let revoked = merge_revoke_only_paths artifacts evidence paths in
    let queried = merge_query_param_paths artifacts evidence revoked in
    sort_paths (merge_refresh_paths artifacts evidence queried)
