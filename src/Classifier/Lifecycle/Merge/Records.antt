-- ===== src/Classifier/Lifecycle/Merge/Records.antt =====
-- What a path records, and that merging and sorting a path loses and adds none of it.
use Prim.Native.String.{compare as compare_text}
use session_scope.Common.{
  Ordering, String, ◌≡◌, refl, ◌↔◌, ◌⊎◌, List, [], ◌∷◌, map, arith, inl, inr, Option-cases,
  string_eq,
}
use session_scope.Common.Lists.{IsIn, IsIn-append}
use session_scope.Common.Sorting.{sort_by, insert_by, IsIn-dedup, IsIn-sort_by}
use session_scope.Model.Lifecycle.{LifecycleStage, lifecycle_stage_eq}
use session_scope.Model.Evidence.{EvidenceId}
use session_scope.Model.Finding.{ArtifactId}
use session_scope.Model.Report.{LifecyclePath, LifecyclePathStep}
use session_scope.Classifier.Lookup.{EvidenceMap}
use session_scope.Classifier.Lifecycle.Paths.{ArtifactMap, artifact_for_path_with_lookup, sort_ids}
use session_scope.Classifier.Lifecycle.Metadata.{
  sort_step, sort_path, compare_stage, set_metadata, refresh_path_metadata,
}
use session_scope.Classifier.Lifecycle.Links.{merge_step, merge_steps, merge_path}

-- Some step of the stage has the evidence.
abbrev pub Notes : List LifecyclePathStep → LifecycleStage → EvidenceId → Type 0
Notes [] stage id = ⊥
Notes (step ∷ steps) stage id =
    ((step.stage ≡ stage) × IsIn id step.evidence_ids) ⊎ Notes steps stage id

-- The path names the artifact and has the evidence for the stage.
abbrev pub Records : LifecyclePath → ArtifactId → LifecycleStage → EvidenceId → Type 0
Records path artifact stage id = IsIn artifact path.artifact_ids × Notes path.stages stage id

pub IsIn-sort_ids : (id : String) (ids : List String) → IsIn id (sort_ids ids) ↔ IsIn id ids
unfolding sort_ids
IsIn-sort_ids id ids =
    ground (arith, IsIn-dedup id (sort_by compare_text ids), IsIn-sort_by compare_text id ids)

module _ (stage : LifecycleStage) (id : EvidenceId) where
  Notes-merge_step :
      (x : LifecyclePathStep) (ts : List LifecyclePathStep)
      → Notes (merge_step x ts) stage id ↔ (Notes ts stage id ⊎ Notes (x ∷ []) stage id)
  unfolding merge_step
  Notes-merge_step x [] = ground arith
  Notes-merge_step x (t ∷ ts) =
      ground (arith, Notes-merge_step x ts, IsIn-append id t.evidence_ids x.evidence_ids)

  pub Notes-merge_steps :
      (xs ts : List LifecyclePathStep)
      → Notes (merge_steps xs ts) stage id ↔ (Notes ts stage id ⊎ Notes xs stage id)
  unfolding merge_steps
  Notes-merge_steps [] ts = ground arith
  Notes-merge_steps (x ∷ xs) ts =
      ground (arith, Notes-merge_steps xs (merge_step x ts), Notes-merge_step x ts)

  Notes-insert_by :
      (cmp : LifecyclePathStep → LifecyclePathStep → Ordering) (x : LifecyclePathStep)
      (ts : List LifecyclePathStep)
      → Notes (insert_by cmp x ts) stage id ↔ Notes (x ∷ ts) stage id
  unfolding insert_by
  Notes-insert_by cmp x [] = ground arith
  Notes-insert_by cmp x (t ∷ ts) = ground (arith, Notes-insert_by cmp x ts)

  Notes-sort_by :
      (cmp : LifecyclePathStep → LifecyclePathStep → Ordering) (ts : List LifecyclePathStep)
      → Notes (sort_by cmp ts) stage id ↔ Notes ts stage id
  unfolding sort_by
  Notes-sort_by cmp [] = ground arith
  Notes-sort_by cmp (t ∷ ts) =
      ground (arith, Notes-sort_by cmp ts, Notes-insert_by cmp t (sort_by cmp ts))

  Notes-sort_step :
      (ts : List LifecyclePathStep) → Notes (map sort_step ts) stage id ↔ Notes ts stage id
  unfolding sort_step
  Notes-sort_step [] = ground arith
  Notes-sort_step (t ∷ ts) = ground (arith, Notes-sort_step ts, IsIn-sort_ids id t.evidence_ids)

  pub Notes-sorted :
      (ts : List LifecyclePathStep)
      → Notes (sort_by compare_stage (map sort_step ts)) stage id ↔ Notes ts stage id
  Notes-sorted ts =
      ground (arith, Notes-sort_by compare_stage (map sort_step ts), Notes-sort_step ts)

module _ (artifacts : ArtifactMap) (evidence : EvidenceMap) where
  -- The ids and the steps of a path whose metadata are set anew.
  pub refresh_fields :
      (p : LifecyclePath)
      → ((refresh_path_metadata artifacts evidence p).artifact_ids ≡ sort_ids p.artifact_ids)
        × ((refresh_path_metadata artifacts evidence p).stages
            ≡ sort_by compare_stage (map sort_step p.stages))
  unfolding refresh_path_metadata sort_path set_metadata
  refresh_fields p = elim (Option-cases (artifact_for_path_with_lookup artifacts (sort_path p))) [
    | inl missing ↦ rw (missing, refresh_path_metadata) (refl, refl)
    | inr (a, found) ↦ rw (found, refresh_path_metadata) (refl, refl)
  ]

  pub IsIn-refresh :
      (p : LifecyclePath) (a : ArtifactId)
      → IsIn a (refresh_path_metadata artifacts evidence p).artifact_ids ↔ IsIn a p.artifact_ids
  IsIn-refresh p a = rw ((refresh_fields p).0) (IsIn-sort_ids a p.artifact_ids)

  pub Notes-refresh :
      (p : LifecyclePath) (s : LifecycleStage) (e : EvidenceId)
      → Notes (refresh_path_metadata artifacts evidence p).stages s e ↔ Notes p.stages s e
  Notes-refresh p s e = rw ((refresh_fields p).1) (Notes-sorted s e p.stages)

-- A merged path records what either path notes, for the artifacts of either.
module _ (source target : LifecyclePath) where
  pub IsIn-merge_path :
      (a : ArtifactId)
      → IsIn a (merge_path source target).artifact_ids
        ↔ (IsIn a target.artifact_ids ⊎ IsIn a source.artifact_ids)
  unfolding merge_path
  IsIn-merge_path a = IsIn-append a target.artifact_ids source.artifact_ids

  pub Notes-merge_path :
      (s : LifecycleStage) (e : EvidenceId)
      → Notes (merge_path source target).stages s e
        ↔ (Notes target.stages s e ⊎ Notes source.stages s e)
  unfolding merge_path
  Notes-merge_path s e = Notes-merge_steps s e source.stages target.stages
