-- ===== src/Classifier/Lifecycle/Merge/Filled.antt =====
-- Each step of a path of `link` has evidence, so that a stage of a path tells of evidence.
use session_scope.Common.{
  ◌≡◌, refl, ◌↔◌, sym, subst, true, List, [], ◌∷◌, Option, none, some, arith, inl, inr, Bool-cases,
  map, if◌then◌else◌, ◌==◌,
}
use session_scope.Common.Lists.{IsIn, All, All-IsIn, IsIn-All, IsIn-append, collect, is_empty, any}
use session_scope.Common.Sorting.{sort_by, All-sort_by}
use session_scope.Common.Distinct.{DistinctBy}
use session_scope.Model.Lifecycle.{LifecycleStage, ordered, lifecycle_stage_eq}
use session_scope.Model.Evidence.{EvidenceId}
use session_scope.Model.Artifact.{Artifact}
use session_scope.Model.Report.{LifecyclePath, LifecyclePathStep, ScanReport}
use session_scope.Classifier.Lookup.{EvidenceMap, evidence_by_id}
use session_scope.Classifier.Lifecycle.Artifacts.{lifecycle_ids_for_stage}
use session_scope.Classifier.Lifecycle.Paths.{artifact_by_id, has_stage, sort_ids}
use session_scope.Classifier.Lifecycle.Metadata.{
  step_for_stage, steps_of, new_path, sort_step, compare_stage,
}
use session_scope.Classifier.Lifecycle.Links.{merge_step, merge_steps, merge_path}
use session_scope.Classifier.Lifecycle.Merge.{sort_inside, link}
use session_scope.Classifier.Lifecycle.Merge.Records.{Notes, IsIn-sort_ids, refresh_fields}
use session_scope.Classifier.Lifecycle.Merge.Made.{updated, path_for_artifact_made}
use session_scope.Classifier.Lifecycle.Merge.Every.{link-All}
use session_scope.Classifier.Lifecycle.Merge.Linked.{HasOwner, link-Notes_iff}

-- The step has evidence.
abbrev HasEvidence : LifecyclePathStep → Type 0
HasEvidence step = (e : EvidenceId) × IsIn e step.evidence_ids

abbrev AllFilled : List LifecyclePathStep → Type 0
AllFilled steps = All HasEvidence steps

AllFilled-merge_step :
    (x : LifecyclePathStep) (ts : List LifecyclePathStep)
    → HasEvidence x
    → AllFilled ts
    → AllFilled (merge_step x ts)
unfolding merge_step
AllFilled-merge_step x [] h k = (h, tt)
AllFilled-merge_step x (t ∷ ts) h k = elim (Bool-cases (t.stage == x.stage)) [
  | inl same ↦
      rw same ((k.0.0, (IsIn-append k.0.0 t.evidence_ids x.evidence_ids).1 (inl k.0.1)), k.1)
  | inr differ ↦ rw differ (k.0, AllFilled-merge_step x ts h k.1)
]

AllFilled-merge_steps :
    (xs ts : List LifecyclePathStep) → AllFilled xs → AllFilled ts → AllFilled (merge_steps xs ts)
unfolding merge_steps
AllFilled-merge_steps [] ts h k = k
AllFilled-merge_steps (x ∷ xs) ts h k =
    AllFilled-merge_steps xs (merge_step x ts) h.1 (AllFilled-merge_step x ts h.0 k)

AllFilled-sorted :
    (ts : List LifecyclePathStep)
    → AllFilled ts
    → AllFilled (sort_by compare_stage (map sort_step ts))
AllFilled-sorted ts h = All-sort_by HasEvidence compare_stage (map sort_step ts) (each ts h)
  where
    each : (xs : List LifecyclePathStep) → AllFilled xs → AllFilled (map sort_step xs)
    each [] k = tt
    each (x ∷ xs) k =
        (unfold sort_step in (k.0.0, (IsIn-sort_ids k.0.0 x.evidence_ids).1 k.0.1), each xs k.1)

AllFilled-step :
    (t : LifecycleStage) (ids : List EvidenceId) (rest : List LifecyclePathStep)
    → AllFilled rest
    → AllFilled
        (elim (if◌then◌else◌ {A = Option LifecyclePathStep}
          (is_empty ids)
          none
          (some (record { stage = t; evidence_ids = ids }))) [
            | none ↦ rest
            | some step ↦ step ∷ rest
          ])
AllFilled-step t [] rest h = h
AllFilled-step t (x ∷ ids) rest h = ((x, inl refl), h)

AllFilled-collect :
    (a : Artifact) (ss : List LifecycleStage) → AllFilled (collect (step_for_stage a) ss)
unfolding step_for_stage
AllFilled-collect a [] = tt
AllFilled-collect a (s ∷ ss) =
    AllFilled-step s (sort_ids (lifecycle_ids_for_stage a.lifecycle_evidence s))
      (collect (step_for_stage a) ss) (AllFilled-collect a ss)

abbrev IsFilled : LifecyclePath → Type 0
IsFilled p = AllFilled p.stages

updated-IsFilled : (evidence : EvidenceMap) (a : Artifact) → IsFilled (updated evidence a)
unfolding updated new_path steps_of
updated-IsFilled evidence a =
    rw ((refresh_fields ((a.id, a) ∷ []) evidence (new_path evidence a)).1)
      (AllFilled-sorted (steps_of a) (AllFilled-collect a ordered))

link-IsFilled : (report : ScanReport) → All IsFilled (link report)
link-IsFilled report =
    let evidence = evidence_by_id report in
    link-All IsFilled report
      (IsIn-All _ report.artifacts (λ a m p h.
        subst IsFilled (sym (path_for_artifact_made evidence a p h)) (updated-IsFilled evidence a)))
      (λ x y hx hy. unfold merge_path in AllFilled-merge_steps x.stages y.stages hx hy)
      (λ p h.
        rw ((refresh_fields (artifact_by_id report) evidence p).1) (AllFilled-sorted p.stages h))
      (λ p h. unfold sort_inside in AllFilled-sorted p.stages h)

-- A filled path has a stage exactly when it notes evidence for it.
has_stage_iff :
    (p : LifecyclePath) (s : LifecycleStage)
    → IsFilled p
    → (has_stage p s ≡ true) ↔ ((e : EvidenceId) × Notes p.stages s e)
unfolding has_stage
has_stage_iff p s filled = (there p.stages filled, λ n. back p.stages n.0 n.1)
  where
    there :
        (ss : List LifecyclePathStep)
        → AllFilled ss
        → any (λ (x : LifecyclePathStep). x.stage == s) ss ≡ true
        → (e : EvidenceId) × Notes ss s e
    there [] k h = absurd (cc h)
    there (x ∷ ss) k h = elim (Bool-cases (x.stage == s)) [
      | inl here ↦ (k.0.0, inl (ground arith, k.0.1))
      | inr not_here ↦ let (e, n) = there ss k.1 (ground arith) in (e, inr n)
    ]

    back :
        (ss : List LifecyclePathStep) (e : EvidenceId)
        → Notes ss s e
        → any (λ (x : LifecyclePathStep). x.stage == s) ss ≡ true
    back [] e n = elim n [ ]
    back (x ∷ ss) e (inl n) = ground arith
    back (x ∷ ss) e (inr n) = ground (arith, back ss e n)

-- A path of `link` has a stage exactly when an artifact that it names has evidence for it.
pub has_stage-HasOwner :
    (report : ScanReport) (p : LifecyclePath) (s : LifecycleStage)
    → DistinctBy (λ (x : Artifact). x.id) report.artifacts
    → IsIn p (link report)
    → (has_stage p s ≡ true) ↔ ((e : EvidenceId) × HasOwner report p s e)
has_stage-HasOwner report p s distinct m =
    let noted = has_stage_iff p s (All-IsIn IsFilled p (link report) (link-IsFilled report) m) in
    (
      λ h. ((noted.0 h).0, (link-Notes_iff report p s (noted.0 h).0 distinct m).0 (noted.0 h).1),
      λ o. noted.1 (o.0, (link-Notes_iff report p s o.0 distinct m).1 o.1),
    )
