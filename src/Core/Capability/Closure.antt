-- ===== src/Core/Capability/Closure.antt =====
-- The sets of `filter_report` only grow, and what a kept finding names stays in the report.
use session_scope.Common.{
  String, ◌≡◌, ◌∙◌, ap, eq_self, Bool, true, false, List, [], ◌∷◌, map, arith, string_eq, contains,
  if◌then◌else◌, inl, inr,
}
use session_scope.Common.Lists.{keep, All, IsIn, IsIn-keep, IsIn-All}
use session_scope.Common.Sets.{insert, extend, contains-insert, contains-extend}
use session_scope.Model.Evidence.{Evidence}
use session_scope.Model.Finding.{Finding}
use session_scope.Model.Artifact.{Artifact}
use session_scope.Model.Report.{LifecyclePath, ScanReport}
use session_scope.Core.Capability.Matching.{
  CapabilityArea, artifact_matches, evidence_matches, artifact_evidence_ids,
  collect_artifact_evidence, artifact_has_evidence, path_matches,
}
use session_scope.Core.Capability.Filter.{
  Kept, seed, add_artifacts, add_evidence, stage_evidence, add_paths, add_findings, gathered,
  kept_findings, kept_ids, filter_report,
}

abbrev pub Subset : List String → List String → Type 0
Subset s t = (x : String) → contains s x ≡ true → contains t x ≡ true

Subset-extend : (s xs : List String) → Subset s (extend s xs)
Subset-extend s xs x h = ground (arith, contains-extend s xs x)

Subset-insert : (s : List String) (a : String) → Subset s (insert a s)
Subset-insert s a x h = ground (arith, contains-insert a x s)

abbrev pub Below : Kept → Kept → Type 0
Below k l = Subset k.artifact_ids l.artifact_ids × Subset k.evidence_ids l.evidence_ids

Below-refl : (k : Kept) → Below k k
Below-refl k = (λ x h. h, λ x h. h)

Below-trans : (k l m : Kept) → Below k l → Below l m → Below k m
Below-trans k l m p q = (λ x h. q.0 x (p.0 x h), λ x h. q.1 x (p.1 x h))

Below-if : (b : Bool) (k l m : Kept) → Below k l → Below k m → Below k (if b then l else m)
Below-if true k l m p q = p
Below-if false k l m p q = q

add_artifacts-Below : (as' : List Artifact) (k : Kept) → Below k (add_artifacts as' k)
unfolding add_artifacts
add_artifacts-Below [] k = Below-refl k
add_artifacts-Below (a ∷ as') k =
    Below-trans k _ _
      (Below-if (artifact_has_evidence a k.evidence_ids) k _ k
        (Subset-insert k.artifact_ids a.id, λ x h. h) (Below-refl k))
      (add_artifacts-Below as' _)

add_evidence-Below :
    (area : CapabilityArea) (as' : List Artifact) (k : Kept) → Below k (add_evidence area as' k)
unfolding add_evidence collect_artifact_evidence
add_evidence-Below area [] k = Below-refl k
add_evidence-Below area (a ∷ as') k =
    Below-trans k _ _
      (Below-if (contains k.artifact_ids a.id) k _ k
        (λ x h. h, Subset-extend k.evidence_ids (artifact_evidence_ids area a)) (Below-refl k))
      (add_evidence-Below area as' _)

add_paths-Below :
    (area : CapabilityArea) (ps : List LifecyclePath) (k : Kept) → Below k (add_paths area ps k)
unfolding add_paths
add_paths-Below area [] k = Below-refl k
add_paths-Below area (p ∷ ps) k =
    Below-trans k _ _
      (Below-if (path_matches p k.artifact_ids k.evidence_ids) k _ k
        (
          Subset-extend k.artifact_ids p.artifact_ids,
          Subset-extend k.evidence_ids (stage_evidence area p.stages),
        )
        (Below-refl k))
      (add_paths-Below area ps _)

add_findings-Below : (fs : List Finding) (k : Kept) → Below k (add_findings fs k)
unfolding add_findings
add_findings-Below [] k = Below-refl k
add_findings-Below (f ∷ fs) k =
    Below-trans k _ _
      (Subset-extend k.artifact_ids f.artifact_ids, Subset-extend k.evidence_ids f.evidence_ids)
      (add_findings-Below fs _)

-- All ids of each finding are in the sets at the end.
add_findings-names :
    (fs : List Finding) (k : Kept) (f : Finding)
    → IsIn f fs
    → Below
        (record { artifact_ids = f.artifact_ids; evidence_ids = f.evidence_ids })
        (add_findings fs k)
unfolding add_findings
add_findings-names [] k f m = elim m [ ]
add_findings-names (g ∷ gs) k f (inl e) =
    let later = add_findings-Below gs (record {
      artifact_ids = extend k.artifact_ids g.artifact_ids;
      evidence_ids = extend k.evidence_ids g.evidence_ids;
    }) in
    rw e (
      λ x h. later.0 x (ground (arith, contains-extend k.artifact_ids g.artifact_ids x)),
      λ x h. later.1 x (ground (arith, contains-extend k.evidence_ids g.evidence_ids x)),
    )
add_findings-names (g ∷ gs) k f (inr m) = add_findings-names gs _ f m

seed-kept_ids-Below :
    (area : CapabilityArea) (report : ScanReport) → Below (seed area report) (kept_ids area report)
unfolding gathered kept_ids
seed-kept_ids-Below area report =
    let k = seed area report in
    let k1 = add_artifacts report.artifacts k in
    let k2 = add_evidence area report.artifacts k1 in
    Below-trans k k1 _ (add_artifacts-Below report.artifacts k) (
      Below-trans k1 k2 _ (add_evidence-Below area report.artifacts k1) (
        Below-trans k2 _ _ (add_paths-Below area report.lifecycle_paths k2)
          (add_findings-Below (kept_findings area report) (gathered area report))))

-- A finding that `filter_report` keeps is a finding of the report, and every artifact and all
-- evidence of the report that the finding names by id is kept with it.
pub filter_report-IsClosed :
    (report : ScanReport) (area : CapabilityArea) (f : Finding)
    → IsIn f (filter_report report area).findings
    → IsIn f report.findings
      × All
          (λ (a : Artifact).
            contains f.artifact_ids a.id ≡ true → IsIn a (filter_report report area).artifacts)
          report.artifacts
      × All
          (λ (e : Evidence).
            contains f.evidence_ids e.id ≡ true → IsIn e (filter_report report area).evidence)
          report.evidence
unfolding filter_report kept_ids
filter_report-IsClosed report area f m =
    let named = add_findings-names (kept_findings area report) (gathered area report) f m in
    (
      ((IsIn-keep _ f report.findings).0 m).0,
      IsIn-All _ report.artifacts (λ a i h. (IsIn-keep _ a report.artifacts).1 (i, named.0 a.id h)),
      IsIn-All _ report.evidence (λ e i h. (IsIn-keep _ e report.evidence).1 (i, named.1 e.id h)),
    )

module _ {A : Type 0} (id : A → String) where
  contains-map : (b : A) (bs : List A) → IsIn b bs → contains (map id bs) (id b) ≡ true
  contains-map b [] i = elim i [ ]
  contains-map b (c ∷ cs) (inl e) = ground (arith, ap id e, eq_self (id b))
  contains-map b (c ∷ cs) (inr i) = ground (arith, contains-map b cs i)

  -- The id of a kept element is in the set of the ids of those kept.
  contains-extend-map :
      (p : A → Bool) (a : A) (as' : List A)
      → IsIn a as'
      → p a ≡ true
      → contains (extend [] (map id (keep p as'))) (id a) ≡ true
  contains-extend-map p a as' m h =
      contains-extend [] (map id (keep p as')) (id a)
      ∙ contains-map a (keep p as') ((IsIn-keep p a as').1 (m, h))

-- Every artifact and all evidence of the report that match the area are kept by `filter_report`.
pub filter_report-keeps :
    (report : ScanReport) (area : CapabilityArea)
    → All
        (λ (a : Artifact).
          artifact_matches area a ≡ true → IsIn a (filter_report report area).artifacts)
        report.artifacts
      × All
          (λ (e : Evidence).
            evidence_matches area e ≡ true → IsIn e (filter_report report area).evidence)
          report.evidence
unfolding filter_report seed
filter_report-keeps report area =
    let later = seed-kept_ids-Below area report in
    (
      IsIn-All _ report.artifacts (λ a i h.
          (IsIn-keep _ a report.artifacts).1 (
            i,
            later.0 a.id (contains-extend-map _ (artifact_matches area) a report.artifacts i h),
          )),
      IsIn-All _ report.evidence (λ e i h.
          (IsIn-keep _ e report.evidence).1 (
            i,
            later.1 e.id (contains-extend-map _ (evidence_matches area) e report.evidence i h),
          )),
    )
