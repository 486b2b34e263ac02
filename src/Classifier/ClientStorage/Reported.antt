-- ===== src/Classifier/ClientStorage/Reported.antt =====
-- The findings of `classify` of client_storage.rs against the evidence of the report.
use session_scope.Common.{
  ◌≡◌, refl, ap, subst, sym, Bool, true, some, List, [], ◌∷◌, map, string_eq, contains, Bool-cases,
  inl, inr,
}
use session_scope.Common.Lists.{All, IsIn-All, All-IsIn, IsIn, collect, IsIn-collect}
use session_scope.Common.Sets.{insert}
use session_scope.Common.FirstBy.{
  first_by, HasDistinctKeys, first_by-HasDistinctKeys, first_by-Complete, first_by-IsIn,
}
use session_scope.Model.Evidence.{Evidence}
use session_scope.Model.Finding.{Finding, FindingId}
use session_scope.Model.Report.{ScanReport}
use session_scope.Classifier.ClientStorage.Classify.{
  finding_of, dedupe_from, dedupe_findings, classify,
}

abbrev pub id_of : Finding → FindingId
id_of f = f.id

abbrev every : Finding → Bool
every f = true

dedupe_from-first_by :
    (fs : List Finding) (seen : List FindingId) → dedupe_from seen fs ≡ first_by id_of every fs seen
unfolding dedupe_from first_by insert
dedupe_from-first_by [] seen = refl
dedupe_from-first_by (f ∷ fs) seen = elim (Bool-cases (contains seen f.id)) [
  | inl old ↦ rw old (dedupe_from-first_by fs seen)
  | inr new ↦ rw new (ap (λ l. f ∷ l) (dedupe_from-first_by fs (f.id ∷ seen)))
]

-- No two findings of `classify` have the same id, each is the finding of some evidence of the
-- report, and for each evidence of the report that has a finding there is one with its id.
pub classify-evidence :
    (report : ScanReport)
    → HasDistinctKeys id_of (classify report)
      × All
          (λ f. (e : Evidence) × IsIn e report.evidence × (finding_of report e ≡ some f))
          (classify report)
      × All
          (λ e.
            (f : Finding)
            → finding_of report e ≡ some f
            → contains (map id_of (classify report)) f.id ≡ true)
          report.evidence
unfolding classify dedupe_findings
classify-evidence report =
    let fs = collect (finding_of report) report.evidence in
    let out = first_by id_of every fs [] in
    let same : classify report ≡ out = dedupe_from-first_by fs [] in
    let complete = first_by-Complete id_of every fs [] in
    (
      subst (HasDistinctKeys id_of) (sym same) (first_by-HasDistinctKeys id_of every fs []),
      subst (All _) (sym same) (
          IsIn-All _ out (λ f m.
            (IsIn-collect (finding_of report) f report.evidence).0
              (first_by-IsIn id_of every fs [] f m))),
      IsIn-All _ report.evidence (λ e m f h.
          let found = (IsIn-collect (finding_of report) f report.evidence).1 (e, m, h) in
          subst (λ l. contains (map id_of l) f.id ≡ true) (sym same)
            (All-IsIn _ f fs complete found refl)),
    )
