-- ===== src/Classifier/SessionFixation/Classify.antt =====
-- `classify` of session_fixation.rs: one finding for each place of a transition without a regeneration.
use session_scope.Common.{
  ℕ, String, ◌&&◌, Option, none, some, List, [], ◌∷◌, ◌++◌, ◌==◌, string_eq, string_dec, nat_dec,
  Eq, contains, if◌then◌else◌,
}
use session_scope.Common.Lists.{keep}
use session_scope.Common.Sets.{insert}
use session_scope.Model.Finding.{Finding}
use session_scope.Model.Report.{ScanReport}
use session_scope.Classifier.SessionFixation.Records.{
  FixationRecord, fixation_records, is_transition_evidence, is_regeneration_evidence, nearby,
}
use session_scope.Classifier.SessionFixation.Regeneration.{has_nearby_regeneration}
use session_scope.Classifier.SessionFixation.Build.{fixation_finding}

abbrev pub Place : Type 0
Place = String × String × ℕ

unfoldable pub Place-discrete : Discrete Place
Place-discrete = hlevel (string_dec, nat_dec)

instance abbrev pub place_eq : Eq Place
place_eq = record { dec = Place-discrete }

abbrev pub transition_kind : FixationRecord → String
transition_kind t =
    if t.evidence.detector_id == "session.privilege_transition" then "privilege" else "auth"

abbrev or_default : Option ℕ → ℕ
or_default none = 0
or_default (some n) = n

abbrev pub place : FixationRecord → Place
place t = (transition_kind t, t.evidence.location.path, or_default t.evidence.location.line)

module _ (records transitions regenerations : List FixationRecord) where
  unfoldable pub nearby_stores : FixationRecord → List FixationRecord
  unfolding nearby
  nearby_stores t =
      keep
        (λ (r : FixationRecord).
          r.evidence.detector_id == "session.store_after_auth" && nearby t.evidence r.evidence)
        records

  unfoldable pub finding_of : FixationRecord → Finding
  unfolding fixation_finding nearby_stores
  finding_of t = fixation_finding t (nearby_stores t) (transition_kind t)

  -- A transition adds its finding and its place, or neither.
  unfoldable pub classify_one : FixationRecord → List Place → List Place × List Finding
  unfolding has_nearby_regeneration finding_of insert
  classify_one t seen =
      if has_nearby_regeneration t regenerations transitions
      then (seen, [])
      else if contains seen (place t)
      then (seen, [])
      else (insert (place t) seen, finding_of t ∷ [])

  unfoldable pub classify_all : List FixationRecord → List Place → List Finding
  unfolding classify_one
  classify_all [] seen = []
  classify_all (t ∷ ts) seen =
      let (seen', findings) = classify_one t seen in findings ++ classify_all ts seen'

unfoldable pub transitions_of : List FixationRecord → List FixationRecord
unfolding is_transition_evidence
transitions_of = keep (λ (r : FixationRecord). is_transition_evidence r.evidence)

unfoldable pub regenerations_of : List FixationRecord → List FixationRecord
unfolding is_regeneration_evidence
regenerations_of = keep (λ (r : FixationRecord). is_regeneration_evidence r.evidence)

unfoldable pub classify : ScanReport → List Finding
unfolding fixation_records transitions_of regenerations_of classify_all
classify report =
    let records = fixation_records report in
    let transitions = transitions_of records in
    classify_all records transitions (regenerations_of records) transitions []
