-- ===== src/Classifier/SessionFixation/Build.antt =====
-- `fixation_finding`: the finding of a transition and the stores near it.
use Prim.Native.String.{compare as compare_text}
use session_scope.Common.{
  ℕ, String, Bool, true, false, ◌||◌, Option, none, some, List, [], ◌∷◌, ◌++◌, map, ◌==◌, string_eq,
  if◌then◌else◌,
}
use session_scope.Common.Lists.{find, head?, flat_map}
use session_scope.Common.Sorting.{sort_by, dedup}
use session_scope.Common.Text.{join, decimal}
use session_scope.Model.Finding.{Finding, FindingCategory, Severity}
use session_scope.Model.Artifact.{Artifact}
use session_scope.Model.Schema.{stable_finding_id}
use session_scope.Classifier.SessionFixation.Records.{FixationRecord}

abbrev is_known_framework : String → Bool
is_known_framework hint =
    hint == "express" || hint == "cookie-session" || hint == "django" || hint == "nextjs"

abbrev or_text : Option String → String → String
or_text none s = s
or_text (some t) s = t

unfoldable pub framework_for : Artifact → List FixationRecord → String
framework_for artifact stores =
    or_text
      (find is_known_framework (
        artifact.framework_hints
        ++ flat_map (λ (r : FixationRecord). r.artifact.framework_hints) stores))
      (or_text (head? artifact.framework_hints) "session")

unfoldable pub suggested_fix_for_framework : String → String
suggested_fix_for_framework framework =
    if framework == "express"
    then "Regenerate the server-side session with req.session.regenerate(...) after authentication and privilege changes before storing the authenticated user state."
    else if framework == "cookie-session"
    then "Clear and reissue the signed session cookie, or document the framework-specific point where the session identifier is rotated after the transition."
    else if framework == "django"
    then "Use Django login(request, user), auth_login(request, user), or request.session.cycle_key() in the transition path so session rotation is visible."
    else if framework == "nextjs"
    then "In a Next.js App Router route handler, call cookies().delete('session') followed immediately by cookies().set('session', newValue, options) at the authentication or privilege transition so cookie rotation is source-visible."
    else "Identify the framework's session rotation primitive and call it during authentication and privilege transitions."

abbrev title_for : Bool → String
title_for true = "Session regeneration evidence was not found near a privilege transition"
title_for false = "Session regeneration evidence was not found near login"

abbrev description_for : Bool → String
description_for true =
    "A privilege-changing session transition was detected, but nearby static evidence did not show an explicit session regeneration, cookie reissue, or recognized framework-default rotation point."
description_for false =
    "An authentication transition was detected, but nearby static evidence did not show an explicit session regeneration, cookie reissue, or recognized framework-default rotation point."

abbrev question_for : Bool → String
question_for true = "Where is the session identifier rotated after this privilege change?"
question_for false = "Where is the session identifier rotated after this authentication transition?"

abbrev rule_for : Bool → String
rule_for true = "session_fixation_privilege_regeneration_review"
rule_for false = "session_fixation_login_regeneration_review"

unfoldable pub line_text : Option ℕ → String
unfolding decimal
line_text none = "unknown"
line_text (some line) = decimal line

unfoldable pub fixation_finding : FixationRecord → List FixationRecord → String → Finding
unfolding line_text sort_by dedup join framework_for suggested_fix_for_framework stable_finding_id
fixation_finding transition stores transition_kind =
    let privilege = transition_kind == "privilege" in
    let evidence_ids = dedup (
      sort_by compare_text
        (transition.evidence.id ∷ map (λ (r : FixationRecord). r.evidence.id) stores)) in
    let artifact_ids = dedup (
      sort_by compare_text
        (transition.artifact.id ∷ map (λ (r : FixationRecord). r.artifact.id) stores)) in
    record {
      id = stable_finding_id (
          rule_for privilege
          ∷ transition.evidence.location.path
          ∷ line_text transition.evidence.location.line
          ∷ join "|" evidence_ids
          ∷ transition.evidence.detector_id
          ∷ []);
      category = FindingCategory.dynamic_review_required;
      severity = Severity.medium;
      artifact_ids = artifact_ids;
      evidence_ids = evidence_ids;
      title = title_for privilege;
      description = description_for privilege;
      suggested_fix = some (suggested_fix_for_framework (framework_for transition.artifact stores));
      reviewer_question = some (question_for privilege);
    }
