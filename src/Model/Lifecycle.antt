-- ===== src/Model/Lifecycle.antt =====
-- crates/sessionscope-model/src/lifecycle.rs
use session_scope.Common.{ℕ, String, List, [], ◌∷◌}
use session_scope.Common.{Eq}

pub data LifecycleStage : Type 0 where
  issue store transmit validate refresh revoke expire introspect : LifecycleStage

unfoldable pub LifecycleStage-discrete : Discrete LifecycleStage
LifecycleStage-discrete = hlevel

instance abbrev pub lifecycle_stage_eq : Eq LifecycleStage
lifecycle_stage_eq = record { dec = LifecycleStage-discrete }

-- The declaration order, by which the derived `Ord` compares.
unfoldable pub stage_rank : LifecycleStage → ℕ
stage_rank LifecycleStage.issue = 0
stage_rank LifecycleStage.store = 1
stage_rank LifecycleStage.transmit = 2
stage_rank LifecycleStage.validate = 3
stage_rank LifecycleStage.refresh = 4
stage_rank LifecycleStage.revoke = 5
stage_rank LifecycleStage.expire = 6
stage_rank LifecycleStage.introspect = 7

abbrev pub ordered : List LifecycleStage
ordered =
    LifecycleStage.issue ∷ LifecycleStage.store ∷ LifecycleStage.transmit ∷ LifecycleStage.validate
    ∷ LifecycleStage.refresh ∷ LifecycleStage.revoke ∷ LifecycleStage.expire
    ∷ LifecycleStage.introspect ∷ []

unfoldable pub stage_name : LifecycleStage → String
stage_name LifecycleStage.issue = "issue"
stage_name LifecycleStage.store = "store"
stage_name LifecycleStage.transmit = "transmit"
stage_name LifecycleStage.validate = "validate"
stage_name LifecycleStage.refresh = "refresh"
stage_name LifecycleStage.revoke = "revoke"
stage_name LifecycleStage.expire = "expire"
stage_name LifecycleStage.introspect = "introspect"
