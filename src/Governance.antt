-- ===== src/Governance.antt =====
-- control/sjg_control/reconcile.py: what the reconciliation of one managed issue may do. Observations
-- are true, false or unknown; the values that they carry are stages, texts or None.
pub mod Convergence
use scrum_jail_governance_pl.Base.{
  String, ◌==◌, Bool, true, false, not, ◌&&◌, ◌||◌, Option, none, some, List, [], ◌∷◌,
  if◌then◌else◌,
}

-- TRUE, FALSE, UNKNOWN
pub data Truth : Type 0 where
  holds fails unknown : Truth

pub record Observation : Type 0 where
  pub truth : Truth
  pub complete : Bool
  pub value : Option String

pub record ManagedState : Type 0 where
  pub source_key : String
  pub present : Observation
  pub qualifies : Observation
  pub current_stage : Observation
  pub desired_stage : Observation

-- The precondition of each operation, the dict of `precondition`.
pub data Precondition : Type 0 where
  proved_absent proved_present : Precondition
  from_to : Option String → Option String → Precondition

pub record PlannedOperation : Type 0 where
  pub key : String
  pub operation : String
  pub precondition : Precondition

abbrev is_true : Truth → Bool
is_true Truth.holds = true
is_true _ = false

abbrev is_false : Truth → Bool
is_false Truth.fails = true
is_false _ = false

abbrev is_unknown : Truth → Bool
is_unknown Truth.unknown = true
is_unknown _ = false

abbrev pub same_stage : Option String → Option String → Bool
same_stage none none = true
same_stage none (some b) = false
same_stage (some a) none = false
same_stage (some a) (some b) = a == b

-- not value.complete or value.truth is Truth.UNKNOWN
abbrev pub is_open : Observation → Bool
is_open o = not o.complete || is_unknown o.truth

abbrev pub any_open : ManagedState → Bool
any_open state =
    is_open state.present
    || is_open state.qualifies
    || is_open state.current_stage
    || is_open state.desired_stage

abbrev planned : ManagedState → String → Precondition → List PlannedOperation
planned state operation precondition =
    record { key = state.source_key; operation = operation; precondition = precondition } ∷ []

unfoldable pub plan : ManagedState → List PlannedOperation
plan state =
    if any_open state
    then []
    else if is_false state.present.truth && is_true state.qualifies.truth
    then planned state "create" proved_absent
    else if is_true state.present.truth && is_false state.qualifies.truth
    then planned state "close" proved_present
    else if is_true state.present.truth
        && is_true state.qualifies.truth
        && not (same_stage state.current_stage.value state.desired_stage.value)
    then planned state "move" (from_to state.current_stage.value state.desired_stage.value)
    else []
