-- ===== src/Examples/Routes.antt =====
-- Routing and reconciliation on concrete rules and observations.
use scrum_jail_governance_pl.Base.{
  ◌≤◌, ◌==◌, if◌then◌else◌, arith, String, true, Option, none, some, List, [], ◌∷◌, ◌≡◌, refl, mem,
  strip_prefix,
}
use scrum_jail_governance_pl.Base.Table.{select}
use scrum_jail_governance_pl.Base.Text.{sorted_set}
use scrum_jail_governance_pl.Routing.{
  WakeRule, RoutedEvent, role_of_labels, role_names, matches, route_event,
}
use scrum_jail_governance_pl.Routing.Choice.{
  fits, target, AreTargets, route_event-select, route_event-mem, role_of_labels_unique,
}
use scrum_jail_governance_pl.Governance.{
  Truth, Observation, ManagedState, proved_absent, proved_present, from_to, PlannedOperation, plan,
}
use scrum_jail_governance_pl.Governance.Convergence.{
  Standing, View, complete, partial, complete_count, full, passes, IsRemote, passes_converge,
}

abbrev seen : Truth → Option String → Observation
seen truth value = record { truth = truth; complete = true; value = value }

-- A remote side that opens an issue at the first stage, and refuses what does not fit.
abbrev remote : PlannedOperation → Standing → Standing
remote op none = if op.operation == "create" then some (some "Todo") else none
remote op (some at) = if op.operation == "close" then none else elim op.precondition [
  | proved_absent ↦ some at
  | proved_present ↦ some at
  | from_to old new ↦ some new
]

remote-IsRemote : IsRemote remote "conflict-1"
remote-IsRemote = record {
  creates = (some "Todo", refl);
  closes = λ at. refl;
  moves = λ at to. refl;
}

abbrev unseen : ManagedState
unseen = record {
  source_key = "conflict-1";
  present = seen Truth.unknown none;
  qualifies = seen Truth.holds none;
  current_stage = seen Truth.holds none;
  desired_stage = seen Truth.holds (some "queue");
}

abbrev views : List View
views = complete ∷ partial unseen refl ∷ complete ∷ []

two_complete : 2 ≤ complete_count views
unfolding complete_count
two_complete = omega arith

passes_converge_example :
    (passes remote "conflict-1" true (some "queue") views none ≡ some (some "queue"))
    × (plan (
          full "conflict-1" true
            (some "queue")
            (passes remote "conflict-1" true (some "queue") views none))
        ≡ [])
passes_converge_example =
    passes_converge remote "conflict-1" remote-IsRemote (some "queue") true views none two_complete

abbrev roles : List String
roles = "commercial-planner" ∷ "software-implementer" ∷ []

abbrev labelled : RoutedEvent
labelled = record {
  kind = "issue";
  repository = "org";
  labels = "bug" ∷ "role:software-implementer" ∷ [];
  workflow = none;
  conclusion = none;
  pr_state = none;
}

abbrev rules : List WakeRule
rules =
    record { conditions = ("kind", "run") ∷ []; wake = "commercial-planner" }
    ∷ record { conditions = ("kind", "issue") ∷ ("label", "bug") ∷ []; wake = "from-label" }
    ∷ []

routed : route_event labelled rules roles ≡ some "software-implementer"
unfolding route_event matches role_names strip_prefix mem sorted_set
routed = refl

by_label : role_of_labels roles labelled.labels ≡ some "software-implementer"
unfolding role_names strip_prefix mem sorted_set
by_label = refl

fine_rules : AreTargets roles rules
unfolding mem
fine_rules = (refl, (refl, tt))

route_event-select_example :
    route_event labelled rules roles ≡ target roles labelled.labels (select (fits labelled) rules)
route_event-select_example = route_event-select labelled rules roles

route_event-mem_example : mem "software-implementer" roles ≡ true
route_event-mem_example =
    route_event-mem labelled rules roles "software-implementer" fine_rules routed

has_label : mem "role:software-implementer" labelled.labels ≡ true
unfolding mem
has_label = refl

names_role : strip_prefix "role:" "role:software-implementer" ≡ some "software-implementer"
unfolding strip_prefix
names_role = refl

known_role : mem "software-implementer" roles ≡ true
unfolding mem
known_role = refl

abbrev named : String
named = "software-implementer"

role_of_labels_unique_example : named ≡ "software-implementer"
role_of_labels_unique_example =
    role_of_labels_unique roles labelled.labels "software-implementer" "role:software-implementer"
      "software-implementer" by_label has_label names_role known_role
