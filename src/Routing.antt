-- ===== src/Routing.antt =====
-- control/sjg_control/routing.py: which role an event wakes. Rules are tried in order; a rule that
-- wakes "from-label" takes the role that the labels name, if they name exactly one.
pub mod Choice
pub mod Normal
pub mod Rules
use scrum_jail_governance_pl.Base.{
  String, ◌==◌, Bool, true, false, not, ◌&&◌, ◌||◌, Option, none, some, List, [], ◌∷◌,
  if◌then◌else◌, mem, is_text, sorted_set, strip_prefix,
}

-- `match` is a dict: its items in order.
pub record WakeRule : Type 0 where
  pub conditions : List (String × String)
  pub wake : String

pub record RoutedEvent : Type 0 where
  pub kind : String
  pub repository : String
  pub labels : List String
  pub workflow : Option String
  pub conclusion : Option String
  pub pr_state : Option String

-- values.get(field)
abbrev pub value_of : RoutedEvent → String → Option String
value_of event field =
    if field == "kind"
    then some event.kind
    else if field == "repo"
    then some event.repository
    else if field == "workflow"
    then event.workflow
    else if field == "conclusion"
    then event.conclusion
    else if field == "pr_state"
    then event.pr_state
    else none

abbrev pub holds : RoutedEvent → String × String → Bool
holds event (field, expected) =
    if field == "label" then mem expected event.labels else is_text (value_of event field) expected

-- The inner loop, which breaks at the first condition that fails.
unfoldable pub matches : RoutedEvent → List (String × String) → Bool
matches event [] = true
matches event (condition ∷ rest) = holds event condition && matches event rest

-- {label.removeprefix("role:") for label in labels if ... in policy.roles}
unfoldable pub role_names : List String → List String → List String
role_names roles [] = []
role_names roles (label ∷ labels) =
    let rest = role_names roles labels in
    elim (strip_prefix "role:" label) [
      | none ↦ rest
      | some role ↦ if mem role roles then role ∷ rest else rest
    ]

abbrev pub only : List String → Option String
only (role ∷ []) = some role
only _ = none

abbrev pub role_of_labels : List String → List String → Option String
role_of_labels roles labels = only (sorted_set (role_names roles labels))

-- `roles` are the keys of policy.roles.
unfoldable pub route_event : RoutedEvent → List WakeRule → List String → Option String
route_event event [] roles = none
route_event event (rule ∷ rules) roles =
    let rest = route_event event rules roles in
    if not (matches event rule.conditions)
    then rest
    else if not (rule.wake == "from-label")
    then some rule.wake
    else role_of_labels roles event.labels
