-- ===== src/Authz/Facts.antt =====
-- control/sjg_control/authz.py: the facts that `authorize` is given, and the sets its rules read.
use scrum_jail_governance_pl.Base.{
  ℕ, String, ◌==◌, Bool, false, not, ◌&&◌, Option, none, some, List, [], ◌∷◌, if◌then◌else◌, mem,
  is_some,
}
use scrum_jail_governance_pl.Policy.{OrganizationPolicy, find_role}

-- class Facts; none is None
pub record Facts : Type 0 where
  pub complete : Bool
  pub issue_kind : Option String
  pub parent_kind : Option String
  pub owner_role : Option String
  pub current_stage : Option String
  pub has_open_children : Option Bool
  pub evidence_valid : Option Bool
  pub pr_head_role : Option String
  pub pr_open : Option Bool
  pub managed_by_monitor : Bool

-- Facts(complete=...)
abbrev pub bare_facts : Bool → Facts
bare_facts complete = record {
  complete = complete;
  issue_kind = none;
  parent_kind = none;
  owner_role = none;
  current_stage = none;
  has_open_children = none;
  evidence_valid = none;
  pr_head_role = none;
  pr_open = none;
  managed_by_monitor = false;
}

abbrev pub orchestrator : String
orchestrator = "project-orchestrator"

abbrev pub independent_review_roles : List String
independent_review_roles =
    orchestrator ∷ "commercial-planner" ∷ "governance-reviewer" ∷ "policy-reviewer" ∷ []

abbrev pub terminal_stages : List String
terminal_stages = "Done" ∷ "Dropped" ∷ []

abbrev pub holding_stages : List String
holding_stages = "Blocked" ∷ "On Hold" ∷ []

-- STAGE_ORDER
unfoldable pub stage_order : String → Option ℕ
stage_order stage =
    if stage == "Todo"
    then some 0
    else if stage == "In Progress"
    then some 1
    else if stage == "Awaiting Merge"
    then some 2
    else if stage == "Demo"
    then some 3
    else if stage == "Awaiting Deploy"
    then some 4
    else none

abbrev pub delivery_roles : List String
delivery_roles = "commercial-planner" ∷ "software-implementer" ∷ "policy-reviewer" ∷ []

-- role in policy.roles
abbrev pub has_role : OrganizationPolicy → String → Bool
has_role policy role = is_some (find_role policy role)

-- `value is True`, `value is False`, and a nullable text in a set
abbrev pub is_true : Option Bool → Bool
is_true none = false
is_true (some b) = b

abbrev pub is_false : Option Bool → Bool
is_false none = false
is_false (some b) = not b

abbrev pub among : Option String → List String → Bool
among none names = false
among (some name) names = mem name names

abbrev pub is_delivery : OrganizationPolicy → String → Bool
is_delivery policy role = has_role policy role && mem role delivery_roles
