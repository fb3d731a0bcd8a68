-- ===== src/Policy/Roles.antt =====
-- control/sjg_control/policy.py: the agents of an organization, in `compile_policy`.
use Prim.Native.String.{◌++◌}
use scrum_jail_governance_pl.Base.{
  String, ◌==◌, Bool, true, false, not, ◌&&◌, ◌||◌, List, [], ◌∷◌, if◌then◌else◌, ℤ, pos, negsuc,
  not_positive, is_negative, to_ℕ, is_some, ltb, eqb, mem, subset, same_texts,
}
use scrum_jail_governance_pl.Json.{Value, Arguments, items, Items, text, get, text_or, as_object}
use scrum_jail_governance_pl.Policy.{RolePolicy}
use scrum_jail_governance_pl.Base.Raising.{made, ◌>>=◌, ◌>>◌, require_as, or_crash}
use scrum_jail_governance_pl.Policy.Checked.{
  Checked, unknown_role, require, exact_keys, int_or_zero, set_of,
}
use scrum_jail_governance_pl.Authz.Patterns.{Platform, strip}

abbrev pub required_roles : List String
required_roles =
    "project-orchestrator" ∷ "commercial-planner" ∷ "software-implementer" ∷ "governance-reviewer"
    ∷ []

-- EXECUTING_ROLES
abbrev pub executing_roles : List String
executing_roles = "policy-reviewer" ∷ required_roles

-- The types of workers that each role has.
unfoldable pub expected_workers : String → List String
expected_workers role =
    if mem role ("commercial-planner" ∷ "policy-reviewer" ∷ [])
    then "drafter" ∷ "researcher" ∷ []
    else if role == "software-implementer"
    then "drafter" ∷ "implementer" ∷ "researcher" ∷ []
    else []

unfoldable pub expected_repositories : String → List String
expected_repositories role =
    if role == "software-implementer" then "org" ∷ "product" ∷ [] else "org" ∷ []

abbrev pub is_zero : ℤ → Bool
is_zero (pos n) = eqb n 0
is_zero (negsuc n) = false

-- a > b
abbrev pub exceeds : ℤ → ℤ → Bool
exceeds (pos a) (pos b) = ltb b a
exceeds (pos a) (negsuc b) = true
exceeds (negsuc a) (pos b) = false
exceeds (negsuc a) (negsuc b) = ltb a b

abbrev is_nil : List String → Bool
is_nil [] = true
is_nil (t ∷ ts) = false

-- bool(allowed) == bool(number)
abbrev pub agrees : List String → ℤ → Bool
agrees types n = if is_nil types then is_zero n else not (is_zero n)

abbrev pub role_in : Arguments → String
role_in fields = strip (text_or (get "id" fields) "")

abbrev pub role_row : String → List String × ℤ × ℤ → List String × ℤ → RolePolicy
role_row role workers scope = record {
  role = role;
  worker_types = workers.0;
  max_workers_per_wake = to_ℕ workers.1;
  max_workers_concurrent = to_ℕ workers.2;
  repositories = scope.0;
  daily_token_budget = to_ℕ scope.1;
}

abbrev org_only : Value
org_only = items (Items.cons (text "org") Items.nil) "['org']"

-- The first checks, of the role itself.
unfoldable pub check_identity : List String → String → Checked Unit
check_identity seen role = do
  require_as (mem role executing_roles) (unknown_role role)
  require (not (mem role seen)) ("duplicate role: " ++ role)

-- The workers: their types, and the numbers maxPerWake and maxConcurrent.
unfoldable pub workers_of : Platform → String → Arguments → Checked (List String × ℤ × ℤ)
workers_of platform role fields = do
  workers ←
      exact_keys (get "workers" fields) ("allowed" ∷ "maxPerWake" ∷ "maxConcurrent" ∷ [])
        (role ++ ".workers")
  types ← set_of (get "allowed" workers) (items Items.nil "[]")
  require (subset types ("researcher" ∷ "drafter" ∷ "implementer" ∷ []))
      (role ++ ": unknown worker type")
  per_wake ← or_crash (int_or_zero platform (get "maxPerWake" workers))
  concurrent ← or_crash (int_or_zero platform (get "maxConcurrent" workers))
  require
      (not (is_negative per_wake || is_negative concurrent) && not (exceeds concurrent per_wake))
      (role ++ ": invalid worker limits")
  require (agrees types per_wake && agrees types concurrent)
      (role ++ ": worker types and nonzero limits must be declared together")
  require (same_texts types (expected_workers role))
      (role ++ ": worker capabilities differ from the canonical role")
  made (types, per_wake, concurrent)

-- The repositories and the budget, within the organization's.
unfoldable pub scope_of : Platform → ℤ → String → Arguments → Checked (List String × ℤ)
scope_of platform budget role fields = do
  aliases ← set_of (get "repositories" fields) org_only
  require (same_texts aliases (expected_repositories role))
      (role ++ ": repository scope differs from the canonical role")
  tokens ← or_crash (int_or_zero platform (get "dailyTokenBudget" fields))
  require (not (not_positive tokens) && not (exceeds tokens budget))
      (role ++ ": dailyTokenBudget must be positive and within the organization budget")
  made (aliases, tokens)

-- One turn of the loop over the agents; `seen` are the roles before it.
unfoldable pub compile_role : Platform → ℤ → List String → Value → Checked RolePolicy
compile_role platform budget seen raw = do
  require (is_some (as_object raw)) "each agent must be a mapping"
  fields ← exact_keys raw ("id" ∷ "repositories" ∷ "dailyTokenBudget" ∷ "workers" ∷ []) "agent"
  check_identity seen (role_in fields)
  workers ← workers_of platform (role_in fields) fields
  scope ← scope_of platform budget (role_in fields) fields
  made (role_row (role_in fields) workers scope)

-- The loop, in order.
unfoldable pub compile_roles : Platform → ℤ → List String → List Value → Checked (List RolePolicy)
compile_roles platform budget seen [] = made []
compile_roles platform budget seen (raw ∷ rest) = do
  row ← compile_role platform budget seen raw
  rows ← compile_roles platform budget (row.role ∷ seen) rest
  made (row ∷ rows)
