-- ===== src/Policy.antt =====
-- control/sjg_control/policy.py: the compiled policy of an organization.
pub mod Checked
pub mod Roles
pub mod Compile
pub mod Canonical
pub mod Delegation
use scrum_jail_governance_pl.Base.{ℕ, String, ◌==◌, Option, List, [], ◌∷◌}
use scrum_jail_governance_pl.Base.Table.{select}

pub record Repository : Type 0 where
  pub alias : String
  pub slug : String
  pub default_branch : String

-- Sets are lists; the numbers are those that `compile_policy` lets through.
pub record RolePolicy : Type 0 where
  pub role : String
  pub worker_types : List String
  pub max_workers_per_wake : ℕ
  pub max_workers_concurrent : ℕ
  pub repositories : List String
  pub daily_token_budget : ℕ

-- The dicts `repositories` and `roles` by their values, each of which holds its key.
pub record OrganizationPolicy : Type 0 where
  pub org_id : String
  pub principal_github : String
  pub repositories : List Repository
  pub roles : List RolePolicy
  pub source_commit : String
  pub control_version : String
  pub source_tree_sha256 : String
  pub organization_daily_token_budget : ℕ
  pub global_max_agents : ℕ
  pub policy_digest : String
  pub protected_submission_paths : List String

abbrev pub default_protected_paths : List String
default_protected_paths = ".github/workflows/" ∷ ".github/actions/" ∷ ".gitmodules" ∷ []

-- OrganizationPolicy.role; none is the PolicyError
abbrev pub find_role : OrganizationPolicy → String → Option RolePolicy
find_role policy role = select (λ (row : RolePolicy). row.role == role) policy.roles

-- OrganizationPolicy.repository; none is the PolicyError
abbrev pub find_repository : OrganizationPolicy → String → Option Repository
find_repository policy alias = select (λ (row : Repository). row.alias == alias) policy.repositories
