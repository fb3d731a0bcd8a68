-- ===== src/Policy/Compile.antt =====
-- control/sjg_control/policy.py: `compile_policy`. The digest, SHA-256 of the canonical JSON of the
-- policy's fields, is a parameter.
use Prim.Native.Char.{code}
use Prim.Native.String.{◌++◌}
use scrum_jail_governance_pl.Base.{
  ℕ, ◌+◌, String, ◌==◌, Bool, true, false, not, ◌&&◌, ◌||◌, Option, none, some, List, [], ◌∷◌, ℤ,
  pos, negsuc, not_positive, to_ℕ, is_some, eqb, mem, subset, sorted_set, length, strip_prefix,
}
use scrum_jail_governance_pl.Base.Table.{filter}
use scrum_jail_governance_pl.Base.Regex.{
  Re, seq, one, full_match, within, char, at_least_one, up_to,
}
use scrum_jail_governance_pl.Json.{Value, Arguments, get, text, text_or, as_object, as_list}
use scrum_jail_governance_pl.Policy.{
  Repository, RolePolicy, OrganizationPolicy, default_protected_paths,
}
use scrum_jail_governance_pl.Base.Raising.{made, refused, require_as, ◌>>=◌, ◌>>◌, or_crash}
use scrum_jail_governance_pl.Policy.Checked.{
  Checked, message, missing_roles, require, exact_keys, int_or_zero,
}
use scrum_jail_governance_pl.Policy.Roles.{required_roles, compile_roles}
use scrum_jail_governance_pl.Authz.Patterns.{Platform, strip, is_digest, in_turn}
use scrum_jail_governance_pl.Authz.Texts.{components}

abbrev is_lower_or_digit : ℕ → Bool
is_lower_or_digit c = within 48 57 c || within 97 122 c

-- The rest of ROLE_ID, behind a letter or digit, or behind a dash.
unfoldable pub kebab_tail : Bool → String → Bool
kebab_tail dash String.[] = not dash
kebab_tail dash (String.◌∷◌ c s) =
    (is_lower_or_digit (code c) && kebab_tail false s)
    || (eqb (code c) 45 && not dash && kebab_tail true s)

-- ROLE_ID
unfoldable pub is_role_id : String → Bool
unfolding kebab_tail
is_role_id String.[] = false
is_role_id (String.◌∷◌ c s) = within 97 122 (code c) && kebab_tail false s

abbrev is_alnum : ℕ → Bool
is_alnum c = is_lower_or_digit c || within 65 90 c

abbrev pub is_login : String → Bool
is_login login = full_match (seq (one is_alnum) (up_to 38 (λ c. is_alnum c || eqb c 45))) login

abbrev number : Re
number = at_least_one (within 48 57)

abbrev pub is_version : String → Bool
is_version version =
    full_match (in_turn (number ∷ char 46 ∷ number ∷ char 46 ∷ number ∷ [])) version

-- [A-Za-z0-9_.-]
abbrev is_slug_char : ℕ → Bool
is_slug_char c = is_alnum c || eqb c 95 || within 45 46 c

abbrev slug_part : Re
slug_part = at_least_one is_slug_char

abbrev pub is_slug : String → Bool
is_slug slug =
    full_match (in_turn (slug_part ∷ char 47 ∷ slug_part ∷ [])) slug
    && not (mem "." (components slug))
    && not (mem ".." (components slug))

-- ".." in text
unfoldable pub has_dots : String → Bool
unfolding strip_prefix
has_dots String.[] = false
has_dots (String.◌∷◌ c s) = is_some (strip_prefix ".." (String.◌∷◌ c s)) || has_dots s

abbrev pub is_branch : String → Bool
is_branch branch =
    full_match (at_least_one (λ c. is_slug_char c || eqb c 47)) branch && not (has_dots branch)

-- data.get(key) == text
abbrev pub is_exactly : Value → String → Bool
is_exactly (text t) expected = t == expected
is_exactly _ expected = false

-- str(fields.get(key) or default).strip()
abbrev pub stripped : String → Arguments → String → String
stripped key fields default = strip (text_or (get key fields) default)

unfoldable pub compile_repository : Arguments → String → Checked Repository
compile_repository repositories alias = do
  raw ←
      exact_keys (get alias repositories) ("slug" ∷ "defaultBranch" ∷ []) ("repositories." ++ alias)
  require (is_slug (stripped "slug" raw ""))
      ("repositories." ++ (alias ++ ".slug must be OWNER/REPO"))
  require (is_branch (stripped "defaultBranch" raw "main"))
      ("repositories." ++ (alias ++ ".defaultBranch is invalid"))
  made (record {
    alias = alias;
    slug = stripped "slug" raw "";
    default_branch = stripped "defaultBranch" raw "main";
  })

unfoldable pub compile_repositories : Arguments → Checked (List Repository)
unfolding compile_repository
compile_repositories fields = do
  repositories ← exact_keys (get "repositories" fields) ("org" ∷ "product" ∷ []) "repositories"
  org ← compile_repository repositories "org"
  product ← compile_repository repositories "product"
  made (org ∷ product ∷ [])

unfoldable pub sum_concurrent : List RolePolicy → ℕ
sum_concurrent [] = 0
sum_concurrent (row ∷ rows) = row.max_workers_concurrent + sum_concurrent rows

-- number == expected
abbrev pub is_number : ℤ → ℕ → Bool
is_number (pos n) expected = eqb n expected
is_number (negsuc n) expected = false

abbrev pub roles_of : List RolePolicy → List String
roles_of [] = []
roles_of (row ∷ rows) = row.role ∷ roles_of rows

-- The agents, and their number against globalMaxAgents; none is no list.
unfoldable pub compile_agents : Platform → ℤ → ℤ → Option (List Value) → Checked (List RolePolicy)
unfolding compile_roles sum_concurrent length
compile_agents platform budget agents none = refused (message "agents must be a list")
compile_agents platform budget agents (some values) = do
  roles ← compile_roles platform budget [] values
  require_as (subset required_roles (roles_of roles))
      (missing_roles (sorted_set (filter (λ role. not (mem role (roles_of roles))) required_roles)))
  require (is_number agents (length roles + sum_concurrent roles))
      "limits.globalMaxAgents must equal parents plus concurrent worker caps"
  made roles

-- What is read before the repositories and the agents.
pub record Head : Type 0 where
  pub org_id : String
  pub principal : String
  pub control_version : String
  pub source_tree_sha256 : String
  pub budget : ℤ
  pub agents : ℤ

unfoldable pub read_head : Platform → Arguments → Checked Head
read_head platform fields = do
  require
      (is_exactly (get "apiVersion" fields) "scrum-jail.dev/v1"
        && is_exactly (get "kind" fields) "Organization")
      "organization apiVersion or kind is unsupported"
  metadata ← exact_keys (get "metadata" fields) ("id" ∷ []) "metadata"
  authority ←
      exact_keys (get "authority" fields)
        ("principalRole" ∷ "principalGitHub" ∷ "upstreamRole" ∷ []) "authority"
  require (is_exactly (get "principalRole" authority) "human-principal")
      "authority.principalRole must be human-principal"
  require (is_exactly (get "upstreamRole" authority) "portfolio-orchestrator")
      "authority.upstreamRole must be portfolio-orchestrator"
  control ←
      exact_keys (get "controlRelease" fields) ("version" ∷ "sourceTreeSha256" ∷ [])
        "controlRelease"
  budgets ← exact_keys (get "budgets" fields) ("organizationDailyTokens" ∷ []) "budgets"
  budget ← or_crash (int_or_zero platform (get "organizationDailyTokens" budgets))
  limits ← exact_keys (get "limits" fields) ("globalMaxAgents" ∷ []) "limits"
  agents ← or_crash (int_or_zero platform (get "globalMaxAgents" limits))
  made (record {
    org_id = stripped "id" metadata "";
    principal = stripped "principalGitHub" authority "";
    control_version = text_or (get "version" control) "";
    source_tree_sha256 = text_or (get "sourceTreeSha256" control) "";
    budget = budget;
    agents = agents;
  })

unfoldable pub check_head : Head → Checked Unit
unfolding is_role_id
check_head head = do
  require (is_role_id head.org_id) "metadata.id must be lowercase kebab-case"
  require (is_login head.principal) "authority.principalGitHub is not a valid GitHub login"
  require (is_version head.control_version) "controlRelease.version must be semantic x.y.z"
  require (is_digest 64 head.source_tree_sha256)
      "controlRelease.sourceTreeSha256 must be a SHA-256 digest"
  require (not (not_positive head.budget)) "budgets.organizationDailyTokens must be positive"
  require (not (not_positive head.agents)) "limits.globalMaxAgents must be positive"

abbrev pub policy_of :
    (OrganizationPolicy → String)
    → String
    → Head
    → List Repository
    → List RolePolicy
    → OrganizationPolicy
policy_of digest source_commit head repositories roles =
    let undigested : OrganizationPolicy = record {
      org_id = head.org_id;
      principal_github = head.principal;
      repositories = repositories;
      roles = roles;
      source_commit = source_commit;
      control_version = head.control_version;
      source_tree_sha256 = head.source_tree_sha256;
      organization_daily_token_budget = to_ℕ head.budget;
      global_max_agents = to_ℕ head.agents;
      policy_digest = "";
      protected_submission_paths = default_protected_paths;
    } in
    record undigested { policy_digest = digest undigested }

abbrev sections : List String
sections =
    "apiVersion" ∷ "kind" ∷ "metadata" ∷ "authority" ∷ "repositories" ∷ "controlRelease" ∷ "budgets"
    ∷ "limits" ∷ "agents" ∷ "workflows" ∷ []

unfoldable pub compile_policy :
    Platform → (OrganizationPolicy → String) → String → Value → Checked OrganizationPolicy
unfolding read_head check_head compile_repositories compile_agents
compile_policy platform digest source_commit document = do
  require (is_some (as_object document)) "organization policy must be a mapping"
  fields ← exact_keys document sections "organization"
  head ← read_head platform fields
  check_head head
  repositories ← compile_repositories fields
  roles ← compile_agents platform head.budget head.agents (as_list (get "agents" fields))
  workflows ← exact_keys (get "workflows" fields) ("hostedExecution" ∷ []) "workflows"
  require (is_exactly (get "hostedExecution" workflows) "manual-only")
      "workflows.hostedExecution must be manual-only"
  made (policy_of digest source_commit head repositories roles)
