-- ===== src/Examples/Policies.antt =====
-- A desired organization that `compile_policy` of control/sjg_control/policy.py compiles.
use scrum_jail_governance_pl.Base.{
  String, true, false, some, none, List, [], ◌∷◌, pos, length, ◌≡◌, refl,
}
use scrum_jail_governance_pl.Json.{
  Value, Items, Members, Arguments, text, other, items, object, members_of, get, values_of,
}
use scrum_jail_governance_pl.Policy.{RolePolicy, OrganizationPolicy, default_protected_paths}
use scrum_jail_governance_pl.Base.Raising.{made, ◌>>=◌, require_as}
use scrum_jail_governance_pl.Policy.Checked.{exact_keys, int_or_zero, set_of}
use scrum_jail_governance_pl.Policy.Roles.{
  expected_workers, expected_repositories, compile_role, workers_of, check_identity, scope_of,
}
use scrum_jail_governance_pl.Policy.Compile.{compile_policy, has_dots}
use scrum_jail_governance_pl.Policy.Canonical.{IsCompiled, compile_policy-IsCompiled}
use scrum_jail_governance_pl.Policy.Delegation.{delegated_canonical}
use scrum_jail_governance_pl.Authz.Denials.{allowed}
use scrum_jail_governance_pl.Authz.Authorize.{authorize}
use scrum_jail_governance_pl.Authz.Authorize.Delegation.{worker_type_of}
use scrum_jail_governance_pl.Base.Text.{subset, mem, sorted_set, same_texts}
use scrum_jail_governance_pl.Authz.Patterns.{strip_right, strip_left, in_turn}
use scrum_jail_governance_pl.Base.Regex.{matches, up_to, exactly}
use scrum_jail_governance_pl.Authz.Texts.{components}
use scrum_jail_governance_pl.Base.Table.{filter}
use scrum_jail_governance_pl.Examples.Requests.{platform, implementer}

abbrev fields : List (String × Value) → Members
fields [] = Members.end
fields ((key, value) ∷ rest) = Members.member key value (fields rest)

abbrev pub mapping : List (String × Value) → Value
mapping entries = object (fields entries) "{...}"

abbrev elements : List Value → Items
elements [] = Items.nil
elements (value ∷ rest) = Items.cons value (elements rest)

abbrev pub list : List Value → Value
list values = items (elements values) "[...]"

abbrev one : Value
one = other true (some (pos 1)) "1"

abbrev five : Value
five = other true (some (pos 5)) "5"

abbrev fifty : Value
fifty = other true (some (pos 50)) "50"

abbrev agent : String → List Value → List Value → Value → Value
agent role repositories types limit = mapping (
    ("id", text role)
    ∷ ("repositories", list repositories)
    ∷ ("dailyTokenBudget", five)
    ∷ (
      "workers",
      mapping (("allowed", list types) ∷ ("maxPerWake", limit) ∷ ("maxConcurrent", limit) ∷ []),
    )
    ∷ [])

abbrev zero_value : Value
zero_value = other false (some (pos 0)) "0"

abbrev six : Value
six = other true (some (pos 6)) "6"

abbrev repository : String → Value
repository slug = mapping (("slug", text slug) ∷ ("defaultBranch", text "main") ∷ [])

abbrev document : Value
document = mapping (
    ("apiVersion", text "scrum-jail.dev/v1")
    ∷ ("kind", text "Organization")
    ∷ ("metadata", mapping (("id", text "acme") ∷ []))
    ∷ (
      "authority",
      mapping (
          ("principalRole", text "human-principal")
          ∷ ("principalGitHub", text "ann")
          ∷ ("upstreamRole", text "portfolio-orchestrator")
          ∷ []),
    )
    ∷ (
      "repositories",
      mapping (("org", repository "acme/org") ∷ ("product", repository "acme/app") ∷ []),
    )
    ∷ (
      "controlRelease",
      mapping (
          ("version", text "1.0.0")
          ∷ (
            "sourceTreeSha256",
            text "0123456789abcdef0123456789abcdef0123456789abcdef0123456789abcdef",
          )
          ∷ []),
    )
    ∷ ("budgets", mapping (("organizationDailyTokens", fifty) ∷ []))
    ∷ ("limits", mapping (("globalMaxAgents", six) ∷ []))
    ∷ (
      "agents",
      list (
          agent "project-orchestrator" (text "org" ∷ []) [] zero_value
          ∷ agent "commercial-planner" (text "org" ∷ []) (text "researcher" ∷ text "drafter" ∷ [])
              one
          ∷ agent "software-implementer" (text "product" ∷ text "org" ∷ [])
              (text "researcher" ∷ text "drafter" ∷ text "implementer" ∷ []) one
          ∷ agent "governance-reviewer" (text "org" ∷ []) [] zero_value
          ∷ []),
    )
    ∷ ("workflows", mapping (("hostedExecution", text "manual-only") ∷ []))
    ∷ [])

abbrev row : String → List String → List String → RolePolicy
row role repositories types = record {
  role = role;
  worker_types = types;
  max_workers_per_wake = 0;
  max_workers_concurrent = 0;
  repositories = repositories;
  daily_token_budget = 5;
}

abbrev working : String → List String → List String → RolePolicy
working role repositories types = record (row role repositories types) {
  max_workers_per_wake = 1;
  max_workers_concurrent = 1;
}

abbrev pub acme : OrganizationPolicy
acme = record {
  org_id = "acme";
  principal_github = "ann";
  repositories =
      (record { alias = "org"; slug = "acme/org"; default_branch = "main" })
      ∷ (record { alias = "product"; slug = "acme/app"; default_branch = "main" })
      ∷ [];
  roles =
      row "project-orchestrator" ("org" ∷ []) []
      ∷ working "commercial-planner" ("org" ∷ []) ("drafter" ∷ "researcher" ∷ [])
      ∷ working "software-implementer" ("org" ∷ "product" ∷ [])
          ("drafter" ∷ "implementer" ∷ "researcher" ∷ [])
      ∷ row "governance-reviewer" ("org" ∷ []) []
      ∷ [];
  source_commit = "commit";
  control_version = "1.0.0";
  source_tree_sha256 = "0123456789abcdef0123456789abcdef0123456789abcdef0123456789abcdef";
  organization_daily_token_budget = 50;
  global_max_agents = 6;
  policy_digest = "digest";
  protected_submission_paths = default_protected_paths;
}

compiles : compile_policy platform (λ policy. "digest") "commit" document ≡ made acme
unfolding compile_policy expected_workers ◌>>=◌ require_as exact_keys subset members_of mem get
    int_or_zero strip_right strip_left matches up_to in_turn exactly components has_dots values_of
    sorted_set same_texts set_of expected_repositories compile_role workers_of check_identity
    scope_of filter length scrum_jail_governance_pl.Base.text_leb
compiles = refl

compile_policy-IsCompiled_example : IsCompiled acme
compile_policy-IsCompiled_example =
    compile_policy-IsCompiled platform (λ policy. "digest") "commit" document acme compiles

abbrev source : Value
source = list (text "lib/sort.py" ∷ [])

abbrev work : Arguments
work =
    ("repository", text "org")
    ∷ ("type", text "implementer")
    ∷ ("task", text "Sort the rows")
    ∷ ("readPaths", source)
    ∷ ("writePaths", source)
    ∷ []

work_passes : authorize platform acme implementer "worker.run" work none ≡ allowed
unfolding authorize mem scrum_jail_governance_pl.Authz.validate_request
    scrum_jail_governance_pl.Authz.Denials.deny_if scrum_jail_governance_pl.Authz.entry
    scrum_jail_governance_pl.Base.Table.filter scrum_jail_governance_pl.Base.Table.select
    scrum_jail_governance_pl.Json.get scrum_jail_governance_pl.Authz.Authorize.check_worker
    scrum_jail_governance_pl.Json.values_of scrum_jail_governance_pl.Authz.Texts.is_worker_path
    scrum_jail_governance_pl.Base.subset scrum_jail_governance_pl.Json.has_key
work_passes = refl

delegated_canonical_example : mem (worker_type_of work) (expected_workers implementer.role) ≡ true
delegated_canonical_example =
    delegated_canonical platform (λ policy. "digest") "commit" document acme implementer work none
      compiles work_passes
