-- ===== src/Examples/Requests.antt =====
-- Requests to the broker of control/sjg_control/broker.py under a concrete policy.
use scrum_jail_governance_pl.Base.{
  List, ◌≤◌, String, true, false, none, some, [], ◌∷◌, ◌≡◌, refl, ◌↔◌, mem,
}
use scrum_jail_governance_pl.Session.{Session}
use scrum_jail_governance_pl.Authz.{
  operations, human_only_operations, operation_arguments, entry, role_capabilities,
  validate_request,
}
use scrum_jail_governance_pl.Authz.Denials.{allowed}
use scrum_jail_governance_pl.Policy.{OrganizationPolicy, RolePolicy, default_protected_paths}
use scrum_jail_governance_pl.Authz.Patterns.{Platform}
use scrum_jail_governance_pl.Authz.Facts.{bare_facts}
use scrum_jail_governance_pl.Broker.Sanctioned.{Turn, handle-Turn}
use scrum_jail_governance_pl.Json.{Arguments, text}
use scrum_jail_governance_pl.Authz.Matrix.{capabilities_closed}
use scrum_jail_governance_pl.Authz.Scope.{IsPermitted, validate_request_exact}
use scrum_jail_governance_pl.Store.Schema.{Store, SessionState, empty}
use scrum_jail_governance_pl.Broker.{Backend, Reply, Request, World, returned, timed_out, handle}
use scrum_jail_governance_pl.Broker.Kept.{executions}
use scrum_jail_governance_pl.Broker.Once.{handle_all, handled_once}

abbrev role_of : String → List String → RolePolicy
role_of role worker_types = record {
  role = role;
  worker_types = worker_types;
  max_workers_per_wake = 2;
  max_workers_concurrent = 1;
  repositories = "org" ∷ "product" ∷ [];
  daily_token_budget = 1000;
}

abbrev pub policy : OrganizationPolicy
policy = record {
  org_id = "acme";
  principal_github = "ann";
  repositories = [];
  roles =
      role_of "software-implementer" ("implementer" ∷ []) ∷ role_of "governance-reviewer" [] ∷ [];
  source_commit = "commit";
  control_version = "1.0.0";
  source_tree_sha256 = "tree";
  organization_daily_token_budget = 5000;
  global_max_agents = 4;
  policy_digest = "digest";
  protected_submission_paths = default_protected_paths;
}

-- Of ASCII only.
abbrev pub platform : Platform
platform = record {
  keeps = λ c. true;
  is_alnum = λ c. false;
  decimal = λ c. none;
  b64decode = λ encoded. none;
  sha256 = λ bytes. "";
}

abbrev pub implementer : Session
implementer = record {
  session_id = "s1";
  wake_id = "w1";
  org_id = "acme";
  role = "software-implementer";
  policy_digest = "digest";
  workspace_aliases = "org" ∷ [];
  expires_at = "2026-01-01T01:00:00Z";
}

abbrev comment : Arguments
comment = ("repository", text "org") ∷ ("id", text "7") ∷ ("body", text "done") ∷ []

validate_request_exact_example :
    (validate_request policy implementer "pm.issue.comment" (some comment) ≡ allowed)
    ↔ IsPermitted policy implementer "pm.issue.comment" comment
validate_request_exact_example =
    validate_request_exact policy implementer "pm.issue.comment" comment

may_comment : mem "pm.issue.comment" (entry role_capabilities "software-implementer") ≡ true
unfolding mem entry
may_comment = refl

capabilities_closed_example :
    (mem "pm.issue.comment" operations ≡ true)
    × (mem "pm.issue.comment" human_only_operations ≡ false)
    × (mem "repository" (entry operation_arguments "pm.issue.comment") ≡ true)
capabilities_closed_example =
    capabilities_closed "software-implementer" "pm.issue.comment" may_comment

abbrev awake : Store
awake = record empty {
  sessions =
      record {
        session_id = "s1";
        wake_id = "w1";
        org_id = "acme";
        role = "software-implementer";
        policy_digest = "digest";
        workspace_aliases = "org" ∷ [];
        issued_at = "2026-01-01T00:00:00Z";
        expires_at = "2026-01-01T01:00:00Z";
        state = SessionState.active;
      }
      ∷ [];
}

abbrev asked : Request
asked = record {
  schema = "sjg.request/v1";
  operation = "pm.issue.comment";
  key = "comment-0123456789";
  arguments = some comment;
  digest = "hash";
  canonical = "{}";
  now = "2026-01-01T00:00:01Z";
}

abbrev slow : Backend
slow = record {
  facts = λ operation arguments. returned (bare_facts true);
  execute = λ operation arguments who key. timed_out "no answer";
}

abbrev shown : Reply → String
shown reply = "{}"

handled_once_example :
    executions "comment-0123456789" (
      handle_all shown shown platform policy
        (("s1", asked, slow) ∷ ("s1", asked, slow) ∷ [])
        (record { store = awake; executed = [] }))
    ≤ 1
handled_once_example =
    handled_once shown shown platform policy (("s1", asked, slow) ∷ ("s1", asked, slow) ∷ []) awake
      "comment-0123456789"

abbrev before : World
before = record { store = awake; executed = [] }

handle-Turn_example :
    Turn platform policy slow "s1" asked before
      (handle shown shown platform policy slow "s1" asked before).1
handle-Turn_example = handle-Turn shown shown platform policy slow "s1" asked before
