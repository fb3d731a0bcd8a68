-- ===== src/Authz.antt =====
-- control/sjg_control/authz.py: the closed matrix of roles and operations, and `validate_request`,
-- which refuses a request by its shape and scope before any fact is looked up.
pub mod Matrix
pub mod Scope
pub mod Texts
pub mod Denials
pub mod Patterns
pub mod Keywords
pub mod Changes
pub mod Facts
pub mod Rules
pub mod Authorize
use scrum_jail_governance_pl.Base.{
  String, ◌==◌, Bool, true, false, not, ◌&&◌, ◌||◌, Option, none, some, List, [], ◌∷◌, ◌++◌, map,
  if◌then◌else◌, mem, subset, sorted_set, is_empty,
}
use scrum_jail_governance_pl.Base.Table.{filter, select}
use scrum_jail_governance_pl.Json.{Arguments, get, keys, text_or}
use scrum_jail_governance_pl.Session.{Session}
use scrum_jail_governance_pl.Policy.{OrganizationPolicy, RolePolicy, find_role}
use scrum_jail_governance_pl.Authz.Denials.{
  Verdict, allowed, denied, unknown_role, unbound_session, not_an_object, pm_outside_org,
  not_reachable, not_capable, authority_fields, unknown_arguments, outside_wake, deny_if,
}

abbrev pub read_operations : List String
read_operations =
    "read.issue.get" ∷ "read.issue.list" ∷ "read.issue.children" ∷ "read.issue.comments"
    ∷ "read.pr.get" ∷ "read.pr.list" ∷ "read.pr.files" ∷ "read.pr.checks" ∷ "read.workflow.runs"
    ∷ "repo.status" ∷ []

abbrev pub pm_operations : List String
pm_operations =
    "pm.issue.create" ∷ "pm.issue.comment" ∷ "pm.issue.route" ∷ "pm.issue.move" ∷ "pm.issue.done"
    ∷ "pm.issue.drop" ∷ []

abbrev pub pr_operations : List String
pr_operations = "pr.create" ∷ "pr.update" ∷ "pr.comment" ∷ "pr.review" ∷ []

abbrev pub repository_operations : List String
repository_operations = "repo.submit" ∷ []

abbrev pub worker_operations : List String
worker_operations = "worker.run" ∷ []

abbrev pub operations : List String
operations =
    read_operations
    ++ (pm_operations ++ (pr_operations ++ (repository_operations ++ worker_operations)))

abbrev entity : String → List String → List String
entity id more = "repository" ∷ "id" ∷ id ∷ more

-- OPERATION_ARGUMENTS
abbrev pub operation_arguments : List (String × List String)
operation_arguments =
    ("read.issue.get", entity "issue" [])
    ∷ ("read.issue.list", "repository" ∷ "all" ∷ [])
    ∷ ("read.issue.children", entity "issue" [])
    ∷ ("read.issue.comments", entity "issue" [])
    ∷ ("read.pr.get", entity "pr" [])
    ∷ ("read.pr.list", "repository" ∷ [])
    ∷ ("read.pr.files", entity "pr" [])
    ∷ ("read.pr.checks", entity "pr" [])
    ∷ ("read.workflow.runs", "repository" ∷ [])
    ∷ ("repo.status", "repository" ∷ [])
    ∷ (
      "pm.issue.create",
      "repository" ∷ "kind" ∷ "title" ∷ "body" ∷ "parent" ∷ "target_role" ∷ "also_role" ∷ [],
    )
    ∷ ("pm.issue.comment", entity "issue" ("body" ∷ []))
    ∷ ("pm.issue.route", entity "issue" ("target_role" ∷ []))
    ∷ ("pm.issue.move", entity "issue" ("to" ∷ []))
    ∷ ("pm.issue.done", entity "issue" ("pr" ∷ "demo" ∷ []))
    ∷ ("pm.issue.drop", entity "issue" ("reason" ∷ []))
    ∷ ("pr.create", "repository" ∷ "topic" ∷ "title" ∷ "body" ∷ "draft" ∷ [])
    ∷ ("pr.update", entity "pr" ("title" ∷ "body" ∷ []))
    ∷ ("pr.comment", entity "pr" ("body" ∷ []))
    ∷ ("pr.review", entity "pr" ("body" ∷ "event" ∷ []))
    ∷ ("repo.submit", "repository" ∷ "topic" ∷ "branch" ∷ "base_oid" ∷ "changes" ∷ "message" ∷ [])
    ∷ ("worker.run", "repository" ∷ "type" ∷ "task" ∷ "readPaths" ∷ "writePaths" ∷ [])
    ∷ []

abbrev pub human_only_operations : List String
human_only_operations =
    "objective.create" ∷ "objective.edit" ∷ "objective.close" ∷ "pr.merge" ∷ "pr.auto_merge"
    ∷ "workflow.dispatch" ∷ "deployment.execute" ∷ "spend.authorize" ∷ "spend.execute"
    ∷ "governance.activate" ∷ "repository.settings" ∷ "branch.force_update" ∷ "branch.delete" ∷ []

-- PM_OPERATIONS - {"pm.issue.route"}
abbrev pm_but_route : List String
pm_but_route =
    "pm.issue.create" ∷ "pm.issue.comment" ∷ "pm.issue.move" ∷ "pm.issue.done" ∷ "pm.issue.drop"
    ∷ []

-- ROLE_CAPABILITIES
abbrev pub role_capabilities : List (String × List String)
role_capabilities =
    (
      "project-orchestrator",
      read_operations
          ++ ("pm.issue.create" ∷ "pm.issue.comment" ∷ "pm.issue.route" ∷ "pr.create" ∷ "pr.update"
              ∷ "pr.comment" ∷ "pr.review" ∷ []),
    )
    ∷ (
      "commercial-planner",
      read_operations
          ++ (pm_but_route
              ++ ("pr.create" ∷ "pr.update" ∷ "pr.comment" ∷ "pr.review" ∷ "repo.submit"
                  ∷ "worker.run" ∷ [])),
    )
    ∷ (
      "software-implementer",
      read_operations ++ (pm_but_route ++ (pr_operations ++ ("repo.submit" ∷ "worker.run" ∷ []))),
    )
    ∷ (
      "governance-reviewer",
      read_operations ++ ("pm.issue.comment" ∷ "pm.issue.route" ∷ "pr.comment" ∷ "pr.review" ∷ []),
    )
    ∷ (
      "policy-reviewer",
      read_operations
          ++ (pm_but_route
              ++ ("pr.create" ∷ "pr.update" ∷ "pr.comment" ∷ "pr.review" ∷ "repo.submit"
                  ∷ "worker.run" ∷ [])),
    )
    ∷ []

-- ROLE_CAPABILITIES.get(role, frozenset())
unfoldable pub entry : List (String × List String) → String → List String
entry [] key = []
entry ((k, names) ∷ rest) key = let found = entry rest key in if k == key then names else found

abbrev pub capabilities : String → List String
capabilities role = entry role_capabilities role

abbrev pub forbidden_keys : List String
forbidden_keys =
    "role" ∷ "actor" ∷ "token" ∷ "repository_url" ∷ "command" ∷ "argv" ∷ "method" ∷ "url" ∷ []

abbrev pub is_nil : List String → Bool
is_nil [] = true
is_nil (_ ∷ _) = false

-- The last checks, on the policy of the role.
abbrev pub check_scope : Session → String → String → RolePolicy → Verdict
check_scope session operation repository role_policy =
    deny_if
      (not (mem repository session.workspace_aliases)
        || not (mem repository role_policy.repositories))
      (outside_wake repository)
      (deny_if (mem operation pm_operations && not (repository == "org")) pm_outside_org allowed)

abbrev pub check_arguments : OrganizationPolicy → Session → String → Arguments → Verdict
check_arguments policy session operation arguments =
    let bad = filter (λ key. mem key forbidden_keys) (keys arguments) in
    let unknown =
      filter (λ key. not (mem key (entry operation_arguments operation))) (keys arguments) in
    deny_if (not (is_nil bad)) (authority_fields (sorted_set bad)) (
      deny_if (not (is_nil unknown)) (unknown_arguments operation (sorted_set unknown))
        (elim (find_role policy session.role) [
          | none ↦ unknown_role session.role
          | some role_policy ↦
              check_scope session operation (text_or (get "repository" arguments) "org") role_policy
        ]))

-- `arguments` may be any value; only a dict is an object.
unfoldable pub validate_request : OrganizationPolicy → Session → String → Option Arguments → Verdict
validate_request policy session operation arguments =
    deny_if
      (not (session.org_id == policy.org_id) || not (session.policy_digest == policy.policy_digest))
      unbound_session
      (deny_if (mem operation human_only_operations || not (mem operation operations))
        (not_reachable operation)
        (deny_if (not (mem operation (capabilities session.role)))
          (not_capable session.role operation)
          (elim arguments [
            | none ↦ denied not_an_object
            | some items ↦ check_arguments policy session operation items
          ])))
