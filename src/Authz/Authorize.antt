-- ===== src/Authz/Authorize.antt =====
-- control/sjg_control/authz.py: what `authorize` asks of pull requests, submissions and workers, and
-- `authorize` itself.
pub mod Passing
pub mod Stages
pub mod Submissions
pub mod Creation
pub mod Pulls
pub mod Delegation
use Prim.Native.String.{◌++◌, count}
use Prim.Native.Char.{code}
use scrum_jail_governance_pl.Base.{
  String, ◌==◌, Bool, true, false, not, ◌&&◌, ◌||◌, Option, none, some, List, [], ◌∷◌,
  if◌then◌else◌, ltb, eqb, mem, subset, is_empty, is_text, is_some, strip_prefix,
}
use scrum_jail_governance_pl.Base.Table.{exists}
use scrum_jail_governance_pl.Json.{
  Value, Arguments, text, nothing, get, has_key, text_or, shown, as_list,
}
use scrum_jail_governance_pl.Session.{Session}
use scrum_jail_governance_pl.Policy.{OrganizationPolicy, RolePolicy, find_role}
use scrum_jail_governance_pl.Authz.{read_operations, validate_request}
use scrum_jail_governance_pl.Authz.Denials.{
  Verdict, allowed, type_error, denied, unknown_role, rule, foreign_worker, worker_paths, deny_if,
}
use scrum_jail_governance_pl.Authz.Texts.{
  safe_topic, utf8_length, Paths, refused, safe_worker_paths,
}
use scrum_jail_governance_pl.Authz.Patterns.{Platform, is_blank, is_digest, has_closing}
use scrum_jail_governance_pl.Authz.Changes.{safe_paths}
use scrum_jail_governance_pl.Authz.Facts.{
  Facts, bare_facts, independent_review_roles, has_role, is_true,
}
use scrum_jail_governance_pl.Authz.Rules.{
  check_create, check_comment, check_route, check_move, check_close,
}

-- arguments.get(key, "") in an f-string
abbrev pub formatted : String → Arguments → String
formatted key arguments = if has_key key arguments then shown (get key arguments) else ""

abbrev pub lacks_text : String → Arguments → Bool
lacks_text key arguments = is_blank (text_or (get key arguments) "")

abbrev topic_message : String
topic_message = "topic must be lowercase kebab-case and at most 63 characters"

unfoldable pub check_pr_create : Arguments → Verdict
check_pr_create arguments = elim (safe_topic (get "topic" arguments)) [
  | none ↦ denied (rule topic_message)
  | some topic ↦ deny_if (lacks_text "title" arguments) (rule "PR title is required") allowed
]

-- facts.pr_head_role not in policy.roles
abbrev pub has_agent_head : OrganizationPolicy → Option String → Bool
has_agent_head policy none = false
has_agent_head policy (some role) = has_role policy role

unfoldable pub check_review : Session → Arguments → Facts → Verdict → Verdict
check_review session arguments facts rest =
    deny_if
      (not (mem session.role independent_review_roles) || is_text facts.pr_head_role session.role)
      (rule "PR review must be independent of the authoring role")
      (deny_if
        (not (mem (text_or (get "event" arguments) "COMMENT") ("COMMENT" ∷ "REQUEST_CHANGES" ∷ [])))
        (rule "agent review may only comment or request changes") rest)

-- The texts that each operation on a pull request needs.
unfoldable pub check_pr_texts : String → Arguments → Verdict
check_pr_texts operation arguments =
    deny_if (mem operation ("pr.comment" ∷ "pr.review" ∷ []) && lacks_text "body" arguments)
      (rule "PR comment or review body is required")
      (deny_if
        (operation == "pr.update" && lacks_text "title" arguments && lacks_text "body" arguments)
        (rule "PR update requires a title or body") allowed)

unfoldable pub check_open_pr : OrganizationPolicy → Session → String → Arguments → Facts → Verdict
unfolding check_review check_pr_texts
check_open_pr policy session operation arguments facts =
    deny_if (not (is_true facts.pr_open) || not (has_agent_head policy facts.pr_head_role))
      (rule "PR must be open and owned by a canonical agent role")
      (deny_if (operation == "pr.update" && not (is_text facts.pr_head_role session.role))
        (rule "role may update only its own open PR")
        (if operation == "pr.review"
          then check_review session arguments facts (check_pr_texts operation arguments)
          else check_pr_texts operation arguments))

unfoldable pub check_pr :
    Platform → OrganizationPolicy → Session → String → Arguments → Facts → Verdict
unfolding is_blank check_pr_create check_open_pr
check_pr platform policy session operation arguments facts =
    deny_if
      (has_closing platform (formatted "title" arguments ++ ("\n" ++ formatted "body" arguments)))
      (rule "PR text may not contain issue-closing keywords")
      (if operation == "pr.create"
        then check_pr_create arguments
        else check_open_pr policy session operation arguments facts)

-- Any control character but a line feed or a tab.
unfoldable pub has_control : String → Bool
has_control String.[] = false
has_control (String.◌∷◌ c s) =
    (ltb (code c) 32 && not (eqb (code c) 10) && not (eqb (code c) 9)) || has_control s

abbrev pub branch_of : Session → String → String
branch_of session topic = "agent/" ++ (session.role ++ ("/" ++ topic))

-- supplied is not None and supplied != expected
abbrev pub other_branch : Value → String → Bool
other_branch nothing expected = false
other_branch (text branch) expected = not (branch == expected)
other_branch _ expected = true

abbrev check_message : Platform → String → Verdict → Verdict
check_message platform message rest =
    deny_if (ltb 500 (count message) || has_control message) (rule "submission message is invalid")
      (deny_if (has_closing platform message)
        (rule "commit message may not contain issue-closing keywords") rest)

-- After the topic.
unfoldable pub check_topic :
    Platform → OrganizationPolicy → Session → Arguments → Option String → Verdict
unfolding has_control safe_paths
check_topic platform policy session arguments none = denied (rule topic_message)
check_topic platform policy session arguments (some topic) =
    deny_if (other_branch (get "branch" arguments) (branch_of session topic))
      (rule ("branch must be " ++ branch_of session topic))
      (deny_if (not (is_digest 40 (text_or (get "base_oid" arguments) "")))
        (rule "submission base_oid must be a full commit SHA")
        (check_message platform (text_or (get "message" arguments) "") (
          safe_paths platform policy.protected_submission_paths
            (as_list (get "changes" arguments)))))

unfoldable pub check_submit : Platform → OrganizationPolicy → Session → Arguments → Verdict
unfolding check_topic
check_submit platform policy session arguments =
    check_topic platform policy session arguments (safe_topic (get "topic" arguments))

abbrev pub is_task : Value → Bool
is_task (text task) = not (is_blank task) && not (ltb 32768 (utf8_length task))
is_task _ = false

abbrev pub server_selected : List String
server_selected = "model" ∷ "provider" ∷ "role" ∷ "tools" ∷ "socket" ∷ []

-- The paths a worker may read and write.
unfoldable pub check_scopes : String → Arguments → List String → List String → Verdict
check_scopes worker_type arguments reads writes =
    deny_if (not (worker_type == "implementer") && not (subset writes []))
      (rule (worker_type ++ " is a read-only worker"))
      (deny_if (worker_type == "implementer" && subset writes [])
        (rule "implementer worker requires declared write paths")
        (deny_if (not (subset writes reads))
          (rule "worker write paths must also be declared read paths")
          (deny_if (exists (λ key. has_key key arguments) server_selected)
            (rule "worker model, provider, role, tools, and authority are server-selected")
            allowed)))

unfoldable pub on_writes : String → Arguments → List String → Paths → Verdict
unfolding check_scopes
on_writes worker_type arguments reads (refused error) = denied (worker_paths "write" error)
on_writes worker_type arguments reads (Paths.safe_paths writes) =
    check_scopes worker_type arguments reads writes

unfoldable pub on_reads : String → Arguments → Paths → Verdict
unfolding on_writes safe_worker_paths
on_reads worker_type arguments (refused error) = denied (worker_paths "read" error)
on_reads worker_type arguments (Paths.safe_paths reads) =
    on_writes worker_type arguments reads (safe_worker_paths (as_list (get "writePaths" arguments)))

unfoldable pub check_worker : RolePolicy → Session → Arguments → Verdict
unfolding is_blank utf8_length on_reads
check_worker role_policy session arguments =
    let worker_type = text_or (get "type" arguments) "" in
    deny_if (not (mem worker_type role_policy.worker_types))
      (foreign_worker worker_type session.role)
      (deny_if (not (is_task (get "task" arguments)))
        (rule "worker task must be non-empty and at most 32 KiB")
        (on_reads worker_type arguments (safe_worker_paths (as_list (get "readPaths" arguments)))))

abbrev starts_with : String → String → Bool
starts_with prefix t = is_some (strip_prefix prefix t)

-- Every operation but those that only read.
unfoldable pub check_operation :
    Platform → OrganizationPolicy → RolePolicy → Session → String → Arguments → Facts → Verdict
unfolding strip_prefix
check_operation platform policy role_policy session operation arguments facts =
    if operation == "pm.issue.create"
    then check_create platform policy session arguments facts
    else if operation == "pm.issue.comment"
    then check_comment arguments
    else if operation == "pm.issue.route"
    then check_route policy arguments facts
    else if operation == "pm.issue.move"
    then check_move session arguments facts
    else if operation == "pm.issue.done"
    then check_close session true arguments facts
    else if operation == "pm.issue.drop"
    then check_close session false arguments facts
    else if starts_with "pr." operation
    then check_pr platform policy session operation arguments facts
    else if operation == "repo.submit"
    then check_submit platform policy session arguments
    else if operation == "worker.run"
    then check_worker role_policy session arguments
    else denied (rule ("unhandled operation: " ++ operation))

-- Facts(complete=False) stands for missing facts.
abbrev pub facts_or_bare : Option Facts → Facts
facts_or_bare none = bare_facts false
facts_or_bare (some facts) = facts

abbrev pub asks_facts : String → Bool
asks_facts operation = starts_with "pm." operation || starts_with "pr." operation

abbrev pub on_role :
    Platform
    → OrganizationPolicy
    → Session
    → String
    → Arguments
    → Facts
    → Option RolePolicy
    → Verdict
on_role platform policy session operation arguments facts none = unknown_role session.role
on_role platform policy session operation arguments facts (some role_policy) =
    if mem operation read_operations
    then allowed
    else deny_if (asks_facts operation && not facts.complete)
        (rule "authoritative GitHub facts are incomplete")
        (check_operation platform policy role_policy session operation arguments facts)

-- After `validate_request`.
unfoldable pub on_valid :
    Platform → OrganizationPolicy → Session → String → Arguments → Option Facts → Verdict → Verdict
unfolding strip_prefix check_operation
on_valid platform policy session operation arguments facts allowed =
    on_role platform policy session operation arguments (facts_or_bare facts)
      (find_role policy session.role)
on_valid platform policy session operation arguments facts verdict = verdict

unfoldable pub authorize :
    Platform → OrganizationPolicy → Session → String → Arguments → Option Facts → Verdict
unfolding on_valid
authorize platform policy session operation arguments facts =
    on_valid platform policy session operation arguments facts
      (validate_request policy session operation (some arguments))
