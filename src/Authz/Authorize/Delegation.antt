-- ===== src/Authz/Authorize/Delegation.antt =====
-- Workers under `authorize` of control/sjg_control/authz.py.
use scrum_jail_governance_pl.Base.{
  String, ◌==◌, true, not, Option, some, List, [], ◌≡◌, refl, arith, mem, subset,
}
use scrum_jail_governance_pl.Json.{Arguments, get, text_or, as_list}
use scrum_jail_governance_pl.Session.{Session}
use scrum_jail_governance_pl.Policy.{OrganizationPolicy, RolePolicy, find_role}
use scrum_jail_governance_pl.Authz.Denials.{allowed, passed}
use scrum_jail_governance_pl.Authz.Texts.{Paths, safe_paths, refused, safe_worker_paths}
use scrum_jail_governance_pl.Authz.Patterns.{Platform}
use scrum_jail_governance_pl.Authz.Facts.{Facts}
use scrum_jail_governance_pl.Authz.Authorize.{
  check_scopes, on_writes, on_reads, check_worker, check_operation, is_task, facts_or_bare,
  authorize,
}
use scrum_jail_governance_pl.Authz.Authorize.Passing.{authorize-Passes}

abbrev pub worker_type_of : Arguments → String
worker_type_of arguments = text_or (get "type" arguments) ""

-- What a worker may be started for: it writes nothing but files it may read, and an implementer writes
-- some while no other worker writes any.
pub record IsDelegation (policy : OrganizationPolicy) (session : Session) (arguments : Arguments)
    : Type 0 where
  pub role_policy : RolePolicy
  pub has_role : find_role policy session.role ≡ some role_policy
  pub own_type : mem (worker_type_of arguments) role_policy.worker_types ≡ true
  pub tasked : is_task (get "task" arguments) ≡ true
  pub reads : List String
  pub writes : List String
  pub reads_safely : safe_worker_paths (as_list (get "readPaths" arguments)) ≡ safe_paths reads
  pub writes_safely : safe_worker_paths (as_list (get "writePaths" arguments)) ≡ safe_paths writes
  pub within : subset writes reads ≡ true
  pub writer : subset writes [] ≡ not (worker_type_of arguments == "implementer")

module _ (policy : OrganizationPolicy) (session : Session) (arguments : Arguments)
    (role_policy : RolePolicy) where
  writes-IsDelegation :
      (reads : List String) (writes : Paths)
      → find_role policy session.role ≡ some role_policy
      → mem (worker_type_of arguments) role_policy.worker_types ≡ true
      → is_task (get "task" arguments) ≡ true
      → safe_worker_paths (as_list (get "readPaths" arguments)) ≡ safe_paths reads
      → safe_worker_paths (as_list (get "writePaths" arguments)) ≡ writes
      → on_writes (worker_type_of arguments) arguments reads writes ≡ allowed
      → IsDelegation policy session arguments
  unfolding on_writes check_scopes
  writes-IsDelegation reads (refused error) f o k r w e = absurd (ground (arith, e))
  writes-IsDelegation reads (safe_paths writes) f o k r w e =
      let (reader, e) = passed _ _ _ e in
      let (implementer, e) = passed _ _ _ e in
      let (inside, e) = passed _ _ _ e in
      record {
        role_policy = role_policy;
        has_role = f;
        own_type = o;
        tasked = k;
        reads = reads;
        writes = writes;
        reads_safely = r;
        writes_safely = w;
        within = ground (arith, inside);
        writer = ground (arith, reader, implementer);
      }

  reads-IsDelegation :
      (reads : Paths)
      → find_role policy session.role ≡ some role_policy
      → mem (worker_type_of arguments) role_policy.worker_types ≡ true
      → is_task (get "task" arguments) ≡ true
      → safe_worker_paths (as_list (get "readPaths" arguments)) ≡ reads
      → on_reads (worker_type_of arguments) arguments reads ≡ allowed
      → IsDelegation policy session arguments
  unfolding on_reads
  reads-IsDelegation (refused error) f o k r e = absurd (ground (arith, e))
  reads-IsDelegation (safe_paths reads) f o k r e = writes-IsDelegation reads _ f o k r refl e

  worker-IsDelegation :
      find_role policy session.role ≡ some role_policy
      → check_worker role_policy session arguments ≡ allowed
      → IsDelegation policy session arguments
  unfolding check_worker
  worker-IsDelegation f e =
      let (own, e) = passed _ _ _ e in
      let (task, e) = passed _ _ _ e in
      reads-IsDelegation _ f (ground (arith, own)) (ground (arith, task)) refl e

  worker-checked :
      (platform : Platform) (facts : Facts)
      → check_operation platform policy role_policy session "worker.run" arguments facts ≡ allowed
      → check_worker role_policy session arguments ≡ allowed
  unfolding check_operation
  worker-checked platform facts e = e

-- A worker that `authorize` lets through is of a type that the policy allows the session's role,
-- has a task, and has two lists of safe paths, of which those it may write are among those it may
-- read, and there are some of them exactly if it is an implementer.
pub authorize-IsDelegation :
    (platform : Platform) (policy : OrganizationPolicy) (session : Session) (arguments : Arguments)
    (facts : Option Facts)
    → authorize platform policy session "worker.run" arguments facts ≡ allowed
    → IsDelegation policy session arguments
unfolding mem
authorize-IsDelegation platform policy session arguments facts e =
    let p = authorize-Passes platform policy session "worker.run" arguments facts e refl in
    worker-IsDelegation policy session arguments p.role_policy p.has_role (
      worker-checked policy session arguments p.role_policy platform (facts_or_bare facts)
        p.checked)
