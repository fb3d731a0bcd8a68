-- ===== src/Authz/Scope.antt =====
-- The scope of a request, in words of the policy, beside `validate_request` of
-- control/sjg_control/authz.py.
use scrum_jail_governance_pl.Base.{
  String, ◌==◌, Bool, true, false, not, ◌&&◌, some, List, [], ◌∷◌, ◌≡◌, refl, arith, mem, subset,
  ◌↔◌,
}
use scrum_jail_governance_pl.Base.Table.{filter, select, exists}
use scrum_jail_governance_pl.Session.{Session}
use scrum_jail_governance_pl.Authz.{
  operations, human_only_operations, pm_operations, entry, capabilities, forbidden_keys,
  operation_arguments, validate_request, is_nil,
}
use scrum_jail_governance_pl.Authz.Denials.{allowed, deny_if}
use scrum_jail_governance_pl.Policy.{OrganizationPolicy, RolePolicy, find_role}
use scrum_jail_governance_pl.Json.{Arguments, keys, get, text_or}

-- In words of the policy: what a request may be.
pub record IsPermitted (policy : OrganizationPolicy) (session : Session) (operation : String)
    (arguments : Arguments) : Type 0 where
  pub bound :
      (session.org_id == policy.org_id && session.policy_digest == policy.policy_digest) ≡ true
  pub is_reachable : mem operation operations ≡ true
  pub not_human : mem operation human_only_operations ≡ false
  pub capable : mem operation (capabilities session.role) ≡ true
  pub declared : subset (keys arguments) (entry operation_arguments operation) ≡ true
  pub no_authority : exists (λ key. mem key forbidden_keys) (keys arguments) ≡ false
  pub role_policy : RolePolicy
  pub has_role : find_role policy session.role ≡ some role_policy
  pub in_wake : mem (text_or (get "repository" arguments) "org") session.workspace_aliases ≡ true
  pub in_role : mem (text_or (get "repository" arguments) "org") role_policy.repositories ≡ true
  pub pm_on_org :
      (mem operation pm_operations && not (text_or (get "repository" arguments) "org" == "org"))
      ≡ false

nil-subset : (ks ts : List String) → is_nil (filter (λ key. not (mem key ts)) ks) ≡ subset ks ts
unfolding filter subset
nil-subset [] ts = refl
nil-subset (k ∷ ks) ts = ground (arith, nil-subset ks ts)

nil-exists : (p : String → Bool) (ks : List String) → is_nil (filter p ks) ≡ not (exists p ks)
unfolding filter select
nil-exists p [] = refl
nil-exists p (k ∷ ks) = ground (arith, nil-exists p ks)

module _ (policy : OrganizationPolicy) (session : Session) (operation : String)
    (arguments : Arguments) where
  pub validate_request-IsPermitted :
      validate_request policy session operation (some arguments) ≡ allowed
      → IsPermitted policy session operation arguments
  unfolding validate_request deny_if
  validate_request-IsPermitted e = ground (
    arith,
    nil-subset (keys arguments) (entry operation_arguments operation),
    nil-exists (λ key. mem key forbidden_keys) (keys arguments),
    e,
  )

  pub IsPermitted-allowed :
      IsPermitted policy session operation arguments
      → validate_request policy session operation (some arguments) ≡ allowed
  unfolding validate_request deny_if
  IsPermitted-allowed p = ground (
    arith,
    nil-subset (keys arguments) (entry operation_arguments operation),
    nil-exists (λ key. mem key forbidden_keys) (keys arguments),
    p,
  )

-- A request passes `validate_request` exactly if its session is bound to the policy, its operation
-- is one of the agents' that its role is capable of, its arguments are declared for the operation
-- and name no authority, its repository is in the wake and in the policy of its role, and it is a
-- project-management operation on the org repository only.
pub validate_request_exact :
    (policy : OrganizationPolicy) (session : Session) (operation : String) (arguments : Arguments)
    → (validate_request policy session operation (some arguments) ≡ allowed)
      ↔ IsPermitted policy session operation arguments
validate_request_exact policy session operation arguments = (
  validate_request-IsPermitted policy session operation arguments,
  IsPermitted-allowed policy session operation arguments,
)
