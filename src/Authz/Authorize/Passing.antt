-- ===== src/Authz/Authorize/Passing.antt =====
-- What a passed `authorize` of control/sjg_control/authz.py says, for every operation that is no read.
use scrum_jail_governance_pl.Base.{
  String, true, false, not, ◌&&◌, Option, none, some, ◌≡◌, refl, arith, mem, Bool-cases, inl, inr,
  strip_prefix,
}
use scrum_jail_governance_pl.Json.{Arguments}
use scrum_jail_governance_pl.Session.{Session}
use scrum_jail_governance_pl.Policy.{OrganizationPolicy, RolePolicy, find_role}
use scrum_jail_governance_pl.Authz.{read_operations, validate_request}
use scrum_jail_governance_pl.Authz.Matrix.{mem-passes}
use scrum_jail_governance_pl.Authz.Denials.{
  Verdict, allowed, type_error, denied, unknown_role, deny_if,
}
use scrum_jail_governance_pl.Authz.Patterns.{Platform}
use scrum_jail_governance_pl.Authz.Facts.{Facts}
use scrum_jail_governance_pl.Authz.Authorize.{
  facts_or_bare, asks_facts, check_operation, on_role, on_valid, authorize,
}

-- `authorize` has let the operation through by the rules on mutations.
pub record Passes (platform : Platform) (policy : OrganizationPolicy) (session : Session)
    (operation : String) (arguments : Arguments) (facts : Option Facts) : Type 0 where
  pub valid : validate_request policy session operation (some arguments) ≡ allowed
  pub role_policy : RolePolicy
  pub has_role : find_role policy session.role ≡ some role_policy
  pub informed : (asks_facts operation && not (facts_or_bare facts).complete) ≡ false
  pub checked :
      check_operation platform policy role_policy session operation arguments (facts_or_bare facts)
      ≡ allowed

module _ (platform : Platform) (policy : OrganizationPolicy) (session : Session)
    (operation : String) (arguments : Arguments) (facts : Option Facts) where
  role-Passes :
      (found : Option RolePolicy)
      → find_role policy session.role ≡ found
      → validate_request policy session operation (some arguments) ≡ allowed
      → mem operation read_operations ≡ false
      → on_role platform policy session operation arguments (facts_or_bare facts) found ≡ allowed
      → Passes platform policy session operation arguments facts
  unfolding deny_if
  role-Passes none p v m e = absurd (ground (arith, e))
  role-Passes (some role_policy) p v m e = record {
    valid = v;
    role_policy = role_policy;
    has_role = p;
    informed = ground (arith, m, e);
    checked = ground (arith, m, e);
  }

  valid-Passes :
      (verdict : Verdict)
      → validate_request policy session operation (some arguments) ≡ verdict
      → mem operation read_operations ≡ false
      → on_valid platform policy session operation arguments facts verdict ≡ allowed
      → Passes platform policy session operation arguments facts
  unfolding on_valid
  valid-Passes allowed v m e = role-Passes (find_role policy session.role) refl v m e
  valid-Passes type_error v m e = absurd (ground (arith, e))
  valid-Passes (denied d) v m e = absurd (ground (arith, e))
  valid-Passes (unknown_role r) v m e = absurd (ground (arith, e))

  pub authorize-Passes :
      authorize platform policy session operation arguments facts ≡ allowed
      → mem operation read_operations ≡ false
      → Passes platform policy session operation arguments facts
  unfolding authorize
  authorize-Passes e m =
      valid-Passes (validate_request policy session operation (some arguments)) refl m e

-- No read asks for facts.
read_uninformed :
    (operation : String) → mem operation read_operations ≡ true → not (asks_facts operation) ≡ true
unfolding strip_prefix mem
read_uninformed operation h =
    mem-passes (λ op. not (asks_facts op)) operation read_operations refl h

-- An operation on work items or pull requests that `authorize` lets through has complete facts:
-- missing or incomplete facts are never read as absence.
pub authorize_informed :
    (platform : Platform) (policy : OrganizationPolicy) (session : Session) (operation : String)
    (arguments : Arguments) (facts : Option Facts)
    → asks_facts operation ≡ true
    → authorize platform policy session operation arguments facts ≡ allowed
    → (facts_or_bare facts).complete ≡ true
authorize_informed platform policy session operation arguments facts a e =
    elim (Bool-cases (mem operation read_operations)) [
      | inl read ↦ absurd (ground (arith, a, read_uninformed operation read))
      | inr other ↦ ground (
        arith,
        a,
        (authorize-Passes platform policy session operation arguments facts e other).informed,
      )
    ]
