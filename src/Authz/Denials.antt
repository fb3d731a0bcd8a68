-- ===== src/Authz/Denials.antt =====
-- What the checks of control/sjg_control/authz.py come to.
use scrum_jail_governance_pl.Base.{String, Bool, true, false, List, ◌≡◌, arith}
use scrum_jail_governance_pl.Authz.Texts.{PathError}

-- Why a request is refused, with what the message shows; `rule` has a fixed message.
pub data Denial : Type 0 where
  unbound_session not_an_object pm_outside_org : Denial
  not_reachable : String → Denial
  not_capable : String → String → Denial
  authority_fields : List String → Denial
  unknown_arguments : String → List String → Denial
  outside_wake unsafe_path : String → Denial
  foreign_worker : String → String → Denial
  worker_paths : String → PathError → Denial
  rule : String → Denial

-- The request passes, an AuthorizationError, the PolicyError of `policy.role`, or a TypeError.
pub data Verdict : Type 0 where
  allowed type_error : Verdict
  denied : Denial → Verdict
  unknown_role : String → Verdict

-- if test: raise AuthorizationError(...)
unfoldable pub deny_if : Bool → Denial → Verdict → Verdict
deny_if true denial rest = denied denial
deny_if false denial rest = rest

-- What is checked after a test that has not refused.
pub passed :
    (b : Bool) (denial : Denial) (rest : Verdict)
    → deny_if b denial rest ≡ allowed
    → (b ≡ false) × (rest ≡ allowed)
unfolding deny_if
passed b denial rest e = ground (arith, e)
