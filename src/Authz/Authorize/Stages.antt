-- ===== src/Authz/Authorize/Stages.antt =====
-- Moving and closing work items under `authorize` of control/sjg_control/authz.py.
use scrum_jail_governance_pl.Base.{
  ℕ, String, ◌==◌, Bool, true, false, not, ◌&&◌, ◌||◌, Option, none, some, [], ◌∷◌, ◌≡◌, refl,
  arith, mem, is_text, is_some, if◌then◌else◌, strip_prefix, leb,
}
use scrum_jail_governance_pl.Json.{Arguments, get, text_or}
use scrum_jail_governance_pl.Session.{Session}
use scrum_jail_governance_pl.Policy.{OrganizationPolicy, RolePolicy}
use scrum_jail_governance_pl.Authz.Denials.{allowed, passed, deny_if}
use scrum_jail_governance_pl.Authz.Patterns.{Platform, is_blank}
use scrum_jail_governance_pl.Authz.Facts.{
  Facts, orchestrator, terminal_stages, holding_stages, stage_order, is_true, is_false, among,
}
use scrum_jail_governance_pl.Authz.Rules.{check_move, check_forward, check_close, stage_at}
use scrum_jail_governance_pl.Authz.Authorize.{check_operation, authorize}
use scrum_jail_governance_pl.Authz.Authorize.Passing.{authorize-Passes}

-- The stage that a move asks for.
abbrev pub target_of : Arguments → String
target_of arguments = text_or (get "to" arguments) ""

-- pm.issue.done, or else pm.issue.drop
abbrev pub closing : Bool → String
closing done = if done then "pm.issue.done" else "pm.issue.drop"

-- Both stages are stages of the order, and the second is no earlier one.
abbrev pub advances : Option ℕ → Option ℕ → Bool
advances none to = false
advances (some from) none = false
advances (some from) (some to) = leb from to

check_forward-advances :
    (from to : Option ℕ) → check_forward from to ≡ allowed → (advances from to && is_some to) ≡ true
unfolding check_forward deny_if
check_forward-advances none to e = ground (arith, e)
check_forward-advances (some from) none e = ground (arith, e)
check_forward-advances (some from) (some to) e = ground (arith, e)

-- What a move may be.
pub record IsMove (session : Session) (target : String) (facts : Facts) : Type 0 where
  pub complete : facts.complete ≡ true
  pub owned : is_text facts.owner_role session.role ≡ true
  pub delivered : (session.role == orchestrator) ≡ false
  pub not_terminal : mem target terminal_stages ≡ false
  pub known : (mem target holding_stages || is_some (stage_order target)) ≡ true
  pub forward :
      (mem target holding_stages
        || among facts.current_stage holding_stages
        || advances (stage_at facts.current_stage) (stage_order target))
      ≡ true

-- What a done or a drop may be.
pub record IsClosing (session : Session) (done : Bool) (arguments : Arguments) (facts : Facts)
    : Type 0 where
  pub complete : facts.complete ≡ true
  pub owned : is_text facts.owner_role session.role ≡ true
  pub delivered : (session.role == orchestrator) ≡ false
  pub small : among facts.issue_kind ("story" ∷ "feature" ∷ []) ≡ true
  pub childless : is_false facts.has_open_children ≡ true
  pub grounded :
      (if done
        then is_true facts.evidence_valid
        else not (is_blank (text_or (get "reason" arguments) "")))
      ≡ true

module _ (platform : Platform) (policy : OrganizationPolicy) (session : Session)
    (arguments : Arguments) (facts : Facts) where
  move-checked :
      (rp : RolePolicy)
      → check_operation platform policy rp session "pm.issue.move" arguments facts ≡ allowed
      → check_move session arguments facts ≡ allowed
  unfolding check_operation mem
  move-checked rp e = e

  close-checked :
      (rp : RolePolicy) (done : Bool)
      → check_operation platform policy rp session (closing done) arguments facts ≡ allowed
      → check_close session done arguments facts ≡ allowed
  unfolding check_operation mem
  close-checked rp true e = e
  close-checked rp false e = e

  check_move-IsMove :
      facts.complete ≡ true
      → check_move session arguments facts ≡ allowed
      → IsMove session (target_of arguments) facts
  unfolding check_move
  check_move-IsMove c e =
      let (owner, e) = passed _ _ _ e in
      let (role, e) = passed _ _ _ e in
      let (fine, e) = passed _ _ _ e in
      record {
        complete = c;
        owned = ground (arith, owner);
        delivered = role;
        not_terminal = fine;
        known = ground (
          arith,
          e,
          check_forward-advances (stage_at facts.current_stage) (stage_order (target_of arguments)),
        );
        forward = ground (
          arith,
          e,
          check_forward-advances (stage_at facts.current_stage) (stage_order (target_of arguments)),
        );
      }

  check_close-IsClosing :
      (done : Bool)
      → facts.complete ≡ true
      → check_close session done arguments facts ≡ allowed
      → IsClosing session done arguments facts
  unfolding check_close
  check_close-IsClosing true c e =
      let (owner, e) = passed _ _ _ e in
      let (role, e) = passed _ _ _ e in
      let (kind, e) = passed _ _ _ e in
      let (children, e) = passed _ _ _ e in
      let (fine, e) = passed _ _ _ e in
      record {
        complete = c;
        owned = ground (arith, owner);
        delivered = role;
        small = ground (arith, kind);
        childless = ground (arith, children);
        grounded = ground (arith, fine);
      }
  check_close-IsClosing false c e =
      let (owner, e) = passed _ _ _ e in
      let (role, e) = passed _ _ _ e in
      let (kind, e) = passed _ _ _ e in
      let (children, e) = passed _ _ _ e in
      let (fine, e) = passed _ _ _ e in
      record {
        complete = c;
        owned = ground (arith, owner);
        delivered = role;
        small = ground (arith, kind);
        childless = ground (arith, children);
        grounded = ground (arith, fine);
      }

-- A move that `authorize` lets through is, on complete facts, of a work item that the session's
-- role owns, by a role other than the orchestrator, to a known stage that is not terminal, and
-- never to an earlier stage unless it goes to or comes from a holding stage.
pub authorize-IsMove :
    (platform : Platform) (policy : OrganizationPolicy) (session : Session) (arguments : Arguments)
    (facts : Facts)
    → authorize platform policy session "pm.issue.move" arguments (some facts) ≡ allowed
    → IsMove session (target_of arguments) facts
unfolding mem strip_prefix
authorize-IsMove platform policy session arguments facts e =
    let p =
      authorize-Passes platform policy session "pm.issue.move" arguments (some facts) e refl in
    check_move-IsMove platform policy session arguments facts (ground (arith, p.informed))
      (move-checked platform policy session arguments facts p.role_policy p.checked)

-- A done or a drop that `authorize` lets through is, on complete facts, of a story or feature that
-- the session's role owns, by a role other than the orchestrator, with no open children, and has
-- valid evidence if it is a done and a reason if it is a drop.
pub authorize-IsClosing :
    (platform : Platform) (policy : OrganizationPolicy) (session : Session) (arguments : Arguments)
    (facts : Facts) (done : Bool)
    → authorize platform policy session (closing done) arguments (some facts) ≡ allowed
    → IsClosing session done arguments facts
unfolding mem strip_prefix
authorize-IsClosing platform policy session arguments facts true e =
    let p =
      authorize-Passes platform policy session "pm.issue.done" arguments (some facts) e refl in
    check_close-IsClosing platform policy session arguments facts true (ground (arith, p.informed))
      (close-checked platform policy session arguments facts p.role_policy true p.checked)
authorize-IsClosing platform policy session arguments facts false e =
    let p =
      authorize-Passes platform policy session "pm.issue.drop" arguments (some facts) e refl in
    check_close-IsClosing platform policy session arguments facts false (ground (arith, p.informed))
      (close-checked platform policy session arguments facts p.role_policy false p.checked)
