-- ===== src/Authz/Authorize/Pulls.antt =====
-- Pull requests under `authorize` of control/sjg_control/authz.py.
use scrum_jail_governance_pl.Base.{
  String, Bool, true, false, some, [], ◌∷◌, ◌≡◌, refl, arith, mem, is_text, strip_prefix,
  if◌then◌else◌,
}
use Prim.Native.String.{◌++◌}
use scrum_jail_governance_pl.Json.{Arguments, get, text_or}
use scrum_jail_governance_pl.Session.{Session}
use scrum_jail_governance_pl.Policy.{OrganizationPolicy, RolePolicy}
use scrum_jail_governance_pl.Authz.Denials.{allowed, passed}
use scrum_jail_governance_pl.Authz.Patterns.{Platform, has_closing}
use scrum_jail_governance_pl.Authz.Facts.{Facts, independent_review_roles, is_true}
use scrum_jail_governance_pl.Authz.Authorize.{
  check_pr, check_open_pr, check_review, check_operation, authorize, has_agent_head, formatted,
}
use scrum_jail_governance_pl.Authz.Authorize.Passing.{authorize-Passes}

abbrev pull : Bool → String
pull reviews = if reviews then "pr.review" else "pr.update"

-- What a review of a pull request may be.
pub record IsReview (platform : Platform) (policy : OrganizationPolicy) (session : Session)
    (arguments : Arguments) (facts : Facts) : Type 0 where
  pub complete : facts.complete ≡ true
  pub is_open : is_true facts.pr_open ≡ true
  pub by_agent : has_agent_head policy facts.pr_head_role ≡ true
  pub of_another : is_text facts.pr_head_role session.role ≡ false
  pub independent : mem session.role independent_review_roles ≡ true
  pub no_approval :
      mem (text_or (get "event" arguments) "COMMENT") ("COMMENT" ∷ "REQUEST_CHANGES" ∷ []) ≡ true
  pub closes_nothing :
      has_closing platform (formatted "title" arguments ++ ("\n" ++ formatted "body" arguments))
      ≡ false

-- What an update of a pull request may be.
pub record IsUpdate (platform : Platform) (policy : OrganizationPolicy) (session : Session)
    (arguments : Arguments) (facts : Facts) : Type 0 where
  pub complete : facts.complete ≡ true
  pub is_open : is_true facts.pr_open ≡ true
  pub own : is_text facts.pr_head_role session.role ≡ true
  pub closes_nothing :
      has_closing platform (formatted "title" arguments ++ ("\n" ++ formatted "body" arguments))
      ≡ false

module _ (platform : Platform) (policy : OrganizationPolicy) (session : Session)
    (arguments : Arguments) (facts : Facts) where
  check_pr-IsReview :
      facts.complete ≡ true
      → check_pr platform policy session "pr.review" arguments facts ≡ allowed
      → IsReview platform policy session arguments facts
  unfolding check_pr check_open_pr check_review
  check_pr-IsReview c e =
      let (quiet, e) = passed _ _ _ e in
      let (head, e) = passed _ _ _ e in
      let (update, e) = passed _ _ _ e in
      let (apart, e) = passed _ _ _ e in
      let (event, e) = passed _ _ _ e in
      record {
        complete = c;
        is_open = ground (arith, head);
        by_agent = ground (arith, head);
        of_another = ground (arith, apart);
        independent = ground (arith, apart);
        no_approval = ground (arith, event);
        closes_nothing = quiet;
      }

  check_pr-IsUpdate :
      facts.complete ≡ true
      → check_pr platform policy session "pr.update" arguments facts ≡ allowed
      → IsUpdate platform policy session arguments facts
  unfolding check_pr check_open_pr
  check_pr-IsUpdate c e =
      let (quiet, e) = passed _ _ _ e in
      let (head, e) = passed _ _ _ e in
      let (own, e) = passed _ _ _ e in
      record {
        complete = c;
        is_open = ground (arith, head);
        own = ground (arith, own);
        closes_nothing = quiet;
      }

  pull-checked :
      (rp : RolePolicy) (reviews : Bool)
      → check_operation platform policy rp session (pull reviews) arguments facts ≡ allowed
      → check_pr platform policy session (pull reviews) arguments facts ≡ allowed
  unfolding check_operation strip_prefix
  pull-checked rp true e = e
  pull-checked rp false e = e

-- A review that `authorize` lets through is, on complete facts, of an open pull request of another
-- role of the policy, by a role that may review, approves nothing, and has no keyword that closes
-- an issue.
pub authorize-IsReview :
    (platform : Platform) (policy : OrganizationPolicy) (session : Session) (arguments : Arguments)
    (facts : Facts)
    → authorize platform policy session "pr.review" arguments (some facts) ≡ allowed
    → IsReview platform policy session arguments facts
unfolding mem strip_prefix
authorize-IsReview platform policy session arguments facts e =
    let p = authorize-Passes platform policy session "pr.review" arguments (some facts) e refl in
    check_pr-IsReview platform policy session arguments facts (ground (arith, p.informed))
      (pull-checked platform policy session arguments facts p.role_policy true p.checked)

pub authorize-IsUpdate :
    (platform : Platform) (policy : OrganizationPolicy) (session : Session) (arguments : Arguments)
    (facts : Facts)
    → authorize platform policy session "pr.update" arguments (some facts) ≡ allowed
    → IsUpdate platform policy session arguments facts
unfolding mem strip_prefix
authorize-IsUpdate platform policy session arguments facts e =
    let p = authorize-Passes platform policy session "pr.update" arguments (some facts) e refl in
    check_pr-IsUpdate platform policy session arguments facts (ground (arith, p.informed))
      (pull-checked platform policy session arguments facts p.role_policy false p.checked)
