-- ===== src/Authz/Authorize/Creation.antt =====
-- New work items under `authorize` of control/sjg_control/authz.py.
use scrum_jail_governance_pl.Base.{
  String, ◌==◌, Bool, true, false, not, ◌&&◌, ◌||◌, Option, none, some, [], ◌∷◌, ◌≡◌, refl, arith,
  mem, is_text, is_empty, strip_prefix,
}
use scrum_jail_governance_pl.Json.{Arguments, get, text_or}
use scrum_jail_governance_pl.Session.{Session}
use scrum_jail_governance_pl.Policy.{OrganizationPolicy, RolePolicy}
use scrum_jail_governance_pl.Authz.Denials.{Verdict, allowed, passed, deny_if}
use scrum_jail_governance_pl.Authz.Patterns.{Platform, is_objective, has_acceptance}
use scrum_jail_governance_pl.Authz.Facts.{Facts, orchestrator, is_delivery}
use scrum_jail_governance_pl.Authz.Rules.{
  kinds_for, required_parent, title_of, names_objective, check_parent, check_target, check_kind,
  check_named, check_create, are_collaborators,
}
use scrum_jail_governance_pl.Authz.Authorize.{check_operation, authorize}
use scrum_jail_governance_pl.Authz.Authorize.Passing.{authorize-Passes}

abbrev pub kind_of : Arguments → String
kind_of arguments = text_or (get "kind" arguments) ""

abbrev pub assignee_of : Arguments → String
assignee_of arguments = text_or (get "target_role" arguments) ""

-- The parent that the kind asks for, if any, is the parent of the facts.
abbrev pub has_parent : Option String → Option String → Bool
has_parent none parent = true
has_parent (some kind) parent = is_text parent kind

-- Nobody, or a role that delivers: the latter for delivery work of the orchestrator.
abbrev pub is_assigned : OrganizationPolicy → String → String → String → Bool
is_assigned policy role kind target =
    (is_empty target && (not (role == orchestrator) || kind == "proposal"))
    || (role == orchestrator && is_delivery policy target)

-- What new work may be.
pub record IsCreation (platform : Platform) (policy : OrganizationPolicy) (session : Session)
    (arguments : Arguments) (facts : Facts) : Type 0 where
  pub complete : facts.complete ≡ true
  pub own_kind : mem (kind_of arguments) (kinds_for session.role) ≡ true
  pub no_objective :
      (kind_of arguments == "objective" || is_objective platform (title_of arguments)) ≡ false
  pub titled : is_empty (title_of arguments) ≡ false
  pub accepted :
      (mem (kind_of arguments) ("feature" ∷ "story" ∷ [])
        && not (has_acceptance platform (text_or (get "body" arguments) "")))
      ≡ false
  pub parented : has_parent (required_parent (kind_of arguments)) facts.parent_kind ≡ true
  pub assigned : is_assigned policy session.role (kind_of arguments) (assignee_of arguments) ≡ true
  pub shared : are_collaborators policy (get "also_role" arguments) ≡ true

parent-passed :
    (kind : String) (parent : Option String) (facts : Facts) (rest : Verdict)
    → check_parent kind parent facts rest ≡ allowed
    → (has_parent parent facts.parent_kind ≡ true) × (rest ≡ allowed)
unfolding check_parent
parent-passed kind none facts rest e = (refl, e)
parent-passed kind (some parent) facts rest e =
    let (found, e) = passed _ _ _ e in (ground (arith, found), e)

target-passed :
    (policy : OrganizationPolicy) (role kind target : String) (rest : Verdict)
    → check_target policy role kind target rest ≡ allowed
    → (is_assigned policy role kind target ≡ true) × (rest ≡ allowed)
unfolding check_target deny_if
target-passed policy role kind target rest e = ground (arith, e)

module _ (platform : Platform) (policy : OrganizationPolicy) (session : Session)
    (arguments : Arguments) (facts : Facts) where
  kind-passed :
      (rest : Verdict)
      → check_kind platform session (kind_of arguments) arguments facts rest ≡ allowed
      → (mem (kind_of arguments) (kinds_for session.role) ≡ true)
        × ((mem (kind_of arguments) ("feature" ∷ "story" ∷ [])
              && not (has_acceptance platform (text_or (get "body" arguments) "")))
            ≡ false)
        × (has_parent (required_parent (kind_of arguments)) facts.parent_kind ≡ true)
        × (rest ≡ allowed)
  unfolding check_kind
  kind-passed rest e =
      let (own, e) = passed _ _ _ e in
      let (accepted, e) = passed _ _ _ e in
      let (parent, e) =
        parent-passed (kind_of arguments) (required_parent (kind_of arguments)) facts _ e in
      (ground (arith, own), accepted, parent, e)

  -- The test for objectives has answered no.
  not_named :
      names_objective platform (kind_of arguments) (title_of arguments) (get "labels" arguments)
        ≡ some false
      → (kind_of arguments == "objective" || is_objective platform (title_of arguments)) ≡ false
  unfolding names_objective
  not_named e = ground (arith, e)

  named-IsCreation :
      (named : Option Bool)
      → facts.complete ≡ true
      → is_empty (title_of arguments) ≡ false
      → names_objective platform (kind_of arguments) (title_of arguments) (get "labels" arguments)
        ≡ named
      → check_named platform policy session arguments facts named ≡ allowed
      → IsCreation platform policy session arguments facts
  unfolding check_named
  named-IsCreation none c t n e = absurd (ground (arith, e))
  named-IsCreation (some true) c t n e =
      let (no_one, e) = passed _ _ _ e in absurd (ground (arith, no_one))
  named-IsCreation (some false) c t n e =
      let (fine, e) = passed _ _ _ e in
      let (own, accepted, parent, e) = kind-passed _ e in
      let (target, e) =
        target-passed policy session.role (kind_of arguments) (assignee_of arguments) _ e in
      let (shared, e) = passed _ _ _ e in
      record {
        complete = c;
        own_kind = own;
        no_objective = not_named n;
        titled = t;
        accepted = accepted;
        parented = parent;
        assigned = target;
        shared = ground (arith, shared);
      }

  create-IsCreation :
      facts.complete ≡ true
      → check_create platform policy session arguments facts ≡ allowed
      → IsCreation platform policy session arguments facts
  unfolding check_create
  create-IsCreation c e =
      let (lower, e) = passed _ _ _ e in
      let (titled, e) = passed _ _ _ e in named-IsCreation _ c titled refl e

  creation-checked :
      (rp : RolePolicy)
      → check_operation platform policy rp session "pm.issue.create" arguments facts ≡ allowed
      → check_create platform policy session arguments facts ≡ allowed
  unfolding check_operation
  creation-checked rp e = e

-- New work that `authorize` lets through, on complete facts, is of a kind that the session's role
-- may create, is no objective by its kind or title, has a title, has acceptance text where it is a
-- feature or a story, and the parent that its kind asks for; the orchestrator assigns delivery work
-- to a delivery role, nobody else assigns work, and the collaborators are distinct delivery roles.
pub authorize-IsCreation :
    (platform : Platform) (policy : OrganizationPolicy) (session : Session) (arguments : Arguments)
    (facts : Facts)
    → authorize platform policy session "pm.issue.create" arguments (some facts) ≡ allowed
    → IsCreation platform policy session arguments facts
unfolding mem strip_prefix
authorize-IsCreation platform policy session arguments facts e =
    let p =
      authorize-Passes platform policy session "pm.issue.create" arguments (some facts) e refl in
    create-IsCreation platform policy session arguments facts (ground (arith, p.informed))
      (creation-checked platform policy session arguments facts p.role_policy p.checked)
