-- ===== src/Authz/Rules.antt =====
-- control/sjg_control/authz.py: what `authorize` asks of the operations on work items, given the facts.
use Prim.Native.String.{◌++◌}
use scrum_jail_governance_pl.Base.{
  ℕ, String, ◌==◌, Bool, false, not, ◌&&◌, ◌||◌, Option, none, some, List, [], ◌∷◌, map,
  if◌then◌else◌, ltb, mem, is_empty, is_text, is_some,
}
use scrum_jail_governance_pl.Base.Table.{exists}
use scrum_jail_governance_pl.Json.{
  Value, Arguments, text, nothing, other, items, object, get, keys, text_or, shown, or_nil, as_list,
  values_of, members_of,
}
use scrum_jail_governance_pl.Session.{Session}
use scrum_jail_governance_pl.Policy.{OrganizationPolicy}
use scrum_jail_governance_pl.Authz.Facts.{
  Facts, orchestrator, terminal_stages, holding_stages, stage_order, delivery_roles, has_role,
  is_true, is_false, among, is_delivery,
}
use scrum_jail_governance_pl.Authz.Denials.{
  Denial, Verdict, allowed, type_error, denied, rule, deny_if,
}
use scrum_jail_governance_pl.Authz.Texts.{has_repeats}
use scrum_jail_governance_pl.Authz.Patterns.{
  Platform, strip, is_blank, is_lowered, lowers_to, is_objective, has_acceptance, has_banner,
}

-- "objective" in {str(v).lower() for v in labels or []}; none is the TypeError on what has no elements.
unfoldable pub labels_objective : Value → Option Bool
unfolding lowers_to
labels_objective nothing = some false
labels_objective (text t) = some false
labels_objective (other truthy n t) = if truthy then none else some false
labels_objective (items vs t) =
    some (exists (λ label. lowers_to label "objective") (map shown (values_of vs)))
labels_objective (object ms t) =
    some (exists (λ label. lowers_to label "objective") (keys (members_of ms)))

-- kind == "objective" or "objective" in labels or OBJECTIVE_RE.match(title)
unfoldable pub names_objective : Platform → String → String → Value → Option Bool
unfolding labels_objective
names_objective platform kind title labels = elim (labels_objective labels) [
  | none ↦ none
  | some labelled ↦ some (kind == "objective" || labelled || is_objective platform title)
]

abbrev pub kinds_for : String → List String
kinds_for role =
    if role == orchestrator then "epic" ∷ "proposal" ∷ [] else "feature" ∷ "story" ∷ "proposal" ∷ []

abbrev pub required_parent : String → Option String
required_parent kind =
    if kind == "epic"
    then some "objective"
    else if kind == "feature"
    then some "epic"
    else if kind == "story"
    then some "feature"
    else none

unfoldable pub check_parent : String → Option String → Facts → Verdict → Verdict
check_parent kind none facts rest = rest
check_parent kind (some parent) facts rest =
    deny_if (not (is_text facts.parent_kind parent))
      (rule (kind ++ (" requires a complete " ++ (parent ++ " parent")))) rest

abbrev refuses_kind : String → String → Denial
refuses_kind role kind =
    rule (role ++ (" may not create " ++ ((if is_empty kind then "untyped" else kind) ++ " work")))

-- [v for v in values], if all are texts.
unfoldable pub texts_of : List Value → Option (List String)
texts_of [] = some []
texts_of (value ∷ values) =
    let rest = texts_of values in
    elim value [ text t ↦ elim rest [ none ↦ none | some ts ↦ some (t ∷ ts) ] | _ ↦ none ]

-- Distinct delivery roles of the policy.
unfoldable pub are_collaborators : OrganizationPolicy → Value → Bool
unfolding texts_of has_repeats
are_collaborators policy value = elim (as_list (or_nil value)) [
  | none ↦ false
  | some values ↦ elim (texts_of values) [
    | none ↦ false
    | some roles ↦
        not (has_repeats roles) && not (exists (λ role. not (is_delivery policy role)) roles)
  ]
]

-- Whom new work is given to, and with whom.
unfoldable pub check_target : OrganizationPolicy → String → String → String → Verdict → Verdict
check_target policy role kind target rest =
    if role == orchestrator
    then deny_if (not (kind == "proposal") && not (is_delivery policy target))
        (rule "project-created delivery work requires a canonical delivery owner")
        (deny_if (not (is_empty target) && not (is_delivery policy target))
          (rule "create target is not a canonical delivery owner") rest)
    else deny_if (not (is_empty target))
        (rule "only project-orchestrator may assign another role at creation") rest

-- The kind of new work, for the role that asks for it.
unfoldable pub check_kind : Platform → Session → String → Arguments → Facts → Verdict → Verdict
unfolding check_parent
check_kind platform session kind arguments facts rest =
    deny_if (not (mem kind (kinds_for session.role))) (refuses_kind session.role kind) (
      deny_if
        (mem kind ("feature" ∷ "story" ∷ [])
          && not (has_acceptance platform (text_or (get "body" arguments) "")))
        (rule (kind ++ " requires acceptance or done-when evidence text"))
        (check_parent kind (required_parent kind) facts rest))

abbrev pub title_of : Arguments → String
title_of arguments = strip (text_or (get "title" arguments) "")

-- After the test for objectives.
unfoldable pub check_named :
    Platform → OrganizationPolicy → Session → Arguments → Facts → Option Bool → Verdict
unfolding check_kind check_target are_collaborators
check_named platform policy session arguments facts none = type_error
check_named platform policy session arguments facts (some named) =
    let kind = text_or (get "kind" arguments) "" in
    deny_if named (rule "only the Human Principal creates objectives") (
      check_kind platform session kind arguments facts (
        check_target policy session.role kind (text_or (get "target_role" arguments) "") (
          deny_if (not (are_collaborators policy (get "also_role" arguments)))
            (rule "collaborators must be canonical delivery roles") allowed)))

unfoldable pub check_create : Platform → OrganizationPolicy → Session → Arguments → Facts → Verdict
unfolding is_lowered names_objective check_named
check_create platform policy session arguments facts =
    let kind = text_or (get "kind" arguments) "" in
    deny_if (not (is_lowered platform.keeps kind))
      (rule "work-item kind must use its canonical lowercase id")
      (deny_if (is_empty (title_of arguments)) (rule "issue title is required") (
        check_named platform policy session arguments facts
          (names_objective platform kind (title_of arguments) (get "labels" arguments))))

unfoldable pub check_comment : Arguments → Verdict
unfolding is_blank
check_comment arguments =
    let body = text_or (get "body" arguments) "" in
    deny_if (is_blank body) (rule "comment body is required")
      (deny_if (has_banner body) (rule "agents may not forge the Human Principal banner") allowed)

abbrev route_targets : Facts → List String
route_targets facts =
    if is_text facts.issue_kind "objective" then orchestrator ∷ [] else delivery_roles

unfoldable pub check_route : OrganizationPolicy → Arguments → Facts → Verdict
check_route policy arguments facts =
    let target = text_or (get "target_role" arguments) "" in
    deny_if (not (has_role policy target && mem target (route_targets facts)))
      (rule "route target is invalid for this work kind")
      (deny_if (is_some facts.owner_role)
        (rule "agent routing is triage-only and cannot replace an owner") allowed)

-- What is asked of every move, done and drop.
abbrev check_owner : Session → Facts → Verdict → Verdict
check_owner session facts rest =
    deny_if (not (is_text facts.owner_role session.role))
      (rule "only the owning role may mutate work state")
      (deny_if (session.role == orchestrator)
        (rule "project-orchestrator coordinates but does not move or close work") rest)

abbrev pub stage_at : Option String → Option ℕ
stage_at none = none
stage_at (some stage) = stage_order stage

unfoldable pub check_forward : Option ℕ → Option ℕ → Verdict
check_forward none to = denied (rule "unknown current or target stage")
check_forward (some from) none = denied (rule "unknown current or target stage")
check_forward (some from) (some to) =
    deny_if (ltb to from) (rule "backward movement requires Human intervention") allowed

unfoldable pub check_move : Session → Arguments → Facts → Verdict
check_move session arguments facts =
    let target = text_or (get "to" arguments) "" in
    check_owner session facts (
      deny_if (mem target terminal_stages)
        (rule "terminal stages require the typed done/drop operation")
        (if mem target holding_stages
          then allowed
          else if among facts.current_stage holding_stages && is_some (stage_order target)
          then allowed
          else check_forward (stage_at facts.current_stage) (stage_order target)))

-- pm.issue.done, or else pm.issue.drop
unfoldable pub check_close : Session → Bool → Arguments → Facts → Verdict
unfolding is_blank
check_close session done arguments facts = check_owner session facts (
    deny_if (not (among facts.issue_kind ("story" ∷ "feature" ∷ [])))
      (rule "agents may complete or drop only stories and features")
      (deny_if (not (is_false facts.has_open_children))
        (rule "complete child enumeration did not prove zero open children")
        (if done
          then deny_if (not (is_true facts.evidence_valid))
              (rule "evidence is absent, stale, unrelated, or incomplete") allowed
          else deny_if (is_blank (text_or (get "reason" arguments) ""))
              (rule "drop requires a non-empty reason") allowed)))
