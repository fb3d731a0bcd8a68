-- ===== src/Routing/Rules/Targets.antt =====
-- The rules that `load_wake_rules` of control/sjg_control/routing.py loads, and what they wake.
use scrum_jail_governance_pl.Base.{
  ℕ, ◌+◌, String, ◌==◌, true, Option, none, some, List, [], ◌∷◌, ◌≡◌, refl, arith, mem, is_some,
  subst, ◌∙◌, eq_comm,
}
use scrum_jail_governance_pl.Base.Raising.{made, made_first, made_test, made_same}
use scrum_jail_governance_pl.Base.Table.{select}
use scrum_jail_governance_pl.Json.{Value, Arguments, shown, get, as_object}
use scrum_jail_governance_pl.Policy.{OrganizationPolicy, RolePolicy, find_role}
use scrum_jail_governance_pl.Policy.Compile.{roles_of}
use scrum_jail_governance_pl.Routing.{WakeRule, RoutedEvent, route_event}
use scrum_jail_governance_pl.Routing.Choice.{is_target, AreTargets, route_event-mem}
use scrum_jail_governance_pl.Routing.Rules.{
  RulesFile, Reading, read, unreadable, undecodable, compile_match, compile_rule, compile_rules,
  compile_document, load_wake_rules, listed, fields_of,
}

select-mem :
    (rows : List RolePolicy) (role : String)
    → is_some (select (λ (row : RolePolicy). row.role == role) rows) ≡ mem role (roles_of rows)
unfolding select mem
select-mem [] role = refl
select-mem (row ∷ rows) role = ground (arith, eq_comm row.role role, select-mem rows role)

compile_match-target :
    (policy : OrganizationPolicy) (index : ℕ) (fields : Arguments) (wake : Value) (rule : WakeRule)
    → compile_match policy index fields wake ≡ made rule
    → is_target (roles_of policy.roles) rule ≡ true
unfolding compile_match
compile_match-target policy index fields wake rule e =
    let (names, e) = made_test _ _ _ _ e in
    let (conditions, c, e) = made_first _ _ _ e in
    let (kind, e) = made_test _ _ _ _ e in
    let (alias, e) = made_test _ _ _ _ e in
    let (state, e) = made_test _ _ _ _ e in
    let (workflow, e) = made_test _ _ _ _ e in
    let (known, e) = made_test _ _ _ _ e in
    subst (λ (rule : WakeRule). is_target (roles_of policy.roles) rule ≡ true) (made_same _ _ e)
      (ground (arith, known, select-mem policy.roles (shown wake)))

compile_rule-target :
    (policy : OrganizationPolicy) (index : ℕ) (raw : Value) (rule : WakeRule)
    → compile_rule policy index raw ≡ made rule
    → is_target (roles_of policy.roles) rule ≡ true
unfolding compile_rule
compile_rule-target policy index raw rule e =
    let (exact, e) = made_test _ _ _ _ e in
    let (mapped, e) = made_test _ _ _ _ e in
    let fields : Arguments = fields_of (as_object raw) in
    compile_match-target policy index (fields_of (as_object (get "match" fields)))
      (get "wake" fields) rule e

compile_rules-AreTargets :
    (policy : OrganizationPolicy) (index : ℕ) (values : List Value) (rules : List WakeRule)
    → compile_rules policy index values ≡ made rules
    → AreTargets (roles_of policy.roles) rules
unfolding compile_rules
compile_rules-AreTargets policy index [] rules e =
    subst (AreTargets (roles_of policy.roles)) (made_same _ _ e) tt
compile_rules-AreTargets policy index (raw ∷ values) rules e =
    let (rule, r, e) = made_first _ _ _ e in
    let (rest, t, e) = made_first _ _ _ e in
    subst (AreTargets (roles_of policy.roles)) (made_same _ _ e) (
      compile_rule-target policy index raw rule r,
      compile_rules-AreTargets policy (1 + index) values rest t,
    )

listed-AreTargets :
    (policy : OrganizationPolicy) (document : Value) (values : Option (List Value))
    (rules : List WakeRule)
    → listed document ≡ values
    → compile_document policy (read document) ≡ made rules
    → AreTargets (roles_of policy.roles) rules
unfolding compile_document
listed-AreTargets policy document none rules l e = absurd (ground (arith, l, e))
listed-AreTargets policy document (some []) rules l e = absurd (ground (arith, l, e))
listed-AreTargets policy document (some (raw ∷ rest)) rules l e =
    compile_rules-AreTargets policy 0 (raw ∷ rest) rules (ground (arith, l, e))

document-AreTargets :
    (policy : OrganizationPolicy) (reading : Reading) (rules : List WakeRule)
    → compile_document policy reading ≡ made rules
    → AreTargets (roles_of policy.roles) rules
unfolding compile_document
document-AreTargets policy (unreadable why) rules e = absurd (ground (arith, e))
document-AreTargets policy undecodable rules e = absurd (ground (arith, e))
document-AreTargets policy (read document) rules e =
    listed-AreTargets policy document (listed document) rules refl e

load_wake_rules-AreTargets :
    (policy : OrganizationPolicy) (expected : String) (file : RulesFile) (rules : List WakeRule)
    → load_wake_rules policy expected file ≡ made rules
    → AreTargets (roles_of policy.roles) rules
unfolding load_wake_rules
load_wake_rules-AreTargets policy expected file rules e =
    let (valid, e) = made_test _ _ _ _ e in
    let (regular, e) = made_test _ _ _ _ e in
    let (same, e) = made_test _ _ _ _ e in document-AreTargets policy file.reading rules e

-- A role that an event wakes by rules that `load_wake_rules` has loaded for a policy is a role of
-- that policy, and the digest of the rules' file is the expected one.
pub loaded_wakes :
    (policy : OrganizationPolicy) (expected : String) (file : RulesFile) (rules : List WakeRule)
    (event : RoutedEvent) (role : String)
    → load_wake_rules policy expected file ≡ made rules
    → route_event event rules (roles_of policy.roles) ≡ some role
    → (is_some (find_role policy role) ≡ true) × ((file.digest == expected) ≡ true)
unfolding load_wake_rules
loaded_wakes policy expected file rules event role l e =
    let (valid, m) = made_test _ _ _ _ l in
    let (regular, m) = made_test _ _ _ _ m in
    let (same, m) = made_test _ _ _ _ m in
    (
      select-mem policy.roles role
          ∙ route_event-mem event rules (roles_of policy.roles) role
              (load_wake_rules-AreTargets policy expected file rules l) e,
      same,
    )
