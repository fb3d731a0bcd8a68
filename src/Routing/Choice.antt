-- ===== src/Routing/Choice.antt =====
-- The rules and the labels that `route_event` of control/sjg_control/routing.py chooses by.
use scrum_jail_governance_pl.Base.{
  String, ◌==◌, Bool, true, ◌||◌, Option, none, some, List, [], ◌∷◌, if◌then◌else◌, ◌≡◌, refl,
  arith, mem, sorted_set, strip_prefix, eq_iff, eq_refl, subst, sym, ◌∙◌, Option-cases, Bool-cases,
  inl, inr,
}
use scrum_jail_governance_pl.Base.Text.{insert_sorted}
use scrum_jail_governance_pl.Base.Table.{select}
use scrum_jail_governance_pl.Base.Table.Laws.{All}
use scrum_jail_governance_pl.Routing.{
  WakeRule, RoutedEvent, matches, role_names, only, role_of_labels, route_event,
}

abbrev pub fits : RoutedEvent → WakeRule → Bool
fits event rule = matches event rule.conditions

-- What one rule wakes.
abbrev pub target : List String → List String → Option WakeRule → Option String
target roles labels none = none
target roles labels (some rule) =
    if rule.wake == "from-label" then role_of_labels roles labels else some rule.wake

-- The loop over the rules wakes what the first rule that matches the event wakes: the rule's role,
-- or what the labels name, and nobody where no rule matches.
pub route_event-select :
    (event : RoutedEvent) (rules : List WakeRule) (roles : List String)
    → route_event event rules roles ≡ target roles event.labels (select (fits event) rules)
unfolding route_event select
route_event-select event [] roles = refl
route_event-select event (rule ∷ rules) roles = ground (arith, route_event-select event rules roles)

mem-insert_sorted :
    (x s : String) (ts : List String) → mem x (insert_sorted s ts) ≡ (x == s || mem x ts)
unfolding mem insert_sorted
mem-insert_sorted x s [] = refl
mem-insert_sorted x s (t ∷ ts) = elim (Bool-cases (s == t)) [
  | inl same ↦ ground (arith, same, subst (λ u. (x == s) ≡ (x == u)) ((eq_iff s t).0 same) refl)
  | inr other ↦ ground (arith, other, mem-insert_sorted x s ts)
]

mem-sorted_set : (x : String) (xs : List String) → mem x (sorted_set xs) ≡ mem x xs
unfolding mem sorted_set
mem-sorted_set x [] = refl
mem-sorted_set x (y ∷ ys) =
    ground (arith, mem-insert_sorted x y (sorted_set ys), mem-sorted_set x ys)

only_one : (r x : String) (xs : List String) → only xs ≡ some r → mem x xs ≡ (x == r)
unfolding mem
only_one r x [] e = cc
only_one r x (y ∷ []) e = ground (arith, e)
only_one r x (y ∷ z ∷ zs) e = cc

role_names_sound :
    (roles labels : List String) (r : String)
    → mem r (role_names roles labels) ≡ true
    → mem r roles ≡ true
unfolding mem role_names
role_names_sound roles [] r h = cc
role_names_sound roles (label ∷ labels) r h = elim (Option-cases (strip_prefix "role:" label)) [
  | inl plain ↦ ground (arith, plain, role_names_sound roles labels r)
  | inr (role, named) ↦ elim (Bool-cases (r == role)) [
    | inl same ↦ ground (
      arith,
      named,
      role_names_sound roles labels r,
      subst (λ u. mem r roles ≡ mem u roles) ((eq_iff r role).0 same) refl,
    )
    | inr other ↦ ground (arith, named, other, role_names_sound roles labels r)
  ]
]

role_names_complete :
    (roles labels : List String) (label x : String)
    → mem label labels ≡ true
    → strip_prefix "role:" label ≡ some x
    → mem x roles ≡ true
    → mem x (role_names roles labels) ≡ true
unfolding mem role_names
role_names_complete roles [] label x h e k = cc
role_names_complete roles (l ∷ ls) label x h e k = elim (Bool-cases (label == l)) [
  | inl same ↦ ground (
    arith,
    k,
    eq_refl x,
    subst (λ u. strip_prefix "role:" u ≡ some x) ((eq_iff label l).0 same) e,
  )
  | inr other ↦ elim (Option-cases (strip_prefix "role:" l)) [
    | inl plain ↦ ground (arith, other, plain, role_names_complete roles ls label x)
    | inr (role, named) ↦ ground (arith, other, named, role_names_complete roles ls label x)
  ]
]

-- Where the labels of an event name a role to wake, every label that names a role of the policy
-- names that one.
pub role_of_labels_unique :
    (roles labels : List String) (r label x : String)
    → role_of_labels roles labels ≡ some r
    → mem label labels ≡ true
    → strip_prefix "role:" label ≡ some x
    → mem x roles ≡ true
    → x ≡ r
role_of_labels_unique roles labels r label x e h named k = (eq_iff x r).0 (
    sym (only_one r x (sorted_set (role_names roles labels)) e)
    ∙ mem-sorted_set x (role_names roles labels)
    ∙ role_names_complete roles labels label x h named k)

role_of_labels_sound :
    (roles labels : List String) (r : String)
    → role_of_labels roles labels ≡ some r
    → mem r roles ≡ true
role_of_labels_sound roles labels r e = role_names_sound roles labels r (
    sym (mem-sorted_set r (role_names roles labels))
    ∙ only_one r r (sorted_set (role_names roles labels)) e
    ∙ eq_refl r)

-- What `load_wake_rules` asks of a rule's target.
abbrev pub is_target : List String → WakeRule → Bool
is_target roles rule = rule.wake == "from-label" || mem rule.wake roles

abbrev pub AreTargets : List String → List WakeRule → Type 0
AreTargets roles = All (λ rule. is_target roles rule ≡ true)

-- Where every rule wakes a role of the policy or by label, a role that an event wakes is one of the
-- policy's.
pub route_event-mem :
    (event : RoutedEvent) (rules : List WakeRule) (roles : List String) (r : String)
    → AreTargets roles rules
    → route_event event rules roles ≡ some r
    → mem r roles ≡ true
unfolding route_event
route_event-mem event [] roles r a e = cc
route_event-mem event (rule ∷ rules) roles r a e =
    elim (Bool-cases (matches event rule.conditions)) [
      | inl fit ↦ elim (Bool-cases (rule.wake == "from-label")) [
        | inl by_label ↦
            role_of_labels_sound roles event.labels r (ground (arith, fit, by_label, e))
        | inr direct ↦
            subst (λ u. mem u roles ≡ true) {x = rule.wake} {y = r} (ground (arith, fit, direct, e))
              (ground (arith, direct, a.0))
      ]
      | inr unfit ↦ route_event-mem event rules roles r a.1 (ground (arith, unfit, e))
    ]
