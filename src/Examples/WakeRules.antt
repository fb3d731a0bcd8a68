-- ===== src/Examples/WakeRules.antt =====
-- Wake rules that `load_wake_rules` of control/sjg_control/routing.py loads for a compiled policy.
use scrum_jail_governance_pl.Base.{
  String, true, some, none, List, [], ◌∷◌, ◌≡◌, refl, is_some, ◌==◌,
}
use scrum_jail_governance_pl.Base.Raising.{made}
use scrum_jail_governance_pl.Json.{Value, text}
use scrum_jail_governance_pl.Policy.{find_role}
use scrum_jail_governance_pl.Policy.Compile.{roles_of}
use scrum_jail_governance_pl.Routing.{WakeRule, RoutedEvent, route_event}
use scrum_jail_governance_pl.Routing.Rules.{RulesFile, read, load_wake_rules}
use scrum_jail_governance_pl.Routing.Rules.Targets.{loaded_wakes}
use scrum_jail_governance_pl.Examples.Policies.{acme, mapping, list}

abbrev digest : String
digest = "0123456789abcdef0123456789abcdef0123456789abcdef0123456789abcdef"

abbrev failing : Value
failing = mapping (
    (
      "match",
      mapping (("kind", text "run") ∷ ("workflow", text "ci.yml") ∷ ("repo", text "product") ∷ []),
    )
    ∷ ("wake", text "software-implementer")
    ∷ [])

abbrev file : RulesFile
file = record {
  is_regular = true;
  digest = digest;
  reading = read (mapping (("rules", list (failing ∷ [])) ∷ []));
}

abbrev rules : List WakeRule
rules =
    record {
      conditions = ("kind", "run") ∷ ("workflow", "ci.yml") ∷ ("repo", "product") ∷ [];
      wake = "software-implementer";
    }
    ∷ []

abbrev run : RoutedEvent
run = record {
  kind = "run";
  repository = "product";
  labels = [];
  workflow = some "ci.yml";
  conclusion = some "failure";
  pr_state = none;
}

loads : load_wake_rules acme digest file ≡ made rules
unfolding load_wake_rules scrum_jail_governance_pl.Base.Raising.◌>>=◌
    scrum_jail_governance_pl.Base.Raising.require_as scrum_jail_governance_pl.Base.Regex.matches
    scrum_jail_governance_pl.Base.Regex.exactly scrum_jail_governance_pl.Base.subset
    scrum_jail_governance_pl.Json.members_of scrum_jail_governance_pl.Base.mem
    scrum_jail_governance_pl.Json.get scrum_jail_governance_pl.Json.values_of
    scrum_jail_governance_pl.Routing.Rules.normalize scrum_jail_governance_pl.Base.Table.select
    scrum_jail_governance_pl.Authz.Patterns.in_turn
loads = refl

wakes : route_event run rules (roles_of acme.roles) ≡ some "software-implementer"
unfolding route_event scrum_jail_governance_pl.Routing.matches
wakes = refl

loaded_wakes_example :
    (is_some (find_role acme "software-implementer") ≡ true) × ((file.digest == digest) ≡ true)
loaded_wakes_example = loaded_wakes acme digest file rules run "software-implementer" loads wakes
