-- ===== src/Examples/Governed.antt =====
-- A governance write of control/sjg_control/governance.py that is applied again after a lost answer.
use scrum_jail_governance_pl.Base.{
  ℕ, ◌≤◌, String, ◌==◌, Option, none, some, List, [], ◌∷◌, ◌≡◌, refl, length, mem,
}
use scrum_jail_governance_pl.Base.Table.{count, filter, select}
use scrum_jail_governance_pl.Json.{Value, text, as_text}
use scrum_jail_governance_pl.Store.Schema.{empty}
use scrum_jail_governance_pl.Monitor.{Call, Attempt, unreachable, Action, create, close, marker}
use Prim.Native.String.{◌++◌}
use scrum_jail_governance_pl.Monitor.Marker.{source_marker, marker-source_marker}
use scrum_jail_governance_pl.Monitor.Blockers.{blockers}
use scrum_jail_governance_pl.Monitor.Posted.{ArePosted, blockers-ArePosted}
use scrum_jail_governance_pl.Examples.Policies.{mapping, list}
use scrum_jail_governance_pl.Monitor.Snapshot.{Issue, DesiredQueueItem, actions}
use scrum_jail_governance_pl.Monitor.Due.{AreDue, actions-AreDue}
use scrum_jail_governance_pl.Base.Raising.{made, require_as}
use scrum_jail_governance_pl.Monitor.Turns.{sync_all, synced_once}

abbrev lost : List Call → Call → Attempt Value
lost calls call = unreachable "no answer"

abbrev key_of : Action → ℕ → String
key_of action queue = "governance-create-1"

abbrev precondition_of : Action → ℕ → String
precondition_of action queue = "{}"

abbrev result_of : Action → ℕ → Value → String
result_of action queue value = "{}"

abbrev error_of : String → String
error_of why = why

abbrev blocker : Action
blocker = create "blocker:dns" "[HUMAN] Move the domain" "body" none "absent"

abbrev twice : List (List String × List (Action × String × String) × ℕ)
twice =
    ([], (blocker, "u1", "2026-01-01T00:00:00Z") ∷ [], 7)
    ∷ ([], (blocker, "u2", "2026-01-01T00:05:00Z") ∷ [], 7)
    ∷ []

synced_once_example :
    count
      (λ k. k == "governance-create-1")
      (sync_all lost key_of precondition_of result_of error_of twice
        (record { store = empty; calls = []; turns = [] })).turns
    ≤ 1
synced_once_example =
    synced_once lost key_of precondition_of result_of error_of twice empty [] "governance-create-1"

abbrev stale : Issue
stale = record {
  number = 5;
  state = "open";
  body = "<!-- governance-monitor-source:blocker:old -->\n\nMove the old domain.";
  updated_at = "2026-01-01T00:00:00Z";
}

abbrev wanted : DesiredQueueItem
wanted = record {
  source_key = "blocker:dns";
  title = "[HUMAN] Move the domain";
  body = "<!-- governance-monitor-source:blocker:dns -->";
}

abbrev due : List Action
due =
    create "blocker:dns" "[HUMAN] Move the domain" "<!-- governance-monitor-source:blocker:dns -->"
      none "absent"
    ∷ close "blocker:old" 5 "2026-01-01T00:00:00Z"
    ∷ []

decided : actions (stale ∷ []) (5 ∷ []) (wanted ∷ []) ≡ made due
unfolding actions scrum_jail_governance_pl.Base.Raising.◌>>=◌ require_as length select filter mem
decided = refl

actions-AreDue_example : AreDue (stale ∷ []) (5 ∷ []) (wanted ∷ []) due
actions-AreDue_example = actions-AreDue (stale ∷ []) (5 ∷ []) (wanted ∷ []) due decided

accepted : source_marker "blocker:dns" ≡ some "<!-- governance-monitor-source:blocker:dns -->"
unfolding source_marker
accepted = refl

marker-source_marker_example :
    marker ("<!-- governance-monitor-source:blocker:dns -->" ++ ("\n" ++ "\nMove the domain."))
    ≡ some "blocker:dns"
marker-source_marker_example =
    marker-source_marker "blocker:dns" "<!-- governance-monitor-source:blocker:dns -->"
      "\nMove the domain." accepted

abbrev row : String → String → Value
row id state = mapping (
    ("id", text id)
    ∷ ("kind", text "account")
    ∷ ("needs", text "human-principal")
    ∷ ("value", text "high")
    ∷ ("effort_minutes", text "10")
    ∷ ("summary", text "Move the domain")
    ∷ ("action", text "Change the registrar.")
    ∷ ("blocks", text "launch")
    ∷ ("opened", text "2026-01-01")
    ∷ ("state", text state)
    ∷ [])

abbrev dumps : Value → Option String
dumps value = as_text value

abbrev posted : DesiredQueueItem
posted = record {
  source_key = "blocker:dns";
  title = "[HUMAN] Move the domain";
  body =
      "<!-- governance-monitor-source:blocker:dns -->\n\n**Required action**\n\nChange the registrar.\n\nBlocks: `launch`\n";
}

abbrev document : Value
document = mapping (("blockers", list (row "dns" "open" ∷ row "old" "cleared" ∷ [])) ∷ [])

read_blockers : blockers dumps document ≡ made (posted ∷ [])
unfolding blockers scrum_jail_governance_pl.Base.Raising.◌>>=◌ scrum_jail_governance_pl.Base.subset
    scrum_jail_governance_pl.Json.members_of mem scrum_jail_governance_pl.Json.values_of require_as
    scrum_jail_governance_pl.Base.Regex.matches scrum_jail_governance_pl.Base.Regex.up_to
read_blockers = refl

blockers-ArePosted_example : ArePosted (posted ∷ [])
blockers-ArePosted_example = blockers-ArePosted dumps document (posted ∷ []) read_blockers
