-- ===== src/Examples/Agents.antt =====
-- Sessions and workers of control/sjg_control/store.py on concrete databases.
use scrum_jail_governance_pl.Base.{◌≤◌, none, List, [], ◌∷◌, pos}
use scrum_jail_governance_pl.Store.Schema.{empty}
use scrum_jail_governance_pl.Store.Sessions.{Birth, same_role}
use scrum_jail_governance_pl.Store.Agents.{Call, create, reserve, perform, run, agents}
use scrum_jail_governance_pl.Store.Agents.Admission.{IsAdmitted}
use scrum_jail_governance_pl.Store.Agents.Cap.{
  perform-IsAdmitted, run-IsAdmitted, empty-IsAdmitted, history_capped,
}

abbrev ceo_birth : Birth
ceo_birth = record {
  fresh_session = "s1";
  fresh_wake = "w1";
  now = "2026-01-01T00:00:00Z";
  expires = "2026-01-01T01:00:00Z";
}

abbrev first_wake : List Call
first_wake =
    create "acme" "ceo" "digest" ("main" ∷ []) none (pos 3600) ceo_birth
    ∷ reserve "s1" "coder" (pos 3) (pos 1) "a1" "2026-01-01T00:00:01Z"
    ∷ []

abbrev second_worker : Call
second_worker = reserve "s1" "coder" (pos 3) (pos 1) "a2" "2026-01-01T00:00:02Z"

perform-IsAdmitted_example : IsAdmitted 2 (perform 2 second_worker (run 2 first_wake empty))
perform-IsAdmitted_example =
    perform-IsAdmitted 2 second_worker (run 2 first_wake empty)
      (run-IsAdmitted 2 first_wake empty (empty-IsAdmitted 2))

history_capped_example :
    (agents "acme" (run 2 (second_worker ∷ first_wake) empty) ≤ 2)
    × (same_role "acme" "ceo" (run 2 (second_worker ∷ first_wake) empty) ≤ 1)
history_capped_example = history_capped 2 (second_worker ∷ first_wake) "acme" "ceo"
