-- ===== src/Store/Agents/Cap.antt =====
-- The global cap on agents, and one active parent for each role.
use scrum_jail_governance_pl.Base.{
  ℕ, ◌+◌, ◌≤◌, ◌<◌, String, ◌==◌, true, ◌&&◌, ◌≡◌, List, [], ◌∷◌, arith, eq_iff, ℤ, pos, Option,
  some, inl, inr, subst, sym, Option-cases,
}
use scrum_jail_governance_pl.Base.Table.{select, count, exists}
use scrum_jail_governance_pl.Base.Table.Laws.{select_unique, exists_of_select}
use scrum_jail_governance_pl.Store.Schema.{Store, WakeSession, empty}
use scrum_jail_governance_pl.Store.Sessions.{
  Birth, by_session_id, parents, workers, same_role, create_session,
}
use scrum_jail_governance_pl.Store.Workers.{reserve_worker, usable_session}
use scrum_jail_governance_pl.Store.Agents.{
  Call, create, revoke, finish, force_terminate, reap, reserve, succeed, fail, perform, run, agents,
}
use scrum_jail_governance_pl.Store.Agents.Fewer.{
  revoke_session-Fewer, finish_session-Fewer, force_terminate_session-Fewer,
  reap_expired_session-Fewer, succeed_attempt-Fewer, fail_attempt-Fewer,
}
use scrum_jail_governance_pl.Store.Agents.Admission.{
  create_effect, reserve_effect, reserve_refused, IsAdmitted, Fewer-IsAdmitted, opened, hired,
  opened-IsAdmitted, hired-IsAdmitted,
}

-- A worker counts for the organization of the session that was selected, as ids do not repeat.
room_of_worker :
    (limit : ℕ) (s : Store) (row : WakeSession) (session_id now : String) (o : String)
    → IsAdmitted limit s
    → select (usable_session session_id now) s.sessions ≡ some row
    → parents row.org_id s + workers row.org_id s < limit
    → exists (λ ws. ws.session_id == session_id && ws.org_id == o) s.sessions ≡ true
    → parents o s + workers o s < limit
room_of_worker limit s row session_id now o a e room f =
    subst (λ k. parents k s + workers k s < limit) ((eq_iff row.org_id o).0 same) room
  where
    found : (row.session_id == session_id && row.org_id == o) ≡ true
    found =
        select_unique (by_session_id session_id) (usable_session session_id now)
          (λ ws. ws.session_id == session_id && ws.org_id == o) s.sessions row (λ y h. ground arith)
          (λ y h. ground arith) (a.keyed session_id) e f

    same : (row.org_id == o) ≡ true
    same = ground (arith, found)

create-IsAdmitted :
    (org_id role digest : String) (aliases : List String) (wake_id : Option String) (ttl : ℤ)
    (limit : ℕ) (birth : Birth) (s : Store)
    → IsAdmitted limit s
    → IsAdmitted limit (create_session org_id role digest aliases wake_id ttl (pos limit) birth s).1
unfolding opened
create-IsAdmitted org_id role digest aliases wake_id ttl limit birth s a =
    elim (create_effect org_id role digest aliases wake_id ttl limit birth s) [
      | inl same ↦ subst (IsAdmitted limit) (sym same) a
      | inr (e, alone, room, fresh) ↦
          subst (IsAdmitted limit) (sym e) (opened-IsAdmitted limit s _ room alone fresh a)
    ]

reserve-IsAdmitted :
    (session_id worker_type : String) (cumulative concurrent : ℤ) (limit : ℕ) (fresh now : String)
    (s : Store)
    → IsAdmitted limit s
    → IsAdmitted limit
        (reserve_worker session_id worker_type cumulative concurrent (pos limit) fresh now s).1
unfolding hired
reserve-IsAdmitted session_id worker_type cumulative concurrent limit fresh now s a =
    elim (Option-cases (select (usable_session session_id now) s.sessions)) [
      | inl e ↦
          subst (IsAdmitted limit)
            (sym (
              reserve_refused session_id worker_type cumulative concurrent (pos limit) fresh now s
                e))
            a
      | inr (row, e) ↦
          elim (reserve_effect session_id worker_type cumulative concurrent limit fresh now s row
            e) [
              | inl same ↦ subst (IsAdmitted limit) (sym same) a
              | inr (e', room) ↦ subst (IsAdmitted limit) (sym e') (
                  hired-IsAdmitted limit s row _ (linked row e)
                    (λ o h. room_of_worker limit s row session_id now o a e room (ground arith)) a)
            ]
    ]
  where
    linked :
        (row : WakeSession)
        → select (usable_session session_id now) s.sessions ≡ some row
        → exists (by_session_id session_id) s.sessions ≡ true
    linked row e =
        exists_of_select (by_session_id session_id) (usable_session session_id now) s.sessions row
          (λ x h. ground arith) e

-- One call on a database in which every worker's session is there, session ids do not repeat, no
-- role has two active parents and no organization more than `limit` agents leaves such a database,
-- whether the call returns or raises. The calls are those of `Call`, all under the cap `limit`.
pub perform-IsAdmitted :
    (limit : ℕ) (c : Call) (s : Store) → IsAdmitted limit s → IsAdmitted limit (perform limit c s)
unfolding perform
perform-IsAdmitted limit (create org_id role digest aliases wake_id ttl birth) s a =
    create-IsAdmitted org_id role digest aliases wake_id ttl limit birth s a
perform-IsAdmitted limit (revoke k) s a = Fewer-IsAdmitted limit s _ (revoke_session-Fewer k s) a
perform-IsAdmitted limit (finish k) s a = Fewer-IsAdmitted limit s _ (finish_session-Fewer k s) a
perform-IsAdmitted limit (force_terminate k x now) s a =
    Fewer-IsAdmitted limit s _ (force_terminate_session-Fewer k x now s) a
perform-IsAdmitted limit (reap k now) s a =
    Fewer-IsAdmitted limit s _ (reap_expired_session-Fewer k now s) a
perform-IsAdmitted limit (reserve k t cumulative concurrent fresh now) s a =
    reserve-IsAdmitted k t cumulative concurrent limit fresh now s a
perform-IsAdmitted limit (succeed k artifact now) s a =
    Fewer-IsAdmitted limit s _ (succeed_attempt-Fewer k artifact now s) a
perform-IsAdmitted limit (fail k now) s a =
    Fewer-IsAdmitted limit s _ (fail_attempt-Fewer k now s) a

pub run-IsAdmitted :
    (limit : ℕ) (cs : List Call) (s : Store)
    → IsAdmitted limit s
    → IsAdmitted limit (run limit cs s)
unfolding run
run-IsAdmitted limit [] s a = a
run-IsAdmitted limit (c ∷ cs) s a =
    run-IsAdmitted limit cs (perform limit c s) (perform-IsAdmitted limit c s a)

pub empty-IsAdmitted : (limit : ℕ) → IsAdmitted limit empty
unfolding count
empty-IsAdmitted limit = ground arith

-- After any history of the calls of `Call` from the empty database, under one cap, no organization
-- has more active parents and live workers than the cap, and no role of it has two active parents.
pub history_capped :
    (limit : ℕ) (cs : List Call) (org_id role : String)
    → (agents org_id (run limit cs empty) ≤ limit)
      × (same_role org_id role (run limit cs empty) ≤ 1)
history_capped limit cs org_id role =
    let a = run-IsAdmitted limit cs empty (empty-IsAdmitted limit) in
    (a.capped org_id, a.one_parent org_id role)
