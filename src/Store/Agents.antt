-- ===== src/Store/Agents.antt =====
-- The parents and workers of control/sjg_control/store.py under one global cap: the calls that open and
-- close them, in any order. `start_attempt` of workers.py is not among them: it asks for no state.
pub mod Fewer
pub mod Admission
pub mod Cap
use scrum_jail_governance_pl.Base.{ℕ, String, Bool, Option, List, [], ◌∷◌, ℤ, pos, ◌+◌}
use scrum_jail_governance_pl.Store.Schema.{Store}
use scrum_jail_governance_pl.Store.Action.{Result}
use scrum_jail_governance_pl.Store.Sessions.{
  Birth, create_session, revoke_session, finish_session, force_terminate_session,
  reap_expired_session, parents, workers,
}
use scrum_jail_governance_pl.Store.Workers.{reserve_worker, succeed_attempt, fail_attempt}

pub data Call : Type 0 where
  create : String → String → String → List String → Option String → ℤ → Birth → Call
  revoke finish : String → Call
  force_terminate : String → Bool → String → Call
  reap : String → String → Call
  reserve : String → String → ℤ → ℤ → String → String → Call
  succeed : String → String → String → Call
  fail : String → String → Call

abbrev after : {A : Type 0} → Result A × Store → Store
after r = r.1

-- One call, its exception swallowed, under the cap of the policy.
unfoldable pub perform : ℕ → Call → Store → Store
perform cap (create org_id role digest aliases wake_id ttl birth) s =
    after (create_session org_id role digest aliases wake_id ttl (pos cap) birth s)
perform cap (revoke session_id) s = after (revoke_session session_id s)
perform cap (finish session_id) s = after (finish_session session_id s)
perform cap (force_terminate session_id is_expired now) s =
    after (force_terminate_session session_id is_expired now s)
perform cap (reap session_id now) s = after (reap_expired_session session_id now s)
perform cap (reserve session_id worker_type cumulative concurrent fresh now) s =
    after (reserve_worker session_id worker_type cumulative concurrent (pos cap) fresh now s)
perform cap (succeed attempt_id artifact now) s = after (succeed_attempt attempt_id artifact now s)
perform cap (fail attempt_id now) s = after (fail_attempt attempt_id now s)

unfoldable pub run : ℕ → List Call → Store → Store
run cap [] s = s
run cap (c ∷ cs) s = run cap cs (perform cap c s)

-- The agents of an organization: what `global_cap` bounds.
abbrev pub agents : String → Store → ℕ
agents org_id s = parents org_id s + workers org_id s
