-- ===== src/Store/Workers.antt =====
-- Worker attempts: `Store.reserve_worker` of control/sjg_control/store.py, and the three updates that
-- control/sjg_control/workers.py makes of an attempt while it runs.
use scrum_jail_governance_pl.Base.{
  ℕ, ◌+◌, String, ◌==◌, Bool, ◌&&◌, none, some, ◌∷◌, text_ltb, eqb, ℤ, at_least,
}
use scrum_jail_governance_pl.Base.Table.{select, count, update, exists}
use scrum_jail_governance_pl.Store.Schema.{WakeSession, WorkerAttempt, WorkerState}
use scrum_jail_governance_pl.Store.Action.{
  Action, Done, state_error, integrity_error, ◌>>=◌, ◌>>◌, pure, raise_if, gets, modify, or_raise,
  immediate,
}
use scrum_jail_governance_pl.Store.Sessions.{active_session, live_worker, parents, workers}

-- WHERE session_id=? AND state='active' AND expires_at>?
abbrev pub usable_session : String → String → WakeSession → Bool
usable_session session_id now row = active_session session_id row && text_ltb now row.expires_at

abbrev pub of_session : String → WorkerAttempt → Bool
of_session session_id row = row.session_id == session_id

abbrev pub new_attempt : String → String → String → ℕ → String → WorkerAttempt
new_attempt attempt_id session_id worker_type total now = record {
  attempt_id = attempt_id;
  session_id = session_id;
  sequence = total + 1;
  worker_type = worker_type;
  state = WorkerState.accepted;
  started_at = now;
  finished_at = none;
  artifact_sha256 = none;
}

-- INSERT INTO worker_attempt, with its primary key and UNIQUE(session_id, sequence).
insert_attempt : WorkerAttempt → Action Done
insert_attempt row = do
  raise_if (← gets (λ s. exists (λ old. old.attempt_id == row.attempt_id) s.workers))
      integrity_error
  raise_if
      (← gets (λ s.
        exists (λ old. old.session_id == row.session_id && eqb old.sequence row.sequence)
          s.workers))
      integrity_error
  modify (λ s. record s { workers = row ∷ s.workers })

unfoldable pub reserve_worker : String → String → ℤ → ℤ → ℤ → String → String → Action String
unfolding insert_attempt
reserve_worker session_id worker_type cumulative_cap concurrent_cap global_cap fresh now =
    immediate (do
      row ←
          or_raise (← gets (λ s. select (usable_session session_id now) s.sessions))
            (state_error "worker requires an active parent session")
      total ← gets (λ s. count (of_session session_id) s.workers)
      active ← gets (λ s. count (live_worker session_id) s.workers)
      raise_if (at_least total cumulative_cap) (state_error "cumulative worker cap reached")
      raise_if (at_least active concurrent_cap) (state_error "concurrent worker cap reached")
      count_parents ← gets (parents row.org_id)
      count_workers ← gets (workers row.org_id)
      raise_if (at_least (count_parents + count_workers) global_cap)
          (state_error "global active-agent cap reached")
      insert_attempt (new_attempt fresh session_id worker_type total now)
      pure fresh)

abbrev pub by_attempt_id : String → WorkerAttempt → Bool
by_attempt_id attempt_id row = row.attempt_id == attempt_id

-- WorkerSupervisor.run, before the launch
unfoldable pub start_attempt : String → Action Done
start_attempt attempt_id = modify (λ s. record s {
  workers =
      update (by_attempt_id attempt_id) (λ row. record row { state = WorkerState.running })
        s.workers;
})

-- WorkerSupervisor.run, after the import
unfoldable pub succeed_attempt : String → String → String → Action Done
succeed_attempt attempt_id artifact now = modify (λ s. record s {
  workers =
      update (by_attempt_id attempt_id)
        (λ row. record row {
          state = WorkerState.succeeded;
          finished_at = some now;
          artifact_sha256 = some artifact;
        })
        s.workers;
})

-- WorkerSupervisor.run, in its `except`
unfoldable pub fail_attempt : String → String → Action Done
fail_attempt attempt_id now = modify (λ s. record s {
  workers =
      update (by_attempt_id attempt_id)
        (λ row. record row { state = WorkerState.failed; finished_at = some now }) s.workers;
})
