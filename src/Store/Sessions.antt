-- ===== src/Store/Sessions.antt =====
-- control/sjg_control/store.py: wake sessions and their workers. Fresh UUIDs and the texts of the
-- clock (`utcnow()`, and the expiry computed from it) are arguments.
use scrum_jail_governance_pl.Base.{
  ℕ, ◌+◌, String, ◌==◌, Bool, true, false, not, ◌&&◌, ◌||◌, Option, none, some, List, ◌∷◌, text_leb,
  text_ltb, or_else, if◌then◌else◌, eqb, ℤ, not_positive, at_least,
}
use scrum_jail_governance_pl.Base.Table.{select, count, update, exists}
use scrum_jail_governance_pl.Session.{Session}
use scrum_jail_governance_pl.Store.Schema.{
  Store, WakeSession, SessionState, WorkerAttempt, WorkerState, BudgetReservation, ReservationState,
  WakeState,
}
use scrum_jail_governance_pl.Store.Action.{
  Action, Done, state_error, integrity_error, ◌>>=◌, ◌>>◌, pure, raise_if, gets, modify, or_raise,
  immediate,
}

-- state='active'
abbrev pub is_active : SessionState → Bool
is_active SessionState.active = true
is_active _ = false

-- state IN ('accepted','running')
abbrev pub is_live : WorkerState → Bool
is_live WorkerState.accepted = true
is_live WorkerState.running = true
is_live _ = false

-- state='active' of a budget reservation
abbrev pub is_held : ReservationState → Bool
is_held ReservationState.active = true
is_held _ = false

-- state IN ('prepared','running')
abbrev pub is_open_wake : WakeState → Bool
is_open_wake WakeState.prepared = true
is_open_wake WakeState.running = true
is_open_wake _ = false

-- WHERE session_id=? AND state='active'
abbrev pub active_session : String → WakeSession → Bool
active_session session_id row = row.session_id == session_id && is_active row.state

-- WHERE session_id=? AND state IN ('accepted','running')
abbrev pub live_worker : String → WorkerAttempt → Bool
live_worker session_id row = row.session_id == session_id && is_live row.state

-- WHERE session_id=? AND state='active'
abbrev pub held_reservation : String → BudgetReservation → Bool
held_reservation session_id row = row.session_id == session_id && is_held row.state

-- The parents of an organization: WHERE org_id=? AND state='active'
abbrev pub parent_of : String → WakeSession → Bool
parent_of org_id row = row.org_id == org_id && is_active row.state

-- JOIN wake_session ON session_id WHERE org_id=? AND the worker's state is live
abbrev pub worker_of : List WakeSession → String → WorkerAttempt → Bool
worker_of sessions org_id row =
    is_live row.state
    && exists (λ ws. ws.session_id == row.session_id && ws.org_id == org_id) sessions

abbrev pub parents : String → Store → ℕ
parents org_id s = count (parent_of org_id) s.sessions

abbrev pub workers : String → Store → ℕ
workers org_id s = count (worker_of s.sessions org_id) s.workers

-- The rows that `create_session` counts before it admits a role a second time.
abbrev pub same_role : String → String → Store → ℕ
same_role org_id role s =
    count (λ row. row.org_id == org_id && row.role == role && is_active row.state) s.sessions

abbrev pub session_row : Session → String → WakeSession
session_row session now = record {
  session_id = session.session_id;
  wake_id = session.wake_id;
  org_id = session.org_id;
  role = session.role;
  policy_digest = session.policy_digest;
  workspace_aliases = session.workspace_aliases;
  issued_at = now;
  expires_at = session.expires_at;
  state = SessionState.active;
}

-- INSERT INTO wake_session, with its primary key and the UNIQUE wake id.
insert_session : WakeSession → Action Done
insert_session row = do
  raise_if
      (← gets (λ s.
        exists (λ old. old.session_id == row.session_id || old.wake_id == row.wake_id) s.sessions))
      integrity_error
  modify (λ s. record s { sessions = row ∷ s.sessions })

-- The transaction of `create_session`, on the session that it has built.
admit_session : Session → ℤ → String → Action Session
unfolding insert_session
admit_session session global_cap now = do
  count_same ← gets (same_role session.org_id session.role)
  raise_if (not (eqb count_same 0)) (state_error "role already has an active parent wake")
  count_parents ← gets (parents session.org_id)
  count_workers ← gets (workers session.org_id)
  raise_if (at_least (count_parents + count_workers) global_cap)
      (state_error "global active-agent cap reached")
  insert_session (session_row session now)
  pure session

-- Two fresh UUIDs, `utcnow()`, and the text of `now + ttl_seconds`.
pub record Birth : Type 0 where
  pub fresh_session : String
  pub fresh_wake : String
  pub now : String
  pub expires : String

abbrev pub new_session : String → String → String → List String → Option String → Birth → Session
new_session org_id role policy_digest workspace_aliases wake_id birth = record {
  session_id = birth.fresh_session;
  wake_id = or_else wake_id birth.fresh_wake;
  org_id = org_id;
  role = role;
  policy_digest = policy_digest;
  workspace_aliases = workspace_aliases;
  expires_at = birth.expires;
}

unfoldable pub create_session :
    String → String → String → List String → Option String → ℤ → ℤ → Birth → Action Session
unfolding admit_session
create_session org_id role policy_digest workspace_aliases wake_id ttl_seconds global_cap birth = do
  raise_if (not_positive global_cap || not_positive ttl_seconds)
      (state_error "global agent cap and session TTL must be positive")
  let session = new_session org_id role policy_digest workspace_aliases wake_id birth
  immediate (admit_session session global_cap birth.now)

-- Store.session
unfoldable pub session : String → String → Action Session
session session_id now = do
  row ←
      or_raise (← gets (λ s. select (active_session session_id) s.sessions))
        (state_error "wake session is absent or inactive")
  raise_if (text_leb row.expires_at now) (state_error "wake session expired")
  pure (record {
    session_id = row.session_id;
    wake_id = row.wake_id;
    org_id = row.org_id;
    role = row.role;
    policy_digest = row.policy_digest;
    workspace_aliases = row.workspace_aliases;
    expires_at = row.expires_at;
  })

abbrev pub set_session_state : String → SessionState → Store → Store
set_session_state session_id state s = record s {
  sessions = update (active_session session_id) (λ row. record row { state = state }) s.sessions;
}

-- An UPDATE of one active session whose `rowcount` must be 1.
close_session : String → SessionState → Action Done
close_session session_id state = do
  rows ← gets (λ s. count (active_session session_id) s.sessions)
  modify (set_session_state session_id state)
  raise_if (not (eqb rows 1)) (state_error "wake session is absent or inactive")

unfoldable pub revoke_session : String → Action Done
unfolding close_session
revoke_session session_id = immediate (do
  active_workers ← gets (λ s. count (live_worker session_id) s.workers)
  raise_if (not (eqb active_workers 0))
      (state_error "cannot revoke a wake while its workers are active")
  close_session session_id SessionState.revoked)

unfoldable pub finish_session : String → Action Done
unfolding close_session
finish_session session_id = immediate (do
  active_workers ← gets (λ s. count (live_worker session_id) s.workers)
  active_budget ← gets (λ s. count (held_reservation session_id) s.reservations)
  raise_if (not (eqb active_workers 0) || not (eqb active_budget 0))
      (state_error "cannot finish a wake with active workers or budget")
  close_session session_id SessionState.finished)

-- Workers in 'accepted' or 'running' become 'failed'.
abbrev pub fail_workers : String → String → Store → Store
fail_workers session_id now s = record s {
  workers =
      update (live_worker session_id)
        (λ row. record row { state = WorkerState.failed; finished_at = some now }) s.workers;
}

-- The provider's usage is unknown: the reservation stays, as 'uncertain'.
abbrev pub doubt_reservation : String → Store → Store
doubt_reservation session_id s = record s {
  reservations =
      update (held_reservation session_id)
        (λ row. record row { state = ReservationState.uncertain }) s.reservations;
}

-- COALESCE(error_detail, ...)
abbrev pub coalesce : Option String → String → Option String
coalesce none text = some text
coalesce (some old) text = some old

abbrev pub terminate_wake : String → String → Store → Store
terminate_wake session_id now s = record s {
  wakes =
      update (λ row. row.session_id == session_id && is_open_wake row.state)
        (λ row. record row {
          state = WakeState.terminated;
          finished_at = some now;
          error_detail = coalesce row.error_detail "terminated by supervisor";
        })
        s.wakes;
}

abbrev pub by_session_id : String → WakeSession → Bool
by_session_id session_id row = row.session_id == session_id

unfoldable pub force_terminate_session : String → Bool → String → Action Done
force_terminate_session session_id is_expired now = immediate (do
  row ←
      or_raise (← gets (λ s. select (by_session_id session_id) s.sessions))
        (state_error "wake session is absent or inactive")
  raise_if (not (is_active row.state)) (state_error "wake session is absent or inactive")
  modify (fail_workers session_id now)
  modify (doubt_reservation session_id)
  modify (
      set_session_state session_id
        (if is_expired then SessionState.expired else SessionState.revoked))
  modify (terminate_wake session_id now))

unfoldable pub reap_expired_session : String → String → Action Done
reap_expired_session session_id now = immediate (do
  row ←
      or_raise (← gets (λ s. select (by_session_id session_id) s.sessions))
        (state_error "wake session is absent, inactive, or not expired")
  raise_if (not (is_active row.state) || text_ltb now row.expires_at)
      (state_error "wake session is absent, inactive, or not expired")
  modify (fail_workers session_id now)
  modify (doubt_reservation session_id)
  modify (set_session_state session_id SessionState.expired))
