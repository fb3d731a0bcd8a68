-- ===== src/Store/Processes.antt =====
-- control/sjg_control/store.py: the processes of the host, and what a restarted supervisor finds.
use scrum_jail_governance_pl.Base.{
  String, ◌==◌, Bool, true, false, not, ◌&&◌, ◌||◌, Option, none, some, List, [], ◌∷◌, eqb,
  is_empty, text_leb, text_ltb, ℤ, not_positive, to_ℕ,
}
use scrum_jail_governance_pl.Base.Order.{sort_by}
use scrum_jail_governance_pl.Base.Table.{select, count, update, filter, exists}
use scrum_jail_governance_pl.Store.Schema.{
  DeliveryEvent, ObservedEvent, ProcessRuntime, ProcessState, WakeRuntime, WakeSession,
  BrokerRequest, RequestState, ReconcileOperation, ReconcileState,
}
use scrum_jail_governance_pl.Store.Action.{
  Action, Done, state_error, integrity_error, ◌>>=◌, ◌>>◌, raise_if, gets, modify,
}
use scrum_jail_governance_pl.Store.Delivery.{by_event}
use scrum_jail_governance_pl.Store.Runtime.{occurs_before}
use scrum_jail_governance_pl.Store.Sessions.{is_active, is_open_wake, by_session_id}
use scrum_jail_governance_pl.Store.Workers.{by_attempt_id}

abbrev pub is_running_process : ProcessState → Bool
is_running_process ProcessState.running = true
is_running_process _ = false

abbrev is_kind : String → Bool
is_kind kind = kind == "parent" || kind == "worker"

-- INSERT INTO process_runtime: the primary key, UNIQUE(pid,birth_token), and the references
insert_process : ProcessRuntime → Action Done
insert_process row = do
  raise_if
      (← gets (λ s.
        exists
          (λ old.
            old.process_key == row.process_key
            || (eqb old.pid row.pid && old.birth_token == row.birth_token))
          s.processes))
      integrity_error
  raise_if (not (← gets (λ s. exists (by_session_id row.session_id) s.sessions))) integrity_error
  raise_if
      (← gets (λ s. elim row.worker_attempt_id [
        | none ↦ false
        | some attempt_id ↦ not (exists (by_attempt_id attempt_id) s.workers)
      ]))
      integrity_error
  modify (λ s. record s { processes = row ∷ s.processes })

unfoldable pub record_process :
    String → String → Option String → String → ℤ → ℤ → String → String → Action Done
unfolding insert_process
record_process process_key session_id worker_attempt_id kind pid pgid birth_token now = do
  raise_if (not (is_kind kind) || not_positive pid || not_positive pgid || is_empty birth_token)
      (state_error "process runtime identity is invalid")
  insert_process (record {
    process_key = process_key;
    session_id = session_id;
    worker_attempt_id = worker_attempt_id;
    kind = kind;
    pid = to_ℕ pid;
    pgid = to_ℕ pgid;
    birth_token = birth_token;
    state = ProcessState.running;
    started_at = now;
    finished_at = none;
    exit_code = none;
  })

abbrev pub running_process : String → ProcessRuntime → Bool
running_process process_key row = row.process_key == process_key && is_running_process row.state

unfoldable pub finish_process : String → ProcessState → Option ℤ → String → Action Done
finish_process process_key state exit_code now = do
  raise_if (is_running_process state) (state_error "process runtime terminal state is invalid")
  rows ← gets (λ s. count (running_process process_key) s.processes)
  modify (λ s. record s {
    processes =
        update (running_process process_key)
          (λ row. record row { state = state; finished_at = some now; exit_code = exit_code })
          s.processes;
  })
  raise_if (not (eqb rows 1)) (state_error "process runtime is absent or inactive")

-- ORDER BY kind DESC,started_at
abbrev by_kind : ProcessRuntime → ProcessRuntime → Bool
by_kind a b = text_ltb b.kind a.kind || (a.kind == b.kind && text_leb a.started_at b.started_at)

abbrev matches_session : Option String → ProcessRuntime → Bool
matches_session none row = true
matches_session (some session_id) row = row.session_id == session_id

unfoldable pub active_processes : Option String → Action (List ProcessRuntime)
unfolding sort_by
active_processes session_id = gets (λ s.
    sort_by by_kind
      (filter (λ row. is_running_process row.state && matches_session session_id row) s.processes))

-- The rows of wake_runtime; the JOIN adds `expires_at`, and every wake has its session.
unfoldable pub active_wakes : Action (List WakeRuntime)
unfolding sort_by
active_wakes = gets (λ s.
    sort_by (λ a b. text_leb a.started_at b.started_at)
      (filter (λ row. is_open_wake row.state && exists (by_session_id row.session_id) s.sessions)
        s.wakes))

-- LEFT JOIN wake_runtime ... WHERE ws.state='active' AND wr.session_id IS NULL
abbrev pub is_orphan : List WakeRuntime → WakeSession → Bool
is_orphan wakes row =
    is_active row.state && not (exists (λ wake. wake.session_id == row.session_id) wakes)

unfoldable pub orphan_sessions : Action (List WakeSession)
unfolding sort_by
orphan_sessions =
    gets (λ s.
      sort_by (λ a b. text_leb a.issued_at b.issued_at) (filter (is_orphan s.wakes) s.sessions))

abbrev is_open_operation : ReconcileOperation → Bool
is_open_operation row = elim row.state [ ReconcileState.verify_pending ↦ true | _ ↦ false ]

abbrev created_before : ReconcileOperation → ReconcileOperation → Bool
created_before a b =
    text_ltb a.created_at b.created_at
    || (a.created_at == b.created_at && text_leb a.operation_id b.operation_id)

unfoldable pub pending_reconciliations : Action (List ReconcileOperation)
unfolding sort_by
pending_reconciliations = gets (λ s. sort_by created_before (filter is_open_operation s.reconciles))

abbrev is_open_request : BrokerRequest → Bool
is_open_request row = elim row.state [ RequestState.verify_pending ↦ true | _ ↦ false ]

abbrev asked_before : BrokerRequest → BrokerRequest → Bool
asked_before a b =
    text_ltb a.created_at b.created_at
    || (a.created_at == b.created_at && text_leb a.idempotency_key b.idempotency_key)

unfoldable pub pending_broker_verifications : Action (List BrokerRequest)
unfolding sort_by
pending_broker_verifications = gets (λ s. sort_by asked_before (filter is_open_request s.requests))

-- JOIN observed_event ON event_id: the events of a delivery
unfoldable pub join_bound : List DeliveryEvent → List ObservedEvent → List ObservedEvent
join_bound [] observed = []
join_bound (bound ∷ rest) observed =
    let others = join_bound rest observed in
    elim (select (by_event bound.event_id) observed) [ none ↦ others | some event ↦ event ∷ others ]

unfoldable pub delivery_events : String → Action (List ObservedEvent)
unfolding sort_by join_bound
delivery_events delivery_id = gets (λ s. sort_by occurs_before (
    join_bound (filter (λ (row : DeliveryEvent). row.delivery_id == delivery_id) s.delivery_events)
      s.observed))
