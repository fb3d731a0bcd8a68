-- ===== src/Store/Runtime.antt =====
-- control/sjg_control/store.py: event routing, and the wakes and processes that the host runs.
use scrum_jail_governance_pl.Base.{
  String, ◌==◌, Bool, true, false, not, ◌&&◌, ◌||◌, Option, none, some, List, [], ◌∷◌,
  if◌then◌else◌, ltb, leb, eqb, is_some, is_empty, text_leb, text_ltb, ℤ, pos, negsuc, to_ℕ,
}
use Prim.Native.String.{count as text_length}
use scrum_jail_governance_pl.Base.Order.{sort_by, limit_to}
use scrum_jail_governance_pl.Base.Table.{select, count, update, filter, exists}
use scrum_jail_governance_pl.Store.Schema.{
  SupervisorState, ObservedEvent, EnrichmentState, RouteTarget, RouteState, WakeRuntime, WakeState,
}
use scrum_jail_governance_pl.Session.{Session}
use scrum_jail_governance_pl.Store.Action.{
  Action, Done, state_error, integrity_error, ◌>>=◌, ◌>>◌, pure, raise_if, gets, modify, or_raise,
  immediate,
}
use scrum_jail_governance_pl.Store.Sessions.{is_open_wake, by_session_id}
use scrum_jail_governance_pl.Store.Delivery.{by_event, at_route, pending_route}

abbrev at_key : String → SupervisorState → Bool
at_key key row = row.key == key

-- The text of the value, or nothing where the caller's default applies.
unfoldable pub supervisor_value : String → Action (Option String)
supervisor_value key = do
  row ← gets (λ s. select (at_key key) s.supervisor)
  elim row [ none ↦ pure none | some found ↦ pure (some found.value_json) ]

unfoldable pub set_supervisor_value : String → String → String → Action Done
set_supervisor_value key value now = do
  raise_if (is_empty key || ltb 100 (text_length key))
      (state_error "supervisor-state key is invalid")
  modify (λ s.
      if exists (at_key key) s.supervisor
      then record s {
        supervisor =
            update (at_key key) (λ row. record row { value_json = value; updated_at = now })
              s.supervisor;
      }
      else record s {
        supervisor = record { key = key; value_json = value; updated_at = now } ∷ s.supervisor;
      })

abbrev pub is_pending_event : EnrichmentState → Bool
is_pending_event EnrichmentState.pending = true
is_pending_event _ = false

-- ORDER BY occurred_at,event_id
abbrev pub occurs_before : ObservedEvent → ObservedEvent → Bool
occurs_before a b =
    text_ltb a.occurred_at b.occurred_at
    || (a.occurred_at == b.occurred_at && text_leb a.event_id b.event_id)

abbrev pub is_batch : ℤ → Bool
is_batch (pos n) = leb 1 n && leb n 5000
is_batch (negsuc n) = false

unfoldable pub unrouted_events : ℤ → Action (List ObservedEvent)
unfolding sort_by limit_to
unrouted_events limit = do
  raise_if (not (is_batch limit)) (state_error "event routing batch limit is invalid")
  gets (λ s.
      limit_to (to_ℕ limit)
        (sort_by occurs_before (filter (λ row. is_pending_event row.enrichment_state) s.observed)))

abbrev routing_state : Option String → EnrichmentState
routing_state none = EnrichmentState.ignored
routing_state (some role) = EnrichmentState.routed

-- INSERT INTO route_target, with its primary key
add_pending_route : String → Option String → Action Done
add_pending_route event_id none = pure tt
add_pending_route event_id (some role) = do
  raise_if (← gets (λ s. exists (at_route event_id role) s.routes)) integrity_error
  modify (λ s. record s { routes = pending_route event_id role ∷ s.routes })

unfoldable pub finish_event_routing : String → Option String → Action Done
unfolding add_pending_route
finish_event_routing event_id role = immediate (do
  row ←
      or_raise (← gets (λ s. select (by_event event_id) s.observed))
        (state_error "event is absent or already routed")
  raise_if (not (is_pending_event row.enrichment_state))
      (state_error "event is absent or already routed")
  add_pending_route event_id role
  modify (λ s. record s {
    observed =
        update (by_event event_id) (λ e. record e { enrichment_state = routing_state role })
          s.observed;
  }))

abbrev is_pending_route : RouteState → Bool
is_pending_route RouteState.pending = true
is_pending_route _ = false

abbrev pub waits_for : String → RouteTarget → Bool
waits_for role row = is_pending_route row.state && not (is_some row.delivery_id) && row.role == role

-- JOIN observed_event ON event_id: the event of a route
unfoldable pub join_events : List RouteTarget → List ObservedEvent → List ObservedEvent
join_events [] observed = []
join_events (route ∷ rest) observed = elim (select (by_event route.event_id) observed) [
  | none ↦ join_events rest observed
  | some event ↦ event ∷ join_events rest observed
]

-- The rows' role is the argument, so the rows are given as their events.
unfoldable pub pending_routes : String → ℤ → Action (List ObservedEvent)
unfolding sort_by limit_to join_events
pending_routes role limit = do
  raise_if (is_empty role || not (is_batch limit))
      (state_error "pending-route batch limit is invalid")
  gets (λ s.
      limit_to (to_ℕ limit)
        (sort_by occurs_before (join_events (filter (waits_for role) s.routes) s.observed)))

-- Path(socket_path).is_absolute(): a POSIX path that begins with a slash
abbrev is_absolute : String → Bool
is_absolute String.[] = false
is_absolute (String.◌∷◌ c path) = String.◌∷◌ c String.[] == "/"

-- INSERT INTO wake_runtime, with its primary key and its UNIQUE columns
insert_wake : WakeRuntime → Action Done
insert_wake row = do
  raise_if
      (← gets (λ s.
        exists
          (λ old.
            old.wake_id == row.wake_id
            || old.session_id == row.session_id
            || old.reservation_id == row.reservation_id
            || old.socket_path == row.socket_path)
          s.wakes))
      integrity_error
  raise_if (not (← gets (λ s. exists (by_session_id row.session_id) s.sessions))) integrity_error
  raise_if
      (not (← gets (λ s. exists (λ old. old.reservation_id == row.reservation_id) s.reservations)))
      integrity_error
  raise_if
      (← gets (λ s. elim row.delivery_id [
        | none ↦ false
        | some delivery_id ↦ not (exists (λ old. old.delivery_id == delivery_id) s.deliveries)
      ]))
      integrity_error
  modify (λ s. record s { wakes = row ∷ s.wakes })

unfoldable pub prepare_wake :
    Session → Option String → String → String → String → String → Action Done
unfolding insert_wake
prepare_wake session delivery_id reservation_id socket_path reason now = do
  raise_if (is_empty reason || not (is_absolute socket_path))
      (state_error "wake runtime requires a reason and absolute socket path")
  insert_wake (record {
    wake_id = session.wake_id;
    session_id = session.session_id;
    delivery_id = delivery_id;
    reservation_id = reservation_id;
    role = session.role;
    reason = reason;
    socket_path = socket_path;
    state = WakeState.prepared;
    started_at = now;
    finished_at = none;
    output_sha256 = none;
    error_detail = none;
  })

abbrev pub is_prepared : WakeState → Bool
is_prepared WakeState.prepared = true
is_prepared _ = false

abbrev pub by_wake : String → WakeRuntime → Bool
by_wake wake_id row = row.wake_id == wake_id

unfoldable pub mark_wake_running : String → Action Done
mark_wake_running wake_id = do
  rows ← gets (λ s. count (λ row. by_wake wake_id row && is_prepared row.state) s.wakes)
  modify (λ s. record s {
    wakes =
        update (λ row. by_wake wake_id row && is_prepared row.state)
          (λ row. record row { state = WakeState.running }) s.wakes;
  })
  raise_if (not (eqb rows 1)) (state_error "wake runtime is not prepared")

unfoldable pub finish_wake :
    String → WakeState → Option String → Option String → String → Action Done
finish_wake wake_id state output_sha256 error now = do
  raise_if (is_open_wake state) (state_error "wake runtime terminal state is invalid")
  rows ← gets (λ s. count (λ row. by_wake wake_id row && is_open_wake row.state) s.wakes)
  modify (λ s. record s {
    wakes =
        update (λ row. by_wake wake_id row && is_open_wake row.state)
          (λ row. record row {
            state = state;
            finished_at = some now;
            output_sha256 = output_sha256;
            error_detail = error;
          })
          s.wakes;
  })
  raise_if (not (eqb rows 1)) (state_error "wake runtime is not active")
