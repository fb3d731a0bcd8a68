-- ===== src/Store/Delivery.antt =====
-- control/sjg_control/store.py: routes of events to roles, and the deliveries that carry them. A
-- delivery is queued, leased, run and finished; its routes follow it.
use scrum_jail_governance_pl.Base.{
  String, ◌==◌, Bool, true, false, not, ◌&&◌, ◌||◌, Option, none, some, List, [], ◌∷◌, map,
  if◌then◌else◌, is_some, is_empty, or_else, is_text, sorted_set, same_texts,
}
use scrum_jail_governance_pl.Base.Table.{select, update, exists, filter}
use scrum_jail_governance_pl.Store.Schema.{
  Store, ObservedEvent, Delivery, DeliveryState, RouteTarget, RouteState, DeliveryEvent,
}
use scrum_jail_governance_pl.Store.Action.{
  Action, Done, state_error, integrity_error, ◌>>=◌, ◌>>◌, pure, raise, raise_if, gets, modify,
  or_raise, immediate,
}

abbrev pub by_event : String → ObservedEvent → Bool
by_event event_id row = row.event_id == event_id

abbrev pub at_route : String → String → RouteTarget → Bool
at_route event_id role row = row.event_id == event_id && row.role == role

abbrev pub by_delivery : String → Delivery → Bool
by_delivery delivery_id row = row.delivery_id == delivery_id

abbrev pub pending_route : String → String → RouteTarget
pending_route event_id role = record {
  event_id = event_id;
  role = role;
  state = RouteState.pending;
  delivery_id = none;
}

-- INSERT OR IGNORE; the reference to `observed_event` is not covered by OR IGNORE.
unfoldable pub add_route : String → String → Action Done
add_route event_id role s =
    if exists (at_route event_id role) s.routes
    then (pure tt) s
    else if exists (by_event event_id) s.observed
    then (modify (λ s. record s { routes = pending_route event_id role ∷ s.routes })) s
    else (raise (state_error "route references an unknown observed event")) s

-- UPDATE delivery SET f WHERE delivery_id=?
abbrev pub set_delivery : String → (Delivery → Delivery) → Store → Store
set_delivery delivery_id f s = record s {
  deliveries = update (by_delivery delivery_id) f s.deliveries;
}

-- UPDATE route_target SET state=? WHERE delivery_id=?
abbrev pub set_routes : String → RouteState → Store → Store
set_routes delivery_id state s = record s {
  routes =
      update (λ row. is_text row.delivery_id delivery_id) (λ row. record row { state = state })
        s.routes;
}

abbrev is_free : RouteTarget → Bool
is_free row = elim row.state [ RouteState.pending ↦ not (is_some row.delivery_id) | _ ↦ false ]

-- The loop that admits only pending routes without a delivery.
unfoldable pub check_routes : String → List String → Action Done
check_routes role [] = pure tt
check_routes role (event_id ∷ rest) = do
  row ←
      or_raise (← gets (λ s. select (at_route event_id role) s.routes))
        (state_error "route is absent or already assigned")
  raise_if (not (is_free row)) (state_error "route is absent or already assigned")
  check_routes role rest

abbrev pub bind_route : String → String → String → Store → Store
bind_route delivery_id role event_id s = record s {
  delivery_events =
      record { delivery_id = delivery_id; event_id = event_id; role = role } ∷ s.delivery_events;
  routes =
      update (at_route event_id role)
        (λ row. record row { state = RouteState.queued; delivery_id = some delivery_id }) s.routes;
}

-- The loop that binds the routes to the new delivery.
unfoldable pub bind_routes : String → String → List String → Store → Store
bind_routes delivery_id role [] s = s
bind_routes delivery_id role (event_id ∷ rest) s =
    bind_routes delivery_id role rest (bind_route delivery_id role event_id s)

abbrev pub new_delivery : String → String → String → String → Delivery
new_delivery delivery_id idempotency_key role eligible_at = record {
  delivery_id = delivery_id;
  idempotency_key = idempotency_key;
  role = role;
  state = DeliveryState.queued;
  attempt = 0;
  eligible_at = eligible_at;
  lease_owner = none;
  lease_until = none;
  last_error = none;
}

-- SELECT event_id FROM delivery_event WHERE delivery_id=? ORDER BY event_id
abbrev pub bound_events : String → Store → List String
bound_events delivery_id s = sorted_set (
    map (λ row. row.event_id)
      (filter (λ (row : DeliveryEvent). row.delivery_id == delivery_id) s.delivery_events))

-- The key is known: the same role and events give the same delivery.
replay_delivery : String → List String → Delivery → Action String
replay_delivery role unique existing = do
  raise_if (not (existing.role == role))
      (state_error "delivery idempotency key is bound to another role")
  raise_if (not (same_texts (← gets (bound_events existing.delivery_id)) unique))
      (state_error "delivery idempotency key is bound to different events")
  pure existing.delivery_id

insert_delivery : String → List String → String → String → String → Action String
unfolding check_routes bind_routes
insert_delivery role unique idempotency_key eligible_at fresh = do
  check_routes role unique
  raise_if (← gets (λ s. exists (by_delivery fresh) s.deliveries)) integrity_error
  modify (λ s. record s {
    deliveries = new_delivery fresh idempotency_key role eligible_at ∷ s.deliveries;
  })
  modify (bind_routes fresh role unique)
  pure fresh

enqueue_unique : String → List String → String → String → String → Action String
unfolding replay_delivery insert_delivery
enqueue_unique role unique idempotency_key eligible_at fresh = do
  existing ← gets (λ s. select (λ row. row.idempotency_key == idempotency_key) s.deliveries)
  elim existing [
    | some row ↦ replay_delivery role unique row
    | none ↦ insert_delivery role unique idempotency_key eligible_at fresh
  ]

abbrev pub is_nil {ℓ} : {A : Type ℓ} → List A → Bool
is_nil [] = true
is_nil (_ ∷ _) = false

unfoldable pub enqueue_delivery :
    String → List String → String → Option String → String → String → Action String
unfolding enqueue_unique
enqueue_delivery role event_ids idempotency_key eligible_at fresh now = do
  let unique = sorted_set event_ids
  raise_if (is_empty role || is_nil unique || is_empty idempotency_key)
      (state_error "delivery requires a role, events, and idempotency key")
  immediate (enqueue_unique role unique idempotency_key (or_else eligible_at now) fresh)
