-- ===== src/Store/Lease.antt =====
-- control/sjg_control/store.py: leasing a delivery, running it, and its outcomes.
use scrum_jail_governance_pl.Base.{
  ◌+◌, String, ◌==◌, Bool, true, false, not, ◌&&◌, ◌||◌, Option, none, some, List, [], ◌∷◌, map,
  if◌then◌else◌, eqb, is_empty, is_text, text_leb, text_ltb, ℤ, not_positive, at_least,
}
use scrum_jail_governance_pl.Base.Table.{select, count, update, filter}
use scrum_jail_governance_pl.Store.Schema.{Store, Delivery, DeliveryState, RouteState}
use scrum_jail_governance_pl.Store.Action.{
  Action, Done, state_error, ◌>>=◌, ◌>>◌, pure, raise_if, gets, modify, immediate,
}
use scrum_jail_governance_pl.Store.Delivery.{by_delivery, set_delivery, set_routes}

-- state IN ('queued','retry_wait')
abbrev pub is_waiting : DeliveryState → Bool
is_waiting DeliveryState.queued = true
is_waiting DeliveryState.retry_wait = true
is_waiting _ = false

abbrev pub is_leased : DeliveryState → Bool
is_leased DeliveryState.leased = true
is_leased _ = false

abbrev pub is_running : DeliveryState → Bool
is_running DeliveryState.running = true
is_running _ = false

-- state IN ('leased','running')
abbrev pub is_in_hand : DeliveryState → Bool
is_in_hand state = is_leased state || is_running state

abbrev pub is_budget_held : DeliveryState → Bool
is_budget_held DeliveryState.budget_hold = true
is_budget_held _ = false

-- lease_until<=?, false on NULL
abbrev pub lease_over : String → Delivery → Bool
lease_over timestamp row = elim row.lease_until [
  | none ↦ false
  | some lease_until ↦ text_leb lease_until timestamp
]

-- lease_until>?, false on NULL
abbrev pub lease_lasts : String → Delivery → Bool
lease_lasts timestamp row = elim row.lease_until [
  | none ↦ false
  | some lease_until ↦ text_ltb timestamp lease_until
]

abbrev pub drop_lease : DeliveryState → Option String → Delivery → Delivery
drop_lease state error row = record row {
  state = state;
  last_error = error;
  lease_owner = none;
  lease_until = none;
}

abbrev pub ids : (Delivery → Bool) → Store → List String
ids p s = map (λ row. row.delivery_id) (filter p s.deliveries)

-- A running delivery whose lease is over becomes uncertain, and its routes go to a human.
abbrev pub quarantine : String → Store → Store
quarantine delivery_id s =
    set_routes delivery_id RouteState.manual_review (
      set_delivery delivery_id (drop_lease DeliveryState.uncertain (some "running lease expired"))
        s)

abbrev pub bury : String → Store → Store
bury delivery_id s = set_routes delivery_id RouteState.dead_letter (
    set_delivery delivery_id
      (λ row. record row {
        state = DeliveryState.dead_letter;
        last_error = some "retry ceiling reached";
      })
      s)

-- `for delivery_id in ids`
unfoldable pub for_each : (String → Store → Store) → List String → Store → Store
for_each step [] s = s
for_each step (id ∷ rest) s = for_each step rest (step id s)

-- The one statement that gives up leases that were never run.
abbrev pub expire_leased : String → Store → Store
expire_leased timestamp s = record s {
  deliveries =
      update (λ row. is_leased row.state && lease_over timestamp row)
        (drop_lease DeliveryState.retry_wait (some "lease expired")) s.deliveries;
}

-- ORDER BY eligible_at,delivery_id
abbrev pub before : Delivery → Delivery → Bool
before a b =
    text_ltb a.eligible_at b.eligible_at
    || (a.eligible_at == b.eligible_at && text_leb a.delivery_id b.delivery_id)

abbrev pub sooner : Delivery → Option Delivery → Option Delivery
sooner a none = some a
sooner a (some b) = if before a b then some a else some b

-- LIMIT 1
unfoldable pub earliest : List Delivery → Option Delivery
earliest [] = none
earliest (row ∷ rows) = sooner row (earliest rows)

abbrev pub is_eligible : String → Delivery → Bool
is_eligible timestamp row = is_waiting row.state && text_leb row.eligible_at timestamp

-- The first half of `lease_delivery`: what time has ended.
unfoldable pub sweep : String → ℤ → Store → Store
unfolding for_each
sweep timestamp max_attempts s =
    let expired_running = ids (λ row. is_running row.state && lease_over timestamp row) s in
    let s1 = expire_leased timestamp (for_each quarantine expired_running s) in
    let exhausted = ids (λ row. is_waiting row.state && at_least row.attempt max_attempts) s1 in
    for_each bury exhausted s1

abbrev pub take_lease : String → String → Delivery → Delivery
take_lease owner lease_until row = record row {
  state = DeliveryState.leased;
  attempt = row.attempt + 1;
  lease_owner = some owner;
  lease_until = some lease_until;
}

-- The second half: the row that was chosen becomes leased, and is read back.
unfoldable pub grant : String → String → Option Delivery → Action (Option Delivery)
grant owner lease_until none = pure none
grant owner lease_until (some row) = do
  rows ← gets (λ s. count (λ d. by_delivery row.delivery_id d && is_waiting d.state) s.deliveries)
  modify (λ s. record s {
    deliveries =
        update (λ d. by_delivery row.delivery_id d && is_waiting d.state)
          (take_lease owner lease_until) s.deliveries;
  })
  raise_if (not (eqb rows 1)) (state_error "delivery lease race")
  modify (set_routes row.delivery_id RouteState.leased)
  gets (λ s. select (by_delivery row.delivery_id) s.deliveries)

-- `timestamp` is the text of `now`, and `lease_until` that of `now + lease_seconds`.
unfoldable pub lease_delivery : String → String → String → ℤ → ℤ → Action (Option Delivery)
unfolding sweep earliest grant
lease_delivery owner timestamp lease_until lease_seconds max_attempts = do
  raise_if (is_empty owner || not_positive lease_seconds || not_positive max_attempts)
      (state_error "delivery lease requires an owner and positive limits")
  immediate (do
    modify (sweep timestamp max_attempts)
    row ← gets (λ s. earliest (filter (is_eligible timestamp) s.deliveries))
    grant owner lease_until row)

abbrev pub startable : String → String → String → Delivery → Bool
startable delivery_id owner timestamp row =
    by_delivery delivery_id row
    && is_leased row.state
    && is_text row.lease_owner owner
    && lease_lasts timestamp row

unfoldable pub start_delivery : String → String → String → Action Done
start_delivery delivery_id owner timestamp = do
  rows ← gets (λ s. count (startable delivery_id owner timestamp) s.deliveries)
  modify (λ s. record s {
    deliveries =
        update (startable delivery_id owner timestamp)
          (λ row. record row { state = DeliveryState.running }) s.deliveries;
  })
  raise_if (not (eqb rows 1)) (state_error "delivery lease is absent, expired, or owned elsewhere")
