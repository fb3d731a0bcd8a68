-- ===== src/Store/Outcome.antt =====
-- control/sjg_control/store.py: how a delivery ends, is held back, or is given up.
use scrum_jail_governance_pl.Base.{
  ℕ, ◌-◌, String, Bool, true, false, not, ◌&&◌, ◌||◌, Option, none, some, if◌then◌else◌, eqb,
  or_else, is_text,
}
use scrum_jail_governance_pl.Base.Table.{select, count, update}
use scrum_jail_governance_pl.Store.Schema.{Delivery, DeliveryState, RouteState}
use scrum_jail_governance_pl.Store.Action.{
  Action, Done, state_error, ◌>>=◌, ◌>>◌, raise_if, gets, modify, or_raise, immediate,
}
use scrum_jail_governance_pl.Store.Delivery.{by_delivery, set_delivery, set_routes}
use scrum_jail_governance_pl.Store.Lease.{is_leased, is_in_hand, is_budget_held, drop_lease}
use Prim.Native.String.{◌++◌}

-- The keys of `targets` in `finish_delivery`; any other text is `unknown`.
pub data Outcome : Type 0 where
  succeeded retry budget_hold dead_letter uncertain : Outcome
  unknown : String → Outcome

abbrev pub is_unknown : Outcome → Bool
is_unknown (Outcome.unknown text) = true
is_unknown _ = false

abbrev outcome_text : Outcome → String
outcome_text Outcome.succeeded = "succeeded"
outcome_text Outcome.retry = "retry"
outcome_text Outcome.budget_hold = "budget_hold"
outcome_text Outcome.dead_letter = "dead_letter"
outcome_text Outcome.uncertain = "uncertain"
outcome_text (Outcome.unknown text) = text

abbrev in_hand_text : DeliveryState → String
in_hand_text DeliveryState.leased = "leased"
in_hand_text _ = "running"

-- The texts of the two refusals.
abbrev invalid_text : Outcome → String
invalid_text outcome = "invalid delivery outcome: " ++ outcome_text outcome

abbrev unsafe_text : DeliveryState → Outcome → String
unsafe_text state outcome =
    "delivery outcome '" ++ (outcome_text outcome ++ ("' is unsafe from " ++ in_hand_text state))

-- The table `targets`; the guard keeps `unknown` away from it.
abbrev pub delivery_target : Outcome → DeliveryState
delivery_target Outcome.succeeded = DeliveryState.succeeded
delivery_target Outcome.retry = DeliveryState.retry_wait
delivery_target Outcome.budget_hold = DeliveryState.budget_hold
delivery_target Outcome.dead_letter = DeliveryState.dead_letter
delivery_target _ = DeliveryState.uncertain

abbrev pub route_target : Outcome → RouteState
route_target Outcome.succeeded = RouteState.delivered
route_target Outcome.retry = RouteState.queued
route_target Outcome.budget_hold = RouteState.queued
route_target Outcome.dead_letter = RouteState.dead_letter
route_target _ = RouteState.manual_review

-- The set `allowed`, by the state that the delivery is in.
abbrev pub is_allowed : DeliveryState → Outcome → Bool
is_allowed DeliveryState.leased Outcome.retry = true
is_allowed DeliveryState.leased Outcome.budget_hold = true
is_allowed DeliveryState.leased Outcome.dead_letter = true
is_allowed DeliveryState.leased Outcome.uncertain = true
is_allowed DeliveryState.leased _ = false
is_allowed _ Outcome.succeeded = true
is_allowed _ Outcome.dead_letter = true
is_allowed _ Outcome.uncertain = true
is_allowed _ _ = false

abbrev is_hold : Outcome → Bool
is_hold Outcome.budget_hold = true
is_hold _ = false

-- `attempt+?` with -1 for a budget hold of a leased delivery. A lease adds 1 to `attempt` first, so the
-- truncated subtraction is exact.
abbrev pub adjusted : DeliveryState → Outcome → ℕ → ℕ
adjusted state outcome attempt = if is_leased state && is_hold outcome then attempt - 1 else attempt

-- What the UPDATE makes of the delivery, found in `state`.
abbrev pub ended : DeliveryState → Outcome → Option String → String → Delivery → Delivery
ended state outcome error when row = record row {
  state = delivery_target outcome;
  eligible_at = when;
  lease_owner = none;
  lease_until = none;
  last_error = error;
  attempt = adjusted state outcome row.attempt;
}

unfoldable pub finish_delivery :
    String → String → Outcome → Option String → Option String → String → Action Done
finish_delivery delivery_id owner outcome error eligible_at now = do
  raise_if (is_unknown outcome) (state_error (invalid_text outcome))
  immediate (do
    row ←
        or_raise (← gets (λ s. select (by_delivery delivery_id) s.deliveries))
          (state_error "delivery is not held by this owner")
    raise_if (not (is_in_hand row.state) || not (is_text row.lease_owner owner))
        (state_error "delivery is not held by this owner")
    raise_if (not (is_allowed row.state outcome)) (state_error (unsafe_text row.state outcome))
    modify (set_delivery delivery_id (ended row.state outcome error (or_else eligible_at now)))
    modify (set_routes delivery_id (route_target outcome)))

abbrev pub held_delivery : String → Delivery → Bool
held_delivery delivery_id row = by_delivery delivery_id row && is_budget_held row.state

abbrev pub unheld : String → Delivery → Delivery
unheld when row = record row {
  state = DeliveryState.retry_wait;
  eligible_at = when;
  last_error = none;
}

unfoldable pub release_budget_hold : String → Option String → String → Action Done
release_budget_hold delivery_id eligible_at now = immediate (do
  rows ← gets (λ s. count (held_delivery delivery_id) s.deliveries)
  modify (λ s. record s {
    deliveries = update (held_delivery delivery_id) (unheld (or_else eligible_at now)) s.deliveries;
  })
  raise_if (not (eqb rows 1)) (state_error "delivery is not budget-held")
  modify (set_routes delivery_id RouteState.queued))

abbrev pub delivery_in_hand : String → Delivery → Bool
delivery_in_hand delivery_id row = by_delivery delivery_id row && is_in_hand row.state

unfoldable pub force_delivery_uncertain : String → String → Action Done
force_delivery_uncertain delivery_id error = immediate (do
  rows ← gets (λ s. count (delivery_in_hand delivery_id) s.deliveries)
  modify (λ s. record s {
    deliveries =
        update (delivery_in_hand delivery_id) (drop_lease DeliveryState.uncertain (some error))
          s.deliveries;
  })
  raise_if (not (eqb rows 1)) (state_error "delivery is absent or not active")
  modify (set_routes delivery_id RouteState.manual_review))
