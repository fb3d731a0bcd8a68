-- ===== src/Store/Recovery.antt =====
-- control/sjg_control/store.py: what a restarted supervisor undoes, each in one transaction.
use scrum_jail_governance_pl.Base.{
  ℕ, String, ◌==◌, not, ◌||◌, Option, none, some, eqb, is_empty, if◌then◌else◌,
}
use scrum_jail_governance_pl.Base.Table.{select, count, update}
use scrum_jail_governance_pl.Store.Schema.{
  Store, BudgetReservation, ReservationState, DeliveryState, RouteState, WakeRuntime, WakeState,
  SessionState, ProcessRuntime,
}
use scrum_jail_governance_pl.Store.Action.{
  Action, Done, state_error, type_error, ◌>>=◌, ◌>>◌, pure, raise_if, gets, modify, or_raise,
  immediate,
}
use scrum_jail_governance_pl.Store.Sessions.{is_active, is_held, by_session_id, set_session_state}
use scrum_jail_governance_pl.Store.Workers.{of_session}
use scrum_jail_governance_pl.Store.Budget.{set_reservation, give_back}
use scrum_jail_governance_pl.Store.Delivery.{by_delivery, set_delivery, set_routes}
use scrum_jail_governance_pl.Store.Lease.{is_leased}
use scrum_jail_governance_pl.Store.Runtime.{is_prepared, by_wake}

-- The body of `_release_reservation_for`, once the reservation is found.
release_found : String → BudgetReservation → Action Done
release_found session_id reservation = do
  raise_if (not (is_held reservation.state)) (state_error "unstarted session budget is not active")
  row ← or_raise (← gets (λ s. select (by_session_id session_id) s.sessions)) type_error
  let tokens = reservation.reserved_tokens
  give_back "org" row.org_id reservation.epoch tokens
      "unstarted session budget bucket is inconsistent"
  give_back "role" row.role reservation.epoch tokens
      "unstarted session budget bucket is inconsistent"
  modify (set_reservation reservation.reservation_id ReservationState.released)

-- Store._release_reservation_for
unfoldable pub release_reservation_for : String → Action Done
unfolding release_found
release_reservation_for session_id = do
  found ←
      gets (λ s. select (λ (row : BudgetReservation). row.session_id == session_id) s.reservations)
  elim found [ none ↦ pure tt | some reservation ↦ release_found session_id reservation ]

-- Store._retry_leased_delivery
unfoldable pub retry_leased_delivery : String → String → String → Action Done
retry_leased_delivery delivery_id eligible_at error = do
  row ←
      or_raise (← gets (λ s. select (by_delivery delivery_id) s.deliveries))
        (state_error "unstarted delivery is not safely leased")
  raise_if (not (is_leased row.state)) (state_error "unstarted delivery is not safely leased")
  modify (
      set_delivery delivery_id (λ d. record d {
        state = DeliveryState.retry_wait;
        eligible_at = eligible_at;
        lease_owner = none;
        lease_until = none;
        last_error = some error;
      }))
  modify (set_routes delivery_id RouteState.queued)

abbrev pub processes_of : String → Store → ℕ
processes_of session_id s =
    count (λ (row : ProcessRuntime). row.session_id == session_id) s.processes

abbrev pub wakes_of : String → Store → ℕ
wakes_of session_id s = count (λ (row : WakeRuntime). row.session_id == session_id) s.wakes

abbrev pub attempts_of : String → Store → ℕ
attempts_of session_id s = count (of_session session_id) s.workers

retry_if_bound : Option String → Option String → String → Action Done
unfolding retry_leased_delivery
retry_if_bound none eligible_at error = pure tt
retry_if_bound (some delivery_id) eligible_at error = do
  when ← or_raise eligible_at (state_error "orphan delivery recovery requires an eligibility time")
  retry_leased_delivery delivery_id when error

unfoldable pub recover_orphan_session :
    String → Option String → Option String → String → Action Done
unfolding release_reservation_for retry_if_bound
recover_orphan_session session_id delivery_id eligible_at error = immediate (do
  row ←
      or_raise (← gets (λ s. select (by_session_id session_id) s.sessions))
        (state_error "session is not a recoverable pre-wake orphan")
  wake_count ← gets (wakes_of session_id)
  process_count ← gets (processes_of session_id)
  worker_count ← gets (attempts_of session_id)
  raise_if
      (not (is_active row.state)
        || not (eqb wake_count 0)
        || not (eqb process_count 0)
        || not (eqb worker_count 0))
      (state_error "session is not a recoverable pre-wake orphan")
  release_reservation_for session_id
  retry_if_bound delivery_id eligible_at error
  modify (set_session_state session_id SessionState.revoked))

-- `if wake["delivery_id"]`
retry_of_wake : Option String → String → String → Action Done
unfolding retry_leased_delivery
retry_of_wake none eligible_at error = pure tt
retry_of_wake (some delivery_id) eligible_at error =
    if is_empty delivery_id then pure tt else retry_leased_delivery delivery_id eligible_at error

unfoldable pub recover_prepared_wake : String → String → String → String → Action Done
unfolding release_reservation_for retry_of_wake
recover_prepared_wake wake_id eligible_at error now = immediate (do
  wake ←
      or_raise (← gets (λ s. select (by_wake wake_id) s.wakes))
        (state_error "wake is not prepared for safe recovery")
  raise_if (not (is_prepared wake.state)) (state_error "wake is not prepared for safe recovery")
  let session_id = wake.session_id
  process_count ← gets (processes_of session_id)
  worker_count ← gets (attempts_of session_id)
  row ←
      or_raise (← gets (λ s. select (by_session_id session_id) s.sessions))
        (state_error "prepared wake is not proved process-free")
  raise_if (not (is_active row.state) || not (eqb process_count 0) || not (eqb worker_count 0))
      (state_error "prepared wake is not proved process-free")
  release_reservation_for session_id
  retry_of_wake wake.delivery_id eligible_at error
  modify (λ s. record s {
    wakes =
        update (by_wake wake_id)
          (λ d. record d {
            state = WakeState.failed;
            finished_at = some now;
            error_detail = some error;
          })
          s.wakes;
  })
  modify (set_session_state session_id SessionState.revoked))
