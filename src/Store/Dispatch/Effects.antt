-- ===== src/Store/Dispatch/Effects.antt =====
-- What each call does to the table of deliveries, on every branch.
use scrum_jail_governance_pl.Base.{
  String, true, false, ◌&&◌, ◌≡◌, refl, Option, none, some, List, [], ◌∷◌, arith, or_else, ℤ, ◌⊎◌,
  sorted_set,
}
use scrum_jail_governance_pl.Base.Table.{select, update, filter, exists}
use scrum_jail_governance_pl.Store.Schema.{Store, Delivery, DeliveryState}
use scrum_jail_governance_pl.Store.Delivery.{
  by_delivery, add_route, enqueue_delivery, new_delivery, check_routes, bind_routes, bind_route,
}
use scrum_jail_governance_pl.Store.Lease.{
  is_waiting, is_in_hand, is_eligible, drop_lease, sweep, earliest, grant, lease_delivery,
  take_lease, startable, start_delivery,
}
use scrum_jail_governance_pl.Store.Outcome.{
  Outcome, is_allowed, finish_delivery, held_delivery, release_budget_hold, delivery_in_hand,
  force_delivery_uncertain, ended, unheld,
}

pub add_route_effect :
    (event_id role : String) (s : Store) → (add_route event_id role s).1.deliveries ≡ s.deliveries
unfolding add_route
add_route_effect event_id role s = ground arith

check_routes-pure : (role : String) (es : List String) (s : Store) → (check_routes role es s).1 ≡ s
unfolding check_routes
check_routes-pure role [] s = refl
check_routes-pure role (e ∷ es) s = ground (arith, check_routes-pure role es s)

bind_routes-deliveries :
    (id role : String) (es : List String) (s : Store)
    → (bind_routes id role es s).deliveries ≡ s.deliveries
unfolding bind_routes
bind_routes-deliveries id role [] s = refl
bind_routes-deliveries id role (e ∷ es) s =
    bind_routes-deliveries id role es (bind_route id role e s)

-- A new delivery has a fresh id.
pub enqueue_effect :
    (role : String) (es : List String) (key : String) (eligible_at : Option String)
    (fresh now : String) (s : Store)
    → let s' = (enqueue_delivery role es key eligible_at fresh now s).1 in
      (s'.deliveries ≡ s.deliveries)
      ⊎ ((s'.deliveries ≡ new_delivery fresh key role (or_else eligible_at now) ∷ s.deliveries)
          × (exists (by_delivery fresh) s.deliveries ≡ false))
unfolding enqueue_delivery
enqueue_effect role es key eligible_at fresh now s = ground (
  arith,
  check_routes-pure role (sorted_set es) s,
  bind_routes-deliveries fresh role (sorted_set es) (record s {
    deliveries = new_delivery fresh key role (or_else eligible_at now) ∷ s.deliveries;
  }),
)

grant_effect :
    (owner lease_until : String) (row : Delivery) (s : Store)
    → let out = grant owner lease_until (some row) s in
      out.1.deliveries
      ≡ update
          (λ d. by_delivery row.delivery_id d && is_waiting d.state)
          (take_lease owner lease_until)
          s.deliveries
unfolding grant
grant_effect owner lease_until row s = ground arith

-- The delivery that a call of `lease_delivery` chooses.
abbrev pub chosen : String → ℤ → Store → Option Delivery
chosen timestamp max_attempts s =
    earliest (filter (is_eligible timestamp) (sweep timestamp max_attempts s).deliveries)

module _ (owner timestamp lease_until : String) (seconds max_attempts : ℤ) (s : Store) where
  pub lease_effect_none :
      chosen timestamp max_attempts s ≡ none
      → let s' = (lease_delivery owner timestamp lease_until seconds max_attempts s).1 in
        (s'.deliveries ≡ s.deliveries)
        ⊎ (s'.deliveries ≡ (sweep timestamp max_attempts s).deliveries)
  unfolding lease_delivery grant
  lease_effect_none e = ground arith

  pub lease_effect_some :
      (row : Delivery)
      → chosen timestamp max_attempts s ≡ some row
      → let s' = (lease_delivery owner timestamp lease_until seconds max_attempts s).1 in
        (s'.deliveries ≡ s.deliveries)
        ⊎ (s'.deliveries
            ≡ update
                (λ d. by_delivery row.delivery_id d && is_waiting d.state)
                (take_lease owner lease_until)
                (sweep timestamp max_attempts s).deliveries)
  unfolding lease_delivery grant
  lease_effect_some row e = ground arith

pub start_effect :
    (id owner timestamp : String) (s : Store)
    → (start_delivery id owner timestamp s).1.deliveries
      ≡ update
          (startable id owner timestamp)
          (λ row. record row { state = DeliveryState.running })
          s.deliveries
unfolding start_delivery
start_effect id owner timestamp s = ground arith

pub finish_effect :
    (id owner : String) (outcome : Outcome) (error eligible_at : Option String) (now : String)
    (s : Store) (row : Delivery)
    → select (by_delivery id) s.deliveries ≡ some row
    → let s' = (finish_delivery id owner outcome error eligible_at now s).1 in
      (s'.deliveries ≡ s.deliveries)
      ⊎ ((s'.deliveries
            ≡ update
                (by_delivery id)
                (ended row.state outcome error (or_else eligible_at now))
                s.deliveries)
          × (is_in_hand row.state ≡ true)
          × (is_allowed row.state outcome ≡ true))
unfolding finish_delivery
finish_effect id owner outcome error eligible_at now s row e = ground arith

pub finish_missing :
    (id owner : String) (outcome : Outcome) (error eligible_at : Option String) (now : String)
    (s : Store)
    → select (by_delivery id) s.deliveries ≡ none
    → (finish_delivery id owner outcome error eligible_at now s).1 ≡ s
unfolding finish_delivery
finish_missing id owner outcome error eligible_at now s e = ground arith

pub unhold_effect :
    (id : String) (eligible_at : Option String) (now : String) (s : Store)
    → let s' = (release_budget_hold id eligible_at now s).1 in
      (s'.deliveries ≡ s.deliveries)
      ⊎ (s'.deliveries ≡ update (held_delivery id) (unheld (or_else eligible_at now)) s.deliveries)
unfolding release_budget_hold
unhold_effect id eligible_at now s = ground arith

pub quarantine_effect :
    (id error : String) (s : Store)
    → let s' = (force_delivery_uncertain id error s).1 in
      (s'.deliveries ≡ s.deliveries)
      ⊎ (s'.deliveries
          ≡ update
              (delivery_in_hand id)
              (drop_lease DeliveryState.uncertain (some error))
              s.deliveries)
unfolding force_delivery_uncertain
quarantine_effect id error s = ground arith
