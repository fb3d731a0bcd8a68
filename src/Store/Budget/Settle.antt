-- ===== src/Store/Budget/Settle.antt =====
-- A settlement moves the reservation's tokens out of both buckets and charges what was consumed.
use scrum_jail_governance_pl.Base.{
  ℕ, ◌+◌, ◌-◌, ◌≤◌, ◌<◌, String, Bool, true, false, ◌||◌, ◌≡◌, refl, Option, none, some, arith,
  if◌then◌else◌, Option-cases, ◌⊎◌, inl, inr, ltb, pos,
}
use scrum_jail_governance_pl.Base.Table.{select}
use scrum_jail_governance_pl.Base.Table.Laws.{map_option, changed, select_sound}
use scrum_jail_governance_pl.Base.Table.Sums.{total-update_drop}
use scrum_jail_governance_pl.Store.Schema.{
  Store, WakeSession, BudgetBucket, BudgetReservation, ReservationState,
}
use scrum_jail_governance_pl.Store.Action.{Result, Done, ok, err, state_error}
use scrum_jail_governance_pl.Store.Sessions.{is_held, by_session_id}
use scrum_jail_governance_pl.Store.Budget.{
  bucket, in_bucket, by_reservation_id, set_reservation, change_bucket, charge, settle_budget,
}
use scrum_jail_governance_pl.Store.Budget.Buckets.{
  same_key, in_bucket_key, bucket-update, bucket-same_key,
}
use scrum_jail_governance_pl.Store.Budget.Held.{
  weight, held, reserved_in, Fits, IsCovered, IsWithin,
}
use scrum_jail_governance_pl.Store.Budget.Release.{scope_apart, held-le_reserved}

abbrev pub exceeds : ℕ → Option BudgetBucket → Bool
exceeds consumed none = false
exceeds consumed (some row) = ltb row.token_limit (row.consumed_tokens + consumed)

-- More than was reserved, or more than a limit allows.
abbrev pub overruns : BudgetReservation → WakeSession → ℕ → Store → Bool
overruns r row consumed s =
    ltb r.reserved_tokens consumed
    || exceeds consumed (bucket "org" row.org_id r.epoch s)
    || exceeds consumed (bucket "role" row.role r.epoch s)

abbrev pub verdict : Bool → Result Done
verdict true = err (state_error "actual usage exceeded a budget boundary; manual review required")
verdict false = ok tt

unfoldable pub charged : String → BudgetReservation → WakeSession → ℕ → Store → Store
charged reservation_id r row consumed s =
    set_reservation reservation_id
      (if overruns r row consumed s then ReservationState.uncertain else ReservationState.settled)
      (change_bucket "role" row.role r.epoch (charge r.reserved_tokens consumed)
        (change_bucket "org" row.org_id r.epoch (charge r.reserved_tokens consumed) s))

module _ (reservation_id : String) (r : BudgetReservation) (row : WakeSession) (consumed : ℕ)
    (s : Store) where
  pub settle_effect :
      select (by_reservation_id reservation_id) s.reservations ≡ some r
      → select (by_session_id r.session_id) s.sessions ≡ some row
      → ((settle_budget reservation_id (pos consumed) s).1 ≡ s)
        ⊎ ((settle_budget reservation_id (pos consumed) s
              ≡ (verdict (overruns r row consumed s), charged reservation_id r row consumed s))
            × (is_held r.state ≡ true)
            × (r.reserved_tokens ≤ reserved_in (bucket "org" row.org_id r.epoch s))
            × (r.reserved_tokens ≤ reserved_in (bucket "role" row.role r.epoch s)))
  unfolding settle_budget charged
  settle_effect e f = ground arith

  -- An active reservation of some tokens passes the guards of a settlement.
  pub settle_passes :
      select (by_reservation_id reservation_id) s.reservations ≡ some r
      → select (by_session_id r.session_id) s.sessions ≡ some row
      → is_held r.state ≡ true
      → 0 < r.reserved_tokens
      → IsCovered s
      → settle_budget reservation_id (pos consumed) s
        ≡ (verdict (overruns r row consumed s), charged reservation_id r row consumed s)
  unfolding settle_budget charged
  settle_passes e f active some_tokens c =
      ground (arith, held-le_reserved reservation_id r row s e f active c)

module _ (scope subject epoch scope' subject' epoch' : String) (tokens consumed : ℕ)
    (s : Store) where
  pub charge-moved :
      bucket scope subject epoch (change_bucket scope' subject' epoch' (charge tokens consumed) s)
      ≡ (if same_key scope subject epoch scope' subject' epoch'
          then map_option
              (changed (in_bucket scope' subject' epoch') (charge tokens consumed))
              (bucket scope subject epoch s)
          else bucket scope subject epoch s)
  charge-moved =
      bucket-update scope subject epoch scope' subject' epoch' (in_bucket scope' subject' epoch')
        (charge tokens consumed) s (λ row h. h) (λ row. refl)

  pub reserved-charge :
      reserved_in (
        bucket scope subject epoch
          (change_bucket scope' subject' epoch' (charge tokens consumed) s))
      ≡ (if same_key scope subject epoch scope' subject' epoch'
          then reserved_in (bucket scope subject epoch s) - tokens
          else reserved_in (bucket scope subject epoch s))
  reserved-charge = elim (Option-cases (bucket scope subject epoch s)) [
    | inl e ↦ ground (arith, charge-moved)
    | inr (b, e) ↦ ground (
      arith,
      charge-moved,
      in_bucket_key scope subject epoch scope' subject' epoch' b (select_sound _ s.buckets e),
    )
  ]

  -- A charge of no more than was reserved, out of a bucket that counts it, keeps the bucket within.
  charge-Fits :
      consumed ≤ tokens
      → (same_key scope subject epoch scope' subject' epoch' ≡ true
          → tokens ≤ reserved_in (bucket scope subject epoch s))
      → Fits (bucket scope subject epoch s)
      → Fits (
          bucket scope subject epoch
            (change_bucket scope' subject' epoch' (charge tokens consumed) s))
  charge-Fits le covered h = elim (Option-cases (bucket scope subject epoch s)) [
    | inl e ↦ ground (arith, charge-moved)
    | inr (b, e) ↦ ground (
      arith,
      charge-moved,
      in_bucket_key scope subject epoch scope' subject' epoch' b (select_sound _ s.buckets e),
    )
  ]

module _ (reservation_id : String) (r : BudgetReservation) (row : WakeSession) (consumed : ℕ)
    (s : Store) where
  not_held :
      (over : Bool)
      → is_held (if over then ReservationState.uncertain else ReservationState.settled) ≡ false
  not_held true = refl
  not_held false = refl

  charged-held :
      (scope subject epoch : String)
      → select (by_reservation_id reservation_id) s.reservations ≡ some r
      → held scope subject epoch (charged reservation_id r row consumed s)
          + weight s.sessions scope subject epoch r
        ≤ held scope subject epoch s
  unfolding held charged
  charged-held scope subject epoch e =
      total-update_drop (weight s.sessions scope subject epoch) (by_reservation_id reservation_id) _
        s.reservations r (λ y h. ground (arith, not_held (overruns r row consumed s))) e

  pub charged-IsCovered :
      select (by_reservation_id reservation_id) s.reservations ≡ some r
      → select (by_session_id r.session_id) s.sessions ≡ some row
      → is_held r.state ≡ true
      → IsCovered s
      → IsCovered (charged reservation_id r row consumed s)
  unfolding charged
  charged-IsCovered e f active c = record {
    covers = λ scope subject epoch.
        let t = change_bucket "org" row.org_id r.epoch (charge r.reserved_tokens consumed) s in
        ground (
          arith,
          charged-held scope subject epoch e,
          c.covers scope subject epoch,
          reserved-charge scope subject epoch "org" row.org_id r.epoch r.reserved_tokens consumed s,
          reserved-charge scope subject epoch "role" row.role r.epoch r.reserved_tokens consumed t,
          scope_apart scope,
        );
  }

  pub charged-IsWithin :
      consumed ≤ r.reserved_tokens
      → r.reserved_tokens ≤ reserved_in (bucket "org" row.org_id r.epoch s)
      → r.reserved_tokens ≤ reserved_in (bucket "role" row.role r.epoch s)
      → IsWithin s
      → IsWithin (charged reservation_id r row consumed s)
  unfolding charged
  charged-IsWithin le org_covered role_covered w = record {
    within = λ scope subject epoch.
        let t = change_bucket "org" row.org_id r.epoch (charge r.reserved_tokens consumed) s in
        charge-Fits scope subject epoch "role" row.role r.epoch r.reserved_tokens consumed t le
          (λ h. ground (
            arith,
            bucket-same_key scope subject epoch "role" row.role r.epoch s h,
            reserved-charge scope subject epoch "org" row.org_id r.epoch r.reserved_tokens consumed
                s,
            scope_apart scope,
          ))
          (charge-Fits scope subject epoch "org" row.org_id r.epoch r.reserved_tokens consumed s le
            (λ h. ground (arith, bucket-same_key scope subject epoch "org" row.org_id r.epoch s h))
            (w.within scope subject epoch));
  }

pub settle_refused :
    (reservation_id : String) (consumed : ℕ) (s : Store)
    → (select (by_reservation_id reservation_id) s.reservations ≡ none)
      ⊎ ((r : BudgetReservation) × (select (by_reservation_id reservation_id) s.reservations
            ≡ some r)
          × (select (by_session_id r.session_id) s.sessions ≡ none))
    → (settle_budget reservation_id (pos consumed) s).1 ≡ s
unfolding settle_budget
settle_refused reservation_id consumed s (inl e) = ground arith
settle_refused reservation_id consumed s (inr (r, e, f)) = ground arith
