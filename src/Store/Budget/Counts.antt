-- ===== src/Store/Budget/Counts.antt =====
-- What a write of a settlement or a release does to one bucket, and to one reservation.
use scrum_jail_governance_pl.Base.{
  ℕ, ◌+◌, ◌<◌, String, ◌==◌, true, false, ◌≡◌, refl, Option, none, some, arith, ap, eq_iff,
  if◌then◌else◌, Option-cases, inl, inr,
}
use scrum_jail_governance_pl.Base.Table.{select}
use scrum_jail_governance_pl.Base.Table.Laws.{select-update, select_sound}
use scrum_jail_governance_pl.Store.Schema.{Store, BudgetBucket, BudgetReservation, ReservationState}
use scrum_jail_governance_pl.Store.Budget.{
  bucket, by_reservation_id, set_reservation, change_bucket, charge, given_back,
}
use scrum_jail_governance_pl.Store.Budget.Buckets.{same_key, in_bucket_key}
use scrum_jail_governance_pl.Store.Budget.Held.{reserved_in, limit_in}
use scrum_jail_governance_pl.Store.Budget.Release.{given_back-moved}
use scrum_jail_governance_pl.Store.Budget.Settle.{charge-moved}

abbrev pub consumed_in : Option BudgetBucket → ℕ
consumed_in none = 0
consumed_in (some row) = row.consumed_tokens

module _ (scope subject epoch scope' subject' epoch' : String) (tokens consumed : ℕ)
    (s : Store) where
  pub consumed-charge :
      (same_key scope subject epoch scope' subject' epoch' ≡ true
        → 0 < reserved_in (bucket scope subject epoch s))
      → consumed_in (
          bucket scope subject epoch
            (change_bucket scope' subject' epoch' (charge tokens consumed) s))
        ≡ consumed_in (bucket scope subject epoch s)
          + (if same_key scope subject epoch scope' subject' epoch' then consumed else 0)
  consumed-charge there = elim (Option-cases (bucket scope subject epoch s)) [
    | inl e ↦
        ground (arith, charge-moved scope subject epoch scope' subject' epoch' tokens consumed s)
    | inr (b, e) ↦ ground (
      arith,
      charge-moved scope subject epoch scope' subject' epoch' tokens consumed s,
      in_bucket_key scope subject epoch scope' subject' epoch' b (select_sound _ s.buckets e),
    )
  ]

  pub limit-charge :
      limit_in (
        bucket scope subject epoch
          (change_bucket scope' subject' epoch' (charge tokens consumed) s))
      ≡ limit_in (bucket scope subject epoch s)
  limit-charge = elim (Option-cases (bucket scope subject epoch s)) [
    | inl e ↦
        ground (arith, charge-moved scope subject epoch scope' subject' epoch' tokens consumed s)
    | inr (b, e) ↦ ground (
      arith,
      charge-moved scope subject epoch scope' subject' epoch' tokens consumed s,
      in_bucket_key scope subject epoch scope' subject' epoch' b (select_sound _ s.buckets e),
    )
  ]

module _ (scope subject epoch scope' subject' epoch' : String) (tokens : ℕ) (s : Store) where
  pub kept-given_back :
      (consumed_in (bucket scope subject epoch (given_back scope' subject' epoch' tokens s))
        ≡ consumed_in (bucket scope subject epoch s))
      × (limit_in (bucket scope subject epoch (given_back scope' subject' epoch' tokens s))
          ≡ limit_in (bucket scope subject epoch s))
  kept-given_back = elim (Option-cases (bucket scope subject epoch s)) [
    | inl e ↦ ground (arith, given_back-moved scope subject epoch scope' subject' epoch' tokens s)
    | inr (b, e) ↦ ground (
      arith,
      given_back-moved scope subject epoch scope' subject' epoch' tokens s,
      in_bucket_key scope subject epoch scope' subject' epoch' b (select_sound _ s.buckets e),
    )
  ]

module _ (id : String) (state : ReservationState) (s : Store) where
  pub marked-set_reservation :
      (r : BudgetReservation)
      → select (by_reservation_id id) s.reservations ≡ some r
      → select (by_reservation_id id) (set_reservation id state s).reservations
        ≡ some (record r { state = state })
  marked-set_reservation r e = ground (
    arith,
    e,
    select_sound (by_reservation_id id) s.reservations e,
    select-update (by_reservation_id id) (by_reservation_id id)
        (λ (row : BudgetReservation). record row { state = state }) s.reservations (λ x h. refl),
  )

  pub others-set_reservation :
      (other : String)
      → (other == id) ≡ false
      → select (by_reservation_id other) (set_reservation id state s).reservations
        ≡ select (by_reservation_id other) s.reservations
  others-set_reservation other apart =
      elim (Option-cases (select (by_reservation_id other) s.reservations)) [
        | inl e ↦ ground (
          arith,
          select-update (by_reservation_id other) (by_reservation_id id)
              (λ (row : BudgetReservation). record row { state = state }) s.reservations
              (λ x h. refl),
        )
        | inr (r, e) ↦ ground (
          arith,
          apart,
          ap (λ k. k == id)
              ((eq_iff r.reservation_id other).0
                (select_sound (by_reservation_id other) s.reservations e)),
          select-update (by_reservation_id other) (by_reservation_id id)
              (λ (row : BudgetReservation). record row { state = state }) s.reservations
              (λ x h. refl),
        )
      ]
