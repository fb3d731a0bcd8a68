-- ===== src/Store/Budget/Booked.antt =====
-- What a settlement or a release of a held reservation leaves in the tables, bucket by bucket.
use scrum_jail_governance_pl.Base.{
  ℕ, ◌+◌, ◌≤◌, ◌<◌, String, ◌==◌, true, false, ◌&&◌, ◌≡◌, refl, some, arith, ap, sym, subst,
  if◌then◌else◌, pos,
}
use scrum_jail_governance_pl.Base.Table.{select}
use scrum_jail_governance_pl.Store.Schema.{Store, WakeSession, BudgetReservation, ReservationState}
use scrum_jail_governance_pl.Store.Action.{ok}
use scrum_jail_governance_pl.Store.Sessions.{is_held, by_session_id}
use scrum_jail_governance_pl.Store.Budget.{
  bucket, by_reservation_id, change_bucket, charge, given_back, settle_budget, release_budget,
}
use scrum_jail_governance_pl.Store.Budget.Buckets.{bucket-same_key}
use scrum_jail_governance_pl.Store.Budget.Held.{names, reserved_in, limit_in, IsCovered}
use scrum_jail_governance_pl.Store.Budget.Release.{
  released, reserved-given_back, scope_apart, held-le_reserved,
}
use scrum_jail_governance_pl.Store.Budget.Settle.{
  verdict, overruns, charged, reserved-charge, settle_passes,
}
use scrum_jail_governance_pl.Store.Budget.Liveness.{AreBucketsKeyed, release_passes}
use scrum_jail_governance_pl.Store.Budget.Counts.{
  consumed_in, consumed-charge, limit-charge, kept-given_back, marked-set_reservation,
  others-set_reservation,
}

-- What falls on a bucket: the number, if it is one of the two buckets of the session and the epoch.
abbrev pub share : WakeSession → String → ℕ → String → String → String → ℕ
share row epoch n scope subject at = if names scope subject row && at == epoch then n else 0

-- From `s` to `s'`, the two buckets of the session count `tokens` fewer reserved and `consumed` more
-- consumed, every other bucket counts what it did, and the reservation, it alone, is in this state.
pub record IsBooked (id : String) (r : BudgetReservation) (row : WakeSession) (consumed : ℕ)
    (state : ReservationState) (s s' : Store) : Type 0 where
  pub reserved :
      (scope subject epoch : String)
      → reserved_in (bucket scope subject epoch s')
          + share row r.epoch r.reserved_tokens scope subject epoch
        ≡ reserved_in (bucket scope subject epoch s)
  pub consumed_more :
      (scope subject epoch : String)
      → consumed_in (bucket scope subject epoch s')
        ≡ consumed_in (bucket scope subject epoch s)
          + share row r.epoch consumed scope subject epoch
  pub limits :
      (scope subject epoch : String)
      → limit_in (bucket scope subject epoch s') ≡ limit_in (bucket scope subject epoch s)
  pub marked : select (by_reservation_id id) s'.reservations ≡ some (record r { state = state })
  pub others :
      (other : String)
      → (other == id) ≡ false
      → select (by_reservation_id other) s'.reservations
        ≡ select (by_reservation_id other) s.reservations
  pub sessions : s'.sessions ≡ s.sessions

module _ (id : String) (r : BudgetReservation) (row : WakeSession) (s : Store) where
  charged-IsBooked :
      (consumed : ℕ)
      → select (by_reservation_id id) s.reservations ≡ some r
      → 0 < r.reserved_tokens
      → r.reserved_tokens ≤ reserved_in (bucket "org" row.org_id r.epoch s)
      → r.reserved_tokens ≤ reserved_in (bucket "role" row.role r.epoch s)
      → IsBooked id r row consumed
          (if overruns r row consumed s
            then ReservationState.uncertain
            else ReservationState.settled)
          s
          (charged id r row consumed s)
  unfolding charged
  charged-IsBooked consumed e some_tokens org_there role_there =
      let t = change_bucket "org" row.org_id r.epoch (charge r.reserved_tokens consumed) s in
      let u = change_bucket "role" row.role r.epoch (charge r.reserved_tokens consumed) t in
      record {
        reserved = λ scope subject epoch. ground (
          arith,
          reserved-charge scope subject epoch "org" row.org_id r.epoch r.reserved_tokens consumed s,
          reserved-charge scope subject epoch "role" row.role r.epoch r.reserved_tokens consumed t,
          bucket-same_key scope subject epoch "org" row.org_id r.epoch s,
          bucket-same_key scope subject epoch "role" row.role r.epoch s,
          scope_apart scope,
        );
        consumed_more = λ scope subject epoch. ground (
          arith,
          consumed-charge scope subject epoch "org" row.org_id r.epoch r.reserved_tokens consumed s
              (λ h.
                ground (arith, bucket-same_key scope subject epoch "org" row.org_id r.epoch s h)),
          consumed-charge scope subject epoch "role" row.role r.epoch r.reserved_tokens consumed t
              (λ h. ground (
                arith,
                bucket-same_key scope subject epoch "role" row.role r.epoch s h,
                reserved-charge scope subject epoch "org" row.org_id r.epoch r.reserved_tokens
                    consumed s,
                scope_apart scope,
              )),
          scope_apart scope,
        );
        limits = λ scope subject epoch. ground (
          arith,
          limit-charge scope subject epoch "org" row.org_id r.epoch r.reserved_tokens consumed s,
          limit-charge scope subject epoch "role" row.role r.epoch r.reserved_tokens consumed t,
        );
        marked = marked-set_reservation id _ u r e;
        others = others-set_reservation id _ u;
        sessions = refl;
      }

  released-IsBooked :
      select (by_reservation_id id) s.reservations ≡ some r
      → r.reserved_tokens ≤ reserved_in (bucket "org" row.org_id r.epoch s)
      → r.reserved_tokens ≤ reserved_in (bucket "role" row.role r.epoch s)
      → IsBooked id r row 0 ReservationState.released s (released id r row s)
  unfolding released
  released-IsBooked e org_there role_there =
      let t = given_back "org" row.org_id r.epoch r.reserved_tokens s in
      let u = given_back "role" row.role r.epoch r.reserved_tokens t in
      record {
        reserved = λ scope subject epoch. ground (
          arith,
          reserved-given_back scope subject epoch "org" row.org_id r.epoch r.reserved_tokens s,
          reserved-given_back scope subject epoch "role" row.role r.epoch r.reserved_tokens t,
          bucket-same_key scope subject epoch "org" row.org_id r.epoch s,
          bucket-same_key scope subject epoch "role" row.role r.epoch s,
          scope_apart scope,
        );
        consumed_more = λ scope subject epoch. ground (
          arith,
          kept-given_back scope subject epoch "org" row.org_id r.epoch r.reserved_tokens s,
          kept-given_back scope subject epoch "role" row.role r.epoch r.reserved_tokens t,
        );
        limits = λ scope subject epoch. ground (
          arith,
          kept-given_back scope subject epoch "org" row.org_id r.epoch r.reserved_tokens s,
          kept-given_back scope subject epoch "role" row.role r.epoch r.reserved_tokens t,
        );
        marked = marked-set_reservation id _ u r e;
        others = others-set_reservation id _ u;
        sessions = refl;
      }

  -- Where every bucket counts at least what its active reservations hold, settling an active
  -- reservation of some tokens, whose session is there, with a consumption that is not negative,
  -- leaves the session's organization and role bucket of the epoch with exactly the reserved tokens
  -- fewer reserved and exactly the consumed tokens more consumed, and every other bucket, every
  -- limit, every other reservation and the sessions as they were; the reservation is then
  -- uncertain, and the call raises, exactly if the consumption exceeds what was reserved or brings
  -- what either bucket counts as consumed over its limit, and else it is settled, and the call
  -- returns.
  pub settle-IsBooked :
      (consumed : ℕ)
      → select (by_reservation_id id) s.reservations ≡ some r
      → select (by_session_id r.session_id) s.sessions ≡ some row
      → is_held r.state ≡ true
      → 0 < r.reserved_tokens
      → IsCovered s
      → ((settle_budget id (pos consumed) s).0 ≡ verdict (overruns r row consumed s))
        × IsBooked id r row consumed
            (if overruns r row consumed s
              then ReservationState.uncertain
              else ReservationState.settled)
            s
            (settle_budget id (pos consumed) s).1
  settle-IsBooked consumed e f active some_tokens c =
      let passes = settle_passes id r row consumed s e f active some_tokens c in
      let (org_there, role_there) = held-le_reserved id r row s e f active c in
      (
        ap (λ x. x.0) passes,
        subst
            (λ (s' : Store).
              IsBooked id r row consumed
                (if overruns r row consumed s
                  then ReservationState.uncertain
                  else ReservationState.settled)
                s s')
            (ap (λ x. x.1) (sym passes))
            (charged-IsBooked consumed e some_tokens org_there role_there),
      )

  -- Where every bucket counts at least what its active reservations hold and bucket keys do not
  -- repeat, releasing an active reservation of some tokens, whose session is there, returns, and
  -- leaves the session's organization and role bucket of the epoch with exactly the reserved tokens
  -- fewer reserved, the reservation released, and what every bucket counts as consumed, every other
  -- bucket, every limit, every other reservation and the sessions as they were.
  pub release-IsBooked :
      select (by_reservation_id id) s.reservations ≡ some r
      → select (by_session_id r.session_id) s.sessions ≡ some row
      → is_held r.state ≡ true
      → 0 < r.reserved_tokens
      → IsCovered s
      → AreBucketsKeyed s
      → ((release_budget id s).0 ≡ ok tt)
        × IsBooked id r row 0 ReservationState.released s (release_budget id s).1
  release-IsBooked e f active some_tokens c keyed =
      let passes = release_passes id r row s e f active some_tokens c keyed in
      let (org_there, role_there) = held-le_reserved id r row s e f active c in
      (
        ap (λ x. x.0) passes,
        subst (IsBooked id r row 0 ReservationState.released s) (ap (λ x. x.1) (sym passes))
            (released-IsBooked e org_there role_there),
      )
