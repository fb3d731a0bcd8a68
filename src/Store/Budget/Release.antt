-- ===== src/Store/Budget/Release.antt =====
-- A release gives back, to both buckets, what the reservation held.
use scrum_jail_governance_pl.Base.{
  ℕ, ◌+◌, ◌-◌, ◌≤◌, String, ◌==◌, true, false, ◌&&◌, ◌≡◌, refl, none, some, arith, eq_iff, eq_refl,
  if◌then◌else◌, Option-cases, ◌⊎◌, inl, inr, leb, subst, sym,
}
use scrum_jail_governance_pl.Base.Table.{select}
use scrum_jail_governance_pl.Base.Table.Laws.{map_option, changed, select_sound}
use scrum_jail_governance_pl.Base.Table.Sums.{total-update_drop, le-total}
use scrum_jail_governance_pl.Store.Schema.{Store, WakeSession, BudgetReservation, ReservationState}
use scrum_jail_governance_pl.Store.Sessions.{is_held, by_session_id}
use scrum_jail_governance_pl.Store.Budget.{
  bucket, by_reservation_id, set_reservation, can_give, given_back, release_budget,
}
use scrum_jail_governance_pl.Store.Budget.Buckets.{same_key, in_bucket_key, bucket-update}
use scrum_jail_governance_pl.Store.Budget.Held.{
  weight, held, reserved_in, Fits, IsCovered, IsWithin,
}

pub scope_apart : (scope : String) → (scope == "org") ≡ true → (scope == "role") ≡ false
scope_apart scope e =
    subst (λ (k : String). (k == "role") ≡ false) (sym ((eq_iff scope "org").0 e)) refl

unfoldable pub released : String → BudgetReservation → WakeSession → Store → Store
released reservation_id r row s = set_reservation reservation_id ReservationState.released (
    given_back "role" row.role r.epoch r.reserved_tokens
      (given_back "org" row.org_id r.epoch r.reserved_tokens s))

module _ (scope subject epoch scope' subject' epoch' : String) (tokens : ℕ) (s : Store) where
  pub given_back-moved : bucket scope subject epoch (given_back scope' subject' epoch' tokens s) ≡ (
      if same_key scope subject epoch scope' subject' epoch'
      then map_option
          (changed
            (can_give scope' subject' epoch' tokens)
            (λ row. record row { reserved_tokens = row.reserved_tokens - tokens }))
          (bucket scope subject epoch s)
      else bucket scope subject epoch s)
  given_back-moved =
      bucket-update scope subject epoch scope' subject' epoch'
        (can_give scope' subject' epoch' tokens) _ s (λ row h. ground arith) (λ row. refl)

  -- What one bucket counts after a give-back under another key, or its own.
  pub reserved-given_back :
      reserved_in (bucket scope subject epoch (given_back scope' subject' epoch' tokens s)) ≡ (
        if same_key scope subject epoch scope' subject' epoch'
          && leb tokens (reserved_in (bucket scope subject epoch s))
        then reserved_in (bucket scope subject epoch s) - tokens
        else reserved_in (bucket scope subject epoch s))
  reserved-given_back = elim (Option-cases (bucket scope subject epoch s)) [
    | inl e ↦ ground (arith, given_back-moved)
    | inr (b, e) ↦ ground (
      arith,
      given_back-moved,
      in_bucket_key scope subject epoch scope' subject' epoch' b (select_sound _ s.buckets e),
    )
  ]

  pub given_back-Fits :
      Fits (bucket scope subject epoch s)
      → Fits (bucket scope subject epoch (given_back scope' subject' epoch' tokens s))
  given_back-Fits h = elim (Option-cases (bucket scope subject epoch s)) [
    | inl e ↦ ground (arith, given_back-moved)
    | inr (b, e) ↦ ground (
      arith,
      given_back-moved,
      in_bucket_key scope subject epoch scope' subject' epoch' b (select_sound _ s.buckets e),
    )
  ]

pub release_effect :
    (reservation_id : String) (r : BudgetReservation) (row : WakeSession) (s : Store)
    → select (by_reservation_id reservation_id) s.reservations ≡ some r
    → select (by_session_id r.session_id) s.sessions ≡ some row
    → ((release_budget reservation_id s).1 ≡ s)
      ⊎ (((release_budget reservation_id s).1 ≡ released reservation_id r row s)
          × (is_held r.state ≡ true))
unfolding released release_budget
release_effect reservation_id r row s e f = ground arith

module _ (reservation_id : String) (r : BudgetReservation) (row : WakeSession) (s : Store) where
  released-held :
      (scope subject epoch : String)
      → select (by_reservation_id reservation_id) s.reservations ≡ some r
      → held scope subject epoch (released reservation_id r row s)
          + weight s.sessions scope subject epoch r
        ≤ held scope subject epoch s
  unfolding held released
  released-held scope subject epoch e =
      total-update_drop (weight s.sessions scope subject epoch) (by_reservation_id reservation_id) _
        s.reservations r (λ y h. refl) e

  pub released-IsCovered :
      select (by_reservation_id reservation_id) s.reservations ≡ some r
      → select (by_session_id r.session_id) s.sessions ≡ some row
      → is_held r.state ≡ true
      → IsCovered s
      → IsCovered (released reservation_id r row s)
  unfolding released
  released-IsCovered e f active c = record {
    covers = λ scope subject epoch.
        let t = given_back "org" row.org_id r.epoch r.reserved_tokens s in
        ground (
          arith,
          released-held scope subject epoch e,
          c.covers scope subject epoch,
          reserved-given_back scope subject epoch "org" row.org_id r.epoch r.reserved_tokens s,
          reserved-given_back scope subject epoch "role" row.role r.epoch r.reserved_tokens t,
          scope_apart scope,
        );
  }

  pub released-IsWithin : IsWithin s → IsWithin (released reservation_id r row s)
  unfolding released
  released-IsWithin w = record {
    within = λ scope subject epoch.
        let t = given_back "org" row.org_id r.epoch r.reserved_tokens s in
        given_back-Fits scope subject epoch "role" row.role r.epoch r.reserved_tokens t (
          given_back-Fits scope subject epoch "org" row.org_id r.epoch r.reserved_tokens s
            (w.within scope subject epoch));
  }

  -- A reservation weighs in both its buckets what it reserved.
  pub held-le_reserved :
      select (by_reservation_id reservation_id) s.reservations ≡ some r
      → select (by_session_id r.session_id) s.sessions ≡ some row
      → is_held r.state ≡ true
      → IsCovered s
      → (r.reserved_tokens ≤ reserved_in (bucket "org" row.org_id r.epoch s))
        × (r.reserved_tokens ≤ reserved_in (bucket "role" row.role r.epoch s))
  unfolding held
  held-le_reserved e f active c = ground (
    arith,
    c.covers "org" row.org_id r.epoch,
    c.covers "role" row.role r.epoch,
    le-total (weight s.sessions "org" row.org_id r.epoch) (by_reservation_id reservation_id)
        s.reservations r e,
    le-total (weight s.sessions "role" row.role r.epoch) (by_reservation_id reservation_id)
        s.reservations r e,
    eq_refl row.org_id,
    eq_refl row.role,
    eq_refl r.epoch,
  )

pub release_refused :
    (reservation_id : String) (s : Store)
    → (select (by_reservation_id reservation_id) s.reservations ≡ none)
      ⊎ ((r : BudgetReservation) × (select (by_reservation_id reservation_id) s.reservations
            ≡ some r)
          × (select (by_session_id r.session_id) s.sessions ≡ none))
    → (release_budget reservation_id s).1 ≡ s
unfolding release_budget
release_refused reservation_id s (inl e) = ground arith
release_refused reservation_id s (inr (r, e, f)) = ground arith
