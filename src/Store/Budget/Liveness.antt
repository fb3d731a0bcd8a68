-- ===== src/Store/Budget/Liveness.antt =====
-- A held reservation can always be given back: the guards of `release_budget` pass.
use scrum_jail_governance_pl.Base.{
  ℕ, ◌≤◌, ◌<◌, String, true, ◌≡◌, some, arith, Option-cases, inl, inr,
}
use scrum_jail_governance_pl.Base.Table.{select, count}
use scrum_jail_governance_pl.Base.Table.Laws.{count_one, count-update_eq, select_sound}
use scrum_jail_governance_pl.Store.Schema.{Store, WakeSession, BudgetReservation}
use scrum_jail_governance_pl.Store.Action.{ok}
use scrum_jail_governance_pl.Store.Sessions.{is_held, by_session_id}
use scrum_jail_governance_pl.Store.Budget.{
  bucket, in_bucket, by_reservation_id, can_give, given_back, release_budget,
}
use scrum_jail_governance_pl.Store.Budget.Held.{reserved_in, IsCovered}
use scrum_jail_governance_pl.Store.Budget.Release.{released, held-le_reserved, scope_apart}

-- The primary key of `budget_bucket`.
abbrev pub AreBucketsKeyed : Store → Type 0
AreBucketsKeyed s =
    (scope subject epoch : String) → count (in_bucket scope subject epoch) s.buckets ≤ 1

can_give_one :
    (scope subject epoch : String) (tokens : ℕ) (s : Store)
    → AreBucketsKeyed s
    → 0 < tokens
    → tokens ≤ reserved_in (bucket scope subject epoch s)
    → count (can_give scope subject epoch tokens) s.buckets ≡ 1
can_give_one scope subject epoch tokens s k some_tokens enough =
    elim (Option-cases (bucket scope subject epoch s)) [
      | inl e ↦ ground arith
      | inr (b, e) ↦
          count_one (in_bucket scope subject epoch) (can_give scope subject epoch tokens) s.buckets
            b (λ y h. ground arith) (k scope subject epoch) e
            (ground (arith, select_sound (in_bucket scope subject epoch) s.buckets e))
    ]

-- A give-back to an organization's bucket leaves the roles' buckets alone.
can_give-given_back :
    (org_id role epoch : String) (tokens : ℕ) (s : Store)
    → count (can_give "role" role epoch tokens) (given_back "org" org_id epoch tokens s).buckets
      ≡ count (can_give "role" role epoch tokens) s.buckets
can_give-given_back org_id role epoch tokens s =
    count-update_eq (can_give "role" role epoch tokens) (can_give "org" org_id epoch tokens) _
      s.buckets (λ x h. ground (arith, scope_apart x.scope))

module _ (reservation_id : String) (r : BudgetReservation) (row : WakeSession) (s : Store) where
  -- An active reservation of some tokens passes the guards of a release.
  pub release_passes :
      select (by_reservation_id reservation_id) s.reservations ≡ some r
      → select (by_session_id r.session_id) s.sessions ≡ some row
      → is_held r.state ≡ true
      → 0 < r.reserved_tokens
      → IsCovered s
      → AreBucketsKeyed s
      → release_budget reservation_id s ≡ (ok tt, released reservation_id r row s)
  unfolding release_budget released
  release_passes e f active some_tokens c k = ground (
    arith,
    can_give_one "org" row.org_id r.epoch r.reserved_tokens s k,
    can_give_one "role" row.role r.epoch r.reserved_tokens s k,
    can_give-given_back row.org_id row.role r.epoch r.reserved_tokens s,
    held-le_reserved reservation_id r row s e f active c,
  )
