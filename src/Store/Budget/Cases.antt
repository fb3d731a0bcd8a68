-- ===== src/Store/Budget/Cases.antt =====
-- What each budget call does to the two invariants, on every branch.
use scrum_jail_governance_pl.Base.{
  ℕ, ◌≤◌, String, false, ◌&&◌, ◌≡◌, refl, none, some, List, [], ◌∷◌, arith, Option-cases, ◌⊎◌, inl,
  inr, ℤ, pos, negsuc, subst, sym, ap,
}
use scrum_jail_governance_pl.Base.Table.{select, count}
use scrum_jail_governance_pl.Base.Table.Laws.{select_widen}
use scrum_jail_governance_pl.Base.Table.Sums.{total-update_le}
use scrum_jail_governance_pl.Store.Schema.{Store, WakeSession, BudgetReservation, ReservationState}
use scrum_jail_governance_pl.Store.Action.{ok}
use scrum_jail_governance_pl.Store.Sessions.{is_held, by_session_id}
use scrum_jail_governance_pl.Store.Workers.{usable_session}
use scrum_jail_governance_pl.Store.Budget.{
  by_reservation_id, two_distinct, reserve_budget, settle_budget, mark_budget_uncertain,
  release_budget,
}
use scrum_jail_governance_pl.Store.Budget.Held.{weight, held, IsCovered, IsWithin}
use scrum_jail_governance_pl.Store.Budget.Release.{
  release_effect, release_refused, released-IsCovered, released-IsWithin,
}
use scrum_jail_governance_pl.Store.Budget.Settle.{
  settle_effect, settle_refused, charged-IsCovered, charged-IsWithin,
}
use scrum_jail_governance_pl.Store.Budget.Reserve.{reserve_effect}
use scrum_jail_governance_pl.Store.Budget.Filled.{reserved-IsCovered, reserved-IsWithin}

-- Session ids do not repeat: the primary key of `wake_session`.
abbrev pub IsKeyed : Store → Type 0
IsKeyed s = (session_id : String) → count (by_session_id session_id) s.sessions ≤ 1

-- A call without effect.
reserve_none :
    (session_id epoch : String) (requested : ℤ) (buckets : List (String × String × ℤ))
    (fresh now : String) (s : Store)
    → select (usable_session session_id now) s.sessions ≡ none
    → (reserve_budget session_id epoch requested buckets fresh now s).1 ≡ s
unfolding reserve_budget
reserve_none session_id epoch requested buckets fresh now s e = ground arith

reserve_negative :
    (session_id epoch : String) (n : ℕ) (buckets : List (String × String × ℤ)) (fresh now : String)
    (s : Store)
    → (reserve_budget session_id epoch (negsuc n) buckets fresh now s).1 ≡ s
unfolding reserve_budget
reserve_negative session_id epoch n buckets fresh now s = refl

reserve_not_two :
    (session_id epoch : String) (requested : ℤ) (buckets : List (String × String × ℤ))
    (fresh now : String) (s : Store)
    → two_distinct buckets ≡ false
    → (reserve_budget session_id epoch requested buckets fresh now s).1 ≡ s
unfolding reserve_budget
reserve_not_two session_id epoch requested buckets fresh now s e = ground arith

module _ (session_id epoch : String) (fresh now : String) (s : Store) where
  pub reserve_two-IsCovered :
      (n : ℕ) (a b : String × String × ℤ) (row : WakeSession)
      → select (usable_session session_id now) s.sessions ≡ some row
      → IsKeyed s
      → IsCovered s
      → IsCovered (reserve_budget session_id epoch (pos n) (a ∷ b ∷ []) fresh now s).1
  reserve_two-IsCovered n a b row e k c =
      elim (reserve_effect session_id epoch n a b fresh s now row e) [
        | inl same ↦ subst IsCovered (sym same) c
        | inr (done, both, room) ↦ subst IsCovered (sym done) (
            reserved-IsCovered session_id epoch n a b fresh s row
              (select_widen (by_session_id session_id) (usable_session session_id now) s.sessions
                row (λ y h. ground arith) (k session_id) e)
              both c)
      ]

  pub reserve_two-IsWithin :
      (n : ℕ) (a b : String × String × ℤ) (row : WakeSession)
      → select (usable_session session_id now) s.sessions ≡ some row
      → IsWithin s
      → IsWithin (reserve_budget session_id epoch (pos n) (a ∷ b ∷ []) fresh now s).1
  reserve_two-IsWithin n a b row e w =
      elim (reserve_effect session_id epoch n a b fresh s now row e) [
        | inl same ↦ subst IsWithin (sym same) w
        | inr (done, both, room) ↦
            subst IsWithin (sym done)
              (reserved-IsWithin session_id epoch n a b fresh s row both room w)
      ]

  -- What holds of an unchanged database and after a reservation in two buckets holds after any.
  pub reserve_cases {ℓ} :
      (P : Store → Type ℓ)
      → P s
      → ((n : ℕ) (a b : String × String × ℤ) (row : WakeSession)
          → select (usable_session session_id now) s.sessions ≡ some row
          → P (reserve_budget session_id epoch (pos n) (a ∷ b ∷ []) fresh now s).1)
      → (requested : ℤ) (buckets : List (String × String × ℤ))
      → P (reserve_budget session_id epoch requested buckets fresh now s).1
  reserve_cases P p two (negsuc n) buckets =
      subst P (sym (reserve_negative session_id epoch n buckets fresh now s)) p
  reserve_cases P p two (pos n) [] =
      subst P (sym (reserve_not_two session_id epoch (pos n) [] fresh now s refl)) p
  reserve_cases P p two (pos n) (a ∷ []) =
      subst P (sym (reserve_not_two session_id epoch (pos n) (a ∷ []) fresh now s refl)) p
  reserve_cases P p two (pos n) (a ∷ b ∷ c ∷ rest) =
      subst P (sym (reserve_not_two session_id epoch (pos n) (a ∷ b ∷ c ∷ rest) fresh now s refl)) p
  reserve_cases P p two (pos n) (a ∷ b ∷ []) =
      elim (Option-cases (select (usable_session session_id now) s.sessions)) [
        | inl e ↦ subst P (sym (reserve_none session_id epoch (pos n) (a ∷ b ∷ []) fresh now s e)) p
        | inr (row, e) ↦ two n a b row e
      ]

-- A reservation is there with its session, or a call on it has no effect.
pub reservation-cases :
    (reservation_id : String) (s : Store)
    → ((select (by_reservation_id reservation_id) s.reservations ≡ none)
        ⊎ ((r : BudgetReservation) × (select (by_reservation_id reservation_id) s.reservations
              ≡ some r)
            × (select (by_session_id r.session_id) s.sessions ≡ none)))
      ⊎ ((r : BudgetReservation) × (row : WakeSession) × (select
              (by_reservation_id reservation_id)
              s.reservations
            ≡ some r)
          × (select (by_session_id r.session_id) s.sessions ≡ some row))
reservation-cases reservation_id s =
    elim (Option-cases (select (by_reservation_id reservation_id) s.reservations)) [
      | inl e ↦ inl (inl e)
      | inr (r, e) ↦ elim (Option-cases (select (by_session_id r.session_id) s.sessions)) [
        | inl f ↦ inl (inr (r, e, f))
        | inr (row, f) ↦ inr (r, row, e, f)
      ]
    ]

settle_negative :
    (reservation_id : String) (n : ℕ) (s : Store)
    → (settle_budget reservation_id (negsuc n) s).1 ≡ s
unfolding settle_budget
settle_negative reservation_id n s = refl

pub settle-IsCovered :
    (reservation_id : String) (consumed : ℤ) (s : Store)
    → IsCovered s
    → IsCovered (settle_budget reservation_id consumed s).1
settle-IsCovered reservation_id (negsuc n) s c =
    subst IsCovered (sym (settle_negative reservation_id n s)) c
settle-IsCovered reservation_id (pos n) s c = elim (reservation-cases reservation_id s) [
  | inl missing ↦ subst IsCovered (sym (settle_refused reservation_id n s missing)) c
  | inr (r, row, e, f) ↦ elim (settle_effect reservation_id r row n s e f) [
    | inl same ↦ subst IsCovered (sym same) c
    | inr (done, active, _, _) ↦
        subst IsCovered (sym (ap (λ out. out.1) done))
          (charged-IsCovered reservation_id r row n s e f active c)
  ]
]

pub release-IsCovered :
    (reservation_id : String) (s : Store)
    → IsCovered s
    → IsCovered (release_budget reservation_id s).1
release-IsCovered reservation_id s c = elim (reservation-cases reservation_id s) [
  | inl missing ↦ subst IsCovered (sym (release_refused reservation_id s missing)) c
  | inr (r, row, e, f) ↦ elim (release_effect reservation_id r row s e f) [
    | inl same ↦ subst IsCovered (sym same) c
    | inr (done, active) ↦
        subst IsCovered (sym done) (released-IsCovered reservation_id r row s e f active c)
  ]
]

pub release-IsWithin :
    (reservation_id : String) (s : Store)
    → IsWithin s
    → IsWithin (release_budget reservation_id s).1
release-IsWithin reservation_id s w = elim (reservation-cases reservation_id s) [
  | inl missing ↦ subst IsWithin (sym (release_refused reservation_id s missing)) w
  | inr (r, row, e, f) ↦ elim (release_effect reservation_id r row s e f) [
    | inl same ↦ subst IsWithin (sym same) w
    | inr (done, active) ↦ subst IsWithin (sym done) (released-IsWithin reservation_id r row s w)
  ]
]

pub doubt-IsCovered :
    (reservation_id : String) (s : Store)
    → IsCovered s
    → IsCovered (mark_budget_uncertain reservation_id s).1
unfolding mark_budget_uncertain held
doubt-IsCovered reservation_id s c = record {
  covers = λ scope subject epoch. ground (
    arith,
    c.covers scope subject epoch,
    total-update_le (weight s.sessions scope subject epoch)
        (λ row. by_reservation_id reservation_id row && is_held row.state)
        (λ row. record row { state = ReservationState.uncertain }) s.reservations
        (λ x h. omega arith),
  );
}

pub doubt-IsWithin :
    (reservation_id : String) (s : Store)
    → IsWithin s
    → IsWithin (mark_budget_uncertain reservation_id s).1
unfolding mark_budget_uncertain
doubt-IsWithin reservation_id s w = record {
  within = λ scope subject epoch. ground (arith, w.within scope subject epoch);
}

-- A settlement that returns has charged no more than was reserved.
pub settle-IsWithin :
    (reservation_id : String) (consumed : ℤ) (s : Store)
    → (settle_budget reservation_id consumed s).0 ≡ ok tt
    → IsWithin s
    → IsWithin (settle_budget reservation_id consumed s).1
settle-IsWithin reservation_id (negsuc n) s returned w =
    subst IsWithin (sym (settle_negative reservation_id n s)) w
settle-IsWithin reservation_id (pos n) s returned w = elim (reservation-cases reservation_id s) [
  | inl missing ↦ subst IsWithin (sym (settle_refused reservation_id n s missing)) w
  | inr (r, row, e, f) ↦ elim (settle_effect reservation_id r row n s e f) [
    | inl same ↦ subst IsWithin (sym same) w
    | inr (done, active, org_covered, role_covered) ↦
        subst IsWithin (sym (ap (λ out. out.1) done))
          (charged-IsWithin reservation_id r row n s (ground arith) org_covered role_covered w)
  ]
]
