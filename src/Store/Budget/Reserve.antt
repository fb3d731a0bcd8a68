-- ===== src/Store/Budget/Reserve.antt =====
-- A reservation adds its tokens to both buckets of the session, if both have room.
use scrum_jail_governance_pl.Base.{
  ℕ, ◌+◌, ◌≤◌, String, true, ◌≡◌, Option, some, [], ◌∷◌, arith, ◌⊎◌, ℤ, pos, to_ℕ,
}
use scrum_jail_governance_pl.Base.Table.{select}
use scrum_jail_governance_pl.Store.Schema.{
  Store, WakeSession, BudgetBucket, BudgetReservation, ReservationState,
}
use scrum_jail_governance_pl.Store.Action.{is_err, ok}
use scrum_jail_governance_pl.Store.Workers.{usable_session}
use scrum_jail_governance_pl.Store.Budget.{
  bucket, change_bucket, ensure_bucket, names_both, check_bucket, check_buckets, reserve_budget,
}
use scrum_jail_governance_pl.Store.Budget.Held.{used_in, limit_in}

abbrev pub add_tokens : ℕ → BudgetBucket → BudgetBucket
add_tokens tokens row = record row { reserved_tokens = row.reserved_tokens + tokens }

-- The database after a reservation in the buckets `a` and `b`.
module _ (session_id epoch : String) (tokens : ℕ) (a b : String × String × ℤ) (fresh : String) where
  abbrev pub opened_buckets : Store → Store
  opened_buckets s =
      ensure_bucket b.0 b.1 epoch (to_ℕ b.2) (ensure_bucket a.0 a.1 epoch (to_ℕ a.2) s)

  abbrev pub filled : Store → Store
  filled s =
      change_bucket b.0 b.1 epoch (add_tokens tokens)
        (change_bucket a.0 a.1 epoch (add_tokens tokens) (opened_buckets s))

  abbrev pub new_reservation : BudgetReservation
  new_reservation = record {
    reservation_id = fresh;
    session_id = session_id;
    epoch = epoch;
    reserved_tokens = tokens;
    state = ReservationState.active;
  }

  abbrev pub reserved : Store → Store
  reserved s = let t = filled s in record t { reservations = new_reservation ∷ t.reservations }

-- The bucket has room for `tokens` more.
abbrev pub HasRoom : ℕ → Option BudgetBucket → Type 0
HasRoom tokens row = used_in row + tokens ≤ limit_in row

check_bucket_effect :
    (epoch : String) (n : ℕ) (a : String × String × ℤ) (s : Store)
    → let t = ensure_bucket a.0 a.1 epoch (to_ℕ a.2) s in
      (is_err (check_bucket epoch n a s).0 ≡ true)
      ⊎ ((check_bucket epoch n a s ≡ (ok tt, t)) × HasRoom n (bucket a.0 a.1 epoch t))
unfolding check_bucket
check_bucket_effect epoch n (scope, subject, limit) s = ground arith

module _ (session_id epoch : String) (n : ℕ) (a b : String × String × ℤ) (fresh : String)
    (s : Store) where
  -- What the first loop has shown of the two buckets.
  abbrev pub BothHaveRoom : Type 0
  BothHaveRoom =
      HasRoom n (bucket a.0 a.1 epoch (ensure_bucket a.0 a.1 epoch (to_ℕ a.2) s))
      × HasRoom n (bucket b.0 b.1 epoch (opened_buckets session_id epoch n a b fresh s))

  pub check_buckets_effect :
      (is_err (check_buckets epoch n (a ∷ b ∷ []) s).0 ≡ true)
      ⊎ ((check_buckets epoch n (a ∷ b ∷ []) s
            ≡ (ok tt, opened_buckets session_id epoch n a b fresh s))
          × BothHaveRoom)
  check_buckets_effect =
      unfold check_buckets in
      ground (
        arith,
        check_bucket_effect epoch n a s,
        check_bucket_effect epoch n b (ensure_bucket a.0 a.1 epoch (to_ℕ a.2) s),
      )

  pub reserve_effect :
      (now : String) (row : WakeSession)
      → select (usable_session session_id now) s.sessions ≡ some row
      → let out = reserve_budget session_id epoch (pos n) (a ∷ b ∷ []) fresh now s in
        (out.1 ≡ s)
        ⊎ ((out.1 ≡ reserved session_id epoch n a b fresh s)
            × (names_both row (a ∷ b ∷ []) ≡ true)
            × BothHaveRoom)
  unfolding reserve_budget
  reserve_effect now row e = ground (arith, check_buckets_effect)
