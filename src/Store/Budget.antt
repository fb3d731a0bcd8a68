-- ===== src/Store/Budget.antt =====
-- control/sjg_control/store.py: token budgets. A wake reserves tokens in two buckets, its
-- organization's and its role's, of one epoch; the reservation is settled, released or left uncertain.
pub mod Buckets
pub mod Held
pub mod Release
pub mod Settle
pub mod Reserve
pub mod Filled
pub mod Cases
pub mod Ledger
pub mod Liveness
pub mod Counts
pub mod Booked
use scrum_jail_governance_pl.Base.{
  ℕ, ◌+◌, ◌-◌, String, ◌==◌, Bool, true, false, not, ◌&&◌, ◌||◌, Option, none, some, List, [], ◌∷◌,
  if◌then◌else◌, leb, ltb, eqb, ℤ, pos, negsuc, not_positive, is_negative, to_ℕ,
}
use Prim.Native.String.{◌++◌}
use scrum_jail_governance_pl.Base.Table.{select, count, update, exists}
use scrum_jail_governance_pl.Store.Schema.{
  Store, WakeSession, BudgetBucket, BudgetReservation, ReservationState,
}
use scrum_jail_governance_pl.Store.Action.{
  Action, Done, state_error, integrity_error, ◌>>=◌, ◌>>◌, pure, raise, raise_if, gets, modify,
  or_raise, immediate,
}
use scrum_jail_governance_pl.Store.Sessions.{is_held, by_session_id}
use scrum_jail_governance_pl.Store.Workers.{usable_session}

-- WHERE scope=? AND subject=? AND epoch=?
abbrev pub in_bucket : String → String → String → BudgetBucket → Bool
in_bucket scope subject epoch row =
    row.scope == scope && row.subject == subject && row.epoch == epoch

abbrev pub bucket : String → String → String → Store → Option BudgetBucket
bucket scope subject epoch s = select (in_bucket scope subject epoch) s.buckets

abbrev pub change_bucket : String → String → String → (BudgetBucket → BudgetBucket) → Store → Store
change_bucket scope subject epoch f s = record s {
  buckets = update (in_bucket scope subject epoch) f s.buckets;
}

abbrev pub new_bucket : String → String → String → ℕ → BudgetBucket
new_bucket scope subject epoch limit = record {
  scope = scope;
  subject = subject;
  epoch = epoch;
  token_limit = limit;
  consumed_tokens = 0;
  reserved_tokens = 0;
}

-- INSERT OR IGNORE INTO budget_bucket
abbrev pub ensure_bucket : String → String → String → ℕ → Store → Store
ensure_bucket scope subject epoch limit s =
    if exists (in_bucket scope subject epoch) s.buckets
    then s
    else record s { buckets = new_bucket scope subject epoch limit ∷ s.buckets }

-- One turn of the first loop of `reserve_budget`: the bucket is there, with this limit and room.
unfoldable pub check_bucket : String → ℕ → String × String × ℤ → Action Done
check_bucket epoch requested (scope, subject, limit) = do
  raise_if (not_positive limit) (state_error "budget bucket limit must be positive")
  modify (ensure_bucket scope subject epoch (to_ℕ limit))
  row ← or_raise (← gets (bucket scope subject epoch)) integrity_error
  raise_if (not (eqb row.token_limit (to_ℕ limit)))
      (state_error ("budget policy changed during epoch: " ++ (scope ++ ("/" ++ subject))))
  raise_if (ltb row.token_limit (row.consumed_tokens + row.reserved_tokens + requested))
      (state_error ("budget hold: " ++ (scope ++ ("/" ++ subject))))

unfoldable pub check_buckets : String → ℕ → List (String × String × ℤ) → Action Done
check_buckets epoch requested [] = pure tt
check_buckets epoch requested (b ∷ rest) =
    check_bucket epoch requested b >> check_buckets epoch requested rest

add_reserved : String → ℕ → List (String × String × ℤ) → Action Done
add_reserved epoch requested [] = pure tt
add_reserved epoch requested ((scope, subject, limit) ∷ rest) = do
  modify (
      change_bucket scope subject epoch
        (λ row. record row { reserved_tokens = row.reserved_tokens + requested }))
  add_reserved epoch requested rest

abbrev same_bucket : String × String × ℤ → String × String → Bool
same_bucket (scope, subject, limit) (scope', subject') = scope == scope' && subject == subject'

-- len(buckets) != 2 or len({(scope, subject)}) != 2
abbrev two_distinct : List (String × String × ℤ) → Bool
two_distinct (a ∷ b ∷ []) = not (same_bucket a (b.0, b.1))
two_distinct _ = false

-- {(scope, subject)} == {("org", org_id), ("role", role)}, for two distinct entries
abbrev names_both : WakeSession → List (String × String × ℤ) → Bool
names_both row (a ∷ b ∷ []) =
    (same_bucket a ("org", row.org_id) && same_bucket b ("role", row.role))
    || (same_bucket a ("role", row.role) && same_bucket b ("org", row.org_id))
names_both row _ = false

-- INSERT INTO budget_reservation: the primary key, and UNIQUE(session_id)
insert_reservation : BudgetReservation → Action Done
insert_reservation row = do
  raise_if
      (← gets (λ s.
        exists (λ old. old.reservation_id == row.reservation_id || old.session_id == row.session_id)
          s.reservations))
      integrity_error
  modify (λ s. record s { reservations = row ∷ s.reservations })

unfoldable pub reserve_budget :
    String → String → ℤ → List (String × String × ℤ) → String → String → Action String
unfolding add_reserved insert_reservation
reserve_budget session_id epoch requested_tokens buckets fresh now = do
  raise_if (not_positive requested_tokens) (state_error "budget reservation must be positive")
  immediate (do
    row ←
        or_raise (← gets (λ s. select (usable_session session_id now) s.sessions))
          (state_error "budget reservation requires an active session")
    raise_if (not (two_distinct buckets))
        (state_error "budget reservation requires exactly one organization and role bucket")
    raise_if (not (names_both row buckets))
        (state_error "budget buckets do not match the bound session")
    check_buckets epoch (to_ℕ requested_tokens) buckets
    add_reserved epoch (to_ℕ requested_tokens) buckets
    insert_reservation (record {
      reservation_id = fresh;
      session_id = session_id;
      epoch = epoch;
      reserved_tokens = to_ℕ requested_tokens;
      state = ReservationState.active;
    })
    pure fresh)

abbrev pub by_reservation_id : String → BudgetReservation → Bool
by_reservation_id reservation_id row = row.reservation_id == reservation_id

abbrev pub set_reservation : String → ReservationState → Store → Store
set_reservation reservation_id state s = record s {
  reservations =
      update (by_reservation_id reservation_id) (λ row. record row { state = state })
        s.reservations;
}

-- The reservation, if it is active: the first test of `settle_budget` and `release_budget`.
active_reservation : String → Action BudgetReservation
active_reservation reservation_id = do
  row ←
      or_raise (← gets (λ s. select (by_reservation_id reservation_id) s.reservations))
        (state_error "budget reservation is absent or inactive")
  raise_if (not (is_held row.state)) (state_error "budget reservation is absent or inactive")
  pure row

-- One turn of the first loop of `settle_budget`: does this bucket's limit make the usage uncertain?
covers : String → String → String → ℕ → ℕ → Action Bool
covers scope subject epoch reserved consumed = do
  row ←
      or_raise (← gets (bucket scope subject epoch))
        (state_error "budget bucket does not cover the reservation")
  raise_if (ltb row.reserved_tokens reserved)
      (state_error "budget bucket does not cover the reservation")
  pure (ltb row.token_limit (row.consumed_tokens + consumed))

-- `reserved_tokens-?` is exact where `covers` has passed: the loop has made that test of both buckets.
abbrev pub charge : ℕ → ℕ → BudgetBucket → BudgetBucket
charge reserved consumed row = record row {
  reserved_tokens = row.reserved_tokens - reserved;
  consumed_tokens = row.consumed_tokens + consumed;
}

-- The transaction of `settle_budget`; it returns `uncertain`.
charge_budget : String → ℕ → Action Bool
unfolding active_reservation covers
charge_budget reservation_id consumed = do
  reservation ← active_reservation reservation_id
  row ←
      or_raise (← gets (λ s. select (by_session_id reservation.session_id) s.sessions))
        (state_error "budget reservation session is absent")
  let reserved = reservation.reserved_tokens
  let epoch = reservation.epoch
  over_org ← covers "org" row.org_id epoch reserved consumed
  over_role ← covers "role" row.role epoch reserved consumed
  let is_uncertain = ltb reserved consumed || over_org || over_role
  modify (change_bucket "org" row.org_id epoch (charge reserved consumed))
  modify (change_bucket "role" row.role epoch (charge reserved consumed))
  modify (
      set_reservation reservation_id
        (if is_uncertain then ReservationState.uncertain else ReservationState.settled))
  pure is_uncertain

-- The last raise stands after the transaction: the charge stays committed.
unfoldable pub settle_budget : String → ℤ → Action Done
unfolding charge_budget
settle_budget reservation_id consumed_tokens = do
  raise_if (is_negative consumed_tokens) (state_error "consumed token count must not be negative")
  is_uncertain ← immediate (charge_budget reservation_id (to_ℕ consumed_tokens))
  raise_if is_uncertain
      (state_error "actual usage exceeded a budget boundary; manual review required")

unfoldable pub mark_budget_uncertain : String → Action Done
mark_budget_uncertain reservation_id = do
  rows ←
      gets (λ s.
        count (λ row. by_reservation_id reservation_id row && is_held row.state) s.reservations)
  modify (λ s. record s {
    reservations =
        update (λ row. by_reservation_id reservation_id row && is_held row.state)
          (λ row. record row { state = ReservationState.uncertain }) s.reservations;
  })
  raise_if (not (eqb rows 1)) (state_error "budget reservation is absent or inactive")

-- WHERE scope=? AND subject=? AND epoch=? AND reserved_tokens>=?
abbrev pub can_give : String → String → String → ℕ → BudgetBucket → Bool
can_give scope subject epoch tokens row =
    in_bucket scope subject epoch row && leb tokens row.reserved_tokens

-- UPDATE budget_bucket SET reserved_tokens=reserved_tokens-?
abbrev pub given_back : String → String → String → ℕ → Store → Store
given_back scope subject epoch tokens s = record s {
  buckets =
      update (can_give scope subject epoch tokens)
        (λ row. record row { reserved_tokens = row.reserved_tokens - tokens }) s.buckets;
}

-- That UPDATE, whose `rowcount` must be 1.
unfoldable pub give_back : String → String → String → ℕ → String → Action Done
give_back scope subject epoch tokens message = do
  rows ← gets (λ s. count (can_give scope subject epoch tokens) s.buckets)
  modify (given_back scope subject epoch tokens)
  raise_if (not (eqb rows 1)) (state_error message)

unfoldable pub release_budget : String → Action Done
unfolding active_reservation give_back
release_budget reservation_id = immediate (do
  reservation ← active_reservation reservation_id
  row ←
      or_raise (← gets (λ s. select (by_session_id reservation.session_id) s.sessions))
        (state_error "budget reservation session is absent")
  let tokens = reservation.reserved_tokens
  give_back "org" row.org_id reservation.epoch tokens "budget bucket does not cover the reservation"
  give_back "role" row.role reservation.epoch tokens "budget bucket does not cover the reservation"
  modify (set_reservation reservation_id ReservationState.released))
