-- ===== src/Examples/Budgets.antt =====
-- Budgets of control/sjg_control/store.py on a concrete database: the session "s1" holds 40 tokens.
use scrum_jail_governance_pl.Base.{
  if◌then◌else◌, String, ◌≡◌, refl, some, [], ◌∷◌, arith, pos, eq_comm, eq_join,
}
use scrum_jail_governance_pl.Base.Table.{select, count}
use scrum_jail_governance_pl.Base.Table.Sums.{total}
use scrum_jail_governance_pl.Store.Schema.{
  Store, WakeSession, SessionState, BudgetBucket, BudgetReservation, ReservationState, empty,
}
use scrum_jail_governance_pl.Store.Action.{ok}
use scrum_jail_governance_pl.Store.Sessions.{by_session_id}
use scrum_jail_governance_pl.Store.Budget.{by_reservation_id, settle_budget, release_budget}
use scrum_jail_governance_pl.Store.Budget.Held.{held, IsCovered, IsWithin}
use scrum_jail_governance_pl.Store.Budget.Settle.{verdict, overruns}
use scrum_jail_governance_pl.Store.Budget.Cases.{IsKeyed}
use scrum_jail_governance_pl.Store.Budget.Ledger.{
  settle, perform, perform-IsCovered, perform-IsWithin,
}
use scrum_jail_governance_pl.Store.Budget.Liveness.{AreBucketsKeyed}
use scrum_jail_governance_pl.Store.Budget.Booked.{IsBooked, settle-IsBooked, release-IsBooked}

abbrev ceo : WakeSession
ceo = record {
  session_id = "s1";
  wake_id = "w1";
  org_id = "acme";
  role = "ceo";
  policy_digest = "digest";
  workspace_aliases = [];
  issued_at = "2026-01-01T00:00:00Z";
  expires_at = "2026-01-01T01:00:00Z";
  state = SessionState.active;
}

abbrev purse : String → String → BudgetBucket
purse scope subject = record {
  scope = scope;
  subject = subject;
  epoch = "2026-01";
  token_limit = 100;
  consumed_tokens = 0;
  reserved_tokens = 40;
}

abbrev reservation : BudgetReservation
reservation = record {
  reservation_id = "r1";
  session_id = "s1";
  epoch = "2026-01";
  reserved_tokens = 40;
  state = ReservationState.active;
}

abbrev books : Store
books = record empty {
  sessions = ceo ∷ [];
  buckets = purse "org" "acme" ∷ purse "role" "ceo" ∷ [];
  reservations = reservation ∷ [];
}

books-IsKeyed : IsKeyed books
unfolding count
books-IsKeyed id = ground arith

books-IsCovered : IsCovered books
unfolding held total select
books-IsCovered = record {
  covers = λ scope subject epoch. ground (
    arith,
    eq_comm "org" scope,
    eq_comm "role" scope,
    eq_comm "acme" subject,
    eq_comm "ceo" subject,
    eq_comm "2026-01" epoch,
    eq_join "org" "role" scope,
  );
}

books-IsWithin : IsWithin books
unfolding select
books-IsWithin = record { within = λ scope subject epoch. ground arith }

books-AreBucketsKeyed : AreBucketsKeyed books
unfolding count
books-AreBucketsKeyed scope subject epoch = ground (arith, eq_join "org" "role" scope)

found_reservation : select (by_reservation_id "r1") books.reservations ≡ some reservation
unfolding select
found_reservation = refl

found_session : select (by_session_id "s1") books.sessions ≡ some ceo
unfolding select
found_session = refl

perform-IsCovered_example : IsCovered (perform (settle "r1" (pos 30)) books).1
perform-IsCovered_example =
    perform-IsCovered (settle "r1" (pos 30)) books books-IsKeyed books-IsCovered

settled_well : (perform (settle "r1" (pos 30)) books).0 ≡ ok tt
unfolding perform settle_budget select
settled_well = refl

perform-IsWithin_example : IsWithin (perform (settle "r1" (pos 30)) books).1
perform-IsWithin_example = perform-IsWithin (settle "r1" (pos 30)) books settled_well books-IsWithin

settle-IsBooked_example :
    ((settle_budget "r1" (pos 30) books).0 ≡ verdict (overruns reservation ceo 30 books))
    × IsBooked "r1" reservation ceo 30
        (if overruns reservation ceo 30 books
          then ReservationState.uncertain
          else ReservationState.settled)
        books
        (settle_budget "r1" (pos 30) books).1
settle-IsBooked_example =
    settle-IsBooked "r1" reservation ceo books 30 found_reservation found_session refl (omega arith)
      books-IsCovered

release-IsBooked_example :
    ((release_budget "r1" books).0 ≡ ok tt)
    × IsBooked "r1" reservation ceo 0 ReservationState.released books (release_budget "r1" books).1
release-IsBooked_example =
    release-IsBooked "r1" reservation ceo books found_reservation found_session refl (omega arith)
      books-IsCovered books-AreBucketsKeyed
