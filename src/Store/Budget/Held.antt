-- ===== src/Store/Budget/Held.antt =====
-- The tokens that active reservations hold in a bucket, against what the bucket counts as reserved.
use scrum_jail_governance_pl.Base.{
  ℕ, ◌+◌, ◌≤◌, String, ◌==◌, Bool, false, ◌&&◌, ◌||◌, Option, none, some, List, if◌then◌else◌,
}
use scrum_jail_governance_pl.Base.Table.{select}
use scrum_jail_governance_pl.Base.Table.Sums.{total}
use scrum_jail_governance_pl.Store.Schema.{Store, WakeSession, BudgetBucket, BudgetReservation}
use scrum_jail_governance_pl.Store.Sessions.{is_held, by_session_id}
use scrum_jail_governance_pl.Store.Budget.{bucket}

-- Is the bucket the organization's or the role's of this session?
abbrev pub names : String → String → WakeSession → Bool
names scope subject row =
    (scope == "org" && subject == row.org_id) || (scope == "role" && subject == row.role)

abbrev pub named_by : String → String → Option WakeSession → Bool
named_by scope subject none = false
named_by scope subject (some row) = names scope subject row

-- An active reservation of this epoch, by a session whose bucket this is.
abbrev pub draws : List WakeSession → String → String → String → BudgetReservation → Bool
draws sessions scope subject epoch row =
    is_held row.state
    && epoch == row.epoch
    && named_by scope subject (select (by_session_id row.session_id) sessions)

abbrev pub weight : List WakeSession → String → String → String → BudgetReservation → ℕ
weight sessions scope subject epoch row =
    if draws sessions scope subject epoch row then row.reserved_tokens else 0

unfoldable pub held : String → String → String → Store → ℕ
held scope subject epoch s = total (weight s.sessions scope subject epoch) s.reservations

abbrev pub reserved_in : Option BudgetBucket → ℕ
reserved_in none = 0
reserved_in (some row) = row.reserved_tokens

-- What is charged and reserved, and what may be; a bucket that is not there has nothing.
abbrev pub used_in : Option BudgetBucket → ℕ
used_in none = 0
used_in (some row) = row.consumed_tokens + row.reserved_tokens

abbrev pub limit_in : Option BudgetBucket → ℕ
limit_in none = 0
limit_in (some row) = row.token_limit

abbrev pub Fits : Option BudgetBucket → Type 0
Fits row = used_in row ≤ limit_in row

-- Every bucket counts at least what its active reservations hold.
pub record IsCovered (s : Store) : Type 0 where
  pub covers :
      (scope subject epoch : String)
      → held scope subject epoch s ≤ reserved_in (bucket scope subject epoch s)

-- No bucket is charged and reserved beyond its limit.
pub record IsWithin (s : Store) : Type 0 where
  pub within : (scope subject epoch : String) → Fits (bucket scope subject epoch s)
