-- ===== src/Store/Budget/Ledger.antt =====
-- The budget calls in any order: reservations stay covered, and limits are passed only by a reported
-- overrun.
use scrum_jail_governance_pl.Base.{String, ◌≡◌, List, arith, ℤ, subst, sym}
use scrum_jail_governance_pl.Store.Schema.{Store}
use scrum_jail_governance_pl.Store.Action.{Action, Done, ok, ◌>>◌, pure}
use scrum_jail_governance_pl.Store.Budget.{
  reserve_budget, settle_budget, mark_budget_uncertain, release_budget,
}
use scrum_jail_governance_pl.Store.Budget.Held.{IsCovered, IsWithin}
use scrum_jail_governance_pl.Store.Budget.Cases.{
  IsKeyed, reserve_two-IsCovered, reserve_two-IsWithin, reserve_cases, settle-IsCovered,
  settle-IsWithin, release-IsCovered, release-IsWithin, doubt-IsCovered, doubt-IsWithin,
}

pub data Call : Type 0 where
  reserve : String → String → ℤ → List (String × String × ℤ) → String → String → Call
  settle : String → ℤ → Call
  doubt release : String → Call

unfoldable pub perform : Call → Action Done
perform (reserve session_id epoch requested buckets fresh now) =
    reserve_budget session_id epoch requested buckets fresh now >> pure tt
perform (settle reservation_id consumed) = settle_budget reservation_id consumed
perform (doubt reservation_id) = mark_budget_uncertain reservation_id
perform (release reservation_id) = release_budget reservation_id

discard_state : {A : Type 0} (m : Action A) (s : Store) → ((m >> pure tt) s).1 ≡ (m s).1
discard_state m s = ground arith

reserve-IsCovered :
    (session_id epoch : String) (requested : ℤ) (buckets : List (String × String × ℤ))
    (fresh now : String) (s : Store)
    → IsKeyed s
    → IsCovered s
    → IsCovered (reserve_budget session_id epoch requested buckets fresh now s).1
reserve-IsCovered session_id epoch requested buckets fresh now s k c =
    reserve_cases session_id epoch fresh now s IsCovered c
      (λ n a b row e. reserve_two-IsCovered session_id epoch fresh now s n a b row e k c) requested
      buckets

reserve-IsWithin :
    (session_id epoch : String) (requested : ℤ) (buckets : List (String × String × ℤ))
    (fresh now : String) (s : Store)
    → IsWithin s
    → IsWithin (reserve_budget session_id epoch requested buckets fresh now s).1
reserve-IsWithin session_id epoch requested buckets fresh now s w =
    reserve_cases session_id epoch fresh now s IsWithin w
      (λ n a b row e. reserve_two-IsWithin session_id epoch fresh now s n a b row e w) requested
      buckets

-- Where session ids do not repeat and every bucket counts at least what its active reservations
-- hold, each budget call, whether it returns or raises, leaves every bucket counting that much.
pub perform-IsCovered : (c : Call) (s : Store) → IsKeyed s → IsCovered s → IsCovered (perform c s).1
unfolding perform
perform-IsCovered (reserve session_id epoch requested buckets fresh now) s k c =
    subst IsCovered
      (sym (discard_state (reserve_budget session_id epoch requested buckets fresh now) s))
      (reserve-IsCovered session_id epoch requested buckets fresh now s k c)
perform-IsCovered (settle reservation_id consumed) s k c =
    settle-IsCovered reservation_id consumed s c
perform-IsCovered (doubt reservation_id) s k c = doubt-IsCovered reservation_id s c
perform-IsCovered (release reservation_id) s k c = release-IsCovered reservation_id s c

-- A budget call that returns, on a database whose buckets' consumed and reserved tokens are within
-- their limits, leaves them within.
pub perform-IsWithin :
    (c : Call) (s : Store) → (perform c s).0 ≡ ok tt → IsWithin s → IsWithin (perform c s).1
unfolding perform
perform-IsWithin (reserve session_id epoch requested buckets fresh now) s returned w =
    subst IsWithin
      (sym (discard_state (reserve_budget session_id epoch requested buckets fresh now) s))
      (reserve-IsWithin session_id epoch requested buckets fresh now s w)
perform-IsWithin (settle reservation_id consumed) s returned w =
    settle-IsWithin reservation_id consumed s returned w
perform-IsWithin (doubt reservation_id) s returned w = doubt-IsWithin reservation_id s w
perform-IsWithin (release reservation_id) s returned w = release-IsWithin reservation_id s w
