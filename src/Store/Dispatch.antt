-- ===== src/Store/Dispatch.antt =====
-- The calls on deliveries of control/sjg_control/store.py, in any order: any scheduler, worker and
-- operator of them. The ceiling on attempts is one for all leases.
pub mod Effects
pub mod Machine
pub mod Keys
pub mod Sweep
pub mod Refinement
pub mod History
use scrum_jail_governance_pl.Base.{ℕ, String, Option, List, [], ◌∷◌, ℤ, pos}
use scrum_jail_governance_pl.Store.Schema.{Store}
use scrum_jail_governance_pl.Store.Action.{Result}
use scrum_jail_governance_pl.Store.Delivery.{add_route, enqueue_delivery}
use scrum_jail_governance_pl.Store.Lease.{lease_delivery, start_delivery}
use scrum_jail_governance_pl.Store.Outcome.{
  Outcome, finish_delivery, release_budget_hold, force_delivery_uncertain,
}

pub data Call : Type 0 where
  route : String → String → Call
  enqueue : String → List String → String → Option String → String → String → Call
  lease : String → String → String → ℤ → Call
  start : String → String → String → Call
  finish : String → String → Outcome → Option String → Option String → String → Call
  unhold : String → Option String → String → Call
  quarantine : String → String → Call

abbrev after : {A : Type 0} → Result A × Store → Store
after out = out.1

-- One call, its exception swallowed.
unfoldable pub perform : ℕ → Call → Store → Store
perform limit (route event_id role) s = after (add_route event_id role s)
perform limit (enqueue role event_ids key eligible_at fresh now) s =
    after (enqueue_delivery role event_ids key eligible_at fresh now s)
perform limit (lease owner timestamp lease_until seconds) s =
    after (lease_delivery owner timestamp lease_until seconds (pos limit) s)
perform limit (start delivery_id owner timestamp) s =
    after (start_delivery delivery_id owner timestamp s)
perform limit (finish delivery_id owner outcome error eligible_at now) s =
    after (finish_delivery delivery_id owner outcome error eligible_at now s)
perform limit (unhold delivery_id eligible_at now) s =
    after (release_budget_hold delivery_id eligible_at now s)
perform limit (quarantine delivery_id error) s =
    after (force_delivery_uncertain delivery_id error s)

unfoldable pub run : ℕ → List Call → Store → Store
run limit [] s = s
run limit (c ∷ cs) s = run limit cs (perform limit c s)
