-- ===== src/Examples/Deliveries.antt =====
-- Deliveries of control/sjg_control/store.py on concrete databases.
use scrum_jail_governance_pl.Base.{◌≡◌, refl, none, some, List, [], ◌∷◌, arith, pos}
use scrum_jail_governance_pl.Base.Table.{select, count, update, filter}
use scrum_jail_governance_pl.Store.Schema.{Store, Delivery, DeliveryState, EnrichmentState, empty}
use scrum_jail_governance_pl.Base.{sorted_set, text_leb, mem}
use scrum_jail_governance_pl.Store.Delivery.{add_route, enqueue_delivery}
use scrum_jail_governance_pl.Store.Lease.{lease_delivery}
use scrum_jail_governance_pl.Store.Dispatch.{Call, route, enqueue, lease, start, perform, run}
use scrum_jail_governance_pl.Store.Dispatch.Machine.{IsInOrder}
use scrum_jail_governance_pl.Store.Dispatch.Keys.{IsKeyed, look}
use scrum_jail_governance_pl.Store.Dispatch.Refinement.{Arrives, perform-Arrives}
use scrum_jail_governance_pl.Store.Dispatch.History.{history-IsInOrder, history_final}

abbrev job : DeliveryState → Delivery
job state = record {
  delivery_id = "d1";
  idempotency_key = "k1";
  role = "ceo";
  state = state;
  attempt = 1;
  eligible_at = "2026-01-01T00:00:00Z";
  lease_owner = none;
  lease_until = none;
  last_error = none;
}

abbrev with_job : DeliveryState → Store
with_job state = record empty { deliveries = job state ∷ [] }

with_job-IsKeyed : (state : DeliveryState) → IsKeyed (with_job state)
unfolding count
with_job-IsKeyed state id = ground arith

with_job-look : (state : DeliveryState) → look "d1" (with_job state) ≡ some (job state)
unfolding select
with_job-look state = refl

abbrev lease_now : Call
lease_now = lease "worker" "2026-01-02T00:00:00Z" "2026-01-02T00:05:00Z" (pos 300)

perform-Arrives_example :
    Arrives 5 "d1"
      (job DeliveryState.retry_wait)
      (perform 5 lease_now (with_job DeliveryState.retry_wait)).deliveries
perform-Arrives_example =
    perform-Arrives 5 lease_now (with_job DeliveryState.retry_wait) "d1"
      (job DeliveryState.retry_wait) (with_job-IsKeyed DeliveryState.retry_wait)
      (with_job-look DeliveryState.retry_wait)

history_final_example :
    look "d1" (
      run 5
        (lease_now ∷ start "d1" "worker" "2026-01-02T00:00:01Z" ∷ [])
        (with_job DeliveryState.succeeded))
    ≡ some (job DeliveryState.succeeded)
history_final_example =
    history_final 5 (lease_now ∷ start "d1" "worker" "2026-01-02T00:00:01Z" ∷ [])
      (with_job DeliveryState.succeeded) "d1" (job DeliveryState.succeeded)
      (with_job-IsKeyed DeliveryState.succeeded) (with_job-look DeliveryState.succeeded) refl

abbrev with_event : Store
with_event = record empty {
  observed =
      record {
        event_id = "e1";
        source_id = "github";
        external_id = "issue:1";
        version_key = "v1";
        occurred_at = "2026-01-01T00:00:00Z";
        payload_json = "{}";
        enrichment_state = EnrichmentState.pending;
      }
      ∷ [];
}

abbrev first_delivery : List Call
first_delivery =
    route "e1" "ceo"
    ∷ enqueue "ceo" ("e1" ∷ []) "k1" none "d1" "2026-01-01T00:00:00Z"
    ∷ lease_now
    ∷ []

abbrev leased_job : Delivery
leased_job = record (job DeliveryState.leased) {
  lease_owner = some "worker";
  lease_until = some "2026-01-02T00:05:00Z";
}

first_delivery-look : look "d1" (run 5 first_delivery with_event) ≡ some leased_job
unfolding run perform add_route enqueue_delivery lease_delivery select sorted_set text_leb count
    update filter mem
first_delivery-look = refl

history-IsInOrder_example : IsInOrder 5 leased_job
history-IsInOrder_example =
    history-IsInOrder 5 first_delivery with_event "d1" leased_job refl first_delivery-look
