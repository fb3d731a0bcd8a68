-- ===== src/Examples/Journals.antt =====
-- The journals of control/sjg_control/store.py on concrete databases: snapshots, broker requests and
-- governance writes.
use scrum_jail_governance_pl.Base.{
  ◌+◌, ◌≤◌, ◌==◌, ◌&&◌, ◌≡◌, refl, none, some, List, [], ◌∷◌, arith, true, Bool,
}
use scrum_jail_governance_pl.Base.Table.{select, count, filter, exists}
use scrum_jail_governance_pl.Base.Table.Laws.{All}
use scrum_jail_governance_pl.Store.Schema.{
  Store, SourceSnapshot, SnapshotState, SnapshotEvent, ObservedEvent, ReconcileState,
  ReconcileOperation, BrokerRequest, RequestState, WakeSession, SessionState, empty,
}
use scrum_jail_governance_pl.Store.Action.{ok}
use scrum_jail_governance_pl.Store.Snapshots.{
  Finish, finish_snapshot, new_checkpoint, at_source, by_snapshot, clashes, collected,
}
use scrum_jail_governance_pl.Store.Snapshots.Publication.{AreObservedKeyed, rows, finish_publishes}
use scrum_jail_governance_pl.Store.Requests.{
  answered, new_request, reserve_request, prior_request, finish_request,
}
use scrum_jail_governance_pl.Store.Requests.Replay.{reserve-finish-reserve}
use scrum_jail_governance_pl.Store.Reconcile.{by_operation, new_operation}
use scrum_jail_governance_pl.Store.Reconcile.Journal
use scrum_jail_governance_pl.Store.Reconcile.Journal.{
  Call, Continues, run, run-Continues, run-closed,
}

abbrev snapshot : SourceSnapshot
snapshot = record {
  snapshot_id = "p1";
  source_id = "github";
  state = SnapshotState.collecting;
  started_at = "2026-01-01T00:00:00Z";
  completed_at = none;
  page_count = 0;
  maximum_event_time = none;
  error_detail = none;
}

abbrev issue : SnapshotEvent
issue = record {
  snapshot_id = "p1";
  event_id = "e1";
  source_id = "github";
  external_id = "issue:1";
  version_key = "v1";
  occurred_at = "2026-01-01T00:00:00Z";
  payload_json = "{}";
}

abbrev polled : Store
polled = record empty {
  checkpoints = new_checkpoint "github" "2025-12-31T00:00:00Z" ∷ [];
  snapshots = snapshot ∷ [];
  snapshot_events = issue ∷ [];
}

abbrev ending : Bool → Finish
ending complete = record {
  complete = complete;
  page_count = 1;
  maximum_event_time = some "2026-01-01T00:00:00Z";
  next_watermark = some "2026-01-01T00:00:00Z";
  query_fingerprint = none;
  etag = none;
  error = none;
}

abbrev published : Store
published = (finish_snapshot "p1" (ending true) "2026-01-01T00:01:00Z" polled).1

no_rows : AreObservedKeyed []
unfolding count
no_rows = record { by_id = λ id. omega arith; by_version = λ a b c. omega arith }

found_snapshot : select (by_snapshot "p1") polled.snapshots ≡ some snapshot
unfolding select
found_snapshot = refl

published_one : (finish_snapshot "p1" (ending true) "2026-01-01T00:01:00Z" polled).0 ≡ ok 1
unfolding finish_snapshot select count filter
published_one = refl

finish_publishes_example :
    All (λ e. exists (clashes e) published.observed ≡ true) (collected "p1" polled)
    × (count (λ (row : ObservedEvent). row.version_key == "v1") []
        ≤ count (λ row. row.version_key == "v1") published.observed)
    × (rows published.observed ≡ 1 + rows polled.observed)
    × AreObservedKeyed published.observed
    × (count (at_source "github") published.checkpoints ≡ 1)
    × (exists
          (λ c. at_source "github" c && c.watermark == "2026-01-01T00:00:00Z")
          published.checkpoints
        ≡ true)
finish_publishes_example =
    finish_publishes "p1" (ending true) "2026-01-01T00:01:00Z" polled 1 snapshot
      "2026-01-01T00:00:00Z" (λ row. row.version_key == "v1") refl refl found_snapshot published_one
      no_rows

abbrev ceo : WakeSession
ceo = record {
  session_id = "s1";
  wake_id = "w1";
  org_id = "acme";
  role = "ceo";
  policy_digest = "digest";
  workspace_aliases = [];
  issued_at = "2026-01-01T00:00:00Z";
  expires_at = "2026-01-01T01:00:00Z";
  state = SessionState.active;
}

abbrev awake : Store
awake = record empty { sessions = ceo ∷ [] }

abbrev asked : BrokerRequest
asked = new_request "s1" "k1" "issue.comment" "hash" "{}" "2026-01-01T00:00:01Z"

abbrev journalled : Store
journalled = record awake { requests = asked ∷ [] }

abbrev replied : Store
replied =
    (finish_request "k1" RequestState.succeeded "{\"ok\":true}" "2026-01-01T00:00:03Z"
      (reserve_request "s1" "k1" "issue.comment" "hash" "{}" "2026-01-01T00:00:01Z" awake).1).1

reserved_now :
    (reserve_request "s1" "k1" "issue.comment" "hash" "{}" "2026-01-01T00:00:01Z" awake).0 ≡ ok none
unfolding reserve_request select
reserved_now = refl

reserve-finish-reserve_example :
    (reserve_request "s1" "k1" "issue.comment" "hash" "{}" "2026-01-01T00:00:03Z" replied
      ≡ (ok (some (answered "{\"ok\":true}")), replied))
    × (prior_request "s1" "k1" "issue.comment" "hash" replied
        ≡ (ok (some (answered "{\"ok\":true}")), replied))
reserve-finish-reserve_example =
    reserve-finish-reserve "s1" "k1" "issue.comment" "hash" "{}" "2026-01-01T00:00:01Z" awake
      RequestState.succeeded "{\"ok\":true}" "2026-01-01T00:00:03Z" reserved_now refl refl

abbrev write : ReconcileState → ReconcileOperation
write state = record (new_operation "o1" "k1" "docs/a.md" "create" "{}" "2026-01-01T00:00:00Z") {
  state = state;
}

abbrev planned : ReconcileState → Store
planned state = record empty { reconciles = write state ∷ [] }

found_write :
    (state : ReconcileState)
    → select (by_operation "o1") (planned state).reconciles ≡ some (write state)
unfolding select
found_write state = refl

abbrev calls : List Call
calls =
    Journal.applying "o1" "2026-01-01T00:00:01Z"
    ∷ Journal.finish "o1" ReconcileState.succeeded (some "{}") "2026-01-01T00:00:02Z"
    ∷ []

run-Continues_example :
    Continues "o1"
      (write ReconcileState.planned)
      (run calls (planned ReconcileState.planned)).reconciles
run-Continues_example =
    run-Continues "o1" (write ReconcileState.planned) calls (planned ReconcileState.planned)
      (found_write ReconcileState.planned)

run-closed_example :
    (d' : ReconcileOperation) × (select
        (by_operation "o1")
        (run calls (planned ReconcileState.dead_letter)).reconciles
      ≡ some d')
    × (d'.state ≡ ReconcileState.dead_letter)
run-closed_example =
    run-closed "o1" (write ReconcileState.dead_letter) calls (planned ReconcileState.dead_letter)
      (found_write ReconcileState.dead_letter) refl
