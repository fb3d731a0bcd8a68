-- ===== src/Store/Snapshots.antt =====
-- control/sjg_control/store.py: source checkpoints and snapshots. Observations are staged page by page
-- and published, with the checkpoint, only by a complete snapshot.
pub mod Publication
use scrum_jail_governance_pl.Base.{
  ℕ, ◌+◌, String, ◌==◌, Bool, true, false, not, ◌&&◌, ◌||◌, Option, none, some, List, [], ◌∷◌,
  if◌then◌else◌, eqb,
}
use scrum_jail_governance_pl.Base.Table.{select, count, update, filter, exists}
use scrum_jail_governance_pl.Store.Schema.{
  Store, SourceCheckpoint, SourceSnapshot, SnapshotState, SnapshotEvent, ObservedEvent,
  EnrichmentState,
}
use scrum_jail_governance_pl.Store.Action.{
  Action, Done, state_error, integrity_error, ◌>>=◌, ◌>>◌, pure, raise, raise_if, gets, modify,
  or_raise, immediate,
}

abbrev pub at_source : String → SourceCheckpoint → Bool
at_source source_id row = row.source_id == source_id

-- DEFAULT 300
abbrev pub new_checkpoint : String → String → SourceCheckpoint
new_checkpoint source_id watermark = record {
  source_id = source_id;
  watermark = watermark;
  overlap_seconds = 300;
  query_fingerprint = none;
  etag = none;
  last_complete_snapshot_id = none;
}

-- INSERT OR IGNORE, then the row
unfoldable pub checkpoint : String → String → Action SourceCheckpoint
checkpoint source_id initial_watermark = do
  modify (λ s.
      if exists (at_source source_id) s.checkpoints
      then s
      else record s { checkpoints = new_checkpoint source_id initial_watermark ∷ s.checkpoints })
  row ← gets (λ s. select (at_source source_id) s.checkpoints)
  or_raise row integrity_error

abbrev pub by_snapshot : String → SourceSnapshot → Bool
by_snapshot snapshot_id row = row.snapshot_id == snapshot_id

abbrev pub is_collecting : SnapshotState → Bool
is_collecting SnapshotState.collecting = true
is_collecting _ = false

unfoldable pub begin_snapshot : String → String → String → Action String
begin_snapshot source_id fresh now = do
  raise_if (← gets (λ s. exists (by_snapshot fresh) s.snapshots)) integrity_error
  modify (λ s. record s {
    snapshots =
        record {
          snapshot_id = fresh;
          source_id = source_id;
          state = SnapshotState.collecting;
          started_at = now;
          completed_at = none;
          page_count = 0;
          maximum_event_time = none;
          error_detail = none;
        }
        ∷ s.snapshots;
  })
  pure fresh

abbrev pub staged : String → String → SnapshotEvent → Bool
staged snapshot_id event_id row = row.snapshot_id == snapshot_id && row.event_id == event_id

-- `event_id` is the UUID5 of the source, the external id and the version key.
unfoldable pub stage_observation : SnapshotEvent → Action Bool
stage_observation event = do
  snapshot ←
      or_raise (← gets (λ s. select (by_snapshot event.snapshot_id) s.snapshots))
        (state_error "observation requires a collecting snapshot")
  raise_if (not (is_collecting snapshot.state))
      (state_error "observation requires a collecting snapshot")
  raise_if (not (snapshot.source_id == event.source_id))
      (state_error "observation source does not match its snapshot")
  known ← gets (λ s. exists (staged event.snapshot_id event.event_id) s.snapshot_events)
  modify (λ s. if known then s else record s { snapshot_events = event ∷ s.snapshot_events })
  pure (not known)

-- The primary key of `observed_event`, and UNIQUE(source_id, external_id, version_key).
abbrev pub clashes : SnapshotEvent → ObservedEvent → Bool
clashes event row =
    row.event_id == event.event_id
    || (row.source_id == event.source_id
        && row.external_id == event.external_id
        && row.version_key == event.version_key)

abbrev pub to_observed : SnapshotEvent → ObservedEvent
to_observed event = record {
  event_id = event.event_id;
  source_id = event.source_id;
  external_id = event.external_id;
  version_key = event.version_key;
  occurred_at = event.occurred_at;
  payload_json = event.payload_json;
  enrichment_state = EnrichmentState.pending;
}

-- INSERT OR IGNORE INTO observed_event SELECT ..., with the number of rows that it inserts.
unfoldable pub publish : List SnapshotEvent → List ObservedEvent → ℕ × List ObservedEvent
publish [] observed = (0, observed)
publish (event ∷ events) observed =
    let (published, after) = publish events observed in
    if exists (clashes event) after
    then (published, after)
    else (published + 1, to_observed event ∷ after)

-- The arguments of `finish_snapshot` beside the snapshot's id.
pub record Finish : Type 0 where
  pub complete : Bool
  pub page_count : ℕ
  pub maximum_event_time : Option String
  pub next_watermark : Option String
  pub query_fingerprint : Option String
  pub etag : Option String
  pub error : Option String

abbrev pub collected : String → Store → List SnapshotEvent
collected snapshot_id s =
    filter (λ (row : SnapshotEvent). row.snapshot_id == snapshot_id) s.snapshot_events

-- The branch of a complete snapshot.
publish_snapshot : String → String → Finish → Action ℕ
unfolding publish
publish_snapshot snapshot_id source_id finish = do
  next_watermark ←
      or_raise finish.next_watermark (state_error "complete snapshot requires a next watermark")
  (published, observed) ← gets (λ s. publish (collected snapshot_id s) s.observed)
  modify (λ s. record s { observed = observed })
  rows ← gets (λ s. count (at_source source_id) s.checkpoints)
  modify (λ s. record s {
    checkpoints =
        update (at_source source_id)
          (λ row. record row {
            watermark = next_watermark;
            query_fingerprint = finish.query_fingerprint;
            etag = finish.etag;
            last_complete_snapshot_id = some snapshot_id;
          })
          s.checkpoints;
  })
  raise_if (not (eqb rows 1)) (state_error "complete snapshot has no source checkpoint")
  pure published

unfoldable pub finish_snapshot : String → Finish → String → Action ℕ
unfolding publish_snapshot
finish_snapshot snapshot_id finish now = immediate (do
  row ←
      or_raise (← gets (λ s. select (by_snapshot snapshot_id) s.snapshots))
        (state_error "unknown source snapshot")
  raise_if (not (is_collecting row.state)) (state_error "source snapshot is already finalized")
  published ← if finish.complete then publish_snapshot snapshot_id row.source_id finish else pure 0
  modify (λ s. record s {
    snapshots =
        update (by_snapshot snapshot_id)
          (λ snapshot. record snapshot {
            state = if finish.complete then SnapshotState.complete else SnapshotState.incomplete;
            completed_at = some now;
            page_count = finish.page_count;
            maximum_event_time = finish.maximum_event_time;
            error_detail = finish.error;
          })
          s.snapshots;
  })
  pure published)
