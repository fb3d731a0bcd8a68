-- ===== src/Polling.antt =====
-- control/sjg_control/delivery.py: `poll_source` reads a source page by page, stages what it finds and
-- publishes it with the next watermark, or records an incomplete snapshot. What the source answers is
-- the sequence of its pages; the digest, the UUID and the arithmetic on times are parameters.
pub mod Withheld
use scrum_jail_governance_pl.Base.{
  ℕ, ◌+◌, String, ◌==◌, Bool, true, false, not, Option, none, some, List, [], ◌∷◌, if◌then◌else◌,
  mem, is_empty, text_ltb, ends_with,
}
use Prim.Native.String.{◌++◌}
use scrum_jail_governance_pl.Json.{Value, Arguments, get, text_or, shown}
use scrum_jail_governance_pl.Store.Schema.{Store, SourceCheckpoint, SnapshotEvent}
use scrum_jail_governance_pl.Store.Action.{
  Error, state_error, value_error, integrity_error, type_error, Action, Result, ok, err, ◌>>=◌,
  ◌>>◌, pure, raise_if, or_raise,
}
use scrum_jail_governance_pl.Store.Snapshots.{
  checkpoint, begin_snapshot, stage_observation, Finish, finish_snapshot,
}

abbrev pub source_ids : List String
source_ids =
    "org-issues" ∷ "org-comments" ∷ "product-issues" ∷ "product-comments" ∷ "product-workflow-runs"
    ∷ []

-- One observation: its fields, and the text of `json.dumps`.
pub record Item : Type 0 where
  pub fields : Arguments
  pub payload : String

-- What fetch_page does: a page with its next cursor and etag, or an exception's type and text.
pub data Answer : Type 0 where
  page : List Item → Option String → Option String → Answer
  failure : String → String → Answer

pub record PollResult : Type 0 where
  pub source_id : String
  pub complete : Bool
  pub page_count : ℕ
  pub inserted : ℕ
  pub watermark : String
  pub error : Option String

-- item[key], or KeyError
unfoldable pub require : String → Arguments → Option Value
require key [] = none
require key ((k, value) ∷ rest) =
    let found = require key rest in if k == key then some value else found

abbrev pub updated_of : Item → String
updated_of item = text_or (get "updated_at" item.fields) (text_or (get "created_at" item.fields) "")

abbrev of_run : Item → String → String → String
of_run item external updated =
    external
    ++ (":"
        ++ (text_or (get "run_attempt" item.fields) "1"
            ++ (":"
                ++ (text_or (get "status" item.fields) ""
                    ++ (":" ++ (text_or (get "conclusion" item.fields) "" ++ (":" ++ updated)))))))

abbrev identified : Option Value → (String → String) → String → Option (String × String × String)
identified none version updated = none
identified (some value) version updated = some (shown value, version (shown value), updated)

-- External id, version key and time; none is a KeyError.
unfoldable pub event_identity : String → Item → Option (String × String × String)
event_identity source_id item =
    let updated = updated_of item in
    let plain = λ (external : String). external ++ (":" ++ updated) in
    if ends_with "comments" source_id
    then identified (require "id" item.fields) plain updated
    else if ends_with "workflow-runs" source_id
    then identified (require "id" item.fields) (λ external. of_run item external updated) updated
    else identified (require "number" item.fields) plain updated

-- An exception: the name of its type, and its text.
pub record Fault : Type 0 where
  pub name : String
  pub message : String

abbrev fault_of : Error → Fault
fault_of (state_error t) = record { name = "StateError"; message = t }
fault_of (value_error t) = record { name = "ValueError"; message = t }
fault_of integrity_error = record { name = "IntegrityError"; message = "" }
fault_of type_error = record { name = "TypeError"; message = "" }

abbrev pub later : String → String → String
later a b = if text_ltb a b then b else a

-- The counters of the loop.
pub record Totals : Type 0 where
  pub pages : ℕ
  pub maximum : String
  pub etag : Option String

pub data Progress : Type 0 where
  finished waiting : Progress
  broken : Fault → Progress

abbrev pub newer_etag : Option String → Option String → Option String
newer_etag none old = old
newer_etag (some t) old = if is_empty t then old else some t

module _ (event_id : String → String → String → String) (source_id snapshot_id : String) where
  abbrev pub event_of : Item → String × String × String → SnapshotEvent
  event_of item (external, version, occurred) = record {
    snapshot_id = snapshot_id;
    event_id = event_id source_id external version;
    source_id = source_id;
    external_id = external;
    version_key = version;
    occurred_at = occurred;
    payload_json = item.payload;
  }

  abbrev no_key : String → Fault
  no_key key = record { name = "KeyError"; message = "'" ++ (key ++ "'") }

  abbrev missing_key : String
  missing_key =
      if ends_with "comments" source_id
      then "id"
      else if ends_with "workflow-runs" source_id
      then "id"
      else "number"

  abbrev no_time : Fault
  no_time = record {
    name = "ValueError";
    message = source_id ++ " event has no occurrence timestamp";
  }

  -- One turn of the loop over the items: what it raises, and the maximum.
  unfoldable pub stage_item : Item → String → Store → (Option Fault × String) × Store
  stage_item item maximum s = elim (event_identity source_id item) [
    | none ↦ ((some (no_key missing_key), maximum), s)
    | some identity ↦
        let (external, version, occurred) = identity in
        elim (is_empty occurred) [
          | true ↦ ((some no_time, maximum), s)
          | false ↦
              let (staged, s') = stage_observation (event_of item identity) s in
              elim staged [
                | err error ↦ ((some (fault_of error), later maximum occurred), s')
                | ok is_new ↦ ((none, later maximum occurred), s')
              ]
        ]
  ]

  unfoldable pub stage_items : List Item → String → Store → (Option Fault × String) × Store
  stage_items [] maximum s = ((none, maximum), s)
  stage_items (item ∷ items) maximum s =
      let (outcome, s') = stage_item item maximum s in
      let rest = stage_items items outcome.1 s' in
      elim outcome.0 [ none ↦ rest | some fault ↦ ((some fault, outcome.1), s') ]

  -- The loop over the pages.
  unfoldable pub read_pages : List Answer → Totals → Store → (Progress × Totals) × Store
  read_pages [] totals s = ((waiting, totals), s)
  read_pages (failure name message ∷ answers) totals s =
      ((broken (record { name = name; message = message }), totals), s)
  read_pages (page items next etag ∷ answers) totals s =
      let (staged, s') = stage_items items totals.maximum s in
      let totals' : Totals = record {
        pages = totals.pages + 1;
        maximum = staged.1;
        etag = newer_etag etag totals.etag;
      } in
      let rest = read_pages answers totals' s' in
      elim staged.0 [
        | some fault ↦ ((broken fault, totals'), s')
        | none ↦ elim next [ none ↦ ((finished, totals'), s') | some cursor ↦ rest ]
      ]

abbrev pub incomplete : Totals → Fault → Finish
incomplete totals fault = record {
  complete = false;
  page_count = totals.pages;
  maximum_event_time = some totals.maximum;
  next_watermark = none;
  query_fingerprint = none;
  etag = none;
  error = some (fault.name ++ (": " ++ fault.message));
}

-- `back` is the time some seconds earlier, or none for a text that is no time with its zone; the text of
-- that exception is without the watermark that it quotes.
module _ (event_id : String → String → String → String) (back : String → ℕ → Option String)
    (fingerprint : String → String → String) (source_id now : String) where
  -- The branches after the loop; nothing while a page is outstanding.
  unfoldable pub end_poll :
      SourceCheckpoint → String → Progress → Totals → Action (Option PollResult)
  end_poll row snapshot_id waiting totals = pure none
  end_poll row snapshot_id (broken fault) totals = do
    _ ← finish_snapshot snapshot_id (incomplete totals fault) now
    pure (
        some (record {
          source_id = source_id;
          complete = false;
          page_count = totals.pages;
          inserted = 0;
          watermark = row.watermark;
          error = some fault.message;
        }))
  end_poll row snapshot_id finished totals = do
    next ←
        or_raise (back totals.maximum row.overlap_seconds)
          (value_error "invalid ISO-8601 source watermark")
    published ←
        finish_snapshot snapshot_id
          (record {
            complete = true;
            page_count = totals.pages;
            maximum_event_time = some totals.maximum;
            next_watermark = some totals.maximum;
            query_fingerprint = some (fingerprint source_id next);
            etag = totals.etag;
            error = none;
          })
          now
    pure (
        some (record {
          source_id = source_id;
          complete = true;
          page_count = totals.pages;
          inserted = published;
          watermark = totals.maximum;
          error = none;
        }))

  abbrev pub start_totals : SourceCheckpoint → Totals
  start_totals row = record { pages = 0; maximum = row.watermark; etag = none }

  -- The snapshot has begun: the pages are read.
  unfoldable pub poll_pages : SourceCheckpoint → String → List Answer → Action (Option PollResult)
  poll_pages row snapshot_id answers s =
      let (outcome, s') = read_pages event_id source_id snapshot_id answers (start_totals row) s in
      end_poll row snapshot_id outcome.0 outcome.1 s'

  unfoldable pub poll_source : String → String → List Answer → Action (Option PollResult)
  poll_source initial_watermark fresh answers = do
    raise_if (not (mem source_id source_ids)) (value_error ("unknown source id: " ++ source_id))
    row ← checkpoint source_id initial_watermark
    _ ←
        or_raise (back row.watermark row.overlap_seconds)
          (value_error "invalid ISO-8601 source watermark")
    snapshot_id ← begin_snapshot source_id fresh now
    poll_pages row snapshot_id answers
