-- ===== src/Store/Schema.antt =====
-- control/sjg_control/store.py, SCHEMA: a record for each table, its CHECK constraint as a data type
-- of states. A column that holds JSON holds its text; a column that may be NULL is an Option.
use scrum_jail_governance_pl.Base.{ℤ, ℕ, String, Option, List, []}

pub data SessionState : Type 0 where
  active revoked finished expired : SessionState

pub record WakeSession : Type 0 where
  pub session_id : String
  pub wake_id : String
  pub org_id : String
  pub role : String
  pub policy_digest : String
  pub workspace_aliases : List String
  pub issued_at : String
  pub expires_at : String
  pub state : SessionState

pub data RequestState : Type 0 where
  reserved applying verify_pending succeeded failed : RequestState

pub record BrokerRequest : Type 0 where
  pub idempotency_key : String
  pub session_id : String
  pub operation : String
  pub arguments_hash : String
  pub arguments_json : String
  pub state : RequestState
  pub response_json : Option String
  pub created_at : String
  pub updated_at : String

pub data WorkerState : Type 0 where
  accepted running succeeded failed rejected : WorkerState

pub record WorkerAttempt : Type 0 where
  pub attempt_id : String
  pub session_id : String
  pub sequence : ℕ
  pub worker_type : String
  pub state : WorkerState
  pub started_at : String
  pub finished_at : Option String
  pub artifact_sha256 : Option String

pub record BudgetBucket : Type 0 where
  pub scope : String
  pub subject : String
  pub epoch : String
  pub token_limit : ℕ
  pub consumed_tokens : ℕ
  pub reserved_tokens : ℕ

pub data ReservationState : Type 0 where
  active settled released uncertain : ReservationState

pub record BudgetReservation : Type 0 where
  pub reservation_id : String
  pub session_id : String
  pub epoch : String
  pub reserved_tokens : ℕ
  pub state : ReservationState

pub record SourceCheckpoint : Type 0 where
  pub source_id : String
  pub watermark : String
  pub overlap_seconds : ℕ
  pub query_fingerprint : Option String
  pub etag : Option String
  pub last_complete_snapshot_id : Option String

pub data SnapshotState : Type 0 where
  collecting complete incomplete : SnapshotState

pub record SourceSnapshot : Type 0 where
  pub snapshot_id : String
  pub source_id : String
  pub state : SnapshotState
  pub started_at : String
  pub completed_at : Option String
  pub page_count : ℕ
  pub maximum_event_time : Option String
  pub error_detail : Option String

pub record SnapshotEvent : Type 0 where
  pub snapshot_id : String
  pub event_id : String
  pub source_id : String
  pub external_id : String
  pub version_key : String
  pub occurred_at : String
  pub payload_json : String

-- `enrichment_state` has no CHECK: the code writes these three texts.
pub data EnrichmentState : Type 0 where
  pending routed ignored : EnrichmentState

pub record ObservedEvent : Type 0 where
  pub event_id : String
  pub source_id : String
  pub external_id : String
  pub version_key : String
  pub occurred_at : String
  pub payload_json : String
  pub enrichment_state : EnrichmentState

pub data DeliveryState : Type 0 where
  queued leased running retry_wait budget_hold succeeded dead_letter uncertain : DeliveryState

pub record Delivery : Type 0 where
  pub delivery_id : String
  pub idempotency_key : String
  pub role : String
  pub state : DeliveryState
  pub attempt : ℕ
  pub eligible_at : String
  pub lease_owner : Option String
  pub lease_until : Option String
  pub last_error : Option String

pub data RouteState : Type 0 where
  pending queued leased delivered manual_review dead_letter : RouteState

pub record RouteTarget : Type 0 where
  pub event_id : String
  pub role : String
  pub state : RouteState
  pub delivery_id : Option String

pub record DeliveryEvent : Type 0 where
  pub delivery_id : String
  pub event_id : String
  pub role : String

pub data ReconcileState : Type 0 where
  planned applying verify_pending succeeded dead_letter : ReconcileState

pub record ReconcileOperation : Type 0 where
  pub operation_id : String
  pub idempotency_key : String
  pub source_key : String
  pub operation : String
  pub precondition_json : String
  pub state : ReconcileState
  pub external_result_json : Option String
  pub created_at : String
  pub updated_at : String

pub record SupervisorState : Type 0 where
  pub key : String
  pub value_json : String
  pub updated_at : String

pub data WakeState : Type 0 where
  prepared running succeeded failed uncertain terminated : WakeState

pub record WakeRuntime : Type 0 where
  pub wake_id : String
  pub session_id : String
  pub delivery_id : Option String
  pub reservation_id : String
  pub role : String
  pub reason : String
  pub socket_path : String
  pub state : WakeState
  pub started_at : String
  pub finished_at : Option String
  pub output_sha256 : Option String
  pub error_detail : Option String

pub data ProcessState : Type 0 where
  running exited terminated uncertain : ProcessState

pub record ProcessRuntime : Type 0 where
  pub process_key : String
  pub session_id : String
  pub worker_attempt_id : Option String
  pub kind : String
  pub pid : ℕ
  pub pgid : ℕ
  pub birth_token : String
  pub state : ProcessState
  pub started_at : String
  pub finished_at : Option String
  pub exit_code : Option ℤ

pub record AuditEntry : Type 0 where
  pub recorded_at : String
  pub session_id : Option String
  pub role : Option String
  pub policy_digest : Option String
  pub operation : String
  pub request_hash : Option String
  pub decision : String
  pub detail_json : String

-- The database: one field for each table.
pub record Store : Type 0 where
  pub sessions : List WakeSession
  pub requests : List BrokerRequest
  pub workers : List WorkerAttempt
  pub buckets : List BudgetBucket
  pub reservations : List BudgetReservation
  pub checkpoints : List SourceCheckpoint
  pub snapshots : List SourceSnapshot
  pub snapshot_events : List SnapshotEvent
  pub observed : List ObservedEvent
  pub deliveries : List Delivery
  pub routes : List RouteTarget
  pub delivery_events : List DeliveryEvent
  pub reconciles : List ReconcileOperation
  pub supervisor : List SupervisorState
  pub wakes : List WakeRuntime
  pub processes : List ProcessRuntime
  pub audits : List AuditEntry

-- A new database file.
abbrev pub empty : Store
empty = record {
  sessions = [];
  requests = [];
  workers = [];
  buckets = [];
  reservations = [];
  checkpoints = [];
  snapshots = [];
  snapshot_events = [];
  observed = [];
  deliveries = [];
  routes = [];
  delivery_events = [];
  reconciles = [];
  supervisor = [];
  wakes = [];
  processes = [];
  audits = [];
}
