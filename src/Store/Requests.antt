-- ===== src/Store/Requests.antt =====
-- control/sjg_control/store.py: the journal of broker requests. `json.dumps` of the arguments and of
-- the response stands at the boundary: a request is journalled by the texts that it returns.
pub mod Replay
use scrum_jail_governance_pl.Base.{
  ℕ, ◌+◌, String, ◌==◌, Bool, true, false, not, ◌&&◌, ◌||◌, Option, none, some, List, [], ◌∷◌,
  if◌then◌else◌, leb, eqb, mem, is_empty,
}
use scrum_jail_governance_pl.Base.Table.{select, count, update, delete, exists}
use scrum_jail_governance_pl.Store.Schema.{
  Store, BrokerRequest, RequestState, WakeSession, AuditEntry,
}
use scrum_jail_governance_pl.Session.{Session}
use scrum_jail_governance_pl.Store.Action.{
  Action, Done, state_error, integrity_error, ◌>>=◌, ◌>>◌, pure, raise, raise_if, gets, modify,
  immediate,
}
use scrum_jail_governance_pl.Store.Sessions.{by_session_id}

abbrev pub by_key : String → BrokerRequest → Bool
by_key key row = row.idempotency_key == key

-- What an earlier request under the same key answers: its response, or that it is still open.
pub data Prior : Type 0 where
  answered : String → Prior
  in_progress : Prior

abbrev pub prior_of : BrokerRequest → Prior
prior_of row = elim row.response_json [
  | none ↦ in_progress
  | some text ↦ if is_empty text then in_progress else answered text
]

abbrev pub new_request : String → String → String → String → String → String → BrokerRequest
new_request session_id key operation arguments_hash canonical_arguments now = record {
  idempotency_key = key;
  session_id = session_id;
  operation = operation;
  arguments_hash = arguments_hash;
  arguments_json = canonical_arguments;
  state = RequestState.reserved;
  response_json = none;
  created_at = now;
  updated_at = now;
}

-- The comparison of `reserve_request`.
abbrev pub same_request : String → String → String → String → BrokerRequest → Bool
same_request session_id operation arguments_hash canonical_arguments row =
    row.session_id == session_id
    && row.operation == operation
    && row.arguments_hash == arguments_hash
    && row.arguments_json == canonical_arguments

insert_request : BrokerRequest → Action Done
insert_request row = do
  raise_if (not (← gets (λ s. exists (by_session_id row.session_id) s.sessions))) integrity_error
  modify (λ s. record s { requests = row ∷ s.requests })

unfoldable pub reserve_request :
    String → String → String → String → String → String → Action (Option Prior)
unfolding insert_request
reserve_request session_id key operation arguments_hash canonical_arguments now = immediate (do
  existing ← gets (λ s. select (by_key key) s.requests)
  elim existing [
    | some row ↦ do
      raise_if (not (same_request session_id operation arguments_hash canonical_arguments row))
          (state_error "idempotency key reused with different request")
      pure (some (prior_of row))
    | none ↦ do
      insert_request (new_request session_id key operation arguments_hash canonical_arguments now)
      pure none
  ])

unfoldable pub prior_request : String → String → String → String → Action (Option Prior)
prior_request session_id key operation arguments_hash = do
  existing ← gets (λ s. select (by_key key) s.requests)
  elim existing [
    | none ↦ pure none
    | some row ↦ do
      raise_if
          (not (
            row.session_id == session_id
            && row.operation == operation
            && row.arguments_hash == arguments_hash))
          (state_error "idempotency key reused with different request")
      pure (some (prior_of row))
  ]

abbrev is_reserved : RequestState → Bool
is_reserved RequestState.reserved = true
is_reserved _ = false

abbrev pub reserved_key : String → BrokerRequest → Bool
reserved_key key row = by_key key row && is_reserved row.state

unfoldable pub mark_request_applying : String → String → Action Done
mark_request_applying key now = do
  rows ← gets (λ s. count (reserved_key key) s.requests)
  modify (λ s. record s {
    requests =
        update (reserved_key key)
          (λ row. record row { state = RequestState.applying; updated_at = now }) s.requests;
  })
  raise_if (not (eqb rows 1)) (state_error "request is not reserved")

-- The operations that the DELETE names.
abbrev pub forgettable : List String
forgettable =
    "read.issue.get" ∷ "read.issue.list" ∷ "read.issue.children" ∷ "read.issue.comments"
    ∷ "read.pr.get" ∷ "read.pr.list" ∷ "read.pr.files" ∷ "read.pr.checks" ∷ "read.workflow.runs"
    ∷ "repo.status" ∷ []

abbrev pub forgettable_key : String → BrokerRequest → Bool
forgettable_key key row = by_key key row && mem row.operation forgettable

unfoldable pub abandon_read_request : String → Action Done
abandon_read_request key = do
  rows ← gets (λ s. count (forgettable_key key) s.requests)
  modify (λ s. record s { requests = delete (forgettable_key key) s.requests })
  raise_if (not (leb rows 1)) (state_error "unexpected read-request cleanup result")

-- state in {"succeeded", "failed", "verify_pending"}
abbrev pub is_terminal_request : RequestState → Bool
is_terminal_request RequestState.succeeded = true
is_terminal_request RequestState.failed = true
is_terminal_request RequestState.verify_pending = true
is_terminal_request _ = false

abbrev request_state_text : RequestState → String
request_state_text RequestState.reserved = "invalid request terminal state: reserved"
request_state_text _ = "invalid request terminal state: applying"

unfoldable pub finish_request : String → RequestState → String → String → Action Done
finish_request key state response now = do
  raise_if (not (is_terminal_request state)) (state_error (request_state_text state))
  modify (λ s. record s {
    requests =
        update (by_key key)
          (λ row. record row { state = state; response_json = some response; updated_at = now })
          s.requests;
  })

abbrev session_part : (Session → String) → Option Session → Option String
session_part f none = none
session_part f (some session) = some (f session)

unfoldable pub audit :
    Option Session → String → String → String → Option String → String → Action Done
audit session operation decision detail request_hash now = modify (λ s. record s {
  audits =
      record {
        recorded_at = now;
        session_id = session_part (λ a. a.session_id) session;
        role = session_part (λ a. a.role) session;
        policy_digest = session_part (λ a. a.policy_digest) session;
        operation = operation;
        request_hash = request_hash;
        decision = decision;
        detail_json = detail;
      }
      ∷ s.audits;
})
