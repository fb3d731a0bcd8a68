-- ===== src/Store/Reconcile.antt =====
-- control/sjg_control/store.py: the journal of governance writes. `precondition` and `result` are the
-- texts that `json.dumps` returns.
pub mod Journal
use scrum_jail_governance_pl.Base.{
  ℕ, String, ◌==◌, Bool, true, false, not, ◌&&◌, ◌||◌, Option, none, some, List, [], ◌∷◌, eqb,
}
use scrum_jail_governance_pl.Base.Table.{select, count, update, exists}
use scrum_jail_governance_pl.Store.Schema.{Store, ReconcileOperation, ReconcileState}
use scrum_jail_governance_pl.Store.Action.{
  Action, Done, state_error, integrity_error, ◌>>=◌, ◌>>◌, pure, raise, raise_if, gets, modify,
  or_raise, immediate,
}

abbrev pub by_reconcile_key : String → ReconcileOperation → Bool
by_reconcile_key key row = row.idempotency_key == key

abbrev pub by_operation : String → ReconcileOperation → Bool
by_operation operation_id row = row.operation_id == operation_id

abbrev pub is_supported : String → Bool
is_supported operation = operation == "create" || operation == "move" || operation == "close"

abbrev pub new_operation : String → String → String → String → String → String → ReconcileOperation
new_operation operation_id idempotency_key source_key operation precondition now = record {
  operation_id = operation_id;
  idempotency_key = idempotency_key;
  source_key = source_key;
  operation = operation;
  precondition_json = precondition;
  state = ReconcileState.planned;
  external_result_json = none;
  created_at = now;
  updated_at = now;
}

abbrev pub same_operation : String → String → String → ReconcileOperation → Bool
same_operation source_key operation precondition row =
    row.source_key == source_key
    && row.operation == operation
    && row.precondition_json == precondition

unfoldable pub reserve_reconcile :
    String → String → String → String → String → String → Action ReconcileOperation
reserve_reconcile idempotency_key source_key operation precondition fresh now = do
  raise_if (not (is_supported operation)) (state_error "unsupported reconciliation operation")
  immediate (do
    existing ← gets (λ s. select (by_reconcile_key idempotency_key) s.reconciles)
    elim existing [
      | some row ↦ do
        raise_if (not (same_operation source_key operation precondition row))
            (state_error "reconciliation idempotency key was reused")
        pure row
      | none ↦ do
        raise_if (← gets (λ s. exists (by_operation fresh) s.reconciles)) integrity_error
        modify (λ s. record s {
          reconciles =
              new_operation fresh idempotency_key source_key operation precondition now
              ∷ s.reconciles;
        })
        pure (new_operation fresh idempotency_key source_key operation precondition now)
    ])

abbrev is_planned : ReconcileState → Bool
is_planned ReconcileState.planned = true
is_planned _ = false

abbrev pub planned_operation : String → ReconcileOperation → Bool
planned_operation operation_id row = by_operation operation_id row && is_planned row.state

unfoldable pub mark_reconcile_applying : String → String → Action Done
mark_reconcile_applying operation_id now = do
  rows ← gets (λ s. count (planned_operation operation_id) s.reconciles)
  modify (λ s. record s {
    reconciles =
        update (planned_operation operation_id)
          (λ row. record row { state = ReconcileState.applying; updated_at = now }) s.reconciles;
  })
  raise_if (not (eqb rows 1)) (state_error "reconciliation operation is not applicable")

-- state in {"verify_pending", "succeeded", "dead_letter"}
abbrev pub is_terminal_reconcile : ReconcileState → Bool
is_terminal_reconcile ReconcileState.planned = false
is_terminal_reconcile ReconcileState.applying = false
is_terminal_reconcile _ = true

-- The table `allowed`.
abbrev pub may_become : ReconcileState → ReconcileState → Bool
may_become ReconcileState.applying ReconcileState.verify_pending = true
may_become ReconcileState.applying ReconcileState.succeeded = true
may_become ReconcileState.applying ReconcileState.dead_letter = true
may_become ReconcileState.verify_pending ReconcileState.succeeded = true
may_become ReconcileState.verify_pending ReconcileState.dead_letter = true
may_become _ _ = false

abbrev pub same_reconcile_state : ReconcileState → ReconcileState → Bool
same_reconcile_state ReconcileState.planned ReconcileState.planned = true
same_reconcile_state ReconcileState.applying ReconcileState.applying = true
same_reconcile_state ReconcileState.verify_pending ReconcileState.verify_pending = true
same_reconcile_state ReconcileState.succeeded ReconcileState.succeeded = true
same_reconcile_state ReconcileState.dead_letter ReconcileState.dead_letter = true
same_reconcile_state _ _ = false

unfoldable pub finish_reconcile : String → ReconcileState → Option String → String → Action Done
finish_reconcile operation_id state result now = do
  raise_if (not (is_terminal_reconcile state)) (state_error "invalid reconciliation terminal state")
  immediate (do
    row ←
        or_raise (← gets (λ s. select (by_operation operation_id) s.reconciles))
          (state_error "reconciliation operation cannot transition from its current state")
    raise_if (not (may_become row.state state))
        (state_error "reconciliation operation cannot transition from its current state")
    modify (λ s. record s {
      reconciles =
          update (λ d. by_operation operation_id d && same_reconcile_state d.state row.state)
            (λ d. record d { state = state; external_result_json = result; updated_at = now })
            s.reconciles;
    }))
