-- ===== src/Monitor/Once.antt =====
-- Governance writes of control/sjg_control/governance.py are carried out once: the journal of
-- control/sjg_control/store.py has moved on before the backend is called.
use scrum_jail_governance_pl.Base.{
  ◌≤◌, String, ◌==◌, Bool, true, false, not, Option, none, some, ◌∷◌, ◌≡◌, refl, arith, bit, ap,
  ◌∙◌, sym, subst, Option-cases, Bool-cases, inl, inr, ◌⊎◌, eq_iff, eq_refl,
}
use scrum_jail_governance_pl.Base.Table.{select, count, update}
use scrum_jail_governance_pl.Base.Table.Laws.{map_option, changed, select-update}
use scrum_jail_governance_pl.Store.Schema.{Store, ReconcileOperation, ReconcileState}
use scrum_jail_governance_pl.Store.Action.{ok}
use scrum_jail_governance_pl.Store.Reconcile.{
  by_reconcile_key, new_operation, reserve_reconcile, planned_operation, mark_reconcile_applying,
  finish_reconcile, may_become,
}
use scrum_jail_governance_pl.Store.Reconcile.Journal.{
  applying_effect, finish_effect, finish_missing, closed, look,
}
use scrum_jail_governance_pl.Monitor.{World}

abbrev was_planned : ReconcileState → Bool
was_planned ReconcileState.planned = true
was_planned _ = false

-- The journal has the key, and its write is no more planned.
abbrev pub moved : Option ReconcileOperation → Bool
moved none = false
moved (some row) = not (was_planned row.state)

abbrev pub moved_at : String → Store → Bool
moved_at key s = moved (select (by_reconcile_key key) s.reconciles)

-- Every key that was carried out has moved on, and was so once.
pub record IsOnce (w : World) : Type 0 where
  pub once : (key : String) → count (λ k. k == key) w.turns ≤ bit (moved_at key w.store)

-- What a call of the journal leaves of the keys that have moved on: at least those.
pub record Grows (s s' : Store) : Type 0 where
  pub grows : (key : String) → bit (moved_at key s) ≤ bit (moved_at key s')

Grows-same : (s s' : Store) → s'.reconciles ≡ s.reconciles → Grows s s'
Grows-same s s' e = record {
  grows = λ key.
      subst (λ xs. bit (moved_at key s) ≤ bit (moved (select (by_reconcile_key key) xs))) (sym e)
        (omega arith);
}

-- An UPDATE that keeps the keys, and plans nothing.
Grows-update :
    (s s' : Store) (q : ReconcileOperation → Bool) (f : ReconcileOperation → ReconcileOperation)
    → s'.reconciles ≡ update q f s.reconciles
    → ((x : ReconcileOperation) → (f x).idempotency_key ≡ x.idempotency_key)
    → ((x : ReconcileOperation) → was_planned (f x).state ≡ false)
    → Grows s s'
Grows-update s s' q f e keeps plans = record {
  grows = λ key.
      subst (λ xs. bit (moved_at key s) ≤ bit (moved (select (by_reconcile_key key) xs))) (sym e)
        (subst (λ o. bit (moved_at key s) ≤ bit (moved o))
          (sym (
            select-update (by_reconcile_key key) q f s.reconciles
              (λ x h. ap (λ k. k == key) (keeps x))))
          (moves (select (by_reconcile_key key) s.reconciles)));
}
  where
    moves :
        (o : Option ReconcileOperation) → bit (moved o) ≤ bit (moved (map_option (changed q f) o))
    moves none = omega arith
    moves (some x) = ground (arith, plans x)

reserve_new :
    (key source_key operation precondition fresh now : String) (s : Store)
    → let s' = (reserve_reconcile key source_key operation precondition fresh now s).1 in
      (s'.reconciles ≡ s.reconciles)
      ⊎ ((s'.reconciles
            ≡ new_operation fresh key source_key operation precondition now ∷ s.reconciles)
          × (select (by_reconcile_key key) s.reconciles ≡ none))
unfolding reserve_reconcile
reserve_new key source_key operation precondition fresh now s = ground arith

pub reserve_found :
    (key source_key operation precondition fresh now : String) (s : Store)
    (row : ReconcileOperation)
    → let out = reserve_reconcile key source_key operation precondition fresh now s in
      out.0 ≡ ok row → select (by_reconcile_key key) out.1.reconciles ≡ some row
unfolding reserve_reconcile select
reserve_found key source_key operation precondition fresh now s row e =
    ground (arith, e, eq_refl key)

added-Grows :
    (s s' : Store) (row : ReconcileOperation)
    → s'.reconciles ≡ row ∷ s.reconciles
    → select (by_reconcile_key row.idempotency_key) s.reconciles ≡ none
    → Grows s s'
unfolding select
added-Grows s s' row e absent = record {
  grows = λ key.
      subst (λ xs. bit (moved_at key s) ≤ bit (moved (select (by_reconcile_key key) xs))) (sym e)
        (elim (Bool-cases (row.idempotency_key == key)) [
          | inl same ↦
              subst
                (λ k.
                  bit (moved_at k s)
                  ≤ bit (moved (select (by_reconcile_key k) (row ∷ s.reconciles))))
                ((eq_iff row.idempotency_key key).0 same) (ground (arith, absent))
          | inr different ↦ ground (arith, different)
        ]);
}

pub reserve-Grows :
    (key source_key operation precondition fresh now : String) (s : Store)
    → Grows s (reserve_reconcile key source_key operation precondition fresh now s).1
reserve-Grows key source_key operation precondition fresh now s =
    elim (reserve_new key source_key operation precondition fresh now s) [
      | inl same ↦ Grows-same s _ same
      | inr (added, absent) ↦
          added-Grows s _ (new_operation fresh key source_key operation precondition now) added
            absent
    ]

pub mark-Grows : (id now : String) (s : Store) → Grows s (mark_reconcile_applying id now s).1
mark-Grows id now s =
    Grows-update s _ (planned_operation id) _ (applying_effect id now s) (λ x. refl) (λ x. refl)

-- A write that is marked has moved on.
pub mark-moves :
    (key now : String) (s : Store) (row : ReconcileOperation)
    → select (by_reconcile_key key) s.reconciles ≡ some row
    → row.state ≡ ReconcileState.planned
    → moved_at key (mark_reconcile_applying row.operation_id now s).1 ≡ true
mark-moves key now s row found p =
    ap (λ xs. moved (select (by_reconcile_key key) xs)) (applying_effect row.operation_id now s)
    ∙ ap moved (
        select-update (by_reconcile_key key) (planned_operation row.operation_id) _ s.reconciles
          (λ x h. refl))
    ∙ ground (arith, found, p, eq_refl row.operation_id)

pub finish-Grows :
    (id : String) (state : ReconcileState) (result : Option String) (now : String) (s : Store)
    → Grows s (finish_reconcile id state result now s).1
finish-Grows id state result now s = elim (Option-cases (look id s)) [
  | inl gone ↦ Grows-same s _ (finish_missing id state result now s gone)
  | inr (row, found) ↦ elim (finish_effect id state result now s row found) [
    | inl same ↦ Grows-same s _ same
    | inr (allowed, done) ↦
        Grows-update s _ _ (closed state result now) done (λ x. refl)
          (λ x. is_later row.state state allowed)
  ]
]
  where
    is_later : (a b : ReconcileState) → may_become a b ≡ true → was_planned b ≡ false
    is_later a ReconcileState.planned h = ground (arith, h)
    is_later a ReconcileState.applying h = refl
    is_later a ReconcileState.verify_pending h = refl
    is_later a ReconcileState.succeeded h = refl
    is_later a ReconcileState.dead_letter h = refl

pub carried : (w : World) (s : Store) → Grows w.store s → IsOnce w → IsOnce (record w { store = s })
carried w s g o = record { once = λ key. ground (arith, o.once key, g.grows key) }
