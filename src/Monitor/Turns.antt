-- ===== src/Monitor/Turns.antt =====
-- `_apply` and `sync` of control/sjg_control/governance.py carry each governance write out at most once.
use scrum_jail_governance_pl.Base.{
  ℕ, ◌+◌, ◌≤◌, String, ◌==◌, Bool, true, false, some, List, [], ◌∷◌, ◌≡◌, refl, arith, bit, subst,
  Bool-cases, inl, inr, eq_iff,
}
use scrum_jail_governance_pl.Base.Table.{select, count}
use scrum_jail_governance_pl.Json.{Value}
use scrum_jail_governance_pl.Store.Schema.{Store, ReconcileOperation, ReconcileState}
use scrum_jail_governance_pl.Store.Action.{Result, Done, ok, err}
use scrum_jail_governance_pl.Store.Reconcile.{by_reconcile_key, reserve_reconcile}
use scrum_jail_governance_pl.Monitor.{
  Call, Attempt, answered, unreachable, invalid, broken, Action, World, Ending, ended, raised,
  crashed, source_of, kind_of, conclude, on_marked, on_reserved, apply, apply_all, add_one, sync,
}
use scrum_jail_governance_pl.Monitor.Once.{
  moved_at, IsOnce, reserve_found, reserve-Grows, mark-Grows, mark-moves, finish-Grows, carried,
}

nothing_yet :
    (s : Store) (calls : List Call) → IsOnce (record { store = s; calls = calls; turns = [] })
unfolding count
nothing_yet s calls = record { once = λ key. omega arith }

-- A first turn of a key that has moved on.
turned-IsOnce :
    (key : String) (w : World) (calls : List Call)
    → IsOnce w
    → count (λ k. k == key) w.turns ≤ 0
    → moved_at key w.store ≡ true
    → IsOnce (record w { calls = calls; turns = key ∷ w.turns })
unfolding count
turned-IsOnce key w calls o first m = record {
  once = λ key'. elim (Bool-cases (key == key')) [
    | inl same ↦
        subst (λ j. bit (key == j) + count (λ k. k == j) w.turns ≤ bit (moved_at j w.store))
          ((eq_iff key key').0 same) (ground (arith, first, m))
    | inr different ↦ ground (arith, different, o.once key')
  ];
}

module _ (api : List Call → Call → Attempt Value) (key_of precondition_of : Action → ℕ → String)
    (result_of : Action → ℕ → Value → String) (error_of : String → String) where
  conclude-IsOnce :
      (action : Action) (queue : ℕ) (row : ReconcileOperation) (now : String) (w : World)
      (attempt : Attempt Value)
      → IsOnce w
      → IsOnce
          (conclude api key_of precondition_of result_of error_of action queue row now w attempt).1
  unfolding conclude
  conclude-IsOnce action queue row now w (answered value) o =
      carried w _ (finish-Grows row.operation_id _ _ now w.store) o
  conclude-IsOnce action queue row now w (unreachable why) o =
      carried w _ (finish-Grows row.operation_id _ _ now w.store) o
  conclude-IsOnce action queue row now w (invalid why) o =
      carried w _ (finish-Grows row.operation_id _ _ now w.store) o
  conclude-IsOnce action queue row now w broken o = o

  marked-IsOnce :
      (action : Action) (queue : ℕ) (row : ReconcileOperation) (now : String) (w : World)
      (marked : Result Done)
      → IsOnce w
      → count (λ k. k == key_of action queue) w.turns ≤ 0
      → moved_at (key_of action queue) w.store ≡ true
      → IsOnce
          (on_marked api key_of precondition_of result_of error_of action queue row now w marked).1
  unfolding on_marked
  marked-IsOnce action queue row now w (err error) o first m = o
  marked-IsOnce action queue row now w (ok done) o first m =
      conclude-IsOnce action queue row now _ _ (turned-IsOnce (key_of action queue) w _ o first m)

  planned-IsOnce :
      (action : Action) (queue : ℕ) (now : String) (w : World) (row : ReconcileOperation)
      (state : ReconcileState)
      → select (by_reconcile_key (key_of action queue)) w.store.reconciles ≡ some row
      → row.state ≡ state
      → IsOnce w
      → IsOnce
          (on_reserved api key_of precondition_of result_of error_of action queue now w
            (ok (record row { state = state }))).1
  unfolding on_reserved
  planned-IsOnce action queue now w row ReconcileState.planned found p o =
      marked-IsOnce action queue (record row { state = ReconcileState.planned }) now _ _
        (carried w _ (mark-Grows row.operation_id now w.store) o)
        (ground (arith, o.once (key_of action queue), found, p))
        (mark-moves (key_of action queue) now w.store row found p)
  planned-IsOnce action queue now w row ReconcileState.applying found p o = o
  planned-IsOnce action queue now w row ReconcileState.verify_pending found p o = o
  planned-IsOnce action queue now w row ReconcileState.succeeded found p o = o
  planned-IsOnce action queue now w row ReconcileState.dead_letter found p o = o

  reserved-IsOnce :
      (action : Action) (queue : ℕ) (fresh now : String) (w : World)
      (answer : Result ReconcileOperation)
      → let out =
          reserve_reconcile
            (key_of action queue)
            (source_of action)
            (kind_of action)
            (precondition_of action queue)
            fresh
            now
            w.store in
        out.0 ≡ answer
        → IsOnce (record w { store = out.1 })
        → IsOnce
            (on_reserved api key_of precondition_of result_of error_of action queue now
              (record w { store = out.1 })
              answer).1
  unfolding on_reserved
  reserved-IsOnce action queue fresh now w (err error) e o = o
  reserved-IsOnce action queue fresh now w (ok row) e o =
      planned-IsOnce action queue now _ row row.state
        (reserve_found (key_of action queue) (source_of action) (kind_of action)
          (precondition_of action queue) fresh now w.store row e)
        refl o

  pub apply-IsOnce :
      (action : Action) (queue : ℕ) (fresh now : String) (w : World)
      → IsOnce w
      → IsOnce (apply api key_of precondition_of result_of error_of action queue fresh now w).1
  unfolding apply
  apply-IsOnce action queue fresh now w o = reserved-IsOnce action queue fresh now w _ refl (
      carried w _
        (reserve-Grows (key_of action queue) (source_of action) (kind_of action)
          (precondition_of action queue) fresh now w.store)
        o)

  all-IsOnce :
      (actions : List (Action × String × String)) (queue : ℕ) (counts : List (String × ℕ))
      (w : World)
      → IsOnce w
      → IsOnce (apply_all api key_of precondition_of result_of error_of actions queue counts w).1
  unfolding apply_all
  all-IsOnce [] queue counts w o = o
  all-IsOnce ((action, fresh, now) ∷ rest) queue counts w o =
      goes (apply api key_of precondition_of result_of error_of action queue fresh now w)
        (apply-IsOnce action queue fresh now w o) (λ counts w'. all-IsOnce rest queue counts w')
    where
      goes :
          (out : Ending × World)
          → IsOnce out.1
          → ((counts : List (String × ℕ)) (w' : World)
              → IsOnce w'
              → IsOnce
                  (apply_all api key_of precondition_of result_of error_of rest queue counts w').1)
          → IsOnce
              (elim out.0 as (λ x. (Ending × List (String × ℕ)) × World) [
                | ended state ↦
                    apply_all api key_of precondition_of result_of error_of rest queue
                      (add_one api key_of precondition_of result_of error_of state counts)
                      out.1
                | halted ↦ ((halted, counts), out.1)
              ]).1
      goes (ended state, w') o' onward = onward _ w' o'
      goes (raised error, w') o' onward = o'
      goes (crashed, w') o' onward = o'

  sync-IsOnce :
      (conflicts : List String) (actions : List (Action × String × String)) (queue : ℕ) (w : World)
      → IsOnce w
      → IsOnce (sync api key_of precondition_of result_of error_of conflicts actions queue w).1
  unfolding sync
  sync-IsOnce [] actions queue w o = all-IsOnce actions queue [] w o
  sync-IsOnce (conflict ∷ conflicts) actions queue w o = o

  -- Runs of `sync` one after the other, each on a snapshot.
  unfoldable pub sync_all : List (List String × List (Action × String × String) × ℕ) → World → World
  unfolding sync
  sync_all [] w = w
  sync_all ((conflicts, actions, queue) ∷ rest) w =
      sync_all rest (sync api key_of precondition_of result_of error_of conflicts actions queue w).1

  runs-IsOnce :
      (runs : List (List String × List (Action × String × String) × ℕ)) (w : World)
      → IsOnce w
      → IsOnce (sync_all runs w)
  unfolding sync_all
  runs-IsOnce [] w o = o
  runs-IsOnce ((conflicts, actions, queue) ∷ rest) w o =
      runs-IsOnce rest _ (sync-IsOnce conflicts actions queue w o)

  -- Whatever runs of `sync` follow each other, on whatever database and whatever the backend
  -- answers, the calls of a governance write are carried out at most once under any key.
  pub synced_once :
      (runs : List (List String × List (Action × String × String) × ℕ)) (s : Store)
      (calls : List Call) (key : String)
      → count
          (λ k. k == key)
          (sync_all runs (record { store = s; calls = calls; turns = [] })).turns
        ≤ 1
  synced_once runs s calls key =
      capped (moved_at key (sync_all runs (record { store = s; calls = calls; turns = [] })).store)
        ((runs-IsOnce runs _ (nothing_yet s calls)).once key)
    where
      capped :
          (b : Bool)
          → count
              (λ k. k == key)
              (sync_all runs (record { store = s; calls = calls; turns = [] })).turns
            ≤ bit b
          → count
              (λ k. k == key)
              (sync_all runs (record { store = s; calls = calls; turns = [] })).turns
            ≤ 1
      capped true h = h
      capped false h = omega arith
