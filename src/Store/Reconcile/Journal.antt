-- ===== src/Store/Reconcile/Journal.antt =====
-- The journal of governance writes of control/sjg_control/store.py through any sequence of its calls.
use scrum_jail_governance_pl.Base.{
  String, ◌==◌, Bool, true, false, ◌&&◌, ◌≡◌, refl, Option, none, some, List, [], ◌∷◌, arith,
  Option-cases, Bool-cases, inl, inr, ◌⊎◌, eq_iff, eq_join_left, if◌then◌else◌, ap, ◌∙◌, sym, subst,
}
use scrum_jail_governance_pl.Base.Table.{select, update, exists}
use scrum_jail_governance_pl.Base.Table.Laws.{map_option, changed, select-update, select_sound}
use scrum_jail_governance_pl.Store.Schema.{Store, ReconcileOperation, ReconcileState}
use scrum_jail_governance_pl.Store.Action.{Result}
use scrum_jail_governance_pl.Store.Reconcile.{
  by_operation, new_operation, reserve_reconcile, planned_operation, mark_reconcile_applying,
  may_become, same_reconcile_state, finish_reconcile,
}

pub data Call : Type 0 where
  reserve : String → String → String → String → String → String → Call
  applying : String → String → Call
  finish : String → ReconcileState → Option String → String → Call

abbrev after : {A : Type 0} → Result A × Store → Store
after out = out.1

-- One call, its exception swallowed.
unfoldable pub perform : Call → Store → Store
perform (reserve key source_key operation precondition fresh now) s =
    after (reserve_reconcile key source_key operation precondition fresh now s)
perform (applying operation_id now) s = after (mark_reconcile_applying operation_id now s)
perform (finish operation_id state result now) s =
    after (finish_reconcile operation_id state result now s)

unfoldable pub run : List Call → Store → Store
run [] s = s
run (c ∷ cs) s = run cs (perform c s)

-- How a governance write may go on.
pub data Goes : ReconcileState → ReconcileState → Type 0 where
  stay : {a : ReconcileState} → Goes a a
  apply : Goes ReconcileState.planned ReconcileState.applying
  close : {a b : ReconcileState} → may_become a b ≡ true → Goes a b
  onward : {a b c : ReconcileState} → Goes a b → Goes b c → Goes a c

-- The operation that it was, further on.
pub record IsLater (d d' : ReconcileOperation) : Type 0 where
  pub same_key : d'.idempotency_key ≡ d.idempotency_key
  pub same_source : d'.source_key ≡ d.source_key
  pub same_kind : d'.operation ≡ d.operation
  pub same_precondition : d'.precondition_json ≡ d.precondition_json
  pub goes : Goes d.state d'.state

abbrev pub look : String → Store → Option ReconcileOperation
look id s = select (by_operation id) s.reconciles

later : (d : ReconcileOperation) → IsLater d d
later d = record {
  same_key = refl;
  same_source = refl;
  same_kind = refl;
  same_precondition = refl;
  goes = stay;
}

IsLater-trans : {d e f : ReconcileOperation} → IsLater d e → IsLater e f → IsLater d f
IsLater-trans p q = record {
  same_key = q.same_key ∙ p.same_key;
  same_source = q.same_source ∙ p.same_source;
  same_kind = q.same_kind ∙ p.same_kind;
  same_precondition = q.same_precondition ∙ p.same_precondition;
  goes = onward p.goes q.goes;
}

-- The operation `d` of this id is, in the table `xs`, found further on.
pub record Continues (id : String) (d : ReconcileOperation) (xs : List ReconcileOperation)
    : Type 0 where
  pub became : ReconcileOperation
  pub found : select (by_operation id) xs ≡ some became
  pub is_later : IsLater d became

module _ (id : String) (d : ReconcileOperation) where
  stays :
      {xs xs' : List ReconcileOperation}
      → xs' ≡ xs
      → select (by_operation id) xs ≡ some d
      → Continues id d xs'
  stays e l = record { became = d; found = ap (select (by_operation id)) e ∙ l; is_later = later d }

  moves :
      (xs : List ReconcileOperation) {xs' : List ReconcileOperation} (q : ReconcileOperation → Bool)
      (f : ReconcileOperation → ReconcileOperation)
      → xs' ≡ update q f xs
      → ((x : ReconcileOperation) → (f x).operation_id ≡ x.operation_id)
      → select (by_operation id) xs ≡ some d
      → (q d ≡ true → IsLater d (f d))
      → Continues id d xs'
  moves xs q f e same l step = record {
    became = changed q f d;
    found =
        ap (select (by_operation id)) e
        ∙ select-update (by_operation id) q f xs (λ x h. ap (λ j. j == id) (same x))
        ∙ ap (map_option (changed q f)) l;
    is_later = go (q d) refl;
  }
    where
      go : (b : Bool) → q d ≡ b → IsLater d (if b then f d else d)
      go true h = step h
      go false h = later d

pub reserve_effect :
    (key source_key operation precondition fresh now : String) (s : Store)
    → let s' = (reserve_reconcile key source_key operation precondition fresh now s).1 in
      (s'.reconciles ≡ s.reconciles)
      ⊎ ((s'.reconciles
            ≡ new_operation fresh key source_key operation precondition now ∷ s.reconciles)
          × (exists (by_operation fresh) s.reconciles ≡ false))
unfolding reserve_reconcile
reserve_effect key source_key operation precondition fresh now s = ground arith

pub applying_effect :
    (k now : String) (s : Store)
    → let s' = (mark_reconcile_applying k now s).1 in
      s'.reconciles
      ≡ update
          (planned_operation k)
          (λ row. record row { state = ReconcileState.applying; updated_at = now })
          s.reconciles
unfolding mark_reconcile_applying
applying_effect k now s = ground arith

abbrev pub closed :
    ReconcileState → Option String → String → ReconcileOperation → ReconcileOperation
closed state result now d = record d {
  state = state;
  external_result_json = result;
  updated_at = now;
}

pub finish_effect :
    (k : String) (state : ReconcileState) (result : Option String) (now : String) (s : Store)
    (row : ReconcileOperation)
    → look k s ≡ some row
    → let s' = (finish_reconcile k state result now s).1 in
      (s'.reconciles ≡ s.reconciles)
      ⊎ ((may_become row.state state ≡ true)
          × (s'.reconciles
              ≡ update
                  (λ d. by_operation k d && same_reconcile_state d.state row.state)
                  (closed state result now)
                  s.reconciles))
unfolding finish_reconcile
finish_effect k state result now s row found = ground arith

pub finish_missing :
    (k : String) (state : ReconcileState) (result : Option String) (now : String) (s : Store)
    → look k s ≡ none
    → (finish_reconcile k state result now s).1.reconciles ≡ s.reconciles
unfolding finish_reconcile
finish_missing k state result now s gone = ground arith

-- The operation that is found under an id that it has is itself.
same_row :
    (id k : String) (s : Store) (d row : ReconcileOperation)
    → look id s ≡ some d
    → look k s ≡ some row
    → by_operation k d ≡ true
    → row ≡ d
same_row id k s d row l l' h = ground (
  arith,
  ap (λ j. look j s)
      ((eq_iff id k).0
        (eq_join_left d.operation_id id k (select_sound (by_operation id) s.reconciles l) h)),
)

finish-Continues :
    (id : String) (d : ReconcileOperation) (k : String) (state : ReconcileState)
    (result : Option String) (now : String) (s : Store)
    → look id s ≡ some d
    → Continues id d (finish_reconcile k state result now s).1.reconciles
finish-Continues id d k state result now s l = elim (Option-cases (look k s)) [
  | inl gone ↦ stays id d (finish_missing k state result now s gone) l
  | inr (row, found) ↦ elim (finish_effect k state result now s row found) [
    | inl same ↦ stays id d same l
    | inr (allowed, done) ↦
        moves id d s.reconciles _ (closed state result now) done (λ x. refl) l
          (λ h. record {
            same_key = refl;
            same_source = refl;
            same_kind = refl;
            same_precondition = refl;
            goes = close (
                subst (λ r. may_become r.state state ≡ true)
                  (same_row id k s d row l found (ground arith)) allowed);
          })
  ]
]

reserve-Continues :
    (id : String) (d : ReconcileOperation)
    (key source_key operation precondition fresh now : String) (s : Store)
    → look id s ≡ some d
    → Continues id d
        (reserve_reconcile key source_key operation precondition fresh now s).1.reconciles
unfolding select
reserve-Continues id d key source_key operation precondition fresh now s l =
    elim (reserve_effect key source_key operation precondition fresh now s) [
      | inl same ↦ stays id d same l
      | inr (done, absent) ↦ elim (Bool-cases (fresh == id)) [
        | inl clash ↦ absurd (
            taken absent (
              subst (λ j. exists (by_operation j) s.reconciles ≡ true)
                (sym ((eq_iff fresh id).0 clash)) (ground arith)))
        | inr other ↦ record {
          became = d;
          found = ap (select (by_operation id)) done ∙ ground arith;
          is_later = later d;
        }
      ]
    ]
  where
    taken :
        exists (by_operation fresh) s.reconciles ≡ false
        → exists (by_operation fresh) s.reconciles ≡ true
        → ⊥
    taken p q = cc

perform-Continues :
    (id : String) (d : ReconcileOperation) (c : Call) (s : Store)
    → look id s ≡ some d
    → Continues id d (perform c s).reconciles
unfolding perform
perform-Continues id d (reserve key source_key operation precondition fresh now) s l =
    reserve-Continues id d key source_key operation precondition fresh now s l
perform-Continues id d (applying k now) s l =
    moves id d s.reconciles (planned_operation k) _ (applying_effect k now s) (λ x. refl) l
      (λ h. record {
        same_key = refl;
        same_source = refl;
        same_kind = refl;
        same_precondition = refl;
        goes = subst (λ a. Goes a ReconcileState.applying) (was_planned h) apply;
      })
  where
    was_planned : planned_operation k d ≡ true → ReconcileState.planned ≡ d.state
    was_planned h = ground arith
perform-Continues id d (finish k state result now) s l =
    finish-Continues id d k state result now s l

-- A governance write of the journal is found there after any calls, with the key, the source, the
-- kind and the precondition that it was planned with, in a state that the table of transitions
-- leads to.
pub run-Continues :
    (id : String) (d : ReconcileOperation) (cs : List Call) (s : Store)
    → look id s ≡ some d
    → Continues id d (run cs s).reconciles
unfolding run
run-Continues id d [] s l = stays id d refl l
run-Continues id d (c ∷ cs) s l =
    let a = perform-Continues id d c s l in
    let b = run-Continues id a.became cs (perform c s) a.found in
    record { became = b.became; found = b.found; is_later = IsLater-trans a.is_later b.is_later }

-- The two states that the table has no way out of.
abbrev pub is_closed : ReconcileState → Bool
is_closed ReconcileState.succeeded = true
is_closed ReconcileState.dead_letter = true
is_closed _ = false

Goes-closed : {a b : ReconcileState} → Goes a b → is_closed a ≡ true → b ≡ a
Goes-closed stay h = refl
Goes-closed apply h = cc
Goes-closed {a = a} {b = b} (close e) h = absurd (no_way_out a b e h)
  where
    no_way_out : (a b : ReconcileState) → may_become a b ≡ true → is_closed a ≡ true → ⊥
    no_way_out ReconcileState.planned b e h = cc
    no_way_out ReconcileState.applying b e h = cc
    no_way_out ReconcileState.verify_pending b e h = cc
    no_way_out ReconcileState.succeeded b e h = cc
    no_way_out ReconcileState.dead_letter b e h = cc
Goes-closed (onward p q) h =
    let same = Goes-closed p h in Goes-closed q (ap is_closed same ∙ h) ∙ same

-- A governance write that has succeeded or is dead keeps its state, whatever calls follow.
pub run-closed :
    (id : String) (d : ReconcileOperation) (cs : List Call) (s : Store)
    → look id s ≡ some d
    → is_closed d.state ≡ true
    → (d' : ReconcileOperation) × (look id (run cs s) ≡ some d') × (d'.state ≡ d.state)
run-closed id d cs s l h =
    let a = run-Continues id d cs s l in (a.became, a.found, Goes-closed a.is_later.goes h)
