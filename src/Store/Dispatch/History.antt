-- ===== src/Store/Dispatch/History.antt =====
-- The deliveries of a database through any sequence of calls.
use scrum_jail_governance_pl.Base.{
  ℕ, ◌≤◌, String, ◌==◌, Bool, true, false, ◌≡◌, refl, Option, none, some, List, [], ◌∷◌, arith,
  is_some, ℤ, pos, or_else, subst, sym, ap, ◌∙◌, ◌⊎◌, inl, inr, Option-cases, Bool-cases, eq_iff,
}
use scrum_jail_governance_pl.Base.Table.{select, update, count, exists}
use scrum_jail_governance_pl.Base.Table.Laws.{select-none, count-update_eq, count-select}
use scrum_jail_governance_pl.Store.Schema.{Store, Delivery, DeliveryState}
use scrum_jail_governance_pl.Store.Delivery.{by_delivery, new_delivery}
use scrum_jail_governance_pl.Store.Lease.{take_lease, sweep, startable, lease_delivery}
use scrum_jail_governance_pl.Store.Outcome.{
  Outcome, ended, unheld, held_delivery, delivery_in_hand, finish_delivery,
}
use scrum_jail_governance_pl.Store.Dispatch.{
  Call, route, enqueue, lease, start, finish, unhold, quarantine, perform, run,
}
use scrum_jail_governance_pl.Store.Dispatch.Machine.{
  IsInOrder, Steps-IsInOrder, is_final, Steps-final,
}
use scrum_jail_governance_pl.Store.Dispatch.Keys.{IsKeyed, look}
use scrum_jail_governance_pl.Store.Dispatch.Sweep.{count-sweep}
use scrum_jail_governance_pl.Store.Dispatch.Effects.{
  add_route_effect, enqueue_effect, chosen, lease_effect_none, lease_effect_some, start_effect,
  finish_effect, finish_missing, unhold_effect, quarantine_effect,
}
use scrum_jail_governance_pl.Store.Dispatch.Refinement.{perform-Arrives}

-- One new row in the table, under an id that is not in use.
record Adds (s : Store) (xs' : List Delivery) : Type 0 where
  fresh : String
  key : String
  role : String
  when : String
  rows : xs' ≡ new_delivery fresh key role when ∷ s.deliveries
  absent : exists (by_delivery fresh) s.deliveries ≡ false

abbrev Keeps : Store → List Delivery → Type 0
Keeps s xs' = (id : String) → count (by_delivery id) xs' ≡ count (by_delivery id) s.deliveries

same_rows : (s : Store) {xs' : List Delivery} → xs' ≡ s.deliveries → Keeps s xs'
same_rows s e id = ap (count (by_delivery id)) e

rewritten :
    (s : Store) {xs' : List Delivery} (xs : List Delivery) (q : Delivery → Bool)
    (f : Delivery → Delivery)
    → Keeps s xs
    → xs' ≡ update q f xs
    → ((x : Delivery) → (f x).delivery_id ≡ x.delivery_id)
    → Keeps s xs'
rewritten s xs q f k e same id =
    ap (count (by_delivery id)) e
    ∙ count-update_eq (by_delivery id) q f xs (λ x h. ap (λ j. j == id) (same x))
    ∙ k id

lease-Keeps :
    (limit : ℕ) (owner timestamp lease_until : String) (seconds : ℤ) (s : Store)
    → Keeps s (lease_delivery owner timestamp lease_until seconds (pos limit) s).1.deliveries
lease-Keeps limit owner timestamp lease_until seconds s =
    elim (Option-cases (chosen timestamp (pos limit) s)) [
      | inl e ↦ elim (lease_effect_none owner timestamp lease_until seconds (pos limit) s e) [
        | inl same ↦ same_rows s same
        | inr done ↦ λ id. ap (count (by_delivery id)) done ∙ count-sweep timestamp limit s id
      ]
      | inr (row, e) ↦
          elim (lease_effect_some owner timestamp lease_until seconds (pos limit) s row e) [
            | inl same ↦ same_rows s same
            | inr done ↦
                rewritten s (sweep timestamp (pos limit) s).deliveries _
                  (take_lease owner lease_until) (count-sweep timestamp limit s) done (λ x. refl)
          ]
    ]

finish-Keeps :
    (k owner : String) (outcome : Outcome) (error eligible_at : Option String) (now : String)
    (s : Store)
    → Keeps s (finish_delivery k owner outcome error eligible_at now s).1.deliveries
finish-Keeps k owner outcome error eligible_at now s = elim (Option-cases (look k s)) [
  | inl e ↦
      same_rows s
        (ap (λ t. t.deliveries) (finish_missing k owner outcome error eligible_at now s e))
  | inr (row, e) ↦ elim (finish_effect k owner outcome error eligible_at now s row e) [
    | inl same ↦ same_rows s same
    | inr (done, in_hand, allowed) ↦
        rewritten s s.deliveries (by_delivery k)
          (ended row.state outcome error (or_else eligible_at now)) (λ id. refl) done (λ x. refl)
  ]
]

perform_rows :
    (limit : ℕ) (c : Call) (s : Store)
    → Keeps s (perform limit c s).deliveries ⊎ Adds s (perform limit c s).deliveries
unfolding perform
perform_rows limit (route event_id role) s = inl (same_rows s (add_route_effect event_id role s))
perform_rows limit (enqueue role event_ids key eligible_at fresh now) s =
    elim (enqueue_effect role event_ids key eligible_at fresh now s) [
      | inl same ↦ inl (same_rows s same)
      | inr (done, absent) ↦ inr record {
        fresh = fresh;
        key = key;
        role = role;
        when = or_else eligible_at now;
        rows = done;
        absent = absent;
      }
    ]
perform_rows limit (lease owner timestamp lease_until seconds) s =
    inl (lease-Keeps limit owner timestamp lease_until seconds s)
perform_rows limit (start k owner timestamp) s = inl (
    rewritten s s.deliveries (startable k owner timestamp)
      (λ row. record row { state = DeliveryState.running }) (λ id. refl)
      (start_effect k owner timestamp s) (λ x. refl))
perform_rows limit (finish k owner outcome error eligible_at now) s =
    inl (finish-Keeps k owner outcome error eligible_at now s)
perform_rows limit (unhold k eligible_at now) s = elim (unhold_effect k eligible_at now s) [
  | inl same ↦ inl (same_rows s same)
  | inr done ↦ inl (
      rewritten s s.deliveries (held_delivery k) (unheld (or_else eligible_at now)) (λ id. refl)
        done (λ x. refl))
]
perform_rows limit (quarantine k error) s = elim (quarantine_effect k error s) [
  | inl same ↦ inl (same_rows s same)
  | inr done ↦ inl (rewritten s s.deliveries (delivery_in_hand k) _ (λ id. refl) done (λ x. refl))
]

absent_count :
    (id : String) (xs : List Delivery)
    → exists (by_delivery id) xs ≡ false
    → count (by_delivery id) xs ≡ 0
absent_count id xs e = elim (Option-cases (select (by_delivery id) xs)) [
  | inl gone ↦ select-none (by_delivery id) xs gone
  | inr (d, found) ↦ ground (arith, found, e)
]

Adds-count :
    (s : Store) (xs' : List Delivery) (id : String)
    → Adds s xs'
    → count (by_delivery id) s.deliveries ≤ 1
    → count (by_delivery id) xs' ≤ 1
unfolding count
Adds-count s xs' id a one =
    subst (λ xs. count (by_delivery id) xs ≤ 1) (sym a.rows)
      (elim (Bool-cases (a.fresh == id)) [
        | inl clash ↦
            let none_left =
              subst (λ j. count (by_delivery j) s.deliveries ≡ 0) ((eq_iff a.fresh id).0 clash)
                (absent_count a.fresh s.deliveries a.absent) in
            ground (arith, none_left)
        | inr other ↦ ground arith
      ])

-- Every delivery of the database is in order.
record IsSound (limit : ℕ) (s : Store) : Type 0 where
  keyed : IsKeyed s
  in_order : (id : String) (d : Delivery) → look id s ≡ some d → IsInOrder limit d

new-IsInOrder :
    (limit : ℕ) (fresh key role when : String) → IsInOrder limit (new_delivery fresh key role when)
new-IsInOrder limit fresh key role when = record {
  owned = refl;
  timed = refl;
  tried = omega arith;
  bounded = omega arith;
}

perform-IsKeyed : (limit : ℕ) (c : Call) (s : Store) → IsKeyed s → IsKeyed (perform limit c s)
perform-IsKeyed limit c s keyed id = elim (perform_rows limit c s) [
  | inl keeps ↦ omega (arith, keeps id, keyed id)
  | inr adds ↦ Adds-count s _ id adds (keyed id)
]

-- A delivery that was not there before is new.
perform-new :
    (limit : ℕ) (c : Call) (s : Store) (id : String) (d : Delivery)
    → look id s ≡ none
    → look id (perform limit c s) ≡ some d
    → IsInOrder limit d
unfolding select
perform-new limit c s id d before after = elim (perform_rows limit c s) [
  | inl keeps ↦
      let some_now =
        count-select (by_delivery id) (perform limit c s).deliveries (ap is_some after) in
      let none_then = select-none (by_delivery id) s.deliveries before in
      absurd (clash some_now (keeps id ∙ none_then))
  | inr adds ↦
      subst (IsInOrder limit) (is_new adds)
        (new-IsInOrder limit adds.fresh adds.key adds.role adds.when)
]
  where
    clash : {n : ℕ} → 1 ≤ n → n ≡ 0 → ⊥
    clash p q = omega (arith, p, q)

    is_new :
        (a : Adds s (perform limit c s).deliveries) → new_delivery a.fresh a.key a.role a.when ≡ d
    is_new a =
        let found = sym (ap (select (by_delivery id)) a.rows) ∙ after in
        ground (arith, found, before)

perform-IsSound :
    (limit : ℕ) (c : Call) (s : Store) → IsSound limit s → IsSound limit (perform limit c s)
perform-IsSound limit c s o = record {
  keyed = perform-IsKeyed limit c s o.keyed;
  in_order = λ id d e. elim (Option-cases (look id s)) [
    | inl gone ↦ perform-new limit c s id d gone e
    | inr (d0, was) ↦
        let a = perform-Arrives limit c s id d0 o.keyed was in
        subst (IsInOrder limit) (some_same (sym a.found ∙ e))
          (Steps-IsInOrder limit a.by_steps (o.in_order id d0 was))
  ];
}
  where
    some_same : {x y : Delivery} → some x ≡ some y → x ≡ y
    some_same e = cc

run-IsSound :
    (limit : ℕ) (cs : List Call) (s : Store) → IsSound limit s → IsSound limit (run limit cs s)
unfolding run
run-IsSound limit [] s o = o
run-IsSound limit (c ∷ cs) s o =
    run-IsSound limit cs (perform limit c s) (perform-IsSound limit c s o)

no_delivery-IsSound : (limit : ℕ) (s : Store) → s.deliveries ≡ [] → IsSound limit s
unfolding count select
no_delivery-IsSound limit s none_yet = record {
  keyed = λ id. subst (λ xs. count (by_delivery id) xs ≤ 1) (sym none_yet) (omega arith);
  in_order = λ id d e. absurd (nothing (sym (ap (select (by_delivery id)) none_yet) ∙ e));
}
  where
    nothing : {d : Delivery} → none ≡ some d → ⊥
    nothing e = cc

-- After any history of the calls of `Call` on a database that had no delivery, with the attempts of
-- a lease capped by `limit`, every delivery has an owner and a term exactly while it is leased or
-- running, was attempted at least once then, and was never attempted more than `limit` times.
pub history-IsInOrder :
    (limit : ℕ) (cs : List Call) (s : Store) (id : String) (d : Delivery)
    → s.deliveries ≡ []
    → look id (run limit cs s) ≡ some d
    → IsInOrder limit d
history-IsInOrder limit cs s id d none_yet e =
    (run-IsSound limit cs s (no_delivery-IsSound limit s none_yet)).in_order id d e

-- Where delivery ids do not repeat, a delivery that has succeeded, is dead or is uncertain stays as
-- it is, whatever calls of `Call` follow.
pub history_final :
    (limit : ℕ) (cs : List Call) (s : Store) (id : String) (d : Delivery)
    → IsKeyed s
    → look id s ≡ some d
    → is_final d.state ≡ true
    → look id (run limit cs s) ≡ some d
unfolding run
history_final limit [] s id d keyed e f = e
history_final limit (c ∷ cs) s id d keyed e f =
    let a = perform-Arrives limit c s id d keyed e in
    history_final limit cs (perform limit c s) id d (perform-IsKeyed limit c s keyed)
      (a.found ∙ ap some (Steps-final limit a.by_steps f)) f
