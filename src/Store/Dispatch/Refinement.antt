-- ===== src/Store/Dispatch/Refinement.antt =====
-- Each call on the database moves each delivery along the abstract machine.
use scrum_jail_governance_pl.Base.{
  ℕ, String, ◌==◌, Bool, true, false, ◌≡◌, refl, Option, some, List, arith, ℤ, pos, or_else, subst,
  sym, ap, ◌∙◌, inl, inr, Option-cases, Bool-cases, eq_iff, eq_join_left,
}
use scrum_jail_governance_pl.Base.Table.{select, update, exists}
use scrum_jail_governance_pl.Base.Table.Laws.{map_option, changed, select-update, select_sound}
use scrum_jail_governance_pl.Store.Schema.{Store, Delivery, DeliveryState}
use scrum_jail_governance_pl.Store.Delivery.{by_delivery, enqueue_delivery}
use scrum_jail_governance_pl.Store.Lease.{take_lease, sweep, startable, lease_delivery}
use scrum_jail_governance_pl.Store.Outcome.{
  Outcome, ended, unheld, held_delivery, delivery_in_hand, finish_delivery,
}
use scrum_jail_governance_pl.Store.Dispatch.{
  Call, route, enqueue, lease, start, finish, unhold, quarantine, perform,
}
use scrum_jail_governance_pl.Store.Dispatch.Machine
use scrum_jail_governance_pl.Store.Dispatch.Machine.{Step, Steps, here, Steps-trans}
use scrum_jail_governance_pl.Store.Dispatch.Keys.{IsKeyed, look}
use scrum_jail_governance_pl.Store.Dispatch.Sweep.{
  changed-Steps, swept, swept-Steps, swept_room, look-sweep,
}
use scrum_jail_governance_pl.Store.Dispatch.Effects.{
  add_route_effect, enqueue_effect, chosen, lease_effect_none, lease_effect_some, start_effect,
  finish_effect, finish_missing, unhold_effect, quarantine_effect,
}

-- From the delivery `d` the table has come to a delivery of the same id, by steps of the machine.
pub record Arrives (limit : ℕ) (id : String) (d : Delivery) (xs' : List Delivery) : Type 0 where
  pub became : Delivery
  pub found : select (by_delivery id) xs' ≡ some became
  pub by_steps : Steps limit d became

module _ (limit : ℕ) (id : String) (d : Delivery) where
  stays :
      {xs xs' : List Delivery}
      → xs' ≡ xs
      → select (by_delivery id) xs ≡ some d
      → Arrives limit id d xs'
  stays e l = record { became = d; found = ap (select (by_delivery id)) e ∙ l; by_steps = here }

  moves :
      (xs : List Delivery) {xs' : List Delivery} (q : Delivery → Bool) (f : Delivery → Delivery)
      → xs' ≡ update q f xs
      → ((x : Delivery) → (f x).delivery_id ≡ x.delivery_id)
      → select (by_delivery id) xs ≡ some d
      → (q d ≡ true → Step limit d (f d))
      → Arrives limit id d xs'
  moves xs q f e same l step = record {
    became = changed q f d;
    found =
        ap (select (by_delivery id)) e
        ∙ select-update (by_delivery id) q f xs (λ x h. ap (λ j. j == id) (same x))
        ∙ ap (map_option (changed q f)) l;
    by_steps = changed-Steps limit q f d step;
  }

  onward :
      {e : Delivery} {xs' : List Delivery}
      → Steps limit d e
      → Arrives limit id e xs'
      → Arrives limit id d xs'
  onward p a = record {
    became = a.became;
    found = a.found;
    by_steps = Steps-trans limit p a.by_steps;
  }

  -- The delivery that is found under an id that it has is itself.
  same_row :
      (s : Store) (k : String) (row : Delivery)
      → look id s ≡ some d
      → look k s ≡ some row
      → by_delivery k d ≡ true
      → row ≡ d
  same_row s k row l l' h = ground (
    arith,
    ap (λ j. look j s)
        ((eq_iff id k).0
          (eq_join_left d.delivery_id id k (select_sound (by_delivery id) s.deliveries l) h)),
  )

  finish-Arrives :
      (k owner : String) (outcome : Outcome) (error eligible_at : Option String) (now : String)
      (s : Store)
      → look id s ≡ some d
      → Arrives limit id d (finish_delivery k owner outcome error eligible_at now s).1.deliveries
  finish-Arrives k owner outcome error eligible_at now s l = elim (Option-cases (look k s)) [
    | inl e ↦
        stays (ap (λ t. t.deliveries) (finish_missing k owner outcome error eligible_at now s e)) l
    | inr (row, e) ↦ elim (finish_effect k owner outcome error eligible_at now s row e) [
      | inl same ↦ stays same l
      | inr (done, in_hand, allowed) ↦
          moves s.deliveries (by_delivery k)
            (ended row.state outcome error (or_else eligible_at now)) done (λ x. refl) l
            (λ h.
              let r = same_row s k row l e h in
              Machine.end outcome error (or_else eligible_at now) (ground (arith, r))
                (ground (arith, r)) (ground (arith, r)))
    ]
  ]

  enqueue-Arrives :
      (role : String) (es : List String) (key : String) (eligible_at : Option String)
      (fresh now : String) (s : Store)
      → look id s ≡ some d
      → Arrives limit id d (enqueue_delivery role es key eligible_at fresh now s).1.deliveries
  unfolding select
  enqueue-Arrives role es key eligible_at fresh now s l =
      elim (enqueue_effect role es key eligible_at fresh now s) [
        | inl same ↦ stays same l
        | inr (done, absent) ↦ elim (Bool-cases (fresh == id)) [
          | inl clash ↦ absurd (
              taken absent (
                subst (λ j. exists (by_delivery j) s.deliveries ≡ true)
                  (sym ((eq_iff fresh id).0 clash)) (ground arith)))
          | inr other ↦ record {
            became = d;
            found = ap (select (by_delivery id)) done ∙ ground arith;
            by_steps = here;
          }
        ]
      ]
    where
      taken :
          exists (by_delivery fresh) s.deliveries ≡ false
          → exists (by_delivery fresh) s.deliveries ≡ true
          → ⊥
      taken p q = cc

lease-Arrives :
    (limit : ℕ) (id : String) (d : Delivery) (owner timestamp lease_until : String) (seconds : ℤ)
    (s : Store)
    → IsKeyed s
    → look id s ≡ some d
    → Arrives limit id d
        (lease_delivery owner timestamp lease_until seconds (pos limit) s).1.deliveries
lease-Arrives limit id d owner timestamp lease_until seconds s keyed l =
    elim (Option-cases (chosen timestamp (pos limit) s)) [
      | inl e ↦ elim (lease_effect_none owner timestamp lease_until seconds (pos limit) s e) [
        | inl same ↦ stays limit id d same l
        | inr done ↦ onward limit id d time_passes (stays limit id swept_d done found)
      ]
      | inr (row, e) ↦
          elim (lease_effect_some owner timestamp lease_until seconds (pos limit) s row e) [
            | inl same ↦ stays limit id d same l
            | inr done ↦ onward limit id d time_passes (
                moves limit id swept_d (sweep timestamp (pos limit) s).deliveries _
                  (take_lease owner lease_until) done (λ x. refl) found
                  (λ h.
                    Machine.take owner lease_until (ground arith)
                      (swept_room timestamp limit d (ground arith)) refl))
          ]
    ]
  where
    swept_d : Delivery
    swept_d = swept timestamp limit d

    time_passes : Steps limit d swept_d
    time_passes = swept-Steps timestamp limit d

    found : look id (sweep timestamp (pos limit) s) ≡ some swept_d
    found = look-sweep timestamp limit s id d keyed l

-- On a database whose delivery ids do not repeat, whichever of the calls of `Call` is made, with
-- whatever arguments, a delivery that the table holds is still held under its id, and what became
-- of it is reached by steps of the abstract machine: the calls on deliveries refine it.
pub perform-Arrives :
    (limit : ℕ) (c : Call) (s : Store) (id : String) (d : Delivery)
    → IsKeyed s
    → look id s ≡ some d
    → Arrives limit id d (perform limit c s).deliveries
unfolding perform
perform-Arrives limit (route event_id role) s id d keyed l =
    stays limit id d (add_route_effect event_id role s) l
perform-Arrives limit (enqueue role event_ids key eligible_at fresh now) s id d keyed l =
    enqueue-Arrives limit id d role event_ids key eligible_at fresh now s l
perform-Arrives limit (lease owner timestamp lease_until seconds) s id d keyed l =
    lease-Arrives limit id d owner timestamp lease_until seconds s keyed l
perform-Arrives limit (start k owner timestamp) s id d keyed l =
    moves limit id d s.deliveries (startable k owner timestamp)
      (λ row. record row { state = DeliveryState.running }) (start_effect k owner timestamp s)
      (λ x. refl) l (λ h. Machine.start (ground arith) refl)
perform-Arrives limit (finish k owner outcome error eligible_at now) s id d keyed l =
    finish-Arrives limit id d k owner outcome error eligible_at now s l
perform-Arrives limit (unhold k eligible_at now) s id d keyed l =
    elim (unhold_effect k eligible_at now s) [
      | inl same ↦ stays limit id d same l
      | inr done ↦
          moves limit id d s.deliveries (held_delivery k) (unheld (or_else eligible_at now)) done
            (λ x. refl) l (λ h. Machine.unhold (or_else eligible_at now) (ground arith) refl)
    ]
perform-Arrives limit (quarantine k error) s id d keyed l = elim (quarantine_effect k error s) [
  | inl same ↦ stays limit id d same l
  | inr done ↦
      moves limit id d s.deliveries (delivery_in_hand k) _ done (λ x. refl) l
        (λ h. Machine.quarantine error (ground arith) refl)
]
