-- ===== src/Store/Dispatch/Sweep.antt =====
-- What time does to one delivery at the start of `lease_delivery`.
use scrum_jail_governance_pl.Base.{
  ℕ, ◌≤◌, ◌<◌, String, Bool, true, false, ◌&&◌, ◌≡◌, refl, some, arith, pos, at_least,
  if◌then◌else◌, ◌∙◌,
}
use scrum_jail_governance_pl.Base.Table.{count}
use scrum_jail_governance_pl.Base.Table.Laws.{changed, select-update, count-update_eq}
use scrum_jail_governance_pl.Store.Schema.{Store, Delivery, DeliveryState}
use scrum_jail_governance_pl.Store.Delivery.{by_delivery}
use scrum_jail_governance_pl.Store.Lease.{
  is_waiting, is_leased, is_running, lease_over, drop_lease, ids, for_each, quarantine, bury,
  expire_leased, sweep,
}
use scrum_jail_governance_pl.Store.Dispatch.Machine.{
  exhausted, Step, Steps, lose, expire, exhaust, here, next, Steps-trans,
}
use scrum_jail_governance_pl.Store.Dispatch.Keys.{
  IsKeyed, look, mem-ids, IsRewrite, look-for_each, count-for_each,
}

abbrev pub lost : Delivery → Delivery
lost = drop_lease DeliveryState.uncertain (some "running lease expired")

abbrev pub expired : Delivery → Delivery
expired = drop_lease DeliveryState.retry_wait (some "lease expired")

abbrev run_out : String → Delivery → Bool
run_out timestamp row = is_running row.state && lease_over timestamp row

abbrev lease_out : String → Delivery → Bool
lease_out timestamp row = is_leased row.state && lease_over timestamp row

abbrev tried_out : ℕ → Delivery → Bool
tried_out limit row = is_waiting row.state && at_least row.attempt (pos limit)

-- One delivery, after the sweep.
abbrev pub swept : String → ℕ → Delivery → Delivery
swept timestamp limit d =
    changed (tried_out limit) exhausted
      (changed (lease_out timestamp) expired (changed (run_out timestamp) lost d))

quarantine-IsRewrite : IsRewrite quarantine lost
quarantine-IsRewrite = record { at_id = λ k s. refl; same_id = λ d. refl; once = λ d. refl }

bury-IsRewrite : IsRewrite bury exhausted
bury-IsRewrite = record { at_id = λ k s. refl; same_id = λ d. refl; once = λ d. refl }

module _ (timestamp : String) (limit : ℕ) (s : Store) where
  abbrev first : Store
  first = for_each quarantine (ids (run_out timestamp) s) s

  abbrev second : Store
  second = expire_leased timestamp first

  count-first :
      (id : String) → count (by_delivery id) first.deliveries ≡ count (by_delivery id) s.deliveries
  count-first id = count-for_each quarantine lost quarantine-IsRewrite id _ s

  count-second :
      (id : String) → count (by_delivery id) second.deliveries ≡ count (by_delivery id) s.deliveries
  count-second id =
      count-update_eq (by_delivery id) (lease_out timestamp) expired first.deliveries (λ x h. refl)
      ∙ count-first id

  pub count-sweep :
      (id : String)
      → count (by_delivery id) (sweep timestamp (pos limit) s).deliveries
        ≡ count (by_delivery id) s.deliveries
  unfolding sweep
  count-sweep id =
      count-for_each bury exhausted bury-IsRewrite id (ids (tried_out limit) second) second
      ∙ count-second id

  -- The sweep of the table is the sweep of each delivery.
  pub look-sweep :
      (id : String) (d : Delivery)
      → IsKeyed s
      → look id s ≡ some d
      → look id (sweep timestamp (pos limit) s) ≡ some (swept timestamp limit d)
  unfolding sweep
  look-sweep id d keyed e = third
    where
      d1 : Delivery
      d1 = changed (run_out timestamp) lost d

      e1 : look id first ≡ some d1
      e1 = ground (
        arith,
        look-for_each quarantine lost quarantine-IsRewrite id (ids (run_out timestamp) s) s,
        mem-ids (run_out timestamp) id s d (keyed id) e,
      )

      d2 : Delivery
      d2 = changed (lease_out timestamp) expired d1

      e2 : look id second ≡ some d2
      e2 = ground (
        arith,
        e1,
        select-update (by_delivery id) (lease_out timestamp) expired first.deliveries (λ x h. refl),
      )

      one : count (by_delivery id) second.deliveries ≤ 1
      one = omega (arith, count-second id, keyed id)

      third :
          look id (for_each bury (ids (tried_out limit) second) second)
          ≡ some (changed (tried_out limit) exhausted d2)
      third = ground (
        arith,
        look-for_each bury exhausted bury-IsRewrite id (ids (tried_out limit) second) second,
        mem-ids (tried_out limit) id second d2 one e2,
        e2,
      )

pub changed-Steps :
    (limit : ℕ) (q : Delivery → Bool) (f : Delivery → Delivery) (d : Delivery)
    → (q d ≡ true → Step limit d (f d))
    → Steps limit d (changed q f d)
changed-Steps limit q f d step = go (q d) refl
  where
    go : (b : Bool) → q d ≡ b → Steps limit d (if b then f d else d)
    go true e = next here (step e)
    go false e = here

-- The sweep moves a delivery along the machine, and what still waits has an attempt left.
pub swept-Steps :
    (timestamp : String) (limit : ℕ) (d : Delivery) → Steps limit d (swept timestamp limit d)
swept-Steps timestamp limit d =
    Steps-trans limit
      (Steps-trans limit
        (changed-Steps limit (run_out timestamp) lost d (λ h. lose (ground arith) refl))
        (changed-Steps limit (lease_out timestamp) expired _ (λ h. expire (ground arith) refl)))
      (changed-Steps limit (tried_out limit) exhausted _
        (λ h. exhaust (ground arith) (ground arith) refl))

pub swept_room :
    (timestamp : String) (limit : ℕ) (d : Delivery)
    → is_waiting (swept timestamp limit d).state ≡ true
    → (swept timestamp limit d).attempt < limit
swept_room timestamp limit d h = ground arith
