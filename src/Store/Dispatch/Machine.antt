-- ===== src/Store/Dispatch/Machine.antt =====
-- The life of one delivery as an abstract machine: what a scheduler, a worker, the clock and an operator
-- may do to it. `limit` is the ceiling on attempts.
use scrum_jail_governance_pl.Base.{
  ℕ, ◌≤◌, ◌<◌, String, Bool, true, false, ◌≡◌, refl, Option, some, arith, is_some, bit,
}
use scrum_jail_governance_pl.Store.Schema.{Delivery, DeliveryState}
use scrum_jail_governance_pl.Store.Lease.{
  is_waiting, is_leased, is_running, is_in_hand, is_budget_held, drop_lease, take_lease,
}
use scrum_jail_governance_pl.Store.Outcome.{Outcome, delivery_target, is_allowed, ended, unheld}

abbrev pub exhausted : Delivery → Delivery
exhausted d = record d {
  state = DeliveryState.dead_letter;
  last_error = some "retry ceiling reached";
}

-- Succeeded, dead or left to a human.
abbrev pub is_final : DeliveryState → Bool
is_final DeliveryState.succeeded = true
is_final DeliveryState.dead_letter = true
is_final DeliveryState.uncertain = true
is_final _ = false

module _ (limit : ℕ) where
  pub data Step (d d' : Delivery) : Type 0 where
    lose :
        is_running d.state ≡ true
        → d' ≡ drop_lease DeliveryState.uncertain (some "running lease expired") d
        → Step d d'
    expire :
        is_leased d.state ≡ true
        → d' ≡ drop_lease DeliveryState.retry_wait (some "lease expired") d
        → Step d d'
    exhaust : is_waiting d.state ≡ true → limit ≤ d.attempt → d' ≡ exhausted d → Step d d'
    take :
        (owner lease_until : String)
        → is_waiting d.state ≡ true
        → d.attempt < limit
        → d' ≡ take_lease owner lease_until d
        → Step d d'
    start : is_leased d.state ≡ true → d' ≡ record d { state = DeliveryState.running } → Step d d'
    end :
        (outcome : Outcome) (error : Option String) (when : String)
        → is_in_hand d.state ≡ true
        → is_allowed d.state outcome ≡ true
        → d' ≡ ended d.state outcome error when d
        → Step d d'
    unhold : (when : String) → is_budget_held d.state ≡ true → d' ≡ unheld when d → Step d d'
    quarantine :
        (error : String)
        → is_in_hand d.state ≡ true
        → d' ≡ drop_lease DeliveryState.uncertain (some error) d
        → Step d d'

  pub data Steps : Delivery → Delivery → Type 0 where
    here : {d : Delivery} → Steps d d
    next : {d e f : Delivery} → Steps d e → Step e f → Steps d f

  pub Steps-trans : {d e f : Delivery} → Steps d e → Steps e f → Steps d f
  Steps-trans p here = p
  Steps-trans p (next q s) = next (Steps-trans p q) s

  -- What the database keeps of every delivery: an owner and a term exactly while it is in hand, at
  -- least one attempt then, and never more attempts than the ceiling.
  pub record IsInOrder (d : Delivery) : Type 0 where
    pub owned : is_some d.lease_owner ≡ is_in_hand d.state
    pub timed : is_some d.lease_until ≡ is_in_hand d.state
    pub tried : bit (is_in_hand d.state) ≤ d.attempt
    pub bounded : d.attempt ≤ limit

  not_in_hand : (outcome : Outcome) → is_in_hand (delivery_target outcome) ≡ false
  not_in_hand Outcome.succeeded = refl
  not_in_hand Outcome.retry = refl
  not_in_hand Outcome.budget_hold = refl
  not_in_hand Outcome.dead_letter = refl
  not_in_hand Outcome.uncertain = refl
  not_in_hand (Outcome.unknown text) = refl

  -- Every step of the machine keeps a delivery in order.
  pub Step-IsInOrder : {d d' : Delivery} → Step d d' → IsInOrder d → IsInOrder d'
  Step-IsInOrder (lose h e) o = ground arith
  Step-IsInOrder (expire h e) o = ground arith
  Step-IsInOrder (exhaust h b e) o = ground arith
  Step-IsInOrder (take owner lease_until h b e) o = ground arith
  Step-IsInOrder (start h e) o = ground arith
  Step-IsInOrder (end outcome error when h b e) o = ground (arith, not_in_hand outcome)
  Step-IsInOrder (unhold when h e) o = ground arith
  Step-IsInOrder (quarantine error h e) o = ground arith

  pub Steps-IsInOrder : {d d' : Delivery} → Steps d d' → IsInOrder d → IsInOrder d'
  Steps-IsInOrder here o = o
  Steps-IsInOrder (next p s) o = Step-IsInOrder s (Steps-IsInOrder p o)

  final_stuck : {d d' : Delivery} → Step d d' → is_final d.state ≡ true → ⊥
  final_stuck (lose h e) f = ground arith
  final_stuck (expire h e) f = ground arith
  final_stuck (exhaust h b e) f = ground arith
  final_stuck (take owner lease_until h b e) f = ground arith
  final_stuck (start h e) f = ground arith
  final_stuck (end outcome error when h b e) f = ground arith
  final_stuck (unhold when h e) f = ground arith
  final_stuck (quarantine error h e) f = ground arith

  -- No step leaves a final delivery.
  pub Steps-final : {d d' : Delivery} → Steps d d' → is_final d.state ≡ true → d' ≡ d
  Steps-final here f = refl
  Steps-final (next {e = e} p s) f =
      let same = Steps-final p f in absurd (final_stuck s (rw same f))
