-- ===== src/Store/Dispatch/Keys.antt =====
-- Deliveries under their key: what the loops of `lease_delivery` do to one of them.
use scrum_jail_governance_pl.Base.{
  ◌≤◌, String, ◌==◌, Bool, true, ◌&&◌, ◌≡◌, refl, Option, some, List, [], ◌∷◌, map, arith, mem,
  eq_iff, eq_sym, eq_comm, ◌∙◌, if◌then◌else◌, ap, inl, inr, Option-cases, Bool-cases,
}
use scrum_jail_governance_pl.Base.Table.{select, update, count, filter, exists}
use scrum_jail_governance_pl.Base.Table.Laws.{
  map_option, changed, select_sound, select-update, select_unique, count-update_eq,
}
use scrum_jail_governance_pl.Store.Schema.{Store, Delivery}
use scrum_jail_governance_pl.Store.Delivery.{by_delivery}
use scrum_jail_governance_pl.Store.Lease.{ids, for_each}

-- The primary key of `delivery`.
abbrev pub IsKeyed : Store → Type 0
IsKeyed s = (id : String) → count (by_delivery id) s.deliveries ≤ 1

abbrev pub look : String → Store → Option Delivery
look id s = select (by_delivery id) s.deliveries

abbrev names_of : (Delivery → Bool) → List Delivery → List String
names_of p xs = map (λ row. row.delivery_id) (filter p xs)

names_complete :
    (p : Delivery → Bool) (id : String) (xs : List Delivery) (d : Delivery)
    → select (by_delivery id) xs ≡ some d
    → p d ≡ true
    → mem id (names_of p xs) ≡ true
unfolding select filter mem
names_complete p id [] d e h = cc
names_complete p id (y ∷ ys) d e h =
    ground (arith, names_complete p id ys d, eq_sym y.delivery_id id)

names_sound :
    (p : Delivery → Bool) (id : String) (xs : List Delivery)
    → mem id (names_of p xs) ≡ true
    → exists (λ x. by_delivery id x && p x) xs ≡ true
unfolding select filter mem
names_sound p id [] h = cc
names_sound p id (y ∷ ys) h = ground (arith, names_sound p id ys, eq_sym id y.delivery_id)

-- Where ids do not repeat, an id is listed exactly if its delivery was asked for.
pub mem-ids :
    (p : Delivery → Bool) (id : String) (s : Store) (d : Delivery)
    → count (by_delivery id) s.deliveries ≤ 1
    → look id s ≡ some d
    → mem id (ids p s) ≡ p d
mem-ids p id s d one e = elim (Bool-cases (mem id (ids p s))) [
  | inl listed ↦ ground (arith, found listed)
  | inr not_listed ↦ ground (arith, names_complete p id s.deliveries d e)
]
  where
    found : mem id (ids p s) ≡ true → (by_delivery id d && p d) ≡ true
    found listed =
        select_unique (by_delivery id) (by_delivery id) (λ x. by_delivery id x && p x) s.deliveries
          d (λ y h. h) (λ y h. ground arith) one e (names_sound p id s.deliveries listed)

module _ (step : String → Store → Store) (f : Delivery → Delivery) where
  -- A step of a loop rewrites the delivery of its id, once and for all.
  pub record IsRewrite : Type 0 where
    pub at_id :
        (k : String) (s : Store) → (step k s).deliveries ≡ update (by_delivery k) f s.deliveries
    pub same_id : (d : Delivery) → (f d).delivery_id ≡ d.delivery_id
    pub once : (d : Delivery) → f (f d) ≡ f d

  look-step :
      (w : IsRewrite) (k id : String) (s : Store)
      → look id (step k s) ≡ (if k == id then map_option f (look id s) else look id s)
  look-step w k id s = elim (Option-cases (look id s)) [
    | inl e ↦ ground (arith, updated)
    | inr (d, e) ↦ ground (
      arith,
      updated,
      ap (λ j. j == k) ((eq_iff d.delivery_id id).0 (select_sound (by_delivery id) s.deliveries e)),
      eq_comm k id,
    )
  ]
    where
      updated : look id (step k s) ≡ map_option (changed (by_delivery k) f) (look id s)
      updated =
          ap (select (by_delivery id)) (w.at_id k s)
          ∙ select-update (by_delivery id) (by_delivery k) f s.deliveries
              (λ x h. ap (λ j. j == id) (w.same_id x))

  -- The loop over some ids rewrites the delivery of each.
  pub look-for_each :
      (w : IsRewrite) (id : String) (ks : List String) (s : Store)
      → look id (for_each step ks s) ≡ (if mem id ks then map_option f (look id s) else look id s)
  unfolding for_each mem
  look-for_each w id [] s = refl
  look-for_each w id (k ∷ ks) s = elim (Option-cases (look id s)) [
    | inl e ↦ ground (arith, look-for_each w id ks (step k s), look-step w k id s, eq_comm k id)
    | inr (d, e) ↦
        ground (arith, look-for_each w id ks (step k s), look-step w k id s, eq_comm k id, w.once d)
  ]

  pub count-for_each :
      (w : IsRewrite) (id : String) (ks : List String) (s : Store)
      → count (by_delivery id) (for_each step ks s).deliveries ≡ count (by_delivery id) s.deliveries
  unfolding for_each
  count-for_each w id [] s = refl
  count-for_each w id (k ∷ ks) s =
      count-for_each w id ks (step k s)
      ∙ ap (count (by_delivery id)) (w.at_id k s)
      ∙ count-update_eq (by_delivery id) (by_delivery k) f s.deliveries
          (λ x h. ap (λ j. j == id) (w.same_id x))
