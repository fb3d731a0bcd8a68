-- ===== src/Base/Table/Laws.antt =====
-- The laws of tables: what an UPDATE, an INSERT or a DELETE does to a SELECT, to a count, and to a
-- property of every row.
use Prim.Native.Nat.{◌≤◌}
use mathlib.Core.Path.{◌≡◌, refl}
use mathlib.Core.Bool.{Bool, true, false}
use mathlib.Core.Option.{Option, none, some}
use mathlib.Core.List.{List, [], ◌∷◌}
use native.Mathlib.Omega.{arith}
use scrum_jail_governance_pl.Base.Tests.{is_some, if◌then◌else◌}
use scrum_jail_governance_pl.Base.Table.{select, count, update, exists}

abbrev pub All {ℓ κ} : {A : Type ℓ} → (A → Type κ) → List A → Type κ
All P [] = Unit
All P (x ∷ xs) = P x × All P xs

abbrev pub map_option {ℓ} : {A : Type ℓ} → (A → A) → Option A → Option A
map_option f none = none
map_option f (some a) = some (f a)

-- What an UPDATE makes of one row.
abbrev pub changed {ℓ} : {A : Type ℓ} → (A → Bool) → (A → A) → A → A
changed q f x = if q x then f x else x

module _ {ℓ} {A : Type ℓ} where
  pub count-update_le :
      (p q : A → Bool) (f : A → A) (xs : List A)
      → ((x : A) → q x ≡ true → p (f x) ≡ true → p x ≡ true)
      → count p (update q f xs) ≤ count p xs
  unfolding count update
  count-update_le p q f [] h = omega arith
  count-update_le p q f (x ∷ xs) h = ground (arith, h x, count-update_le p q f xs h)

  pub count-update_eq :
      (p q : A → Bool) (f : A → A) (xs : List A)
      → ((x : A) → q x ≡ true → p (f x) ≡ p x)
      → count p (update q f xs) ≡ count p xs
  unfolding count update
  count-update_eq p q f [] h = refl
  count-update_eq p q f (x ∷ xs) h = ground (arith, h x, count-update_eq p q f xs h)

  -- An update that takes every row out of `p`.
  pub count-update_none :
      (p : A → Bool) (f : A → A) (xs : List A)
      → ((x : A) → p x ≡ true → p (f x) ≡ false)
      → count p (update p f xs) ≡ 0
  unfolding count update
  count-update_none p f [] h = refl
  count-update_none p f (x ∷ xs) h = ground (arith, h x, count-update_none p f xs h)

  pub count_le :
      (p q : A → Bool) (xs : List A) → ((x : A) → p x ≡ true → q x ≡ true) → count p xs ≤ count q xs
  unfolding count
  count_le p q [] h = omega arith
  count_le p q (x ∷ xs) h = ground (arith, h x, count_le p q xs h)

  pub select-update :
      (p q : A → Bool) (f : A → A) (xs : List A)
      → ((x : A) → q x ≡ true → p (f x) ≡ p x)
      → select p (update q f xs) ≡ map_option (changed q f) (select p xs)
  unfolding select update
  select-update p q f [] h = refl
  select-update p q f (x ∷ xs) h = ground (arith, h x, select-update p q f xs h)

  pub select_sound : (p : A → Bool) (xs : List A) {x : A} → select p xs ≡ some x → p x ≡ true
  unfolding select
  select_sound p [] e = cc
  select_sound p (y ∷ xs) {x} e = ground (arith, select_sound p xs {x = x})

  -- A row that is selected is counted.
  pub count-select : (p : A → Bool) (xs : List A) → is_some (select p xs) ≡ true → 1 ≤ count p xs
  unfolding select count
  count-select p [] e = cc
  count-select p (y ∷ xs) e = ground (arith, count-select p xs)

  pub select-none : (p : A → Bool) (xs : List A) → select p xs ≡ none → count p xs ≡ 0
  unfolding select count
  select-none p [] e = refl
  select-none p (y ∷ xs) e = ground (arith, select-none p xs)

  pub All-update {κ} :
      (P : A → Type κ) (q : A → Bool) (f : A → A) (xs : List A)
      → ((x : A) → q x ≡ true → P x → P (f x))
      → All P xs
      → All P (update q f xs)
  unfolding update
  All-update P q f [] h a = tt
  All-update P q f (x ∷ xs) h a = (All-changed (q x) refl, All-update P q f xs h a.1)
    where
      All-changed : (b : Bool) → q x ≡ b → P (if b then f x else x)
      All-changed true e = h x e a.0
      All-changed false e = a.0

  pub All-select {κ} :
      (P : A → Type κ) (p : A → Bool) (xs : List A) {x : A} → All P xs → select p xs ≡ some x → P x
  unfolding select
  All-select P p [] a e = cc
  All-select P p (y ∷ xs) {x} a e = ground (arith, All-select P p xs {x = x} a.1)

  pub All-mono {κ μ} :
      (P : A → Type κ) (Q : A → Type μ) (xs : List A) → ((x : A) → P x → Q x) → All P xs → All Q xs
  All-mono P Q [] h a = tt
  All-mono P Q (x ∷ xs) h a = (h x a.0, All-mono P Q xs h a.1)

  -- No row of a larger set, so none of a smaller.
  pub exists_mono :
      (p q : A → Bool) (xs : List A)
      → ((x : A) → p x ≡ true → q x ≡ true)
      → exists q xs ≡ false
      → exists p xs ≡ false
  unfolding select
  exists_mono p q [] h e = refl
  exists_mono p q (x ∷ xs) h e = ground (arith, h x, exists_mono p q xs h)

  pub exists-update :
      (p q : A → Bool) (f : A → A) (xs : List A)
      → ((x : A) → q x ≡ true → p (f x) ≡ p x)
      → exists p (update q f xs) ≡ exists p xs
  exists-update p q f xs h = ground (arith, select-update p q f xs h)

  pub count-exists :
      (p q : A → Bool) (xs : List A)
      → ((x : A) → q x ≡ true → p x ≡ true)
      → exists q xs ≡ true
      → 1 ≤ count p xs
  unfolding select count
  count-exists p q [] h e = cc
  count-exists p q (x ∷ xs) h e = ground (arith, h x, count-exists p q xs h)

  -- Where at most one row is in `p`, two selections within `p` meet in that row.
  pub select_unique :
      (p q r : A → Bool) (xs : List A) (x : A)
      → ((y : A) → q y ≡ true → p y ≡ true)
      → ((y : A) → r y ≡ true → p y ≡ true)
      → count p xs ≤ 1
      → select q xs ≡ some x
      → exists r xs ≡ true
      → r x ≡ true
  unfolding select count
  select_unique p q r [] x hq hr one e f = cc
  select_unique p q r (y ∷ ys) x hq hr one e f = ground (
    arith,
    hq y,
    hr y,
    count-exists p q ys hq,
    count-exists p r ys hr,
    select_unique p q r ys x hq hr,
  )

  pub exists_of_select :
      (p q : A → Bool) (xs : List A) (x : A)
      → ((y : A) → q y ≡ true → p y ≡ true)
      → select q xs ≡ some x
      → exists p xs ≡ true
  unfolding select
  exists_of_select p q [] x h e = cc
  exists_of_select p q (y ∷ ys) x h e = ground (arith, h y, exists_of_select p q ys x h)

  -- Where at most one row is in `p`, a narrower selection finds it too.
  pub select_widen :
      (p q : A → Bool) (xs : List A) (x : A)
      → ((y : A) → q y ≡ true → p y ≡ true)
      → count p xs ≤ 1
      → select q xs ≡ some x
      → select p xs ≡ some x
  unfolding select count
  select_widen p q [] x h one e = cc
  select_widen p q (y ∷ ys) x h one e =
      ground (arith, h y, select_widen p q ys x h, count-exists p q ys h)

  -- The only row of `p`, if it is in `q` too, is the only row of `q`.
  pub count_one :
      (p q : A → Bool) (xs : List A) (x : A)
      → ((y : A) → q y ≡ true → p y ≡ true)
      → count p xs ≤ 1
      → select p xs ≡ some x
      → q x ≡ true
      → count q xs ≡ 1
  unfolding select count
  count_one p q [] x h one e k = cc
  count_one p q (y ∷ ys) x h one e k =
      ground (arith, h y, count_le q p ys h, count_one p q ys x h, count-select p ys)
