-- ===== src/Base/Table/Sums.antt =====
-- Sums over the rows of a table.
use Prim.Native.Nat.{ℕ, ◌+◌, ◌≤◌}
use mathlib.Core.Path.{◌≡◌}
use mathlib.Core.Bool.{Bool, true}
use mathlib.Core.Option.{some}
use mathlib.Core.List.{List, [], ◌∷◌}
use native.Mathlib.Omega.{arith}
use scrum_jail_governance_pl.Base.Table.{select, update}

module _ {ℓ} {A : Type ℓ} where
  -- SELECT sum(w) FROM xs
  unfoldable pub total : (A → ℕ) → List A → ℕ
  total w [] = 0
  total w (x ∷ xs) = w x + total w xs

  pub total-update_le :
      (w : A → ℕ) (q : A → Bool) (f : A → A) (xs : List A)
      → ((x : A) → q x ≡ true → w (f x) ≤ w x)
      → total w (update q f xs) ≤ total w xs
  unfolding total update
  total-update_le w q f [] h = omega arith
  total-update_le w q f (x ∷ xs) h = ground (arith, h x, total-update_le w q f xs h)

  -- An update that brings the rows it changes to nothing takes at least a selected row's weight away.
  pub total-update_drop :
      (w : A → ℕ) (q : A → Bool) (f : A → A) (xs : List A) (x : A)
      → ((y : A) → q y ≡ true → w (f y) ≡ 0)
      → select q xs ≡ some x
      → total w (update q f xs) + w x ≤ total w xs
  unfolding total update select
  total-update_drop w q f [] x h e = cc
  total-update_drop w q f (y ∷ ys) x h e = ground (
    arith,
    h y,
    total-update_drop w q f ys x h,
    total-update_le w q f ys (λ z k. ground (arith, h z k)),
  )

  pub total_mono : (w v : A → ℕ) (xs : List A) → ((x : A) → w x ≤ v x) → total w xs ≤ total v xs
  unfolding total
  total_mono w v [] h = omega arith
  total_mono w v (x ∷ xs) h = omega (arith, h x, total_mono w v xs h)

  -- No row weighs more than the sum.
  pub le-total :
      (w : A → ℕ) (q : A → Bool) (xs : List A) (x : A) → select q xs ≡ some x → w x ≤ total w xs
  unfolding total select
  le-total w q [] x e = cc
  le-total w q (y ∷ ys) x e = ground (arith, le-total w q ys x)
