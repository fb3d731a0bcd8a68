-- ===== src/Base/Order.antt =====
-- ORDER BY and LIMIT.
use Prim.Native.Nat.{ℕ}
use mathlib.Core.Bool.{Bool}
use mathlib.Core.List.{List, [], ◌∷◌}
use scrum_jail_governance_pl.Base.Tests.{if◌then◌else◌}

module _ {A : Type 0} (le : A → A → Bool) where
  unfoldable pub insert_by : A → List A → List A
  insert_by a [] = a ∷ []
  insert_by a (b ∷ bs) = let rest = insert_by a bs in if le a b then a ∷ b ∷ bs else b ∷ rest

  unfoldable pub sort_by : List A → List A
  unfolding insert_by
  sort_by [] = []
  sort_by (a ∷ rest) = insert_by a (sort_by rest)

-- LIMIT ?
unfoldable pub limit_to : {A : Type 0} → ℕ → List A → List A
limit_to ℕ.zero xs = []
limit_to (ℕ.suc n) [] = []
limit_to (ℕ.suc n) (x ∷ xs) = x ∷ limit_to n xs
