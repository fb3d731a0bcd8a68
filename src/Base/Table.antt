-- ===== src/Base/Table.antt =====
-- A SQLite table as the list of its rows, newest first. No query of the program depends on that
-- order: each selects by a key, counts, or has an ORDER BY.
pub mod Laws
pub mod Sums
use Prim.Native.Nat.{ℕ, ◌+◌}
use mathlib.Core.Bool.{Bool, not}
use mathlib.Core.Option.{Option, none, some}
use mathlib.Core.List.{List, [], ◌∷◌}
use scrum_jail_governance_pl.Base.Tests.{bit, is_some, if◌then◌else◌}

module _ {ℓ} {A : Type ℓ} where
  -- SELECT * FROM xs WHERE p: the first row
  unfoldable pub select : (A → Bool) → List A → Option A
  select p [] = none
  select p (x ∷ xs) = if p x then some x else select p xs

  -- SELECT count(*) FROM xs WHERE p
  unfoldable pub count : (A → Bool) → List A → ℕ
  count p [] = 0
  count p (x ∷ xs) = bit (p x) + count p xs

  -- UPDATE xs SET f WHERE p
  unfoldable pub update : (A → Bool) → (A → A) → List A → List A
  update p f [] = []
  update p f (x ∷ xs) = (if p x then f x else x) ∷ update p f xs

  -- SELECT * FROM xs WHERE p, and with `not p` the rows that DELETE leaves
  unfoldable pub filter : (A → Bool) → List A → List A
  filter p [] = []
  filter p (x ∷ xs) = let rest = filter p xs in if p x then x ∷ rest else rest

  abbrev pub delete : (A → Bool) → List A → List A
  delete p = filter (λ x. not (p x))

  abbrev pub exists : (A → Bool) → List A → Bool
  exists p xs = is_some (select p xs)
