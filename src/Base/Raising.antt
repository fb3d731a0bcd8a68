-- ===== src/Base/Raising.antt =====
-- Code that returns, raises one of its own exceptions, or one of a built-in function.
use mathlib.Core.Bool.{Bool, true, false}
use mathlib.Core.Option.{Option, none, some}
use mathlib.Core.Path.{◌≡◌, refl, ap}
use native.Mathlib.Omega.{arith}

pub data Raising (E A : Type 0) : Type 0 where
  made : A → Raising E A
  refused : E → Raising E A
  crashed : Raising E A

infixl 5 ◌>>=◌ ◌>>◌
unfoldable pub ◌>>=◌ : {E A B : Type 0} → Raising E A → (A → Raising E B) → Raising E B
(made a) >>= f = f a
(refused e) >>= f = refused e
crashed >>= f = crashed

abbrev pub ◌>>◌ : {E A B : Type 0} → Raising E A → Raising E B → Raising E B
m >> k = m >>= λ _. k

-- if not test: raise why
unfoldable pub require_as : {E : Type 0} → Bool → E → Raising E Unit
require_as true why = made tt
require_as false why = refused why

abbrev pub or_crash : {E A : Type 0} → Option A → Raising E A
or_crash none = crashed
or_crash (some a) = made a

-- The parts of a chain whose result was made.
pub made_first :
    {E A B : Type 0} (m : Raising E A) (f : A → Raising E B) (b : B)
    → (m >>= f) ≡ made b
    → (a : A) × (m ≡ made a) × (f a ≡ made b)
unfolding ◌>>=◌
made_first (made a) f b e = (a, refl, e)
made_first (refused x) f b e = absurd (ground (arith, e))
made_first crashed f b e = absurd (ground (arith, e))

pub made_test :
    {E B : Type 0} (test : Bool) (why : E) (f : Unit → Raising E B) (b : B)
    → (require_as test why >>= f) ≡ made b
    → (test ≡ true) × (f tt ≡ made b)
unfolding require_as ◌>>=◌
made_test true why f b e = (refl, e)
made_test false why f b e = absurd (ground (arith, e))

abbrev made_or : {E A : Type 0} → A → Raising E A → A
made_or default (made a) = a
made_or default (refused e) = default
made_or default crashed = default

pub made_same : {E A : Type 0} (a b : A) → ◌≡◌ {A = Raising E A} (made a) (made b) → a ≡ b
made_same a b e = ap (made_or a) e
