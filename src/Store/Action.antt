-- ===== src/Store/Action.antt =====
-- What a method of `Store` is: a function of the database that returns or raises. A statement outside
-- `immediate` commits by itself (isolation_level=None), so the database comes back after a raise too.
use scrum_jail_governance_pl.Base.{String, Bool, true, false, Option, none, some}
use scrum_jail_governance_pl.Store.Schema.{Store}

-- The exceptions, with the text of `str(exc)` where the program writes it.
pub data Error : Type 0 where
  state_error : String → Error
  value_error : String → Error
  integrity_error type_error : Error

pub data Result {ℓ} (A : Type ℓ) : Type ℓ where
  ok : A → Result A
  err : Error → Result A

abbrev pub Action : Type 0 → Type 0
Action A = Store → Result A × Store

abbrev pub Done : Type 0
Done = Unit

infixl 5 ◌>>=◌ ◌>>◌
abbrev pub ◌>>=◌ : {A B : Type 0} → Action A → (A → Action B) → Action B
◌>>=◌ m f s = let (r, s') = m s in elim r [ ok a ↦ f a s' | err e ↦ (err e, s') ]

abbrev pub ◌>>◌ : {A B : Type 0} → Action A → Action B → Action B
m >> k = m >>= λ _. k

abbrev pub pure : {A : Type 0} → A → Action A
pure a s = (ok a, s)

abbrev pub raise : {A : Type 0} → Error → Action A
raise e s = (err e, s)

abbrev pub raise_if : Bool → Error → Action Done
raise_if true e s = (err e, s)
raise_if false e s = (ok tt, s)

-- A SELECT.
abbrev pub gets : {A : Type 0} → (Store → A) → Action A
gets f s = (ok (f s), s)

-- An UPDATE, INSERT or DELETE.
abbrev pub modify : (Store → Store) → Action Done
modify f s = (ok tt, f s)

-- `fetchone()` whose `None` raises
abbrev pub or_raise : {A : Type 0} → Option A → Error → Action A
or_raise none e s = (err e, s)
or_raise (some a) e s = (ok a, s)

-- What `immediate` leaves of a transaction that began at `s`: a raise rolls it back.
abbrev settle : {A : Type 0} → Store → Result A × Store → Result A × Store
settle s (ok a, s') = (ok a, s')
settle s (err e, s') = (err e, s)

-- Store.immediate: BEGIN IMMEDIATE, then COMMIT, or ROLLBACK and the exception again.
abbrev pub immediate : {A : Type 0} → Action A → Action A
immediate m s = settle s (m s)

abbrev pub is_err {ℓ} : {A : Type ℓ} → Result A → Bool
is_err (ok a) = false
is_err (err e) = true
