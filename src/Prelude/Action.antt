-- ===== src/Prelude/Action.antt =====
-- A method on `&mut self` that may fail: what it wrote before the failure stays written.
use mathlib.Core.Bool.{Bool}
use bokken.Prelude.Tests.{if◌then◌else◌}
use bokken.Prelude.Result.{Result, ok, err}

abbrev pub Action : Type 0 → Type 0 → Type 0 → Type 0
Action S E A = S → Result E A × S

module _ {S E : Type 0} where
  abbrev pub pure : {A : Type 0} → A → Action S E A
  pure a s = (ok a, s)

  abbrev pub raise : {A : Type 0} → E → Action S E A
  raise e s = (err e, s)

  -- A fallible read of the state.
  abbrev pub reads : {A : Type 0} → (S → Result E A) → Action S E A
  reads f s = (f s, s)

  abbrev pub modify : (S → S) → Action S E (Unit {0})
  modify f s = (ok tt, f s)

  abbrev pub raise_if : Bool → E → Action S E (Unit {0})
  raise_if c e s = (if c then err e else ok tt, s)

infixl 5 ◌>>=◌ ◌>>◌
abbrev pub ◌>>=◌ : {S E A B : Type 0} → Action S E A → (A → Action S E B) → Action S E B
◌>>=◌ m f s = let (r, s') = m s in elim r [ ok a ↦ f a s' | err e ↦ (err e, s') ]

abbrev pub ◌>>◌ : {S E B : Type 0} → Action S E (Unit {0}) → Action S E B → Action S E B
m >> k = m >>= λ _. k
