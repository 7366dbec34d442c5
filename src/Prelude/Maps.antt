-- ===== src/Prelude/Maps.antt =====
-- A `HashMap` whose keys are numbers, as an association list with every key once.
use Prim.Native.Nat.{ℕ, ◌+◌}
use mathlib.Core.Path.{◌≡◌, refl}
use mathlib.Core.Logic.{◌≢◌}
use mathlib.Core.Bool.{Bool, true, false, ◌||◌}
use mathlib.Core.Option.{Option, none, some}
use mathlib.Core.List.{List, [], ◌∷◌}
use native.Mathlib.Omega.{arith}
use bokken.Prelude.Tests.{◌==◌, if◌then◌else◌}

abbrev pub Map {ℓ} : Type ℓ → Type ℓ
Map V = List (ℕ × V)

module _ {ℓ} {V : Type ℓ} where
  unfoldable pub get : ℕ → Map V → Option V
  get k [] = none
  get k ((j, v) ∷ m) = if j == k then some v else get k m

  unfoldable pub insert : ℕ → V → Map V → Map V
  insert k v [] = (k, v) ∷ []
  insert k v ((j, w) ∷ m) = if j == k then (k, v) ∷ m else (j, w) ∷ insert k v m

  unfoldable pub remove : ℕ → Map V → Map V
  remove k [] = []
  remove k ((j, w) ∷ m) = if j == k then remove k m else (j, w) ∷ remove k m

  unfoldable pub contains_key : ℕ → Map V → Bool
  contains_key k m = elim (get k m) [ none ↦ false | some v ↦ true ]

  pub get-insert :
      (j k : ℕ) (v : V) (m : Map V) → get j (insert k v m) ≡ (if k == j then some v else get j m)
  unfolding get insert
  get-insert j k v [] = refl
  get-insert j k v ((i, w) ∷ m) = ground (arith, get-insert j k v m)

  pub get-remove : (j k : ℕ) (m : Map V) → get j (remove k m) ≡ (if k == j then none else get j m)
  unfolding get remove
  get-remove j k [] = ground arith
  get-remove j k ((i, w) ∷ m) = ground (arith, get-remove j k m)

  pub get-insert_self : (k : ℕ) (v : V) (m : Map V) → get k (insert k v m) ≡ some v
  get-insert_self k v m = ground (arith, get-insert k k v m)

  pub get-insert_ne : (j k : ℕ) (v : V) (m : Map V) → j ≢ k → get j (insert k v m) ≡ get j m
  get-insert_ne j k v m ne = ground (arith, get-insert j k v m)

  -- No key stands twice.
  abbrev pub Unique : Map V → Type ℓ
  Unique [] = Unit
  Unique ((k, v) ∷ m) = (get k m ≡ none) × Unique m

  pub insert-Unique : (k : ℕ) (v : V) (m : Map V) → Unique m → Unique (insert k v m)
  unfolding insert get
  insert-Unique k v [] u = (refl, tt)
  insert-Unique k v ((j, w) ∷ m) u = ground (arith, insert-Unique k v m u.1, get-insert j k v m)

  pub remove-Unique : (k : ℕ) (m : Map V) → Unique m → Unique (remove k m)
  unfolding remove
  remove-Unique k [] u = tt
  remove-Unique k ((j, w) ∷ m) u = ground (arith, remove-Unique k m u.1, get-remove j k m)

  -- The sum of a measure of the values.
  unfoldable pub sum : (V → ℕ) → Map V → ℕ
  sum f [] = 0
  sum f ((k, v) ∷ m) = f v + sum f m

  pub sum-remove_absent :
      (f : V → ℕ) (k : ℕ) (m : Map V) → get k m ≡ none → sum f (remove k m) ≡ sum f m
  unfolding get remove sum
  sum-remove_absent f k [] e = refl
  sum-remove_absent f k ((j, w) ∷ m) e = ground (arith, sum-remove_absent f k m)

  pub sum-remove :
      (f : V → ℕ) (k : ℕ) (v : V) (m : Map V)
      → Unique m
      → get k m ≡ some v
      → sum f (remove k m) + f v ≡ sum f m
  unfolding get remove sum
  sum-remove f k v [] u e = cc
  sum-remove f k v ((j, w) ∷ m) u e =
      ground (arith, sum-remove f k v m u.1, sum-remove_absent f k m)

  pub sum-insert_new :
      (f : V → ℕ) (k : ℕ) (v : V) (m : Map V)
      → get k m ≡ none
      → sum f (insert k v m) ≡ sum f m + f v
  unfolding get insert sum
  sum-insert_new f k v [] e = omega arith
  sum-insert_new f k v ((j, w) ∷ m) e = ground (arith, sum-insert_new f k v m)

  pub sum-insert :
      (f : V → ℕ) (k : ℕ) (v w : V) (m : Map V)
      → get k m ≡ some w
      → sum f (insert k v m) + f w ≡ sum f m + f v
  unfolding get insert sum
  sum-insert f k v w [] e = cc
  sum-insert f k v w ((j, u) ∷ m) e = ground (arith, sum-insert f k v w m)

-- `Vec::contains`
unfoldable pub contains : ℕ → List ℕ → Bool
contains key [] = false
contains key (k ∷ ks) = (k == key) || contains key ks
