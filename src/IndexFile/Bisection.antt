-- ===== src/IndexFile/Bisection.antt =====
-- `_binary_search` of utils/indexable_file.rs against the sorted list of identifiers that it reads.
use bokken.Prelude.{
  ℕ, zero, suc, ◌+◌, ◌-◌, ◌/◌, ◌≤◌, ◌<◌, ◌≡◌, refl, inl, inr, List, arith, Bytes, length, ltb,
  Bool-cases,
}
use bokken.Prelude.Result.{Result, ok, err}
use bokken.Errors.{BokkenError}
use bokken.IndexFile.{
  Format, IndexableFile, SearchResult, found, not_found, read_identifier_at_index, search_loop,
  binary_search,
}
use bokken.IndexFile.Layout.{◌!◌, keys, length-keys, Stores, len-Stores, read_identifier-Stores}

-- Identifiers in ascending order; equal neighbours are allowed.
abbrev pub IsSorted : List ℕ → Type 0
IsSorted ks = (i j : ℕ) → i ≤ j → j < length ks → ks ! i ≤ ks ! j

-- What the search is to tell about the identifiers `ks` and the one looked for, `x`.
abbrev pub Locates : List ℕ → ℕ → SearchResult → Type 0
Locates ks x (found i) = (i < length ks) × (ks ! i ≡ x)
Locates ks x (not_found i) =
    (i ≤ length ks)
    × ((j : ℕ) → j < i → ks ! j < x)
    × ((j : ℕ) → i ≤ j → j < length ks → x < ks ! j)

-- The search ends without an error and its result is right.
abbrev pub Returns {ℓ} : {A : Type ℓ} → Result BokkenError A → (A → Type 0) → Type 0
Returns (ok r) P = P r
Returns (err e) P = ⊥

module _ {T : Type 0} (fmt : Format T) (f : IndexableFile) (ks : List ℕ) (x : ℕ)
    (sorted : IsSorted ks)
    (reads : (i : ℕ) → i < length ks → read_identifier_at_index fmt f i ≡ ok (ks ! i)) where
  -- The loop's invariant: all identifiers left of the range are below `x`, all right of it above.
  record Inv (left right : ℕ) : Type 0 where
    inside : right ≤ length ks
    below : (j : ℕ) → j < left → ks ! j < x
    above : (j : ℕ) → right ≤ j → j < length ks → x < ks ! j

  search_loop-Locates :
      (fuel size left right : ℕ)
      → left ≤ right
      → size ≡ right - left
      → size ≤ fuel
      → Inv left right
      → Returns (search_loop fmt fuel f x size left right) (Locates ks x)
  unfolding search_loop
  search_loop-Locates zero size left right le e h inv =
      (omega (arith, inv.inside), inv.below, λ j p q. inv.above j (omega arith) q)
  search_loop-Locates (suc fuel) size left right le e h inv = elim (Bool-cases (ltb left right)) [
    | inr empty ↦
        rw empty (omega (arith, inv.inside), inv.below, λ j p q. inv.above j (ground arith) q)
    | inl more ↦
        let lt : left < right = ground arith in
        let in_range : left + size / 2 < right = omega arith in
        ground (
          arith,
          reads (left + size / 2) (omega (arith, inv.inside)),
          λ (low : ks ! (left + size / 2) < x).
              search_loop-Locates fuel (right - (left + size / 2 + 1)) (left + size / 2 + 1) right
                (omega arith) refl (omega arith)
                (record {
                  inside = inv.inside;
                  below = λ j p.
                      omega (
                        arith,
                        sorted j (left + size / 2) (omega arith) (omega (arith, inv.inside)),
                      );
                  above = inv.above;
                }),
          λ (high : x < ks ! (left + size / 2)).
              search_loop-Locates fuel (left + size / 2 - left) left (left + size / 2) (omega arith)
                refl (omega arith)
                (record {
                  inside = omega (arith, inv.inside);
                  below = inv.below;
                  above = λ j p q. omega (arith, sorted (left + size / 2) j p q);
                }),
        )
  ]

module _ {T : Type 0} (fmt : Format T) where
  -- On a file that stores entries in ascending order of their identifiers the search ends without
  -- an error. It reports an entry that has the identifier, or the place between all smaller and
  -- all larger identifiers.
  pub binary_search-Locates :
      (f : IndexableFile) (hd : Bytes) (ss : List Bytes) (es : List (ℕ × T)) (x : ℕ)
      → Stores fmt f hd ss es
      → IsSorted (keys es)
      → Returns (binary_search fmt f x) (Locates (keys es) x)
  unfolding binary_search
  binary_search-Locates f hd ss es x st sorted =
      rw (len-Stores fmt f hd ss es st, ← length-keys es)
        (search_loop-Locates fmt f (keys es) x sorted
          (λ i lt. read_identifier-Stores fmt st i (omega (arith, length-keys es)))
          (length (keys es)) (length (keys es)) 0 (length (keys es)) (omega arith) (omega arith)
          (omega arith)
          (record {
            inside = omega arith;
            below = λ j p. absurd (omega arith);
            above = λ j p q. absurd (omega arith);
          }))
