-- ===== src/IndexFile/Lookup.antt =====
-- `get`, `first` and `last` of utils/indexable_file.rs against a look-up in the list of entries.
use bokken.Prelude.{
  ℕ, zero, suc, ◌-◌, ◌<◌, ◌≡◌, ◌≢◌, refl, Option, none, some, List, [], ◌∷◌, arith, Bytes, length,
  get_elem?, ◌==◌, if◌then◌else◌,
}
use bokken.Prelude.Result.{Result, ok, err}
use bokken.Errors.{BokkenError}
use bokken.IndexFile.{
  Format, IndexableFile, SearchResult, found, not_found, binary_search, get, first, last, read_pair,
}
use bokken.IndexFile.Layout.{
  ◌!◌, keys, length-keys, Stores, len-Stores, read_identifier-Stores, read_entry-Stores,
}
use bokken.IndexFile.Bisection.{IsSorted, Locates, Returns, binary_search-Locates}

-- Identifiers in ascending order, none of them twice.
abbrev pub IsAscending : List ℕ → Type 0
IsAscending ks = (i j : ℕ) → i < j → j < length ks → ks ! i < ks ! j

pub IsAscending→IsSorted : (ks : List ℕ) → IsAscending ks → IsSorted ks
IsAscending→IsSorted ks up i j h lt = grind (arith, up i j)

module _ {T : Type 0} where
  -- The sorted map that the file stands for.
  unfoldable pub lookup : ℕ → List (ℕ × T) → Option T
  lookup x [] = none
  lookup x ((k, v) ∷ es) = if k == x then some v else lookup x es

  pub lookup_absent :
      (x : ℕ) (es : List (ℕ × T))
      → ((j : ℕ) → j < length (keys es) → keys es ! j ≢ x)
      → lookup x es ≡ none
  unfolding lookup
  lookup_absent x [] h = refl
  lookup_absent x ((k, v) ∷ es) h =
      ground (arith, h 0 (omega arith), lookup_absent x es (λ j p. h (suc j) (omega arith)))

  pub lookup_present :
      (x i : ℕ) (es : List (ℕ × T)) (e : ℕ × T)
      → get_elem? es i ≡ some e
      → keys es ! i ≡ x
      → ((j : ℕ) → j < i → keys es ! j ≢ x)
      → lookup x es ≡ some e.1
  unfolding lookup
  lookup_present x i [] e g k h = ground arith
  lookup_present x zero ((j, v) ∷ es) e g k h = ground arith
  lookup_present x (suc i) ((j, v) ∷ es) e g k h =
      ground
        (arith, h 0 (omega arith), lookup_present x i es e g k (λ l p. h (suc l) (omega arith)))

module _ {T : Type 0} (fmt : Format T) where
  get_of_result :
      (f : IndexableFile) (hd : Bytes) (ss : List Bytes) (es : List (ℕ × T)) (x : ℕ)
      → Stores fmt f hd ss es
      → IsAscending (keys es)
      → (r : Result BokkenError SearchResult) → binary_search fmt f x ≡ r
      → Returns r (Locates (keys es) x)
      → get fmt f x ≡ ok (lookup x es)
  unfolding get
  get_of_result f hd ss es x st up (ok (found i)) e loc =
      let (entry, read, is_entry, is_key) =
        read_entry-Stores fmt st i (omega (arith, loc.0, length-keys es)) in
      rw (
        e,
        read,
        lookup_present x i es entry is_entry loc.1 (λ j p. omega (arith, up j i p loc.0, loc.1)),
      )
  get_of_result f hd ss es x st up (ok (not_found i)) e loc =
      rw (e, lookup_absent x es (λ j p. grind (arith, loc.1 j, loc.2 j)))
  get_of_result f hd ss es x st up (err _) e loc = absurd loc

  -- On a file that stores entries with ascending identifiers `get` never fails, and returns the
  -- value that the entries have under the key, or `None` if they have none.
  pub get-lookup :
      (f : IndexableFile) (hd : Bytes) (ss : List Bytes) (es : List (ℕ × T)) (x : ℕ)
      → Stores fmt f hd ss es
      → IsAscending (keys es)
      → get fmt f x ≡ ok (lookup x es)
  get-lookup f hd ss es x st up =
      get_of_result f hd ss es x st up (binary_search fmt f x) refl
        (binary_search-Locates fmt f hd ss es x st (IsAscending→IsSorted (keys es) up))

  absent_of_result :
      (f : IndexableFile) (ks : List ℕ) (x : ℕ)
      → ((j : ℕ) → j < length ks → ks ! j ≢ x)
      → (r : Result BokkenError SearchResult) → binary_search fmt f x ≡ r
      → Returns r (Locates ks x)
      → get fmt f x ≡ ok none
  unfolding get
  absent_of_result f ks x h (ok (found i)) e loc = absurd (h i loc.0 loc.1)
  absent_of_result f ks x h (ok (not_found i)) e loc = rw e
  absent_of_result f ks x h (err _) e loc = absurd loc

  -- Also where an identifier stands twice, `get` finds nothing under a key that is not stored.
  pub get_absent :
      (f : IndexableFile) (hd : Bytes) (ss : List Bytes) (es : List (ℕ × T)) (x : ℕ)
      → Stores fmt f hd ss es
      → IsSorted (keys es)
      → ((j : ℕ) → j < length (keys es) → keys es ! j ≢ x)
      → get fmt f x ≡ ok none
  get_absent f hd ss es x st sorted h =
      absent_of_result f (keys es) x h (binary_search fmt f x) refl
        (binary_search-Locates fmt f hd ss es x st sorted)

  -- `first` and `last` return the two ends of the stored entries, and `None` for a file without
  -- entries.
  pub first-last-Stores :
      (f : IndexableFile) (hd : Bytes) (ss : List Bytes) (es : List (ℕ × T))
      → Stores fmt f hd ss es
      → (first fmt f ≡ ok (get_elem? es 0)) × (last fmt f ≡ ok (get_elem? es (length es - 1)))
  unfolding first last read_pair
  first-last-Stores f hd ss [] st = ground (arith, len-Stores fmt f hd ss [] st)
  first-last-Stores f hd ss (e ∷ es) st =
      let (a, read_a, is_a, key_a) = read_entry-Stores fmt st 0 (omega arith) in
      let (z, read_z, is_z, key_z) = read_entry-Stores fmt st (length es) (omega arith) in
      let back : suc (length es) - 1 ≡ length es = omega arith in
      ground (
        arith,
        len-Stores fmt f hd ss (e ∷ es) st,
        read_identifier-Stores fmt st 0 (omega arith),
        read_identifier-Stores fmt st (length es) (omega arith),
        back,
      )
