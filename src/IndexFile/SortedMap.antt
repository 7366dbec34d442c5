-- ===== src/IndexFile/SortedMap.antt =====
-- utils/indexable_file.rs as the sorted map that its documentation promises: when `insert` keeps
-- the promise, and when it does not.
use bokken.Prelude.{
  ℕ, suc, ◌-◌, ◌≤◌, ◌<◌, ◌≡◌, ◌≢◌, refl, sym, ap, ◌∙◌, some, none, List, Bytes, length, ◌==◌,
  if◌then◌else◌, arith,
}
use bokken.Prelude.Result.{Result, ok, err}
use bokken.Errors.{BokkenError}
use bokken.IndexFile.{Format, IndexableFile, SearchResult, found, not_found, binary_search, get}
use bokken.IndexFile.Editing.{insert}
use bokken.IndexFile.Layout.{◌!◌, keys, length-keys, Stores, read_entry-Stores}
use bokken.IndexFile.Bisection.{Locates, Returns, binary_search-Locates}
use bokken.IndexFile.Lookup.{
  IsAscending, IsAscending→IsSorted, lookup, lookup_present, get-lookup, get_absent,
}
use bokken.IndexFile.Slots.{Codable}
use bokken.IndexFile.Inserted.{
  insert-Stores, insert-Stores_found, lookup-set, set-IsAscending, lookup-inserted_front,
  inserted_front-IsAscending, keys-inserted, length-inserted, inserted_at, inserted-IsSorted,
}

module _ {T : Type 0} (fmt : Format T) (f : IndexableFile) (hd : Bytes) (ss : List Bytes)
    (es : List (ℕ × T)) (st : Stores fmt f hd ss es) (up : IsAscending (keys es)) (key : ℕ)
    (value : T) (c : Codable fmt f key value) where
  search_loc : Returns (binary_search fmt f key) (Locates (keys es) key)
  search_loc = binary_search-Locates fmt f hd ss es key st (IsAscending→IsSorted (keys es) up)

  overwrites :
      (x i : ℕ) (r : Result BokkenError SearchResult)
      → i < length es
      → keys es ! i ≡ key
      → binary_search fmt f key ≡ r
      → Returns r (Locates (keys es) key)
      → ((insert fmt key value f).0 ≡ ok (lookup key es))
        × (get fmt (insert fmt key value f).1 x ≡ ok (if key == x then some value else lookup x es))
  overwrites x i (ok (found m)) lt at e loc =
      let (old, read, is_entry, is_key) =
        read_entry-Stores fmt st m (omega (arith, loc.0, length-keys es)) in
      let first : (j : ℕ) → j < m → keys es ! j ≢ key =
        λ j p. omega (arith, up j m p loc.0, loc.1) in
      let (runs, after) =
        insert-Stores_found fmt f hd ss es st m key value old.1 e
          (omega (arith, loc.0, length-keys es)) read c in
      (
        ap (λ p. p.0) runs ∙ ap ok (sym (lookup_present key m es old is_entry loc.1 first)),
        rw (runs, get-lookup fmt _ hd _ _ x after (set-IsAscending key m value es loc.1 up))
            (ap ok
              (lookup-set x key m value es (omega (arith, loc.0, length-keys es)) loc.1 first)),
      )
  overwrites x i (ok (not_found m)) lt at e loc =
      absurd (grind (arith, loc.1 i, loc.2 i, length-keys es))
  overwrites x i (err _) lt at e loc = absurd loc

  -- On an ascending file that stores the key at some place, `insert` of a value that fits returns
  -- the old value, and `get` then finds the new value under the key and what it found before under
  -- every other key.
  pub insert_overwrites :
      (x i : ℕ)
      → i < length es
      → keys es ! i ≡ key
      → ((insert fmt key value f).0 ≡ ok (lookup key es))
        × (get fmt (insert fmt key value f).1 x ≡ ok (if key == x then some value else lookup x es))
  insert_overwrites x i lt at = overwrites x i (binary_search fmt f key) lt at refl search_loc

  module _ (absent : (j : ℕ) → j < length (keys es) → keys es ! j ≢ key) where
    at_front :
        (x : ℕ) (r : Result BokkenError SearchResult)
        → ((j : ℕ) → 1 ≤ j → j < length (keys es) → key < keys es ! j)
        → binary_search fmt f key ≡ r
        → Returns r (Locates (keys es) key)
        → ((insert fmt key value f).0 ≡ ok none)
          × (get fmt (insert fmt key value f).1 x
              ≡ ok (if key == x then some value else lookup x es))
    at_front x (ok (found m)) above e loc = absurd (absent m loc.0 loc.1)
    at_front x (ok (not_found m)) above e loc =
        let small : m ≤ 1 = grind (arith, loc.0, loc.1 1, above 1) in
        let le : m ≤ length es = omega (arith, loc.0, length-keys es) in
        let (runs, after) = insert-Stores fmt f hd ss es st m key value e le c in
        (
          ap (λ p. p.0) runs,
          rw
              (
                runs,
                get-lookup fmt _ hd _ _ x after
                    (inserted_front-IsAscending key m value es small loc up),
              )
              (ap ok (lookup-inserted_front x key m value es small le absent)),
        )
    at_front x (err _) above e loc = absurd loc

    -- On an ascending file, a new key with at most one stored key below it and with a value that
    -- fits is inserted as into a map: `insert` returns `None`, and `get` then finds the new value,
    -- and the old ones under every other key.
    pub insert_front :
        (x : ℕ)
        → ((j : ℕ) → 1 ≤ j → j < length (keys es) → key < keys es ! j)
        → ((insert fmt key value f).0 ≡ ok none)
          × (get fmt (insert fmt key value f).1 x
              ≡ ok (if key == x then some value else lookup x es))
    insert_front x above = at_front x (binary_search fmt f key) above refl search_loc

    loses :
        (j : ℕ) (r : Result BokkenError SearchResult)
        → 1 ≤ j
        → j < length (keys es)
        → keys es ! j < key
        → (suc j < length (keys es) → key < keys es ! suc j)
        → binary_search fmt f key ≡ r
        → Returns r (Locates (keys es) key)
        → get fmt (insert fmt key value f).1 (keys es ! j) ≡ ok none
    loses j (ok (found m)) pos lt below above e loc = absurd (absent m loc.0 loc.1)
    loses j (ok (not_found m)) pos lt below above e loc =
        let ks = keys es in
        let place : m ≡ suc j = grind (arith, loc.0, loc.1 (suc j), loc.2 j) in
        let (runs, after) =
          insert-Stores fmt f hd ss es st m key value e (omega (arith, loc.0, length-keys es)) c in
        let eq = keys-inserted es m key value in
        rw runs (
          get_absent fmt _ hd _ _ (ks ! j) after (rw eq (inserted-IsSorted ks m key up loc)) (
            rw eq λ i p. ground (
              arith,
              length-inserted ks m key,
              inserted_at ks m key i loc.0 (omega (arith, length-inserted ks m key)),
              up 0 j,
              up (i - 1) j,
              up j (i - 1),
            )))
    loses j (err _) pos lt below above e loc = absurd loc

    -- On an ascending file, a new key with two or more stored keys below it and with a value that
    -- fits makes `insert` lose the greatest of these keys: `get` found it before, and returns `None`
    -- there afterwards.
    pub insert_loses_key :
        (j : ℕ)
        → 1 ≤ j
        → j < length (keys es)
        → keys es ! j < key
        → (suc j < length (keys es) → key < keys es ! suc j)
        → ((v : T) × (get fmt f (keys es ! j) ≡ ok (some v)))
          × (get fmt (insert fmt key value f).1 (keys es ! j) ≡ ok none)
    insert_loses_key j pos lt below above =
        let (old, read, is_entry, is_key) =
          read_entry-Stores fmt st j (omega (arith, length-keys es)) in
        (
          (
            old.1,
            get-lookup fmt f hd ss es (keys es ! j) st up
                ∙ ap ok (
                    lookup_present (keys es ! j) j es old is_entry refl
                      (λ i p. omega (arith, up i j p lt))),
          ),
          loses j (binary_search fmt f key) pos lt below above refl search_loc,
        )
