-- ===== src/IndexFile/Inserted.antt =====
-- What `insert` of utils/indexable_file.rs makes of the sorted map that the file stands for.
use bokken.Prelude.{
  ℕ, zero, suc, ◌-◌, ◌*◌, ◌≤◌, ◌<◌, ◌≡◌, ◌≢◌, refl, ap, some, none, List, [], ◌∷◌, ◌++◌, arith,
  Bytes, length, set, ◌==◌, if◌then◌else◌, length-append, length-set,
}
use bokken.Prelude.Result.{ok}
use bokken.IndexFile.{
  Format, IndexableFile, found, not_found, stride, binary_search, old_entry, read_entry_at_index,
}
use bokken.IndexFile.Editing.{make_room, insert}
use bokken.IndexFile.Layout.{flat, ◌!◌, keys, Stores, AllEncode, AllEncode-length, length-flat}
use bokken.IndexFile.Bisection.{IsSorted, Locates}
use bokken.IndexFile.Lookup.{IsAscending, lookup}
use bokken.IndexFile.Slots.{
  slot_bytes, Codable, Codable-record, slot_bytes-Encodes, serialize_into_fits,
}
use bokken.IndexFile.Appending.{AllEncode-record, length-file-Stores}
use bokken.IndexFile.Inserting.{
  inserted, inserted_file, insert_runs, write_entry_slots, AllEncode-set, AllEncode-inserted,
  AllEncode-sized,
}

pub length-inserted {ℓ} :
    {A : Type ℓ} (xs : List A) (k : ℕ) (a : A) → length (inserted xs k a) ≡ suc (length xs)
length-inserted [] k a = refl
length-inserted (x ∷ xs) k a = length-set (x ∷ x ∷ xs) k a

set_at : (ks : List ℕ) (k v i : ℕ) → i < length ks → set ks k v ! i ≡ (if i == k then v else ks ! i)
set_at [] k v i h = absurd (omega arith)
set_at (x ∷ ks) zero v zero h = refl
set_at (x ∷ ks) zero v (suc i) h = ground arith
set_at (x ∷ ks) (suc k) v zero h = ground arith
set_at (x ∷ ks) (suc k) v (suc i) h = ground (arith, set_at ks k v i (omega arith))

-- Each identifier after `insert` by its place: the new one, the doubled first, or its left neighbour.
pub inserted_at :
    (ks : List ℕ) (k v i : ℕ)
    → k ≤ length ks
    → i < suc (length ks)
    → inserted ks k v ! i ≡ (if i == k then v else if i == 0 then ks ! 0 else ks ! (i - 1))
inserted_at [] zero v zero le h = refl
inserted_at [] zero v (suc i) le h = absurd (omega arith)
inserted_at [] (suc k) v i le h = absurd (omega arith)
inserted_at (x ∷ ks) k v zero le h = ground (arith, set_at (x ∷ x ∷ ks) k v 0)
inserted_at (x ∷ ks) k v (suc i) le h =
    let e : suc i - 1 ≡ i = omega arith in
    rw e (ground (arith, set_at (x ∷ x ∷ ks) k v (suc i) (omega arith)))

module _ {T : Type 0} where
  keys-set :
      (es : List (ℕ × T)) (k key : ℕ) (value : T)
      → keys (set es k (key, value)) ≡ set (keys es) k key
  keys-set [] k key value = refl
  keys-set (e ∷ es) zero key value = refl
  keys-set (e ∷ es) (suc k) key value = ap (◌∷◌ e.0) (keys-set es k key value)

  pub keys-inserted :
      (es : List (ℕ × T)) (k key : ℕ) (value : T)
      → keys (inserted es k (key, value)) ≡ inserted (keys es) k key
  keys-inserted [] k key value = refl
  keys-inserted (e ∷ es) k key value = keys-set (e ∷ e ∷ es) k key value

-- The identifiers stay sorted, though the first may now stand twice.
pub inserted-IsSorted :
    (ks : List ℕ) (k key : ℕ)
    → IsAscending ks
    → Locates ks key (not_found k)
    → IsSorted (inserted ks k key)
inserted-IsSorted ks k key up loc i j le lt =
    let size : length (inserted ks k key) ≡ suc (length ks) = length-inserted ks k key in
    ground (
      arith,
      size,
      inserted_at ks k key i loc.0 (omega arith),
      inserted_at ks k key j loc.0 (omega arith),
      loc.1 (i - 1),
      loc.1 0,
      loc.2 (j - 1),
      up (i - 1) (j - 1),
      up 0 (j - 1),
    )

module _ {T : Type 0} (fmt : Format T) (f : IndexableFile) (hd : Bytes) (ss : List Bytes)
    (es : List (ℕ × T)) (st : Stores fmt f hd ss es) where
  -- An `insert` whose search ends at `k` without finding the key succeeds and returns `None`, and
  -- the file then stores the entries `inserted es k (key, value)`: the new entry at place `k`, the
  -- entries from `k` on behind it, but before it the first entry twice and the one before `k` lost.
  pub insert-Stores :
      (k key : ℕ) (value : T)
      → binary_search fmt f key ≡ ok (not_found k)
      → k ≤ length es
      → Codable fmt f key value
      → (insert fmt key value f ≡ (ok none, inserted_file fmt f hd ss k key value))
        × Stores fmt
            (inserted_file fmt f hd ss k key value)
            hd
            (inserted ss k (slot_bytes fmt f key value))
            (inserted es k (key, value))
  unfolding stride
  insert-Stores k key value search le c = (
    insert_runs fmt f hd ss es st k key value search le c,
    let g = inserted_file fmt f hd ss k key value in
        let slot = slot_bytes fmt f key value in
        let entries : AllEncode fmt g (inserted ss k slot) (inserted es k (key, value)) =
          AllEncode-inserted fmt g ss es k slot (key, value)
            (AllEncode-record fmt f g.file g.file_len ss es st.entries)
            (slot_bytes-Encodes fmt g.file g.file_len f.entry_size f.identifier_is_separate key
              value (Codable-record fmt f g.file g.file_len key value c)) in
        record {
          header = st.header;
          content = refl;
          size = omega (
            arith,
            length-append hd (flat (inserted ss k slot)),
            length-flat fmt g (inserted ss k slot) (inserted es k (key, value)) entries,
            length-file-Stores fmt f hd ss es st,
            st.header,
            ap (λ n. n * stride fmt f) (length-inserted es k (key, value)),
          );
          entries = entries;
          room = st.room;
          inside = st.inside;
        },
  )

  -- An `insert` whose search finds the key at `i` returns the old value and overwrites that entry.
  pub insert-Stores_found :
      (i key : ℕ) (value old : T)
      → binary_search fmt f key ≡ ok (found i)
      → i < length es
      → read_entry_at_index fmt f i ≡ ok old
      → Codable fmt f key value
      → let g = record f { file = hd ++ flat (set ss i (slot_bytes fmt f key value)) } in
        (insert fmt key value f ≡ (ok (some old), g))
        × Stores fmt g hd (set ss i (slot_bytes fmt f key value)) (set es i (key, value))
  unfolding insert old_entry make_room stride
  insert-Stores_found i key value old search lt read c =
      let slot = slot_bytes fmt f key value in
      let g = record f { file = hd ++ flat (set ss i slot) } in
      let entries : AllEncode fmt g (set ss i slot) (set es i (key, value)) =
        AllEncode-set fmt g ss es i slot (key, value)
          (AllEncode-record fmt f g.file g.file_len ss es st.entries)
          (slot_bytes-Encodes fmt g.file g.file_len f.entry_size f.identifier_is_separate key value
            (Codable-record fmt f g.file g.file_len key value c)) in
      (
        ground (
          arith,
          search,
          read,
          serialize_into_fits f.entry_size (fmt.encode_entry value) c.entry_fits,
          write_entry_slots fmt f hd ss i key value st.content st.header
              (AllEncode-sized fmt f hd ss es st ss es st.entries)
              (omega (arith, AllEncode-length fmt f ss es st.entries)) c,
        ),
        record {
          header = st.header;
          content = refl;
          size = omega (
            arith,
            st.size,
            length-append hd (flat (set ss i slot)),
            length-flat fmt g (set ss i slot) (set es i (key, value)) entries,
            length-file-Stores fmt f hd ss es st,
            st.header,
            ap (λ n. n * stride fmt f) (length-set es i (key, value)),
          );
          entries = entries;
          room = st.room;
          inside = st.inside;
        },
      )

module _ {T : Type 0} where
  pub lookup-set :
      (x key i : ℕ) (value : T) (es : List (ℕ × T))
      → i < length es
      → keys es ! i ≡ key
      → ((j : ℕ) → j < i → keys es ! j ≢ key)
      → lookup x (set es i (key, value)) ≡ (if key == x then some value else lookup x es)
  unfolding lookup
  lookup-set x key i value [] lt at first = absurd (omega arith)
  lookup-set x key zero value ((k, v) ∷ es) lt at first = ground arith
  lookup-set x key (suc i) value ((k, v) ∷ es) lt at first = ground (
    arith,
    first 0 (omega arith),
    lookup-set x key i value es (omega arith) at (λ j p. first (suc j) (omega arith)),
  )

  pub set-IsAscending :
      (key i : ℕ) (value : T) (es : List (ℕ × T))
      → keys es ! i ≡ key
      → IsAscending (keys es)
      → IsAscending (keys (set es i (key, value)))
  set-IsAscending key i value es at up a b lt len =
      let size : length (set (keys es) i key) ≡ length (keys es) = length-set (keys es) i key in
      let inside : b < length (keys es) =
        omega (arith, size, ap length (keys-set es i key value)) in
      rw (keys-set es i key value) (
        ground
          (arith, set_at (keys es) i key a (omega arith), set_at (keys es) i key b inside, up a b))

  pub lookup-inserted_front :
      (x key k : ℕ) (value : T) (es : List (ℕ × T))
      → k ≤ 1
      → k ≤ length es
      → ((j : ℕ) → j < length (keys es) → keys es ! j ≢ key)
      → lookup x (inserted es k (key, value)) ≡ (if key == x then some value else lookup x es)
  unfolding lookup
  lookup-inserted_front x key k value [] small le absent = ground arith
  lookup-inserted_front x key zero value (e ∷ es) small le absent = ground arith
  lookup-inserted_front x key (suc zero) value (e ∷ es) small le absent =
      ground (arith, absent 0 (omega arith))
  lookup-inserted_front x key (suc (suc k)) value (e ∷ es) small le absent = absurd (omega arith)

  pub inserted_front-IsAscending :
      (key k : ℕ) (value : T) (es : List (ℕ × T))
      → k ≤ 1
      → Locates (keys es) key (not_found k)
      → IsAscending (keys es)
      → IsAscending (keys (inserted es k (key, value)))
  inserted_front-IsAscending key k value es small loc up a b lt len =
      let ks = keys es in
      let eq : keys (inserted es k (key, value)) ≡ inserted ks k key =
        keys-inserted es k key value in
      let inside : b < suc (length ks) = omega (arith, ap length eq, length-inserted ks k key) in
      rw eq (
        ground (
          arith,
          inserted_at ks k key a loc.0 (omega arith),
          inserted_at ks k key b loc.0 inside,
          loc.1 (a - 1),
          loc.1 0,
          loc.2 (b - 1),
          up (a - 1) (b - 1),
          up 0 (b - 1),
        ))
