-- ===== src/IndexFile/Tests.antt =====
-- Concrete files of utils/indexable_file.rs.
use bokken.Prelude.{
  ℕ, zero, suc, ◌<◌, ◌≤◌, ◌≡◌, ◌≢◌, refl, true, Option, none, some, List, [], ◌∷◌, arith, Bytes,
  length,
}
use bokken.Prelude.Result.{ok}
use bokken.IndexFile.{Format, IndexableFile, stride, binary_search, get}
use bokken.IndexFile.Editing.{insert, append}
use bokken.IndexFile.Layout.{◌!◌, keys, Stores}
use bokken.IndexFile.Bisection.{Locates, Returns, binary_search-Locates}
use bokken.IndexFile.Lookup.{IsAscending, IsAscending→IsSorted, lookup, get-lookup}
use bokken.IndexFile.Slots.{Codable}
use bokken.IndexFile.Appending.{get-append}
use bokken.IndexFile.SortedMap.{insert_front, insert_loses_key}

abbrev head_byte : Bytes → Option ℕ
head_byte [] = none
head_byte (b ∷ bs) = some b

-- Values of one byte, and an encoding of two bytes for the values from 100.
abbrev encode_small : ℕ → Bytes
encode_small n = elim (Prim.Native.Nat.compare n 100) [
  | Prim.Native.Nat.Ordering.lt ↦ n ∷ []
  | _ ↦ n ∷ 0 ∷ []
]

abbrev byte_format : Format ℕ
byte_format = record {
  header_size = 2;
  identifier_size = 1;
  encode_identifier = λ k. k ∷ [];
  decode_identifier = head_byte;
  encode_entry = encode_small;
  decode_entry = head_byte;
}

abbrev two_file : IndexableFile
two_file = record {
  file = 0 ∷ 0 ∷ 1 ∷ 10 ∷ 3 ∷ 30 ∷ [];
  file_len = 6;
  entry_size = 1;
  identifier_is_separate = true;
}

abbrev two_slots : List Bytes
two_slots = (1 ∷ 10 ∷ []) ∷ (3 ∷ 30 ∷ []) ∷ []

abbrev two_entries : List (ℕ × ℕ)
two_entries = (1, 10) ∷ (3, 30) ∷ []

two_file-Stores : Stores byte_format two_file (0 ∷ 0 ∷ []) two_slots two_entries
unfolding stride
two_file-Stores = record {
  header = refl;
  content = refl;
  size = refl;
  entries = (
    record { sized = refl; identifier = refl; entry = refl },
    (record { sized = refl; identifier = refl; entry = refl }, tt),
  );
  room = omega arith;
  inside = omega arith;
}

two_entries-IsAscending : IsAscending (keys two_entries)
two_entries-IsAscending zero zero h l = absurd (omega arith)
two_entries-IsAscending zero (suc zero) h l = omega arith
two_entries-IsAscending zero (suc (suc j)) h l = absurd (omega arith)
two_entries-IsAscending (suc i) j h l = absurd (omega arith)

two_below : (k : ℕ) → 3 < k → (j : ℕ) → j < length two_entries → keys two_entries ! j < k
two_below k h zero l = omega arith
two_below k h (suc zero) l = omega arith
two_below k h (suc (suc j)) l = absurd (omega arith)

codable : (k : ℕ) → Codable byte_format two_file k 50
codable k = record {
  identifier_fits = λ e. omega arith;
  entry_fits = omega arith;
  own_identifier = λ n e. refl;
  shared_identifier = λ n e. ground arith;
  entry_back = λ n. refl;
}

two_absent :
    (k : ℕ) → k ≢ 1 → k ≢ 3 → (j : ℕ) → j < length (keys two_entries) → keys two_entries ! j ≢ k
two_absent k a b zero l e = a (omega arith)
two_absent k a b (suc zero) l e = b (omega arith)
two_absent k a b (suc (suc j)) l e = absurd (omega arith)

two_above :
    (k : ℕ) → k < 3 → (j : ℕ) → 1 ≤ j → j < length (keys two_entries) → k < keys two_entries ! j
two_above k h zero p l = absurd (omega arith)
two_above k h (suc zero) p l = omega arith
two_above k h (suc (suc j)) p l = absurd (omega arith)

binary_search-Locates_example :
    Returns (binary_search byte_format two_file 2) (Locates (keys two_entries) 2)
binary_search-Locates_example =
    binary_search-Locates byte_format two_file (0 ∷ 0 ∷ []) two_slots two_entries 2 two_file-Stores
      (IsAscending→IsSorted (keys two_entries) two_entries-IsAscending)

get-lookup_example : get byte_format two_file 3 ≡ ok (some 30)
unfolding lookup
get-lookup_example =
    get-lookup byte_format two_file (0 ∷ 0 ∷ []) two_slots two_entries 3 two_file-Stores
      two_entries-IsAscending

get-append_example : get byte_format (append byte_format 7 50 two_file).1 7 ≡ ok (some 50)
get-append_example =
    get-append byte_format two_file (0 ∷ 0 ∷ []) two_slots two_entries 7 7 50 two_file-Stores
      two_entries-IsAscending (two_below 7 (omega arith)) (codable 7)

insert_front_example :
    ((insert byte_format 2 50 two_file).0 ≡ ok none)
    × (get byte_format (insert byte_format 2 50 two_file).1 1 ≡ ok (some 10))
unfolding lookup
insert_front_example =
    insert_front byte_format two_file (0 ∷ 0 ∷ []) two_slots two_entries two_file-Stores
      two_entries-IsAscending 2 50 (codable 2) (two_absent 2 (λ e. omega arith) (λ e. omega arith))
      1 (two_above 2 (omega arith))

insert_loses_key_example :
    ((v : ℕ) × (get byte_format two_file 3 ≡ ok (some v)))
    × (get byte_format (insert byte_format 7 50 two_file).1 3 ≡ ok none)
insert_loses_key_example =
    insert_loses_key byte_format two_file (0 ∷ 0 ∷ []) two_slots two_entries two_file-Stores
      two_entries-IsAscending 7 50 (codable 7) (two_absent 7 (λ e. omega arith) (λ e. omega arith))
      1 (omega arith) (omega arith) (omega arith) (λ h. absurd (omega arith))
