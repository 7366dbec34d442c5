-- ===== src/IndexFile.antt =====
-- solana-debug-validator/src/utils/indexable_file.rs: `IndexableFile`, a file of equal-sized
-- entries behind a header, searched by bisection. The identifier types in use, `u64` and
-- `[u8; 64]`, are ordered as the numbers that they spell, so an identifier is a number. How borsh
-- writes and reads an identifier and an entry is the `Format`. The lock on the file is held by
-- each call from its start to its end, so calls do not interleave. Offsets stay below 2^64, as
-- they do in a file on a disk. This module has the state and the reading calls; `Editing` has the
-- writing ones.
pub mod Editing
pub mod Layout
pub mod Bisection
pub mod Lookup
pub mod Slots
pub mod Appending
pub mod Inserting
pub mod Inserted
pub mod SortedMap
mod Tests
use Prim.Native.Nat.{compare, Ordering}
use bokken.Prelude.{
  ℕ, zero, suc, ◌+◌, ◌-◌, ◌*◌, ◌/◌, Bool, true, false, Option, none, some, List, ◌++◌, Bytes,
  length, replicate, ltb, leb, ◌==◌, if◌then◌else◌,
}
use bokken.Prelude.Result.{Result, ok, err, ◌>>=◌, ◌>>◌, fail_if, ok_or}
use bokken.Errors.{
  BokkenError, IoErrorKind, io, write_zero, invalid_data, unexpected_end_of_file,
  index_file_out_of_bounds,
}
use bokken.FileBytes.{read_exact, set_len, write}

-- The const generics HEADER_SIZE and IDENTIFIER_SIZE, and the borsh code of both types.
pub record Format (T : Type 0) : Type 0 where
  pub header_size : ℕ
  pub identifier_size : ℕ
  pub encode_identifier : ℕ → Bytes
  pub decode_identifier : Bytes → Option ℕ
  pub encode_entry : T → Bytes
  pub decode_entry : Bytes → Option T

pub record IndexableFile : Type 0 where
  pub file : Bytes
  pub file_len : ℕ
  pub entry_size : ℕ
  pub identifier_is_separate : Bool

pub data SearchResult : Type 0 where
  found not_found : ℕ → SearchResult

-- `OpenOptions` with `truncate(true)`: whatever the file held is gone. The first argument is what the
-- file has held, or the error of `open` or `metadata`.
unfoldable pub new : Result IoErrorKind Bytes → ℕ → Bool → Result BokkenError IndexableFile
new (err e) entry_size separate = err (io e)
new (ok old_content) entry_size separate = ok (record {
  file = set_len old_content 0;
  file_len = 0;
  entry_size = entry_size;
  identifier_is_separate = separate;
})

-- `b as u64`
abbrev pub as_u64 : Bool → ℕ
as_u64 true = 1
as_u64 false = 0

-- `value.serialize(&mut buffer.as_mut_slice())` into a buffer of `n` zeros.
pub serialize_into : ℕ → Bytes → Result BokkenError Bytes
serialize_into n bytes =
    if leb (length bytes) n
    then ok (bytes ++ replicate (n - length bytes) 0)
    else err (io write_zero)

module _ {T : Type 0} (fmt : Format T) where
  -- The bytes between the starts of two neighbouring entries.
  unfoldable pub stride : IndexableFile → ℕ
  stride f = fmt.identifier_size * as_u64 f.identifier_is_separate + f.entry_size

  pub index_to_offset : IndexableFile → ℕ → ℕ
  index_to_offset f index = fmt.header_size + index * stride f

  pub len : IndexableFile → ℕ
  len f = if f.file_len == 0 then 0 else (f.file_len - fmt.header_size) / stride f

  unfoldable check_index : IndexableFile → ℕ → Result BokkenError (Unit {0})
  check_index f index = fail_if (leb (len f) index) (index_file_out_of_bounds index (len f))

  -- `None` for a file that is shorter than its header.
  unfoldable pub read_file_header : IndexableFile → Option Bytes
  read_file_header f = elim (read_exact f.file 0 fmt.header_size) [
    | ok bytes ↦ some bytes
    | err e ↦ none
  ]

  unfoldable pub write_file_header : Bytes → IndexableFile → IndexableFile
  write_file_header header_bytes f =
      let grown =
        (if ltb f.file_len fmt.header_size
          then record f { file = set_len f.file fmt.header_size; file_len = fmt.header_size }
          else f) in
      record grown { file = write grown.file 0 header_bytes }

  pub read_identifier_at_index : IndexableFile → ℕ → Result BokkenError ℕ
  read_identifier_at_index f index = do
    bytes ← read_exact f.file (index_to_offset f index) fmt.identifier_size
    fail_if (ltb (length bytes) fmt.identifier_size) unexpected_end_of_file
    ok_or (fmt.decode_identifier bytes) (io invalid_data)

  -- An identifier with bytes of its own stands before its entry.
  pub entry_offset : IndexableFile → ℕ → ℕ
  entry_offset f index =
      index_to_offset f index + fmt.identifier_size * as_u64 f.identifier_is_separate

  pub read_entry_at_index : IndexableFile → ℕ → Result BokkenError T
  read_entry_at_index f index = do
    bytes ← read_exact f.file (entry_offset f index) f.entry_size
    fail_if (ltb (length bytes) f.entry_size) unexpected_end_of_file
    ok_or (fmt.decode_entry bytes) (io invalid_data)

  -- The `while` loop, one unit of fuel to a round.
  pub search_loop : ℕ → IndexableFile → ℕ → (size left right : ℕ) → Result BokkenError SearchResult
  search_loop zero f x size left right = ok (not_found left)
  search_loop (suc fuel) f x size left right =
      let mid = left + size / 2 in
      let upper = search_loop fuel f x (right - (mid + 1)) (mid + 1) right in
      let lower = search_loop fuel f x (mid - left) left mid in
      if ltb left right
      then (read_identifier_at_index f mid >>= λ identifier. elim (compare identifier x) [
        | Ordering.lt ↦ upper
        | Ordering.gt ↦ lower
        | Ordering.eq ↦ ok (found mid)
      ])
      else ok (not_found left)

  pub binary_search : IndexableFile → ℕ → Result BokkenError SearchResult
  binary_search f x = search_loop (len f) f x (len f) 0 (len f)

  -- The pair that `first` and `last` read.
  pub read_pair : IndexableFile → ℕ → Result BokkenError (Option (ℕ × T))
  read_pair f index = do
    identifier ← read_identifier_at_index f index
    entry ← read_entry_at_index f index
    ok (some (identifier, entry))

  pub first : IndexableFile → Result BokkenError (Option (ℕ × T))
  first f = if len f == 0 then ok none else read_pair f 0

  pub last : IndexableFile → Result BokkenError (Option (ℕ × T))
  last f = if len f == 0 then ok none else read_pair f (len f - 1)

  pub get : IndexableFile → ℕ → Result BokkenError (Option T)
  get f key = do
    result ← binary_search f key
    elim result [
      | found index ↦ do entry ← read_entry_at_index f index; ok (some entry)
      | not_found _ ↦ ok none
    ]

  -- What `insert` takes from its search: the place, and the old value if there is one.
  pub old_entry : SearchResult → IndexableFile → Result BokkenError (ℕ × Option T)
  old_entry (found index) f = do entry ← read_entry_at_index f index; ok (index, some entry)
  old_entry (not_found index) f = ok (index, none)

  -- The test of `append`: there is a last identifier, and `*key` is not above it.
  pub is_unsorted : ℕ → IndexableFile → Result BokkenError Bool
  is_unsorted key f =
      if ltb 0 (len f)
      then (read_identifier_at_index f (len f - 1) >>= λ identifier. ok (leb key identifier))
      else ok false
