-- ===== src/IndexFile/Editing.antt =====
-- solana-debug-validator/src/utils/indexable_file.rs: the calls of `IndexableFile` that write. Each
-- step leaves its writes behind when a later one fails, as `?` does.
use bokken.Prelude.{ℕ, zero, suc, ◌+◌, Option, none, some, Bytes, length, if◌then◌else◌}
use bokken.Prelude.Result.{ok}
use bokken.Prelude.Action.{Action, pure, reads, modify, raise_if, ◌>>=◌, ◌>>◌}
use bokken.Errors.{BokkenError, cannot_append_to_index}
use bokken.FileBytes.{read_exact, set_len, write}
use bokken.IndexFile.{
  Format, IndexableFile, stride, index_to_offset, len, binary_search, old_entry, is_unsorted,
  serialize_into,
}

module _ {T : Type 0} (fmt : Format T) where
  -- `set_len` to the size for one more entry.
  unfoldable pub grow : IndexableFile → IndexableFile
  grow f =
      let new_file_len = index_to_offset fmt f (len fmt f + 1) in
      record f { file = set_len f.file new_file_len; file_len = new_file_len }

  -- One round of the copying loop of `insert`: entry `i` goes to `i + 1`.
  unfoldable pub copy_up : ℕ → Action IndexableFile BokkenError (Unit {0})
  copy_up i = do
    tmp ← reads (λ f. read_exact f.file (index_to_offset fmt f i) (stride fmt f))
    modify (λ f. record f { file = write f.file (index_to_offset fmt f (i + 1)) tmp })

  -- `for i in (0..n).rev()`
  unfoldable pub copy_all_up : ℕ → Action IndexableFile BokkenError (Unit {0})
  copy_all_up zero = pure tt
  copy_all_up (suc i) = copy_up i >> copy_all_up i

  -- The end of `insert` and of `append`: the identifier, if it has bytes of its own, then the entry.
  unfoldable pub write_entry : ℕ → ℕ → Bytes → Action IndexableFile BokkenError (Unit {0})
  write_entry index key entry_bytes f =
      let offset = index_to_offset fmt f index in
      if f.identifier_is_separate
      then (do
        identifier_bytes ←
            reads (λ _. serialize_into fmt.identifier_size (fmt.encode_identifier key))
        modify (λ g. record g { file = write g.file offset identifier_bytes })
        modify
            (λ g. record g { file = write g.file (offset + length identifier_bytes) entry_bytes }))
          f
      else modify (λ g. record g { file = write g.file offset entry_bytes }) f

  -- `if old_value.is_none()`: make room.
  unfoldable pub make_room : Option T → Action IndexableFile BokkenError (Unit {0})
  make_room (some _) f = (ok tt, f)
  make_room none f = copy_all_up (len fmt f) (grow f)

  unfoldable pub insert : ℕ → T → Action IndexableFile BokkenError (Option T)
  insert key value = do
    result ← reads (λ f. binary_search fmt f key)
    (index, old_value) ← reads (old_entry fmt result)
    make_room old_value
    entry_bytes ← reads (λ f. serialize_into f.entry_size (fmt.encode_entry value))
    write_entry index key entry_bytes
    pure old_value

  unfoldable pub append : ℕ → T → Action IndexableFile BokkenError (Unit {0})
  append key value = do
    unsorted ← reads (is_unsorted fmt key)
    raise_if unsorted cannot_append_to_index
    old_len ← reads (λ f. ok (len fmt f))
    modify grow
    entry_bytes ← reads (λ f. serialize_into f.entry_size (fmt.encode_entry value))
    write_entry old_len key entry_bytes
