-- ===== src/IndexFile/Appending.antt =====
-- `append` of utils/indexable_file.rs: one more entry at the end, or no change.
use bokken.Prelude.{
  ℕ, zero, suc, ◌+◌, ◌-◌, ◌*◌, ◌≤◌, ◌<◌, ◌≡◌, refl, sym, ap, ◌∙◌, false, ◌&&◌, List, [], ◌∷◌, ◌++◌,
  append-nil, append_assoc, arith, Bytes, length, replicate, length-append, length-replicate, ltb,
  leb, ◌==◌, if◌then◌else◌, some,
}
use bokken.Prelude.Result.{ok, err}
use bokken.Errors.{cannot_append_to_index, io, write_zero}
use bokken.FileBytes.{set_len_grow}
use bokken.IndexFile.{Format, IndexableFile, stride, index_to_offset, len, is_unsorted, get}
use bokken.IndexFile.Editing.{grow, append}
use bokken.IndexFile.Layout.{
  flat, flat-append, ◌!◌, keys, length-keys, AllEncode, Stores, length-flat, AllEncode-append,
  len-Stores, read_identifier-Stores,
}
use bokken.IndexFile.Lookup.{IsAscending, lookup, get-lookup}
use bokken.IndexFile.Slots.{
  slot_bytes, Codable, Codable-record, serialize_into_fits, serialize_into_too_long,
  slot_bytes-Encodes, write_entry_parts,
}

module _ {T : Type 0} (fmt : Format T) where
  -- Slots stay readable when only the bytes and the size of the file change.
  pub AllEncode-record :
      (f : IndexableFile) (file : Bytes) (n : ℕ) (ss : List Bytes) (es : List (ℕ × T))
      → AllEncode fmt f ss es
      → AllEncode fmt (record f { file = file; file_len = n }) ss es
  unfolding stride
  AllEncode-record f file n [] [] h = h
  AllEncode-record f file n [] (e ∷ es) h = h
  AllEncode-record f file n (s ∷ ss) [] h = h
  AllEncode-record f file n (s ∷ ss) (e ∷ es) h = (
    record { sized = h.0.sized; identifier = h.0.identifier; entry = h.0.entry },
    AllEncode-record f file n ss es h.1,
  )

  -- What a successful `append` leaves behind.
  abbrev pub appended : IndexableFile → ℕ → T → IndexableFile
  appended f key value = record f {
    file = f.file ++ slot_bytes fmt f key value;
    file_len = length f.file + stride fmt f;
  }

  module _ (f : IndexableFile) (hd : Bytes) (ss : List Bytes) (es : List (ℕ × T))
      (st : Stores fmt f hd ss es) where
    -- The size of the file that stores `es`.
    pub length-file-Stores : length f.file ≡ fmt.header_size + length es * stride fmt f
    length-file-Stores = omega (
      arith,
      ap length st.content,
      length-append hd (flat ss),
      length-flat fmt f ss es st.entries,
      st.header,
    )

    -- Growing appends one slot of zeros.
    pub grow-Stores : grow fmt f ≡ record f {
      file = f.file ++ replicate (stride fmt f) 0;
      file_len = length f.file + stride fmt f;
    }
    unfolding grow index_to_offset
    grow-Stores =
        let e : fmt.header_size + (length es + 1) * stride fmt f ≡ length f.file + stride fmt f =
          omega (arith, length-file-Stores) in
        simp (len-Stores fmt f hd ss es st, e, set_len_grow f.file (stride fmt f))

    -- The test for a key that may not be appended.
    pub is_unsorted-Stores :
        (key : ℕ)
        → is_unsorted fmt key f ≡ ok (ltb 0 (length es) && leb key (keys es ! (length es - 1)))
    unfolding is_unsorted
    is_unsorted-Stores key =
        elim es
            as (λ ds.
              length es ≡ length ds
              → is_unsorted fmt key f
                ≡ ok (ltb 0 (length ds) && leb key (keys es ! (length ds - 1)))) [
                  | [] ↦ λ e. ground (arith, len-Stores fmt f hd ss es st)
                  | d ∷ ds ↦ λ e. ground (
                    arith,
                    len-Stores fmt f hd ss es st,
                    read_identifier-Stores fmt st (length es - 1),
                  )
                ]
          refl

    append_runs :
        (key : ℕ) (value : T)
        → is_unsorted fmt key f ≡ ok false
        → Codable fmt f key value
        → append fmt key value f ≡ (ok tt, appended f key value)
    unfolding append stride index_to_offset
    append_runs key value sorted c =
        let n = stride fmt f in
        let g = record f { file = f.file ++ replicate n 0; file_len = length f.file + n } in
        ground (
          arith,
          sorted,
          grow-Stores,
          len-Stores fmt f hd ss es st,
          serialize_into_fits f.entry_size (fmt.encode_entry value) c.entry_fits,
          write_entry_parts fmt g.file g.file_len f.entry_size f.identifier_is_separate (length es)
              key value f.file (replicate n 0) []
              (Codable-record fmt f g.file g.file_len key value c)
              (ap (◌++◌ f.file) (sym (append-nil (replicate n 0)))) length-file-Stores
              (length-replicate n 0),
          append-nil (slot_bytes fmt f key value),
        )

    -- What `append` leaves behind stores the new entry behind the old ones.
    pub appended-Stores :
        (key : ℕ) (value : T)
        → Codable fmt f key value
        → Stores fmt
            (appended f key value)
            hd
            (ss ++ slot_bytes fmt f key value ∷ [])
            (es ++ (key, value) ∷ [])
    unfolding stride
    appended-Stores key value c =
        let g = appended f key value in
        let slot = slot_bytes fmt f key value in
        let new =
          slot_bytes-Encodes fmt g.file g.file_len f.entry_size f.identifier_is_separate key value
            (Codable-record fmt f g.file g.file_len key value c) in
        record {
          header = st.header;
          content =
              ap (λ z. z ++ slot) st.content
              ∙ append_assoc hd (flat ss) slot
              ∙ ap (◌++◌ hd) (rw (flat-append ss (slot ∷ []), append-nil slot));
          size = omega (arith, length-append f.file slot, new.sized);
          entries =
              AllEncode-append fmt g ss (slot ∷ []) es ((key, value) ∷ [])
                (AllEncode-record f g.file g.file_len ss es st.entries) (new, tt);
          room = st.room;
          inside = st.inside;
        }

    -- On a file that stores entries, a key that is not above the last one is refused, and the file
    -- stays as it is.
    append_unsorted :
        (key : ℕ) (value : T)
        → 0 < length es
        → key ≤ keys es ! (length es - 1)
        → append fmt key value f ≡ (err cannot_append_to_index, f)
    unfolding append
    append_unsorted key value some_entry low = ground (arith, is_unsorted-Stores key)

    -- On a file whose keys are all below the new one, a value whose encoding is longer than an entry
    -- makes `append` fail after the file has grown: one slot of zeros stays behind.
    pub append_too_long :
        (key : ℕ) (value : T)
        → ((j : ℕ) → j < length es → keys es ! j < key)
        → f.entry_size < length (fmt.encode_entry value)
        → append fmt key value f ≡ (
          err (io write_zero),
          record f {
            file = f.file ++ replicate (stride fmt f) 0;
            file_len = length f.file + stride fmt f;
          },
        )
    unfolding append
    append_too_long key value above long = ground (
      arith,
      is_unsorted-Stores key,
      above (length es - 1),
      grow-Stores,
      serialize_into_too_long f.entry_size (fmt.encode_entry value) long,
    )

    -- A key above all stored ones is appended: the call succeeds, and the file then stores the old
    -- entries and the new one behind them.
    pub append-Stores :
        (key : ℕ) (value : T)
        → ((j : ℕ) → j < length es → keys es ! j < key)
        → Codable fmt f key value
        → (append fmt key value f ≡ (ok tt, appended f key value))
          × Stores fmt
              (appended f key value)
              hd
              (ss ++ slot_bytes fmt f key value ∷ [])
              (es ++ (key, value) ∷ [])
    append-Stores key value above c = (
      append_runs key value (ground (arith, is_unsorted-Stores key, above (length es - 1))) c,
      appended-Stores key value c,
    )

module _ {T : Type 0} where
  lookup-append :
      (x key : ℕ) (value : T) (es : List (ℕ × T))
      → ((j : ℕ) → j < length es → keys es ! j < key)
      → lookup x (es ++ (key, value) ∷ []) ≡ (if key == x then some value else lookup x es)
  unfolding lookup
  lookup-append x key value [] above = refl
  lookup-append x key value ((k, v) ∷ es) above = ground (
    arith,
    above 0 (omega arith),
    lookup-append x key value es (λ j p. above (suc j) (omega arith)),
  )

  pub keys-append :
      (j key : ℕ) (value : T) (es : List (ℕ × T))
      → j < suc (length es)
      → keys (es ++ (key, value) ∷ []) ! j ≡ (if ltb j (length es) then keys es ! j else key)
  keys-append zero key value [] h = refl
  keys-append (suc j) key value [] h = absurd (omega arith)
  keys-append zero key value (e ∷ es) h = ground arith
  keys-append (suc j) key value (e ∷ es) h =
      ground (arith, keys-append j key value es (omega arith))

  pub IsAscending-append :
      (key : ℕ) (value : T) (es : List (ℕ × T))
      → IsAscending (keys es)
      → ((j : ℕ) → j < length es → keys es ! j < key)
      → IsAscending (keys (es ++ (key, value) ∷ []))
  IsAscending-append key value es up above i j lt len =
      let inside : j < suc (length es) =
        omega
          (arith, length-keys (es ++ (key, value) ∷ []), length-append es ((key, value) ∷ [])) in
      ground (
        arith,
        keys-append i key value es (omega arith),
        keys-append j key value es inside,
        up i j,
        above i,
        length-keys es,
      )

module _ {T : Type 0} (fmt : Format T) where
  -- After a key above all stored ones has been appended to an ascending file, with a value that fits
  -- into an entry, `get` returns the new value under the new key and what it returned before under
  -- every other key.
  pub get-append :
      (f : IndexableFile) (hd : Bytes) (ss : List Bytes) (es : List (ℕ × T)) (key x : ℕ) (value : T)
      → Stores fmt f hd ss es
      → IsAscending (keys es)
      → ((j : ℕ) → j < length es → keys es ! j < key)
      → Codable fmt f key value
      → get fmt (append fmt key value f).1 x ≡ ok (if key == x then some value else lookup x es)
  get-append f hd ss es key x value st up above c =
      let (runs, after) = append-Stores fmt f hd ss es st key value above c in
      rw
        (
          runs,
          get-lookup fmt (appended fmt f key value) hd _ _ x after
              (IsAscending-append key value es up above),
        )
        (ap ok (lookup-append x key value es above))
