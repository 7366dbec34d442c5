-- ===== src/LedgerFile/Blocks.antt =====
-- The blocks of debug_ledger/ledger_file.rs: appended under the next slot, read back by slot.
use Prim.Native.String.{String}
use bokken.Prelude.{
  ℕ, suc, ◌+◌, ◌<◌, ◌≤◌, ◌≡◌, ◌≢◌, refl, ap, ◌∙◌, Option, none, some, List, [], ◌∷◌, ◌++◌, arith,
  Bytes, length, ◌==◌, if◌then◌else◌, length-append, inl, inr, Bool-cases, subst,
}
use bokken.Prelude.Result.{Result, ok}
use bokken.Errors.{BokkenError, TransactionError}
use bokken.IndexFile.{Format, get}
use bokken.IndexFile.Layout.{◌!◌, keys, Stores}
use bokken.IndexFile.Lookup.{IsAscending, lookup, get-lookup}
use bokken.IndexFile.Slots.{Codable, slot_bytes}
use bokken.IndexFile.Appending.{
  appended, append-Stores, get-append, IsAscending-append, keys-append,
}
use bokken.LedgerFile.{
  Codec, SlotEntryRaw, SlotEntry, LedgerFile, raw_error, from_raw, to_raw, read_block_at_slot,
  new_block, append_new_block, stamp, after_append, block_of, entry_of, assemble,
}

-- What bincode promises.
pub record Bincode {Tx : Type 0} (codec : Codec Tx) : Type 0 where
  pub tx : (t : Tx) → codec.decode_tx (codec.encode_tx t) ≡ some t
  pub tx_error : (e : TransactionError) → codec.decode_tx_error (codec.encode_tx_error e) ≡ some e
  pub tx_error_bytes : (e : TransactionError) → length (codec.encode_tx_error e) ≢ 0

module _ {Tx : Type 0} (codec : Codec Tx) where
  no_raw_error : raw_error codec [] ≡ some none
  unfolding raw_error
  no_raw_error = refl

  raw_error_of :
      (b : Bincode codec) (e : TransactionError)
      → raw_error codec (codec.encode_tx_error e) ≡ some (some e)
  unfolding raw_error
  raw_error_of b e = ground (arith, b.tx_error e, b.tx_error_bytes e)

  -- Where bincode reads what it wrote, and writes no error as no bytes, a block survives its raw
  -- form.
  pub from_raw-to_raw :
      Bincode codec → (value : SlotEntry Tx) → from_raw codec (to_raw codec value) ≡ some value
  unfolding from_raw to_raw assemble
  from_raw-to_raw b value = with_error value.tx_error
    where
      with_error :
          (o : Option TransactionError)
          → from_raw codec (to_raw codec (record value { tx_error = o }))
            ≡ some (record value { tx_error = o })
      with_error none =
          let raw = to_raw codec (record value { tx_error = none }) in
          ap (λ t. assemble codec raw t (raw_error codec [])) (b.tx value.tx_data)
          ∙ ap (assemble codec raw (some value.tx_data)) no_raw_error
      with_error (some x) =
          let raw = to_raw codec (record value { tx_error = some x }) in
          ap (λ t. assemble codec raw t (raw_error codec (codec.encode_tx_error x)))
            (b.tx value.tx_data)
          ∙ ap (assemble codec raw (some value.tx_data)) (raw_error_of b x)

  module _ (fmt : Format SlotEntryRaw) where
    block_of_raw :
        Bincode codec
        → (value : SlotEntry Tx)
        → block_of codec fmt (ok (some (to_raw codec value))) ≡ some (ok (some value))
    unfolding block_of entry_of
    block_of_raw b value = ap (entry_of codec fmt) (from_raw-to_raw b value)

    -- The file holds blocks in ascending order, none above the slot of the ledger.
    pub record Chain (l : LedgerFile) (hd : Bytes) (ss : List Bytes) (es : List (ℕ × SlotEntryRaw))
        : Type 0 where
      pub stores : Stores fmt l.indexed_file hd ss es
      pub ascending : IsAscending (keys es)
      pub bounded : (j : ℕ) → j < length es → keys es ! j ≤ l.slot

    module _ (timestamp : ℕ) (tx : Tx) (tx_error : Option TransactionError)
        (tx_return_data : Option (ℕ × Bytes)) (tx_logs : List String) (l : LedgerFile) (hd : Bytes)
        (ss : List Bytes) (es : List (ℕ × SlotEntryRaw)) (c : Chain l hd ss es) where
      abbrev block : SlotEntry Tx
      block = new_block codec fmt timestamp tx tx_error tx_return_data tx_logs l

      abbrev after : Result BokkenError (Unit {0}) × LedgerFile
      after = append_new_block codec fmt timestamp tx tx_error tx_return_data tx_logs l

      above : (j : ℕ) → j < length es → keys es ! j < l.slot + 1
      above j h = omega (arith, c.bounded j h)

      appends :
          Codable fmt l.indexed_file (l.slot + 1) (to_raw codec block)
          → after ≡ (
            ok tt,
            record l {
              indexed_file = appended fmt l.indexed_file (l.slot + 1) (to_raw codec block);
              slot = l.slot + 1;
              blockhash = stamp (l.slot + 1) l.blockhash;
            },
          )
      unfolding append_new_block after_append
      appends d =
          ap (after_append codec fmt l)
            (append-Stores fmt l.indexed_file hd ss es c.stores (l.slot + 1) (to_raw codec block)
              above d).0

      bounded_after :
          (j : ℕ)
          → j < length (es ++ (l.slot + 1, to_raw codec block) ∷ [])
          → keys (es ++ (l.slot + 1, to_raw codec block) ∷ []) ! j ≤ l.slot + 1
      bounded_after j h =
          let inside : j < suc (length es) =
            omega (arith, length-append es ((l.slot + 1, to_raw codec block) ∷ [])) in
          ground (arith, keys-append j (l.slot + 1) (to_raw codec block) es inside, c.bounded j)

      -- On a file of ascending blocks, none above the slot of the ledger, and with a block that fits
      -- into an entry: the call succeeds, the slot goes up by one, and the file holds the old blocks
      -- and the new one behind them, still in ascending order and none above the slot.
      pub append_new_block-Chain :
          Codable fmt l.indexed_file (l.slot + 1) (to_raw codec block)
          → (after.0 ≡ ok tt)
            × (after.1.slot ≡ l.slot + 1)
            × Chain after.1 hd
                (ss ++ slot_bytes fmt l.indexed_file (l.slot + 1) (to_raw codec block) ∷ [])
                (es ++ (l.slot + 1, to_raw codec block) ∷ [])
      append_new_block-Chain d = rw (appends d) (
        refl,
        refl,
        record {
          stores =
              (append-Stores fmt l.indexed_file hd ss es c.stores (l.slot + 1) (to_raw codec block)
                above d).1;
          ascending = IsAscending-append (l.slot + 1) (to_raw codec block) es c.ascending above;
          bounded = bounded_after;
        },
      )

      read_cases :
          (x : ℕ)
          → Bincode codec
          → block_of codec fmt
              (ok (if l.slot + 1 == x then some (to_raw codec block) else lookup x es))
            ≡ (if l.slot + 1 == x
                then some (ok (some block))
                else block_of codec fmt (ok (lookup x es)))
      read_cases x b = elim (Bool-cases (l.slot + 1 == x)) [
        | inl e ↦ rw e (block_of_raw b block)
        | inr e ↦ rw e
      ]

      -- On a file of ascending blocks, none above the slot of the ledger, with a block that fits into
      -- an entry and where bincode reads what it wrote: afterwards the new slot reads as the block
      -- that was made, and every other slot as before.
      pub read-append_new_block :
          (x : ℕ)
          → Bincode codec
          → Codable fmt l.indexed_file (l.slot + 1) (to_raw codec block)
          → read_block_at_slot codec fmt x after.1
            ≡ (if l.slot + 1 == x then some (ok (some block)) else read_block_at_slot codec fmt x l)
      unfolding read_block_at_slot
      read-append_new_block x b d =
          let old =
            append-Stores fmt l.indexed_file hd ss es c.stores (l.slot + 1) (to_raw codec block)
              above d in
          let now : get fmt (appended fmt l.indexed_file (l.slot + 1) (to_raw codec block)) x
              ≡ ok (if l.slot + 1 == x then some (to_raw codec block) else lookup x es) =
            subst
              (λ p.
                get fmt p.1 x
                ≡ ok (if l.slot + 1 == x then some (to_raw codec block) else lookup x es))
              old.0
              (get-append fmt l.indexed_file hd ss es (l.slot + 1) x (to_raw codec block) c.stores
                c.ascending above d) in
          rw (appends d, now, get-lookup fmt l.indexed_file hd ss es x c.stores c.ascending)
            (read_cases x b)
