-- ===== src/LedgerFile.antt =====
-- solana-debug-validator/src/debug_ledger/ledger_file.rs: `BokkenLedgerFile`, the blocks of the
-- ledger in an index file under their slots. A timestamp is the number that its 64 bits spell.
-- Slots stay below 2^64. `rent_per_byte_year` sits in the header of the file.
pub mod Blocks
pub mod Logs
mod Tests
use Prim.Native.String.{String}
use bokken.Prelude.{
  ℕ, ◌+◌, ◌*◌, Option, none, some, List, [], ◌∷◌, ◌++◌, Bytes, replicate, length, take, drop, ltb,
  ◌==◌, if◌then◌else◌, false, to_le_bytes, from_le_bytes,
}
use bokken.Prelude.Result.{Result, ok, err, ◌>>=◌}
use bokken.Prelude.Action.{Action}
use bokken.Errors.{BokkenError, IoErrorKind, TransactionError}
use bokken.IndexFile.{Format, IndexableFile, get, last, read_file_header, write_file_header}
use bokken.IndexFile
use bokken.IndexFile.Editing.{append}

abbrev pub max_transaction_size : ℕ
max_transaction_size = 1232

abbrev pub default_max_log_size : ℕ
default_max_log_size = 50 * 1000

abbrev pub log_truncated_msg : String
log_truncated_msg = "Log truncated"

-- `BokkenLedgerFileSlotEntryRaw`
pub record SlotEntryRaw : Type 0 where
  pub slot : ℕ
  pub block_height : ℕ
  pub timestamp : ℕ
  pub block_hash : Bytes
  pub tx_data : Bytes
  pub tx_error : Bytes
  pub tx_return_data : Option (ℕ × Bytes)
  pub tx_logs : List String

-- `BokkenLedgerFileSlotEntry`
pub record SlotEntry (Tx : Type 0) : Type 0 where
  pub slot : ℕ
  pub block_height : ℕ
  pub timestamp : ℕ
  pub block_hash : Bytes
  pub tx_data : Tx
  pub tx_error : Option TransactionError
  pub tx_return_data : Option (ℕ × Bytes)
  pub tx_logs : List String

-- bincode on transactions and their errors, the length of a string, and sizes of types and
-- constants of solana_sdk.
pub record Codec (Tx : Type 0) : Type 0 where
  pub encode_tx : Tx → Bytes
  pub decode_tx : Bytes → Option Tx
  pub encode_tx_error : TransactionError → Bytes
  pub decode_tx_error : Bytes → Option TransactionError
  pub byte_len : String → ℕ
  pub size_of_transaction_error : ℕ
  pub max_return_data : ℕ

pub record LedgerFile : Type 0 where
  pub slot : ℕ
  pub blockhash : Bytes
  pub rent_per_byte_year : ℕ
  pub indexed_file : IndexableFile

-- `blockhash[0..8].copy_from_slice(&slot.to_le_bytes())`
unfoldable pub stamp : ℕ → Bytes → Bytes
stamp slot hash = to_le_bytes 8 slot ++ drop 8 hash

module _ {Tx : Type 0} (codec : Codec Tx) where
  -- No bytes are no error; the outer `none` is the panic of the `expect`.
  unfoldable pub raw_error : Bytes → Option (Option TransactionError)
  raw_error bytes =
      if length bytes == 0
      then some none
      else elim (codec.decode_tx_error bytes) [ none ↦ none | some e ↦ some (some e) ]

  unfoldable pub assemble :
      SlotEntryRaw → Option Tx → Option (Option TransactionError) → Option (SlotEntry Tx)
  assemble raw none error = none
  assemble raw (some tx) none = none
  assemble raw (some tx) (some error) = some (record {
    slot = raw.slot;
    block_height = raw.block_height;
    timestamp = raw.timestamp;
    block_hash = raw.block_hash;
    tx_data = tx;
    tx_error = error;
    tx_return_data = raw.tx_return_data;
    tx_logs = raw.tx_logs;
  })

  -- `From<BokkenLedgerFileSlotEntryRaw>`; `none` is the panic of an `expect`.
  unfoldable pub from_raw : SlotEntryRaw → Option (SlotEntry Tx)
  from_raw raw = assemble raw (codec.decode_tx raw.tx_data) (raw_error raw.tx_error)

  -- `From<BokkenLedgerFileSlotEntry>`
  unfoldable pub to_raw : SlotEntry Tx → SlotEntryRaw
  to_raw value = record {
    slot = value.slot;
    block_height = value.block_height;
    timestamp = value.timestamp;
    block_hash = value.block_hash;
    tx_data = codec.encode_tx value.tx_data;
    tx_error = elim value.tx_error [ none ↦ [] | some e ↦ codec.encode_tx_error e ];
    tx_return_data = value.tx_return_data;
    tx_logs = value.tx_logs;
  }

  -- The loop of `append_new_block` over the logs, from a sum of lengths so far.
  unfoldable pub truncate_logs : ℕ → List String → List String
  truncate_logs total_log_len [] = []
  truncate_logs total_log_len (log ∷ logs) =
      if ltb default_max_log_size
        (total_log_len + 4 + codec.byte_len log + codec.byte_len log_truncated_msg)
      then log_truncated_msg ∷ []
      else log ∷ truncate_logs (total_log_len + codec.byte_len log) logs

  unfoldable pub entry_size : ℕ
  entry_size =
      8 + 8 + 8 + 32 + 64 + max_transaction_size + 4 + codec.size_of_transaction_error + 1 + 32
      + codec.max_return_data + 4 + 1 + default_max_log_size + 4

  module _ (fmt : Format SlotEntryRaw) where
    -- The rent in the header, which is written if it is missing.
    unfoldable pub load_header : IndexableFile → ℕ × IndexableFile
    load_header f = elim (read_file_header fmt f) [
      | some header ↦ (from_le_bytes (take 8 header), f)
      | none ↦ (3480, write_file_header fmt (to_le_bytes 8 3480 ++ to_le_bytes 8 0) f)
    ]

    unfoldable pub new : Result IoErrorKind Bytes → Result BokkenError LedgerFile
    new old_content = IndexFile.new old_content entry_size false >>= λ file.
        let (rent, f) = load_header file in
        last fmt f >>= λ newest. elim newest [
          | some e ↦ ok (record {
            slot = e.1.slot;
            blockhash = e.1.block_hash;
            rent_per_byte_year = rent;
            indexed_file = f;
          })
          | none ↦ ok (record {
            slot = 0;
            blockhash = replicate 32 0;
            rent_per_byte_year = rent;
            indexed_file = f;
          })
        ]

    unfoldable pub entry_of :
        Option (SlotEntry Tx) → Option (Result BokkenError (Option (SlotEntry Tx)))
    entry_of none = none
    entry_of (some entry) = some (ok (some entry))

    -- The outer `none` is a panic.
    unfoldable pub block_of :
        Result BokkenError (Option SlotEntryRaw)
        → Option (Result BokkenError (Option (SlotEntry Tx)))
    block_of (err e) = some (err e)
    block_of (ok none) = some (ok none)
    block_of (ok (some raw)) = entry_of (from_raw raw)

    unfoldable pub read_block_at_slot :
        ℕ → LedgerFile → Option (Result BokkenError (Option (SlotEntry Tx)))
    read_block_at_slot slot l = block_of (get fmt l.indexed_file slot)

    -- The block that `append_new_block` makes.
    unfoldable pub new_block :
        (timestamp : ℕ)
        → Tx
        → Option TransactionError
        → Option (ℕ × Bytes)
        → List String
        → LedgerFile
        → SlotEntry Tx
    new_block timestamp tx tx_error tx_return_data tx_logs l = record {
      slot = l.slot + 1;
      block_height = l.slot + 1;
      timestamp = timestamp;
      block_hash = stamp l.slot (replicate 32 0);
      tx_data = tx;
      tx_error = tx_error;
      tx_return_data = tx_return_data;
      tx_logs = truncate_logs 0 tx_logs;
    }

    -- The slot and the blockhash change after a call of `append` that succeeds.
    unfoldable pub after_append :
        LedgerFile
        → Result BokkenError (Unit {0}) × IndexableFile
        → Result BokkenError (Unit {0}) × LedgerFile
    after_append l (err e, f) = (err e, record l { indexed_file = f })
    after_append l (ok _, f) = (
      ok tt,
      record l { indexed_file = f; slot = l.slot + 1; blockhash = stamp (l.slot + 1) l.blockhash },
    )

    unfoldable pub append_new_block :
        (timestamp : ℕ)
        → Tx
        → Option TransactionError
        → Option (ℕ × Bytes)
        → List String
        → Action LedgerFile BokkenError (Unit {0})
    append_new_block timestamp tx tx_error tx_return_data tx_logs l =
        let block = new_block timestamp tx tx_error tx_return_data tx_logs l in
        after_append l (append fmt (l.slot + 1) (to_raw block) l.indexed_file)
