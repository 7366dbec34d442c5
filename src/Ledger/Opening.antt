-- ===== src/Ledger/Opening.antt =====
-- How a ledger is opened (`BokkenLedger::new` of debug_ledger.rs), with what the directory holds.
use bokken.Prelude.{ℕ, Bool, true, false, Option, [], Bytes}
use bokken.Prelude.Result.{Result, ok, err}
use bokken.Prelude.Maps.{Map}
use bokken.Errors.{BokkenError, IoErrorKind, io}
use bokken.IndexFile.{Format, IndexableFile, stride, read_file_header, write_file_header, last}
use bokken.IndexFile
use bokken.LedgerFile
use bokken.LedgerFile.{Codec, SlotEntryRaw, LedgerFile, entry_size, load_header}
use bokken.Ledger.{Fault, failed, Ledger, Environment}
use bokken.Ledger.Execution.{new}

-- What `create_dir` finds: the directory is made, it is there with accounts, or it cannot be made.
pub data Directory : Type 0 where
  created : Directory
  existing : Map (Map Bytes) → Directory
  unusable : IoErrorKind → Directory

module _ {Tx : Type 0} (env : Environment Tx) where
  -- What follows `BokkenLedgerFile::new`.
  unfoldable pub on_state :
      (fresh : Bool)
      → Map (Map Bytes)
      → (old_index : Result IoErrorKind Bytes) → Option (ℕ × ℕ)
      → Result BokkenError LedgerFile
      → Result Fault Ledger
  on_state fresh accounts old_index init (err e) = err (failed e)
  on_state fresh accounts old_index init (ok state) = elim (IndexFile.new old_index 8 true) [
    | err e ↦ err (failed e)
    | ok transaction_index ↦
        new env fresh init
          (record { accounts = accounts; transaction_index = transaction_index; state = state })
  ]

  -- `BokkenLedger::new` behind `create_dir`, with what its two files have held or why they are
  -- not opened.
  unfoldable pub open_files :
      (fresh : Bool)
      → Map (Map Bytes)
      → (old_index old_state : Result IoErrorKind Bytes) → Option (ℕ × ℕ)
      → Result Fault Ledger
  open_files fresh accounts old_index old_state init =
      on_state fresh accounts old_index init (LedgerFile.new env.codec env.block_format old_state)

  unfoldable pub open_ledger :
      Directory
      → (old_index old_state : Result IoErrorKind Bytes) → Option (ℕ × ℕ)
      → Result Fault Ledger
  open_ledger created old_index old_state init = open_files true [] old_index old_state init
  open_ledger (existing accounts) old_index old_state init =
      open_files false accounts old_index old_state init
  open_ledger (unusable e) old_index old_state init = err (failed (io e))
