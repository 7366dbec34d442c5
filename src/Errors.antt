-- ===== src/Errors.antt =====
-- solana-debug-validator/src/error.rs: the error values that the ledger and the endpoint pass on.
-- `BokkenDetailedError` is a box round a `BokkenError` with a backtrace, so both are one type here.
-- Of the errors of other crates only the kinds that this code names or returns are told apart.
use Prim.Native.String.{String}
use mathlib.Core.List.{List}
use bokken.Prelude.{ℕ}

-- `std::io::ErrorKind`
pub data IoErrorKind : Type 0 where
  unexpected_eof not_found already_exists would_block write_zero invalid_data other_kind :
      IoErrorKind

-- `solana_sdk::program_error::ProgramError`, as rpc_endpoint.rs lists its constructors.
pub data ProgramError : Type 0 where
  custom : ℕ → ProgramError
  invalid_argument invalid_instruction_data invalid_account_data : ProgramError
  account_data_too_small insufficient_funds incorrect_program_id : ProgramError
  missing_required_signature account_already_initialized uninitialized_account : ProgramError
  not_enough_account_keys account_borrow_failed max_seed_length_exceeded : ProgramError
  invalid_seeds account_not_rent_exempt unsupported_sysvar : ProgramError
  borsh_io_error : String → ProgramError
  illegal_owner max_accounts_data_size_exceeded invalid_realloc : ProgramError

-- `solana_sdk::transaction::TransactionError`: the two that the ledger makes.
pub data TransactionError : Type 0 where
  account_not_found insufficient_funds_for_fee : TransactionError

pub data BokkenError : Type 0 where
  should_not_happen init_config_is_none unimplemented : BokkenError
  io : IoErrorKind → BokkenError
  base64_decode_error base58_decode_error bincode_decode_error : BokkenError
  transaction_error : TransactionError → BokkenError
  sanitize_error pubkey_parse_error program_closed_connection stopping : BokkenError
  instruction_exec_error : ℕ → ProgramError → List String → BokkenError
  maximum_serialization_length_exceeded : String → ℕ → ℕ → BokkenError
  cannot_append_to_index unexpected_end_of_file : BokkenError
  index_file_out_of_bounds : ℕ → ℕ → BokkenError
  invalid_signature_length : BokkenError
