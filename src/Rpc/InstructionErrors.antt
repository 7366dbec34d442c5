-- ===== src/Rpc/InstructionErrors.antt =====
-- The errors of instructions that rpc_endpoint.rs reports.
use Prim.Native.String.{String}
use bokken.Prelude.{ℕ, ◌≡◌, refl, sym, ap, ◌∙◌}
use bokken.Errors.{
  ProgramError, custom as program_custom, invalid_argument as program_invalid_argument,
  invalid_instruction_data as program_invalid_instruction_data,
  invalid_account_data as program_invalid_account_data,
  account_data_too_small as program_account_data_too_small,
  insufficient_funds as program_insufficient_funds,
  incorrect_program_id as program_incorrect_program_id,
  missing_required_signature as program_missing_required_signature,
  account_already_initialized as program_account_already_initialized,
  uninitialized_account as program_uninitialized_account,
  not_enough_account_keys as program_not_enough_account_keys,
  account_borrow_failed as program_account_borrow_failed,
  max_seed_length_exceeded as program_max_seed_length_exceeded,
  invalid_seeds as program_invalid_seeds,
  account_not_rent_exempt as program_account_not_rent_exempt,
  unsupported_sysvar as program_unsupported_sysvar, borsh_io_error as program_borsh_io_error,
  illegal_owner as program_illegal_owner,
  max_accounts_data_size_exceeded as program_max_accounts_data_size_exceeded,
  invalid_realloc as program_invalid_realloc,
}

-- `solana_sdk::instruction::InstructionError`: the constructors that the endpoint makes.
pub data InstructionError : Type 0 where
  custom : ℕ → InstructionError
  borsh_io_error : String → InstructionError
  invalid_argument invalid_instruction_data invalid_account_data : InstructionError
  account_data_too_small insufficient_funds incorrect_program_id : InstructionError
  missing_required_signature account_already_initialized uninitialized_account : InstructionError
  not_enough_account_keys account_borrow_failed max_seed_length_exceeded : InstructionError
  invalid_seeds account_not_rent_exempt unsupported_sysvar : InstructionError
  illegal_owner max_accounts_data_size_exceeded invalid_realloc : InstructionError

-- The match in `_simulate_transaction`.
unfoldable pub to_instruction_error : ProgramError → InstructionError
to_instruction_error (program_custom n) = custom n
to_instruction_error (program_borsh_io_error s) = borsh_io_error s
to_instruction_error program_invalid_argument = invalid_argument
to_instruction_error program_invalid_instruction_data = invalid_instruction_data
to_instruction_error program_invalid_account_data = invalid_account_data
to_instruction_error program_account_data_too_small = account_data_too_small
to_instruction_error program_insufficient_funds = insufficient_funds
to_instruction_error program_incorrect_program_id = incorrect_program_id
to_instruction_error program_missing_required_signature = missing_required_signature
to_instruction_error program_account_already_initialized = account_already_initialized
to_instruction_error program_uninitialized_account = uninitialized_account
to_instruction_error program_not_enough_account_keys = not_enough_account_keys
to_instruction_error program_account_borrow_failed = account_borrow_failed
to_instruction_error program_max_seed_length_exceeded = max_seed_length_exceeded
to_instruction_error program_invalid_seeds = invalid_seeds
to_instruction_error program_account_not_rent_exempt = account_not_rent_exempt
to_instruction_error program_unsupported_sysvar = unsupported_sysvar
to_instruction_error program_illegal_owner = illegal_owner
to_instruction_error program_max_accounts_data_size_exceeded = max_accounts_data_size_exceeded
to_instruction_error program_invalid_realloc = invalid_realloc

-- The way back.
of_instruction_error : InstructionError → ProgramError
of_instruction_error (custom n) = program_custom n
of_instruction_error (borsh_io_error s) = program_borsh_io_error s
of_instruction_error invalid_argument = program_invalid_argument
of_instruction_error invalid_instruction_data = program_invalid_instruction_data
of_instruction_error invalid_account_data = program_invalid_account_data
of_instruction_error account_data_too_small = program_account_data_too_small
of_instruction_error insufficient_funds = program_insufficient_funds
of_instruction_error incorrect_program_id = program_incorrect_program_id
of_instruction_error missing_required_signature = program_missing_required_signature
of_instruction_error account_already_initialized = program_account_already_initialized
of_instruction_error uninitialized_account = program_uninitialized_account
of_instruction_error not_enough_account_keys = program_not_enough_account_keys
of_instruction_error account_borrow_failed = program_account_borrow_failed
of_instruction_error max_seed_length_exceeded = program_max_seed_length_exceeded
of_instruction_error invalid_seeds = program_invalid_seeds
of_instruction_error account_not_rent_exempt = program_account_not_rent_exempt
of_instruction_error unsupported_sysvar = program_unsupported_sysvar
of_instruction_error illegal_owner = program_illegal_owner
of_instruction_error max_accounts_data_size_exceeded = program_max_accounts_data_size_exceeded
of_instruction_error invalid_realloc = program_invalid_realloc

of-to_instruction_error : (e : ProgramError) → of_instruction_error (to_instruction_error e) ≡ e
unfolding to_instruction_error of_instruction_error
of-to_instruction_error (program_custom n) = refl
of-to_instruction_error (program_borsh_io_error s) = refl
of-to_instruction_error program_invalid_argument = refl
of-to_instruction_error program_invalid_instruction_data = refl
of-to_instruction_error program_invalid_account_data = refl
of-to_instruction_error program_account_data_too_small = refl
of-to_instruction_error program_insufficient_funds = refl
of-to_instruction_error program_incorrect_program_id = refl
of-to_instruction_error program_missing_required_signature = refl
of-to_instruction_error program_account_already_initialized = refl
of-to_instruction_error program_uninitialized_account = refl
of-to_instruction_error program_not_enough_account_keys = refl
of-to_instruction_error program_account_borrow_failed = refl
of-to_instruction_error program_max_seed_length_exceeded = refl
of-to_instruction_error program_invalid_seeds = refl
of-to_instruction_error program_account_not_rent_exempt = refl
of-to_instruction_error program_unsupported_sysvar = refl
of-to_instruction_error program_illegal_owner = refl
of-to_instruction_error program_max_accounts_data_size_exceeded = refl
of-to_instruction_error program_invalid_realloc = refl

-- No two errors of programs are reported as the same one.
pub to_instruction_error_injective :
    (d e : ProgramError) → to_instruction_error d ≡ to_instruction_error e → d ≡ e
to_instruction_error_injective d e same =
    sym (of-to_instruction_error d) ∙ ap of_instruction_error same ∙ of-to_instruction_error e
