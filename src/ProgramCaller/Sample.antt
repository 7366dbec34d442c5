-- ===== src/ProgramCaller/Sample.antt =====
-- Sample values for tests of program_caller.rs.
use bokken.Prelude.{some}
use bokken.Prelude.Result.{ok}
use bokken.Errors.{invalid_argument}
use bokken.SystemProgram.{create_account}
use bokken.ProgramCaller.{Natives}

abbrev pub natives : Natives
natives = record {
  system_program_id = 0;
  host = record {
    decode_instruction = λ bytes. some (create_account 40 2 9);
    create_with_seed = λ base seed owner. ok base;
    show_size = λ n. "some";
  };
  error_code = λ e. 1;
  program_error = λ code. invalid_argument;
  show_key = λ key. "key";
  show_depth = λ depth. "1";
  show_error = λ e. "error";
}
