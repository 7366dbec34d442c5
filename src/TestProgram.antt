-- ===== src/TestProgram.antt =====
-- test-program/src: the sample program, its instructions and its state. borsh, the clock and `invoke`
-- are parameters. What `msg!` formats is kept as its values.
pub mod Recursing
mod Tests
use bokken.Prelude.{
  ℕ, zero, suc, ◌+◌, ◌-◌, ◌*◌, ◌%◌, ◌^◌, Bool, true, false, ◌&&◌, Option, none, some, List, [], ◌∷◌,
  ◌++◌, map, Bytes, length, take, drop, to_le_bytes, from_le_bytes, leb, ◌==◌, if◌then◌else◌,
}
use bokken.Prelude.Result.{Result, ok, err, ok_or}
use bokken.Prelude.Action.{Action, raise, reads, modify, ◌>>=◌, ◌>>◌}
use bokken.Prelude.Maps.{Map, get, insert}
use bokken.Errors.{ProgramError, invalid_instruction_data, not_enough_account_keys}
use bokken.Account.{AccountMeta}
use bokken.Syscalls.{Instruction}

pub data TestProgramInstruction : Type 0 where
  hello_world : TestProgramInstruction
  increment_number : (amount : ℕ) → TestProgramInstruction
  recurse_then_increment_number : (call_depth amount : ℕ) → TestProgramInstruction

pub record TestProgramState : Type 0 where
  pub property1 : ℕ
  pub property2 : ℕ

-- What is logged.
pub data Line : Type 0 where
  not_parsed ix_hello_world ix_increment_number ix_recurse_then_increment_number : Line
  program_id_is unix_timestamp_is number_is cur_depth_is : ℕ → Line
  old_state new_state : TestProgramState → Line
  stacktrace : Line

-- The program returns an error or panics, or it is not run at all, since calls are nested too deeply.
pub data Stop : Type 0 where
  failed : ProgramError → Stop
  panicked : Stop
  too_deep : Stop

-- The data of the accounts, which all runs share, and the log.
pub record World : Type 0 where
  pub accounts : Map Bytes
  pub logs : List Line

abbrev pub Run : Type 0 → Type 0
Run = Action World Stop

unfoldable pub say : Line → Run (Unit {0})
say line = modify (λ w. record w { logs = w.logs ++ line ∷ [] })

-- The instruction that a program asks for at some depth.
unfoldable pub nested : ℕ → ℕ → TestProgramInstruction
nested depth number =
    if depth == 0 then increment_number number else recurse_then_increment_number (depth - 1) number

-- `map_err` behind `try_from_slice`.
unfoldable pub unpacked : Option TestProgramInstruction → Run TestProgramInstruction
unpacked (some instruction) = reads (λ _. ok instruction)
unpacked none = say not_parsed >> raise (failed invalid_instruction_data)

-- A sum and a product of `u64`, which panic in a build with overflow checks and wrap in others.
unfoldable pub in_u64 : (overflow_checks : Bool) → ℕ → Option ℕ
in_u64 overflow_checks n = if overflow_checks && leb (2 ^ 64) n then none else some (n % 2 ^ 64)

-- `bytemuck::from_bytes_mut`: any other length is a panic.
unfoldable pub state_of : Bytes → Option TestProgramState
state_of bytes =
    if length bytes == 16
    then some (record {
      property1 = from_le_bytes (take 8 bytes);
      property2 = from_le_bytes (drop 8 bytes);
    })
    else none

unfoldable pub state_at : ℕ → Map Bytes → Option TestProgramState
state_at key accounts = elim (get key accounts) [ none ↦ none | some bytes ↦ state_of bytes ]

-- Writing through the reference.
unfoldable pub put_state : ℕ → TestProgramState → Run (Unit {0})
put_state key s = modify (λ w. record w {
  accounts = insert key (to_le_bytes 8 s.property1 ++ to_le_bytes 8 s.property2) w.accounts;
})

-- `next_account_info` of solana_program, as it is documented.
unfoldable pub next_account_info : List ℕ → Result Stop ℕ
next_account_info [] = err (failed not_enough_account_keys)
next_account_info (key ∷ keys) = ok key

-- How a nested run comes back: a program cannot catch a failed call, it panics.
unfoldable pub returned : Result Stop (Unit {0}) → Result Stop (Unit {0})
returned (ok _) = ok tt
returned (err (failed e)) = err panicked
returned (err panicked) = err panicked
returned (err too_deep) = err too_deep

-- `invoke` where it has the program run, on the accounts of the metas.
unfoldable pub invoke_by :
    (ℕ → List ℕ → Bytes → Run (Unit {0})) → Instruction → List ℕ → Run (Unit {0})
invoke_by run ix infos w =
    let (r, v) =
      run ix.program_id (map (λ (m : AccountMeta). m.pubkey) ix.accounts) ix.data_bytes w in
    (returned r, v)

module _ (overflow_checks : Bool) where
  unfoldable pub test_increment_func : (key : ℕ) → TestProgramState → ℕ → Run TestProgramState
  test_increment_func key test_state num = do
    one ← reads (λ _. ok_or (in_u64 overflow_checks (test_state.property1 + num)) panicked)
    put_state key (record test_state { property1 = one })
    twice ← reads (λ _. ok_or (in_u64 overflow_checks (num * 2)) panicked)
    two ← reads (λ _. ok_or (in_u64 overflow_checks (test_state.property2 + twice)) panicked)
    put_state key (record { property1 = one; property2 = two })
    say stacktrace
    reads (λ _. ok (record { property1 = one; property2 = two }))

  unfoldable pub process_increment_number :
      (clock : Result ProgramError ℕ) (program_id : ℕ) → List ℕ → ℕ → Run (Unit {0})
  process_increment_number clock program_id keys number = do
    unix_timestamp ← reads (λ _. elim clock [ ok t ↦ ok t | err e ↦ err (failed e) ])
    say (program_id_is program_id)
    say (unix_timestamp_is unix_timestamp)
    say (number_is number)
    key ← reads (λ _. next_account_info keys)
    test_state ← reads (λ w. ok_or (state_at key w.accounts) panicked)
    say (old_state test_state)
    after ← test_increment_func key test_state number
    say (new_state after)

  module _ (encode : TestProgramInstruction → Bytes)
      (decode : Bytes → Option TestProgramInstruction) (clock : Result ProgramError ℕ) where
    unfoldable pub process_recurse_then_increment_number :
        (invoke : Instruction → List ℕ → Run (Unit {0})) (program_id : ℕ)
        → List ℕ
        → (depth number : ℕ) → Run (Unit {0})
    process_recurse_then_increment_number invoke program_id keys depth number = do
      key ← reads (λ _. next_account_info keys)
      say (cur_depth_is depth)
      invoke
          (record {
            program_id = program_id;
            accounts = (record { pubkey = key; is_signer = false; is_writable = true }) ∷ [];
            data_bytes = encode (nested depth number);
          })
          (key ∷ [])

    unfoldable pub unpack : Bytes → Run TestProgramInstruction
    unpack input = unpacked (decode input)

    -- The match of `process_instruction`.
    unfoldable pub process :
        (invoke : Instruction → List ℕ → Run (Unit {0})) (program_id : ℕ)
        → List ℕ
        → TestProgramInstruction
        → Run (Unit {0})
    process invoke program_id keys hello_world = say ix_hello_world
    process invoke program_id keys (increment_number amount) =
        say ix_increment_number >> process_increment_number clock program_id keys amount
    process invoke program_id keys (recurse_then_increment_number call_depth amount) =
        say ix_recurse_then_increment_number
        >> process_recurse_then_increment_number invoke program_id keys call_depth amount

    unfoldable pub process_instruction :
        (invoke : Instruction → List ℕ → Run (Unit {0})) (program_id : ℕ)
        → List ℕ
        → Bytes
        → Run (Unit {0})
    process_instruction invoke program_id keys instruction_data =
        unpack instruction_data >>= process invoke program_id keys

    -- A runtime for this program alone: `invoke` runs it again, and at most so many runs are nested.
    unfoldable pub run_program : (runs program_id : ℕ) → List ℕ → Bytes → Run (Unit {0})
    run_program zero program_id keys instruction_data = raise too_deep
    run_program (suc runs) program_id keys instruction_data =
        process_instruction (invoke_by (run_program runs)) program_id keys instruction_data
