-- ===== src/Runtime/Tests.antt =====
-- Concrete messages through the loop of lib.rs.
use bokken.Prelude.{
  true, ℕ, refl, ◌≡◌, ◌++◌, map, none, List, [], ◌∷◌, arith, Bytes, replicate, to_le_bytes,
}
use bokken.Prelude.Result.{Result, ok, err}
use bokken.Errors.{IoErrorKind, invalid_data}
use bokken.Ipc.Reading.{frames}
use bokken.Ipc.Receiving.{Move, hands, closes, polls, hand, close}
use bokken.Ipc.Waiting.{new_wire}
use bokken.Ipc.Closing.{hand_all}
use bokken.ProgramCaller.{ValidatorMessage, cross_program_invoke_result}
use bokken.Prelude.Maps.{insert}
use bokken.Ipc.{wrote, send_msg}
use bokken.Ipc.Writing.{write_loop}
use bokken.Ipc.Receiving.{Wire}
use bokken.ProgramCaller.Listening.{connects, listen}
use bokken.Runtime.{LoopEnd}
use bokken.Runtime.Entry.{CommandOptions, has_run, bokken_runtime_main}
use bokken.Runtime.Registering.{bokken_runtime_main-listen}
use bokken.Syscalls.{Host, Syscalls}
use bokken.Runtime.{stops, ipc_read_loop}
use bokken.Runtime.Dispatch.{AllHandled, ipc_read_loop_all}
use bokken.Runtime.Closing.{ipc_read_loop_loses}

abbrev host : Host
host = record {
  max_increase = 8;
  create_program_address = λ seed program. ok 60;
  rent_id = 101;
  clock_id = 100;
  epoch_schedule_id = 102;
  unsupported_sysvar = 7;
  needs_signature = λ key. "unsigned";
  show_fields = λ fields. "";
  panic_code = 1;
}

-- A message is the nonce of the answer.
abbrev decode : Bytes → Result IoErrorKind ValidatorMessage
decode [] = err invalid_data
decode (nonce ∷ bytes) = ok (cross_program_invoke_result nonce 0 [])

abbrev two_answers : List Bytes
two_answers = (4 ∷ 1 ∷ []) ∷ (5 ∷ []) ∷ []

-- Two calls wait for their answers.
abbrev two_calls : Syscalls
two_calls = record {
  program_id = 50;
  contexts = [];
  invoke_result_senders = (4, true) ∷ (5, true) ∷ [];
  return_data = none;
  sent = [];
}

-- The loop looks in vain first, and again after nine of the reads.
abbrev some_moves : List Move
some_moves =
    polls ∷ (replicate 9 (hands 3) ++ polls ∷ (replicate 10 (hands 0) ++ polls ∷ polls ∷ []))

ipc_read_loop_all_example :
    AllHandled host decode some_moves (new_wire two_answers) two_answers two_calls
unfolding frames to_le_bytes
ipc_read_loop_all_example =
    ipc_read_loop_all host decode some_moves two_answers two_calls
      (omega arith, omega arith, (omega arith, omega arith, tt)) tt (omega arith)

ipc_read_loop_loses_example :
    ((hand 0 (close (hand_all (replicate 19 1) (new_wire two_answers)))).comm.task.recv_queue
      ≡ two_answers)
    × (ipc_read_loop host decode
          (map hands (replicate 19 1) ++ closes ∷ hands 0 ∷ polls ∷ [])
          (new_wire two_answers)
          two_calls
        ≡ (stops, two_calls))
unfolding frames to_le_bytes
ipc_read_loop_loses_example =
    ipc_read_loop_loses host decode (replicate 19 1) 0 [] two_answers two_calls
      (omega arith, omega arith, (omega arith, omega arith, tt)) (omega arith)

abbrev id_of : Bytes → Result IoErrorKind ℕ
id_of [] = err invalid_data
id_of (id ∷ bytes) = ok id

abbrev program_50 : CommandOptions
program_50 = record { socket_path = "bokken.sock"; program_id = 50 }

-- The validator's listener reads all nine bytes before it looks.
bokken_runtime_main-listen_example :
    (send_queue : List Bytes) × (e : LoopEnd) × (s : Syscalls) × (w : Wire) × (bokken_runtime_main
        host decode
        (λ _. none)
        (λ id. ok (id ∷ []))
        program_50
        []
        []
      ≡ has_run send_queue e s)
    × (listen id_of
          (connects
              (replicate 9 (hands 7) ++ polls ∷ [])
              (write_loop (wrote 8 ∷ wrote 1 ∷ []) send_queue).0
            ∷ [])
          []
        ≡ listen id_of [] (insert 50 w []))
unfolding frames to_le_bytes send_msg
bokken_runtime_main-listen_example =
    bokken_runtime_main-listen host decode (λ _. none) (λ id. ok (id ∷ [])) id_of program_50 [] []
      (50 ∷ []) (wrote 8 ∷ wrote 1 ∷ []) (replicate 9 (hands 7) ++ polls ∷ []) [] [] refl refl refl
      (omega arith, omega arith, tt) (refl, (refl, tt)) (omega arith) tt (omega arith)
