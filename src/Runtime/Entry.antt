-- ===== src/Runtime/Entry.antt =====
-- `bokken_runtime_main` of solana-debug-runtime/src/lib.rs: a program connects, tells the validator its
-- id and goes into its loop.
use Prim.Native.String.{String}
use bokken.Prelude.{ℕ, true, Option, none, some, List, [], Bytes}
use bokken.Prelude.Result.{Result, ok, err}
use bokken.Errors.{IoErrorKind}
use bokken.Ipc.{send_msg}
use bokken.Ipc.Receiving.{Wire, Move, new_comm}
use bokken.ProgramCaller.{ValidatorMessage}
use bokken.Syscalls.{Syscalls, Host}
use bokken.Runtime.{LoopEnd, ipc_read_loop}

pub record CommandOptions : Type 0 where
  pub socket_path : String
  pub program_id : ℕ

-- The state of `BokkenSyscalls::new`.
unfoldable pub new_syscalls : (program_id : ℕ) → Syscalls
new_syscalls program_id = record {
  program_id = program_id;
  contexts = [];
  invoke_result_senders = [];
  return_data = none;
  sent = [];
}

-- The program cannot connect or encode its id, or it has sent its id and the loop has come to an end.
-- What its system calls send follows the queue that is there when the loop starts.
pub data MainEnd : Type 0 where
  not_connected : IoErrorKind → MainEnd
  not_encoded : IoErrorKind → MainEnd
  has_run : (send_queue : List Bytes) → LoopEnd → Syscalls → MainEnd

module _ (host : Host) (decode : Bytes → Result IoErrorKind ValidatorMessage)
    (connect : String → Option IoErrorKind) (encode_id : ℕ → Result IoErrorKind Bytes) where
  -- The task that writes and the other end act as the moves say.
  unfoldable pub bokken_runtime_main : CommandOptions → List Move → (pending : Bytes) → MainEnd
  bokken_runtime_main opts moves pending = elim (connect opts.socket_path) [
    | some e ↦ not_connected e
    | none ↦ elim (encode_id opts.program_id) [
      | err e ↦ not_encoded e
      | ok msg_bytes ↦
          let comm : Wire = record { comm = new_comm; pending = pending; is_open = true } in
          let (e, s) = ipc_read_loop host decode moves comm (new_syscalls opts.program_id) in
          has_run (send_msg [] msg_bytes) e s
    ]
  ]
