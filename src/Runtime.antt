-- ===== src/Runtime.antt =====
-- solana-debug-runtime/src/lib.rs: the loop that takes the validator's messages off the connection
-- and hands them to the program's side. The decoding is borsh's.
pub mod Dispatch
pub mod Closing
pub mod Entry
pub mod Registering
mod Tests
use bokken.Prelude.{ℕ, List, [], ◌∷◌, Bytes, if◌then◌else◌}
use bokken.Prelude.Result.{Result, ok, err}
use bokken.Errors.{IoErrorKind}
use bokken.Ipc.Receiving.{
  Wire, Move, hands, breaks, closes, polls, hand, break, close, dequeue, stopped,
}
use bokken.ProgramCaller.{ValidatorMessage}
use bokken.Syscalls.{Syscalls, Halt, Host}
use bokken.Syscalls.Running.{on_message}

-- Why the loop fails: a message that cannot be decoded, or what its handling came to.
pub data Failure : Type 0 where
  undecodable : IoErrorKind → Failure
  halted : Halt → Failure

-- The loop ends at a connection that is stopped, or with an error, or has not ended yet.
pub data LoopEnd : Type 0 where
  stops : LoopEnd
  fails : Failure → LoopEnd
  goes_on : LoopEnd

module _ (host : Host) (decode : Bytes → Result IoErrorKind ValidatorMessage) where
  -- One message: `recv_msg().await?` has it decoded, and the match has it handled.
  unfoldable pub handle : Bytes → Syscalls → Result Failure (Unit {0}) × Syscalls
  handle msg_bytes s = elim (decode msg_bytes) [
    | err e ↦ (err (undecodable e), s)
    | ok message ↦
        let (r, t) = on_message host message s in
        elim r [ ok answer ↦ (ok tt, t) | err h ↦ (err (halted h), t) ]
  ]

  unfoldable pub ipc_read_loop : List Move → Wire → Syscalls → LoopEnd × Syscalls
  ipc_read_loop [] w s = (goes_on, s)
  ipc_read_loop (hands k ∷ moves) w s = ipc_read_loop moves (hand k w) s
  ipc_read_loop (breaks e ∷ moves) w s = ipc_read_loop moves (break e w) s
  ipc_read_loop (closes ∷ moves) w s = ipc_read_loop moves (close w) s
  ipc_read_loop (polls ∷ moves) w s =
      let next : LoopEnd × Syscalls = elim w.comm.task.recv_queue [
        | [] ↦ ipc_read_loop moves w s
        | msg_bytes ∷ queue ↦
            let (r, t) = handle msg_bytes s in
            elim r [ err e ↦ (fails e, t) | ok _ ↦ ipc_read_loop moves (dequeue queue w) t ]
      ] in
      if stopped w.comm then (stops, s) else next
