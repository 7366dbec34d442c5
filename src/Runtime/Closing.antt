-- ===== src/Runtime/Closing.antt =====
-- The loop of lib.rs at a connection that the validator has closed.
use bokken.Prelude.{ℕ, ◌≤◌, ◌≡◌, refl, ◌∙◌, true, List, [], ◌∷◌, ◌++◌, map, Bytes, length}
use bokken.Prelude.Result.{Result}
use bokken.Errors.{IoErrorKind}
use bokken.Ipc.Reading.{frames, AllFramable}
use bokken.Ipc.Receiving.{Wire, Move, hands, closes, polls, hand, close, stopped}
use bokken.Ipc.Waiting.{new_wire}
use bokken.Ipc.Closing.{hand_all, close-Over}
use bokken.ProgramCaller.{ValidatorMessage}
use bokken.Syscalls.{Syscalls, Host}
use bokken.Runtime.{stops, ipc_read_loop}

module _ (host : Host) (decode : Bytes → Result IoErrorKind ValidatorMessage) where
  -- The reading task alone.
  read_alone :
      (ks : List ℕ) (moves : List Move) (w : Wire) (s : Syscalls)
      → ipc_read_loop host decode (map hands ks ++ moves) w s
        ≡ ipc_read_loop host decode moves (hand_all ks w) s
  unfolding ipc_read_loop
  read_alone [] moves w s = refl
  read_alone (k ∷ ks) moves w s = read_alone ks moves (hand k w) s

  at_end :
      (k : ℕ) (moves : List Move) (w : Wire) (s : Syscalls)
      → (hand k (close w)).comm.task.should_stop ≡ true
      → ipc_read_loop host decode (closes ∷ hands k ∷ polls ∷ moves) w s ≡ (stops, s)
  unfolding ipc_read_loop stopped
  at_end k moves w s e = rw e

  -- The validator sends messages and closes the connection, and the reading task has read all that
  -- before the loop looks again: then all the messages are on the queue, and the loop stops without
  -- having handled any.
  pub ipc_read_loop_loses :
      (ks : List ℕ) (k : ℕ) (moves : List Move) (ms : List Bytes) (s : Syscalls)
      → AllFramable ms
      → length (frames ms) ≤ length ks
      → ((hand k (close (hand_all ks (new_wire ms)))).comm.task.recv_queue ≡ ms)
        × (ipc_read_loop host decode
              (map hands ks ++ closes ∷ hands k ∷ polls ∷ moves)
              (new_wire ms)
              s
            ≡ (stops, s))
  ipc_read_loop_loses ks k moves ms s ok fits =
      let over = close-Over ks k ms ok fits in
      (
        over.queued,
        read_alone ks (closes ∷ hands k ∷ polls ∷ moves) (new_wire ms) s
            ∙ at_end k moves (hand_all ks (new_wire ms)) s over.at_end,
      )
