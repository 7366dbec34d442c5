-- ===== src/Ipc/Identifying.antt =====
-- `until_recv_msg` and `new_with_identifier` of ipc_comm.rs: the first message, or the end of the
-- connection.
use bokken.Prelude.{
  ℕ, ◌≤◌, ◌≡◌, refl, ap, ◌∙◌, true, none, some, List, [], ◌∷◌, ◌++◌, map, Bytes, length,
}
use bokken.Prelude.Result.{Result, ok, err}
use bokken.Errors.{IoErrorKind, unexpected_eof}
use bokken.Ipc.Reading.{frames, AllFramable}
use bokken.Ipc.Receiving.{
  Wire, Move, hands, closes, polls, hand, close, stopped, new_comm, as_received, closed, failed,
  or_eof, look, wait, until_recv_msg, new_with_identifier,
}
use bokken.Ipc.Waiting.{Holds, new_wire, new_wire-Holds, Unbroken, polls_after}
use bokken.Ipc.Polling.{decoded, look_empty, on_look, wait_ends, unseen_of, wake_told, until_first}
use bokken.Ipc.Closing.{hand_all, close-Over}

module _ {R : Type 0} (decode : Bytes → Result IoErrorKind R) where
  or_eof-received : (r : Result IoErrorKind R) → or_eof (as_received r) ≡ as_received r
  unfolding or_eof as_received
  or_eof-received (ok v) = refl
  or_eof-received (err e) = refl

  -- A process connects, sends non-empty messages, and the connection neither breaks nor closes:
  -- however the reading task and the holder take turns, once the holder is polled after as many
  -- reads as the stream has bytes, it has the first message (or the error of its decoding), never a
  -- panic, and the connection still owes it exactly the others.
  pub new_with_identifier_first :
      (moves : List Move) (m : Bytes) (ms : List Bytes)
      → AllFramable (m ∷ ms)
      → Unbroken moves
      → 1 ≤ polls_after (length (frames (m ∷ ms))) moves
      → let (r, w) = new_with_identifier decode moves (frames (m ∷ ms)) true in
        (r ≡ decoded decode m) × Holds w ms
  unfolding new_with_identifier
  new_with_identifier_first moves m ms framable u enough =
      let (same, rest) =
        until_first decode moves (new_wire (m ∷ ms)) m ms u (new_wire-Holds (m ∷ ms) framable)
          enough in
      (ap or_eof same ∙ or_eof-received (decode m), rest)

  read_alone :
      (ks : List ℕ) (moves : List Move) (w : Wire)
      → wait decode (map hands ks ++ moves) w ≡ wait decode moves (hand_all ks w)
  unfolding wait
  read_alone [] moves w = refl
  read_alone (k ∷ ks) moves w = read_alone ks moves (hand k w)

  look_over : (w : Wire) → w.comm.task.should_stop ≡ true → look decode w ≡ (some closed, w)
  unfolding look stopped
  look_over w e = simp e

  -- The other end has sent any messages and closed the connection, and the reading task has read all
  -- that before the holder is polled: then the holder gets the error of an early end, even if the
  -- first message is on the queue.
  pub new_with_identifier_closed :
      (ks : List ℕ) (k : ℕ) (moves : List Move) (ms : List Bytes)
      → AllFramable ms
      → length (frames ms) ≤ length ks
      → (new_with_identifier decode
          (map hands ks ++ closes ∷ hands k ∷ polls ∷ moves)
          (frames ms)
          true).0
        ≡ failed unexpected_eof
  unfolding new_with_identifier until_recv_msg on_look wait or_eof new_comm
  new_with_identifier_closed ks k moves ms framable fits =
      let w = hand k (close (hand_all ks (new_wire ms))) in
      let over = close-Over ks k ms framable fits in
      let steps = map hands ks ++ closes ∷ hands k ∷ polls ∷ moves in
      let none_yet : look decode (new_wire ms) ≡ (none, new_wire ms) =
        look_empty decode (new_wire ms) refl refl in
      let at_end : wait decode steps (new_wire ms) ≡ (closed, unseen_of decode w) =
        read_alone ks (closes ∷ hands k ∷ polls ∷ moves) (new_wire ms)
        ∙ wait_ends decode moves w (unseen_of decode w) closed
            (wake_told decode w over.told ∙ look_over (unseen_of decode w) over.at_end) in
      ap (λ q. or_eof (on_look decode steps q).0) none_yet ∙ ap (λ q. or_eof q.0) at_end
