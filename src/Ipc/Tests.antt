-- ===== src/Ipc/Tests.antt =====
-- Concrete messages through ipc_comm.rs.
use bokken.Prelude.{length, ℕ, ◌++◌, ◌≢◌, refl, List, [], ◌∷◌, arith, Bytes, replicate, to_le_bytes}
use bokken.Prelude.Result.{Result, ok, err}
use bokken.Errors.{IoErrorKind, would_block, invalid_data}
use bokken.Ipc.{WriteEvent, wrote, write_failed, write_tick, send_msg}
use bokken.Ipc.Receiving.{Move, hands, polls}
use bokken.Ipc.Reading.{frames}
use bokken.Ipc.Delivery.{read_loop, Delivers, new_task}
use bokken.Ipc.Writing.{queued, out_and_queued, write_loop, send_all, partial_write_breaks}
use bokken.Ipc.RoundTrip.{send_receive}

abbrev two_messages : List Bytes
two_messages = (5 ∷ 6 ∷ []) ∷ (7 ∷ []) ∷ []

abbrev four_writes : List WriteEvent
four_writes = wrote 8 ∷ write_failed would_block ∷ wrote 2 ∷ wrote 8 ∷ wrote 1 ∷ []

-- The socket hands over at most three bytes at a time.
abbrev small_reads : List ℕ
small_reads = replicate 20 3

partial_write_breaks_example :
    length (out_and_queued (write_tick ((1 ∷ 2 ∷ 3 ∷ []) ∷ []) (wrote 1)))
    ≢ length (queued ((1 ∷ 2 ∷ 3 ∷ []) ∷ []))
partial_write_breaks_example =
    partial_write_breaks 1 (1 ∷ 2 ∷ 3 ∷ []) [] (omega arith) (λ e. omega arith)

send_receive_example :
    Delivers
      (read_loop small_reads new_task (write_loop four_writes (send_all [] two_messages)).0)
      two_messages
unfolding send_all send_msg frames to_le_bytes
send_receive_example =
    send_receive four_writes small_reads two_messages
      (omega arith, omega arith, (omega arith, omega arith, tt)) (refl, (refl, (refl, (refl, tt))))
      (omega arith) (omega arith)

-- A message is a number.
abbrev decode : Bytes → Result IoErrorKind ℕ
decode [] = err invalid_data
decode (n ∷ bytes) = ok n

abbrev some_moves : List Move
some_moves = polls ∷ (replicate 19 (hands 2) ++ polls ∷ [])
