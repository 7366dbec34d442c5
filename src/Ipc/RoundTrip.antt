-- ===== src/Ipc/RoundTrip.antt =====
-- Both ends of ipc_comm.rs together: what one process sends, the other receives.
use bokken.Prelude.{
  ℕ, ◌*◌, ◌≤◌, ◌≡◌, sym, ap, ◌∙◌, subst, List, [], ◌++◌, append-nil, arith, Bytes, length,
  length_zero,
}
use bokken.Ipc.{WriteEvent}
use bokken.Ipc.Reading.{frames, AllFramable}
use bokken.Ipc.Delivery.{read_loop, Delivers, new_task, read_loop-frames}
use bokken.Ipc.Writing.{
  queued, write_loop, write_loop_whole, WholeWrites, writes, send_all, queued-send_all,
}

-- What whole writes put on the stream.
pub write_loop-frames :
    (events : List WriteEvent) (ms : List Bytes)
    → WholeWrites events (send_all [] ms)
    → 2 * length ms ≤ writes events
    → (write_loop events (send_all [] ms)).0 ≡ frames ms
write_loop-frames events ms whole enough =
    let (same, size) = queued-send_all [] ms in
    let (kept, less) = write_loop_whole events (send_all [] ms) whole in
    let (out, left) = write_loop events (send_all [] ms) in
    let empty : left ≡ [] = length_zero left (omega arith) in
    sym (append-nil out) ∙ ap (λ q. out ++ queued q) (sym empty) ∙ kept ∙ same

-- Non-empty messages are sent, the socket takes every buffer whole (it may block in between), as
-- often as the messages have buffers, and gives the stream to the reader in pieces of any sizes,
-- in as many rounds as the stream has bytes: then the reader has received those messages in order.
pub send_receive :
    (events : List WriteEvent) (ks : List ℕ) (ms : List Bytes)
    → AllFramable ms
    → WholeWrites events (send_all [] ms)
    → 2 * length ms ≤ writes events
    → length (frames ms) ≤ length ks
    → Delivers (read_loop ks new_task (write_loop events (send_all [] ms)).0) ms
send_receive events ks ms ok whole enough fits =
    subst (λ b. Delivers (read_loop ks new_task b) ms)
      (sym (write_loop-frames events ms whole enough)) (read_loop-frames ks ms ok fits)
