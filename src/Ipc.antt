-- ===== src/Ipc.antt =====
-- solana-debug-runtime/src/ipc_comm.rs: length-prefixed messages over a socket. The reading task is
-- a state machine over what the socket hands it, the writing task takes buffers off a queue. What
-- the socket does at each call is an argument, since the kernel decides it. A message is the bytes
-- that borsh made of it.
pub mod Reading
pub mod Delivery
pub mod Writing
pub mod Receiving
pub mod Waiting
pub mod Closing
pub mod Polling
pub mod Identifying
pub mod RoundTrip
mod Tests
use bokken.Prelude.{
  ℕ, ◌+◌, ◌-◌, Option, none, some, Bool, true, List, [], ◌∷◌, ◌++◌, Bytes, length, take, drop,
  replicate, to_le_bytes, from_le_bytes, ltb, ◌==◌, if◌then◌else◌,
}
use bokken.Errors.{IoErrorKind, would_block}

-- `IPCCommReadState`
pub data ReadState : Type 0 where
  msg_length msg_body : ReadState

-- `IPCCommReadResult`
pub data ReadResult : Type 0 where
  shutdown waiting : ReadResult
  message : Bytes → ReadResult

-- `IPCCommReadHandler`, less its stream.
pub record ReadHandler : Type 0 where
  pub buffer : Bytes
  pub buffer_index : ℕ
  pub state : ReadState

-- What `try_read` returns: the bytes that it put into the slice (none at the end of the stream),
-- or an error.
pub data ReadEvent : Type 0 where
  read_bytes : Bytes → ReadEvent
  read_failed : IoErrorKind → ReadEvent

-- What one call of `read_tick` comes to.
pub data Tick : Type 0 where
  ticked : ReadResult → ReadHandler → Tick
  tick_failed : IoErrorKind → Tick
  panicked : Tick

-- `IPCCommReadHandler::new`
unfoldable pub new_read_handler : ReadHandler
new_read_handler = record { buffer = replicate 8 0; buffer_index = 0; state = msg_length }

-- A full buffer ends a length or a message.
pub on_full : ReadHandler → Tick
unfolding new_read_handler
on_full h = elim h.state [
  | msg_length ↦
      ticked waiting (record {
        buffer = replicate (from_le_bytes h.buffer) 0;
        buffer_index = 0;
        state = msg_body;
      })
  | msg_body ↦ ticked (message h.buffer) new_read_handler
]

-- The buffer and its index after `try_read` has put `bytes` into the slice.
pub filled : ReadHandler → Bytes → ReadHandler
filled h bytes = record h {
  buffer = take h.buffer_index h.buffer ++ (bytes ++ drop (h.buffer_index + length bytes) h.buffer);
  buffer_index = h.buffer_index + length bytes;
}

pub on_bytes : ReadHandler → Tick
unfolding on_full
on_bytes h = if h.buffer_index == length h.buffer then on_full h else ticked waiting h

pub on_event : ReadHandler → ReadEvent → Tick
unfolding on_bytes filled
on_event h (read_bytes []) = ticked shutdown h
on_event h (read_bytes (b ∷ bs)) = on_bytes (filled h (b ∷ bs))
on_event h (read_failed would_block) = ticked waiting h
on_event h (read_failed e) = tick_failed e

-- `read_tick`. A slice with no room panics: so does the tick behind a length of zero.
pub read_tick : ReadHandler → ReadEvent → Tick
unfolding on_event
read_tick h event =
    if length (drop h.buffer_index h.buffer) == 0 then panicked else on_event h event

-- The reading task of `IPCComm::new`, and what it shares with the rest.
pub record ReadTask : Type 0 where
  pub handler : ReadHandler
  pub recv_queue : List Bytes
  pub should_stop : Bool

-- One round of its loop; `none` is a panic, of `read_tick` or of the `unwrap` behind it.
pub read_round : ReadTask → ReadEvent → Option ReadTask
read_round t event = elim (read_tick t.handler event) [
  | ticked shutdown h ↦ some (record t { handler = h; should_stop = true })
  | ticked waiting h ↦ some (record t { handler = h })
  | ticked (message m) h ↦ some (record t { handler = h; recv_queue = t.recv_queue ++ m ∷ [] })
  | tick_failed e ↦ none
  | panicked ↦ none
]

-- What `try_write` returns.
pub data WriteEvent : Type 0 where
  wrote : ℕ → WriteEvent
  write_failed : IoErrorKind → WriteEvent

-- One call of `write_tick`: the bytes that went out and the queue after it, or an error.
pub data WriteTick : Type 0 where
  wrote_out : Bytes → List Bytes → WriteTick
  write_tick_failed : IoErrorKind → WriteTick

pub on_write : Bytes → List Bytes → WriteEvent → WriteTick
on_write send_data queue (wrote n) =
    if ltb n (length send_data)
    then wrote_out (take n send_data) (drop (length send_data - n) send_data ∷ queue)
    else wrote_out send_data queue
on_write send_data queue (write_failed would_block) = wrote_out [] (send_data ∷ queue)
on_write send_data queue (write_failed e) = write_tick_failed e

-- `write_tick`
pub write_tick : List Bytes → WriteEvent → WriteTick
unfolding on_write
write_tick [] event = wrote_out [] []
write_tick (send_data ∷ queue) event = on_write send_data queue event

-- `send_msg` and `blocking_send_msg` put the length and the message on the queue.
unfoldable pub send_msg : List Bytes → Bytes → List Bytes
send_msg send_queue msg_bytes =
    (send_queue ++ to_le_bytes 8 (length msg_bytes) ∷ []) ++ msg_bytes ∷ []

-- `recv_msg` takes the oldest message off the queue of the reading task.
unfoldable pub recv_msg : List Bytes → Option Bytes × List Bytes
recv_msg [] = (none, [])
recv_msg (msg_bytes ∷ queue) = (some msg_bytes, queue)
