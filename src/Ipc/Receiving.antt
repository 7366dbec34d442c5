-- ===== src/Ipc/Receiving.antt =====
-- `IPCComm` for its holder (ipc_comm.rs): the messages come while the holder waits. The reading task
-- and the holder take turns as a list of moves says.
use bokken.Prelude.{
  ℕ, Bool, true, false, not, ◌&&◌, ◌||◌, Option, none, some, List, [], ◌∷◌, Bytes, length, drop,
  if◌then◌else◌,
}
use bokken.Prelude.Result.{Result, ok, err}
use bokken.Errors.{IoErrorKind, unexpected_eof}
use bokken.Ipc.{
  waiting, shutdown, message, ReadEvent, read_bytes, read_failed, Tick, ticked, tick_failed,
  panicked, read_tick, ReadTask, read_round, recv_msg,
}
use bokken.Ipc.Delivery.{socket_read, new_task}

-- The part of `IPCComm` that receives: what the reading task shares, whether the task still runs,
-- and whether it has notified the holder (`recv_notif`) since that looked last.
pub record Comm : Type 0 where
  pub task : ReadTask
  pub running : Bool
  pub unseen : Bool

-- The connection: what the other end has sent and the task has not read, and whether it is open.
pub record Wire : Type 0 where
  pub comm : Comm
  pub pending : Bytes
  pub is_open : Bool

-- The socket has bytes for the task (at most one more than the number), or an error; the other end
-- closes it; the holder is polled.
pub data Move : Type 0 where
  hands : ℕ → Move
  breaks : IoErrorKind → Move
  closes : Move
  polls : Move

-- `IPCComm::new`
unfoldable pub new_comm : Comm
new_comm = record { task = new_task; running = true; unseen = false }

-- `stopped`
unfoldable pub stopped : Comm → Bool
stopped c = c.task.should_stop

-- `stop`
unfoldable pub stop : Comm → Comm
stop c = record c { task = record (c.task) { should_stop = true } }

-- Whether the task notifies the holder: `recv_notif_sender.send_modify`.
unfoldable pub notifies : Tick → Bool
notifies (ticked shutdown h) = true
notifies (ticked (message m) h) = true
notifies (ticked waiting h) = false
notifies (tick_failed e) = false
notifies panicked = false

-- One round of the loop of the task, which a panic ends.
unfoldable pub read_on : ReadEvent → Comm → Comm
read_on event c = elim (read_round c.task event) [
  | none ↦ record c { running = false }
  | some u ↦ record c { task = u; unseen = c.unseen || notifies (read_tick c.task.handler event) }
]

-- A task that has stopped or panicked does no more.
unfoldable pub read_once : ReadEvent → Comm → Comm
read_once event c =
    if c.running && not (stopped c) then read_on event c else record c { running = false }

-- What `try_read` returns, and what stays on the connection: no bytes mean the end of the stream if
-- the other end has closed it.
unfoldable pub hand : ℕ → Wire → Wire
hand k w =
    let h = w.comm.task.handler in
    let (event, rest) = socket_read k (length (drop h.buffer_index h.buffer)) w.pending in
    let seen : ReadEvent = elim w.pending [
      | [] ↦ if w.is_open then event else read_bytes []
      | _ ∷ _ ↦ event
    ] in
    record w { comm = read_once seen w.comm; pending = rest }

unfoldable pub break : IoErrorKind → Wire → Wire
break e w = record w { comm = read_once (read_failed e) w.comm }

unfoldable pub close : Wire → Wire
close w = record w { is_open = false }

-- The holder takes the rest of the queue.
unfoldable pub dequeue : List Bytes → Wire → Wire
dequeue queue w = record w {
  comm = record (w.comm) { task = record (w.comm.task) { recv_queue = queue } };
}

-- How a call of `until_recv_msg` ends, if it does: `Ok(None)`, `Ok(Some(msg))`, an error, or the
-- panic of its `expect`.
pub data Received (R : Type 0) : Type 0 where
  closed : Received R
  received : R → Received R
  failed : IoErrorKind → Received R
  unexpected : Received R
  unfinished : Received R

-- A message that is decoded, or its `?`.
unfoldable pub as_received : {R : Type 0} → Result IoErrorKind R → Received R
as_received (ok m) = received m
as_received (err e) = failed e

-- `ok_or(UnexpectedEof)?`
unfoldable pub or_eof : {R : Type 0} → Received R → Received R
or_eof closed = failed unexpected_eof
or_eof r = r

module _ {R : Type 0} (decode : Bytes → Result IoErrorKind R) where
  -- One round of the loop, up to its `changed()`.
  unfoldable pub look : Wire → Option (Received R) × Wire
  look w =
      let (msg, queue) = recv_msg w.comm.task.recv_queue in
      let found : Option (Received R) × Wire = elim msg [
        | none ↦ (none, w)
        | some msg_bytes ↦ (some (as_received (decode msg_bytes)), dequeue queue w)
      ] in
      if stopped w.comm then (some closed, w) else found

  -- The holder is polled at `changed()`: the task has notified it, is still there, or is gone.
  unfoldable pub wake : Wire → Option (Received R) × Wire
  wake w =
      if w.comm.unseen
      then look (record w { comm = record (w.comm) { unseen = false } })
      else if w.comm.running
      then (none, w)
      else (some unexpected, w)

  unfoldable pub wait : List Move → Wire → Received R × Wire
  wait [] w = (unfinished, w)
  wait (hands k ∷ moves) w = wait moves (hand k w)
  wait (breaks e ∷ moves) w = wait moves (break e w)
  wait (closes ∷ moves) w = wait moves (close w)
  wait (polls ∷ moves) w = let (r, v) = wake w in elim r [ none ↦ wait moves v | some x ↦ (x, v) ]

  unfoldable pub until_recv_msg : List Move → Wire → Received R × Wire
  until_recv_msg moves w = let (r, v) = look w in elim r [ none ↦ wait moves v | some x ↦ (x, v) ]

  -- `until_recv_msg().await?.ok_or(UnexpectedEof)?` behind `IPCComm::new`
  unfoldable pub new_with_identifier : List Move → Bytes → Bool → Received R × Wire
  new_with_identifier moves pending is_open =
      let (r, w) =
        until_recv_msg moves (record { comm = new_comm; pending = pending; is_open = is_open }) in
      (or_eof r, w)
