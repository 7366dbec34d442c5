-- ===== src/Ipc/Delivery.antt =====
-- The reading task of ipc_comm.rs behind a socket that cuts its stream up at will.
use Prim.Native.Nat.{min}
use bokken.Prelude.{
  ℕ, ◌-◌, ◌≤◌, ◌<◌, ◌≡◌, refl, sym, ap, ◌∙◌, false, Option, none, some, List, [], ◌∷◌, ◌++◌,
  append-nil, append_assoc, arith, Bytes, length, take, drop, length-append, length-take,
  length-drop, take-append-drop, subst, to_le_bytes, length-to_le_bytes, if◌then◌else◌,
}
use bokken.Errors.{would_block}
use bokken.Ipc.{
  ReadState, msg_length, msg_body, shutdown, waiting, message, ReadHandler, ReadEvent, read_bytes,
  read_failed, Tick, ticked, tick_failed, panicked, new_read_handler, read_tick, ReadTask,
  read_round,
}
use bokken.Ipc.Reading.{
  frames, AllFramable, got, Awaits, AwaitsIn, new-Awaits, Advances, read_tick-Advances,
  read_tick_idle,
}

-- A socket that holds `pending` bytes: it hands over as many as it chose (`k` more than one), as far
-- as they go and the slice has room, and leaves the rest; without bytes the read would block.
unfoldable pub socket_read : ℕ → ℕ → Bytes → ReadEvent × Bytes
socket_read k room [] = (read_failed would_block, [])
socket_read k room (b ∷ bs) =
    (read_bytes (b ∷ take (min k (room - 1)) bs), drop (min k (room - 1)) bs)

-- The loop of the task over the socket's choices: `while !should_stop { … }`.
pub read_loop : List ℕ → ReadTask → Bytes → Option (ReadTask × Bytes)
read_loop [] t pending = some (t, pending)
read_loop (k ∷ ks) t pending =
    let (event, rest) =
      socket_read k (length (drop t.handler.buffer_index t.handler.buffer)) pending in
    let next : Option (ReadTask × Bytes) = elim (read_round t event) [
      | none ↦ none
      | some u ↦ read_loop ks u rest
    ] in
    if t.should_stop then some (t, pending) else next

AwaitsIn-end :
    (st : ReadState) (h : ReadHandler) (ms : List Bytes)
    → h.buffer_index < length h.buffer
    → AwaitsIn st h [] ms
    → ms ≡ []
unfolding frames
AwaitsIn-end msg_length h [] lt c = refl
AwaitsIn-end msg_length h (m ∷ ms) lt c = absurd (
    omega (
      arith,
      c.0,
      ap length c.1,
      length-append (got h) [],
      length-take h.buffer_index h.buffer,
      length-append (to_le_bytes 8 (length m)) (m ++ frames ms),
      length-to_le_bytes 8 (length m),
    ))
AwaitsIn-end msg_body h [] lt c = refl
AwaitsIn-end msg_body h (m ∷ ms) lt c = absurd (
    omega (
      arith,
      c.0,
      ap length c.1,
      length-append (got h) [],
      length-take h.buffer_index h.buffer,
      length-append m (frames ms),
    ))

-- Once the stream is used up, no message is awaited.
pub Awaits-end : (h : ReadHandler) (ms : List Bytes) → Awaits h [] ms → ms ≡ []
Awaits-end h ms a = AwaitsIn-end h.state h ms a.room a.content

-- What the loop still owes: it ends without a panic, with the stream used up and the awaited
-- messages behind those that it had.
abbrev pub Delivers : Option (ReadTask × Bytes) → List Bytes → Type 0
Delivers none out = ⊥
Delivers (some (t, pending)) out = (pending ≡ []) × (t.recv_queue ≡ out)

-- The rest of the loop behind one tick.
resume :
    (k : ℕ) (ks : List ℕ) (t : ReadTask) (event : ReadEvent) (rest : Bytes) (ms : List Bytes)
    → ((u : ReadTask) (ns : List Bytes)
        → Awaits u.handler rest ns
        → u.should_stop ≡ false
        → Delivers (read_loop ks u rest) (u.recv_queue ++ ns))
    → (tick : Tick) → read_tick t.handler event ≡ tick
    → Advances tick rest ms
    → t.should_stop ≡ false
    → Delivers
        (elim (read_round t event) [ none ↦ none | some u ↦ read_loop ks u rest ])
        (t.recv_queue ++ ms)
unfolding read_round
resume k ks t event rest ms rec (ticked waiting h) e w go =
    rw e (rec (record t { handler = h }) ms w go)
resume k ks t event rest ms rec (ticked (message m) h) e (ns, eq, w) go =
    rw (e, eq, ← append_assoc t.recv_queue (m ∷ []) ns)
      (rec (record t { handler = h; recv_queue = t.recv_queue ++ m ∷ [] }) ns w go)
resume k ks t event rest ms rec (ticked shutdown h) e w go = absurd w
resume k ks t event rest ms rec (tick_failed _) e w go = absurd w
resume k ks t event rest ms rec panicked e w go = absurd w

read_loop-Delivers :
    (ks : List ℕ) (t : ReadTask) (pending : Bytes) (ms : List Bytes)
    → Awaits t.handler pending ms
    → t.should_stop ≡ false
    → length pending ≤ length ks
    → Delivers (read_loop ks t pending) (t.recv_queue ++ ms)
unfolding read_loop socket_read read_round
read_loop-Delivers [] t [] ms a go fits =
    (refl, sym (append-nil t.recv_queue) ∙ ap (◌++◌ t.recv_queue) (sym (Awaits-end t.handler ms a)))
read_loop-Delivers [] t (b ∷ bs) ms a go fits = absurd (omega arith)
read_loop-Delivers (k ∷ ks) t [] ms a go fits = simp go (
    resume k ks t (read_failed would_block) [] ms
      (λ u ns w g. read_loop-Delivers ks u [] ns w g (omega arith)) (ticked waiting t.handler)
      (read_tick_idle t.handler a.room) a go)
read_loop-Delivers (k ∷ ks) t (b ∷ bs) ms a go fits =
    let room = length (drop t.handler.buffer_index t.handler.buffer) in
    let m = min k (room - 1) in
    let event = read_bytes (b ∷ take m bs) in
    simp go (
      resume k ks t event (drop m bs) ms
        (λ u ns w g. read_loop-Delivers ks u (drop m bs) ns w g (omega (arith, length-drop m bs)))
        (read_tick t.handler event) refl
        (read_tick-Advances t.handler b (take m bs) (drop m bs) ms
          (subst (λ z. Awaits t.handler (b ∷ z) ms) (sym (take-append-drop m bs)) a)
          (omega
            (arith, length-take m bs, a.room, length-drop t.handler.buffer_index t.handler.buffer)))
        go)

-- The task as `IPCComm::new` starts it.
abbrev pub new_task : ReadTask
new_task = record { handler = new_read_handler; recv_queue = []; should_stop = false }

-- However the socket cuts the frames of non-empty messages up, the reading task never panics, uses
-- up the stream within as many rounds as it has bytes, and has queued exactly those messages, in
-- their order.
pub read_loop-frames :
    (ks : List ℕ) (ms : List Bytes)
    → AllFramable ms
    → length (frames ms) ≤ length ks
    → Delivers (read_loop ks new_task (frames ms)) ms
read_loop-frames ks ms ok fits =
    read_loop-Delivers ks new_task (frames ms) ms (new-Awaits ms ok) refl fits
