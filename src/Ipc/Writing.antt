-- ===== src/Ipc/Writing.antt =====
-- The writing task of ipc_comm.rs: which writes keep the stream, and which do not.
use bokken.Prelude.{
  ℕ, suc, ◌+◌, ◌-◌, ◌*◌, ◌<◌, ◌≡◌, ◌≢◌, refl, sym, ap, ◌∙◌, List, [], ◌∷◌, ◌++◌, append-nil,
  append_assoc, arith, Bytes, length, take, drop, length-append, length-take, length-drop,
  to_le_bytes, subst⁻¹, lt→ltb,
}
use bokken.Errors.{would_block}
use bokken.Ipc.{
  WriteEvent, wrote, write_failed, WriteTick, wrote_out, write_tick_failed, on_write, write_tick,
  send_msg,
}
use bokken.Ipc.Reading.{frames}

-- The bytes that a queue still holds.
abbrev pub queued : List Bytes → Bytes
queued [] = []
queued (d ∷ ds) = d ++ queued ds

queued-append : (ds cs : List Bytes) → queued (ds ++ cs) ≡ queued ds ++ queued cs
queued-append [] cs = refl
queued-append (d ∷ ds) cs = rw (queued-append ds cs, append_assoc d (queued ds) (queued cs))

-- The loop of the writing task over what the socket does: the bytes that went out, in order, and
-- the queue that is left.
pub write_loop : List WriteEvent → List Bytes → Bytes × List Bytes
write_loop [] queue = ([], queue)
write_loop (event ∷ events) queue = elim (write_tick queue event) [
  | wrote_out bytes rest ↦ let (more, left) = write_loop events rest in (bytes ++ more, left)
  | write_tick_failed e ↦ ([], queue)
]

-- The socket takes each buffer whole or would block; it never fails otherwise.
abbrev pub WholeWrites : List WriteEvent → List Bytes → Type 0
WholeWrites [] queue = Unit {0}
WholeWrites (wrote n ∷ events) [] = WholeWrites events []
WholeWrites (wrote n ∷ events) (d ∷ queue) = (n ≡ length d) × WholeWrites events queue
WholeWrites (write_failed would_block ∷ events) queue = WholeWrites events queue
WholeWrites (write_failed _ ∷ events) queue = ⊥

-- How often the socket takes a buffer.
abbrev pub writes : List WriteEvent → ℕ
writes [] = 0
writes (wrote n ∷ events) = suc (writes events)
writes (write_failed _ ∷ events) = writes events

write_loop_step :
    (event : WriteEvent) (events : List WriteEvent) (queue : List Bytes) (bytes : Bytes)
    (rest : List Bytes)
    → write_tick queue event ≡ wrote_out bytes rest
    → write_loop (event ∷ events) queue
      ≡ (bytes ++ (write_loop events rest).0, (write_loop events rest).1)
unfolding write_loop
write_loop_step event events queue bytes rest e = ground (arith, e)

write_tick_whole :
    (d : Bytes) (queue : List Bytes) (n : ℕ)
    → n ≡ length d
    → write_tick (d ∷ queue) (wrote n) ≡ wrote_out d queue
unfolding write_tick on_write
write_tick_whole d queue n e = ground arith

-- While every buffer is taken whole, what went out and what is still queued make up what was
-- queued at first, and each write that is taken shortens the queue by one buffer.
pub write_loop_whole :
    (events : List WriteEvent) (queue : List Bytes)
    → WholeWrites events queue
    → let (out, left) = write_loop events queue in
      (out ++ queued left ≡ queued queue) × (length left ≡ length queue - writes events)
unfolding write_loop write_tick on_write
write_loop_whole [] queue w = (refl, omega arith)
write_loop_whole (wrote n ∷ events) [] w =
    let (same, less) = write_loop_whole events [] w in (same, omega arith)
write_loop_whole (wrote n ∷ events) (d ∷ queue) (e, w) =
    let (same, less) = write_loop_whole events queue w in
    let (out, left) = write_loop events queue in
    subst⁻¹
      (λ (p : Bytes × List Bytes).
        (p.0 ++ queued p.1 ≡ queued (d ∷ queue))
        × (length p.1 ≡ length (d ∷ queue) - writes (wrote n ∷ events)))
      (write_loop_step (wrote n) events (d ∷ queue) d queue (write_tick_whole d queue n e))
      (append_assoc d out (queued left) ∙ ap (◌++◌ d) same, omega arith)
write_loop_whole (write_failed would_block ∷ events) [] w = write_loop_whole events [] w
write_loop_whole (write_failed would_block ∷ events) (d ∷ queue) w =
    write_loop_whole events (d ∷ queue) w
write_loop_whole (write_failed _ ∷ events) queue w = absurd w

abbrev pub out_and_queued : WriteTick → Bytes
out_and_queued (wrote_out out queue) = out ++ queued queue
out_and_queued (write_tick_failed e) = []

-- A write that takes only a part of a buffer breaks the stream, unless it takes exactly half: what
-- has gone out and what is queued again are together longer or shorter than what was queued.
pub partial_write_breaks :
    (n : ℕ) (d : Bytes) (queue : List Bytes)
    → n < length d
    → n + n ≢ length d
    → length (out_and_queued (write_tick (d ∷ queue) (wrote n))) ≢ length (queued (d ∷ queue))
unfolding write_tick on_write
partial_write_breaks n d queue short uneven e =
    let e' = rw (lt→ltb n (length d) short) at e in
    uneven (
      omega (
        arith,
        e',
        length-append (take n d) (drop (length d - n) d ++ queued queue),
        length-append (drop (length d - n) d) (queued queue),
        length-append d (queued queue),
        length-take n d,
        length-drop (length d - n) d,
      ))

-- `send_msg` for each message in turn.
unfoldable pub send_all : List Bytes → List Bytes → List Bytes
send_all queue [] = queue
send_all queue (m ∷ ms) = send_all (send_msg queue m) ms

pub queued-send_all :
    (queue ms : List Bytes)
    → (queued (send_all queue ms) ≡ queued queue ++ frames ms)
      × (length (send_all queue ms) ≡ length queue + 2 * length ms)
unfolding send_all send_msg frames
queued-send_all queue [] = (sym (append-nil (queued queue)), omega arith)
queued-send_all queue (m ∷ ms) =
    let head = to_le_bytes 8 (length m) in
    let (same, size) = queued-send_all ((queue ++ head ∷ []) ++ m ∷ []) ms in
    (
      same ∙ simp (queued-append, append-nil, append_assoc),
      omega (
        arith,
        size,
        length-append (queue ++ head ∷ []) (m ∷ []),
        length-append queue (head ∷ []),
      ),
    )
