-- ===== src/Ipc/Closing.antt =====
-- The end of a connection of ipc_comm.rs: the other end has closed it, and the reading task has seen
-- that before the holder looks again.
use bokken.Prelude.{
  ℕ, ◌+◌, ◌-◌, ◌≤◌, ◌≡◌, refl, Bool, true, false, ◌||◌, subst⁻¹, List, [], ◌∷◌, arith, Bytes,
  length, drop, length-drop, ◌==◌, ==_ne,
}
use bokken.Ipc.{shutdown, read_bytes, ticked, read_tick, ReadHandler, on_event, read_round}
use bokken.Ipc.Reading.{frames, AllFramable}
use bokken.Ipc.Receiving.{Comm, Wire, hand, close, read_once, read_on, notifies, stopped}
use bokken.Ipc.Delivery.{socket_read}
use bokken.Ipc.Waiting.{Holds, hand-Holds, length-hand, new_wire, new_wire-Holds, Holds-read}

-- The socket hands bytes over again and again.
abbrev pub hand_all : List ℕ → Wire → Wire
hand_all [] w = w
hand_all (k ∷ ks) w = hand_all ks (hand k w)

hand_all-Holds :
    (ks : List ℕ) (w : Wire) (ms : List Bytes)
    → Holds w ms
    → Holds (hand_all ks w) ms × (length (hand_all ks w).pending ≤ length w.pending - length ks)
hand_all-Holds [] w ms h = (h, omega arith)
hand_all-Holds (k ∷ ks) w ms h =
    let (g, le) = hand_all-Holds ks (hand k w) ms (hand-Holds k w ms h) in
    (g, omega (arith, length-hand k w))

read_tick_end :
    (h : ReadHandler)
    → h.buffer_index + 1 ≤ length h.buffer
    → read_tick h (read_bytes []) ≡ ticked shutdown h
unfolding read_tick on_event
read_tick_end h room = rw (
    let open_slice : (length (drop h.buffer_index h.buffer) == 0) ≡ false =
      ==_ne _ _ (omega (arith, length-drop h.buffer_index h.buffer)) in
    open_slice)

pub or_true : (b : Bool) → b || true ≡ true
or_true true = refl
or_true false = refl

-- What is left once the other end has closed the connection and the reading task has seen it.
pub record Over (w : Wire) (ms : List Bytes) : Type 0 where
  pub queued : w.comm.task.recv_queue ≡ ms
  pub at_end : w.comm.task.should_stop ≡ true
  pub told : w.comm.unseen ≡ true

Over-at :
    (p : Bytes) (k : ℕ) (c : Comm) (o : Bool) (ms : List Bytes)
    → Holds (record { comm = c; pending = p; is_open = o }) ms
    → length p ≡ 0
    → Over (hand k (close (record { comm = c; pending = p; is_open = o }))) ms
unfolding hand close socket_read read_once read_on read_round notifies stopped
Over-at [] k c o ms h e =
    rw (h.alive, h.going, read_on, read_tick_end c.task.handler (omega (arith, h.awaits.room)))
      (record {
        queued = Holds-read (record { comm = c; pending = []; is_open = o }) ms h refl;
        at_end = refl;
        told =
            subst⁻¹ (λ z. (c.unseen || notifies z) ≡ true)
              (read_tick_end c.task.handler (omega (arith, h.awaits.room))) (or_true c.unseen);
      })
Over-at (b ∷ bs) k c o ms h e = absurd (omega arith)

-- All messages are on the queue when the reading task stops.
pub close-Over :
    (ks : List ℕ) (k : ℕ) (ms : List Bytes)
    → AllFramable ms
    → length (frames ms) ≤ length ks
    → Over (hand k (close (hand_all ks (new_wire ms)))) ms
close-Over ks k ms ok fits =
    let (h, le) = hand_all-Holds ks (new_wire ms) ms (new_wire-Holds ms ok) in
    let w = hand_all ks (new_wire ms) in Over-at w.pending k w.comm w.is_open ms h (omega arith)
