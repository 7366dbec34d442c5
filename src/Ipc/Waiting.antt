-- ===== src/Ipc/Waiting.antt =====
-- What the holder of an `IPCComm` gets (ipc_comm.rs), however the reading task and the holder take
-- turns.
use Prim.Native.Nat.{min}
use bokken.Prelude.{
  ℕ, ◌+◌, ◌-◌, ◌≤◌, ◌≡◌, refl, sym, ap, subst, ◌∙◌, Bool, true, false, List, [], ◌∷◌, ◌++◌,
  append-nil, append_assoc, ◌==◌, if◌then◌else◌, arith, Bytes, length, take, drop, length-take,
  length-drop, take-append-drop, length_zero,
}
use bokken.Errors.{would_block}
use bokken.Ipc.{
  shutdown, waiting, message, ReadEvent, read_bytes, read_failed, Tick, ticked, tick_failed,
  panicked, read_tick, read_round,
}
use bokken.Ipc.Reading.{
  frames, AllFramable, new-Awaits, Awaits, Advances, read_tick-Advances, read_tick_idle,
}
use bokken.Ipc.Delivery.{socket_read, Awaits-end}
use bokken.Ipc.Receiving.{
  Comm, Wire, read_once, read_on, notifies, stopped, new_comm, Move, hands, breaks, closes, polls,
  hand, dequeue,
}

-- An open connection whose reading task runs, and over which exactly the messages `ms` are still to
-- be handed to the holder: those on the queue, and those of which bytes are still to be read.
pub record Holds (w : Wire) (ms : List Bytes) : Type 0 where
  pub awaited : List Bytes
  pub owed : w.comm.task.recv_queue ++ awaited ≡ ms
  pub awaits : Awaits w.comm.task.handler w.pending awaited
  pub going : w.comm.task.should_stop ≡ false
  pub alive : w.comm.running ≡ true
  pub connected : w.is_open ≡ true

once-Holds :
    (w : Wire) (event : ReadEvent) (rest : Bytes) (ms : List Bytes) (h : Holds w ms) (tick : Tick)
    → read_tick w.comm.task.handler event ≡ tick
    → Advances tick rest h.awaited
    → Holds (record w { comm = read_once event w.comm; pending = rest }) ms
unfolding read_once read_on read_round stopped notifies
once-Holds w event rest ms h (ticked waiting _) e a =
    rw (h.alive, h.going, read_on, e)
      (record {
        awaited = h.awaited;
        owed = h.owed;
        awaits = a;
        going = h.going;
        alive = h.alive;
        connected = h.connected;
      })
once-Holds w event rest ms h (ticked (message m) _) e (ns, eq, a) =
    rw (h.alive, h.going, read_on, e)
      (record {
        awaited = ns;
        owed =
            append_assoc w.comm.task.recv_queue (m ∷ []) ns
            ∙ ap (λ z. w.comm.task.recv_queue ++ z) (sym eq)
            ∙ h.owed;
        awaits = a;
        going = h.going;
        alive = h.alive;
        connected = h.connected;
      })
once-Holds w event rest ms h (ticked shutdown _) e a = absurd a
once-Holds w event rest ms h (tick_failed _) e a = absurd a
once-Holds w event rest ms h panicked e a = absurd a

hands_to :
    (p : Bytes) (k : ℕ) (c : Comm) (o : Bool) (ms : List Bytes)
    → Holds (record { comm = c; pending = p; is_open = o }) ms
    → Holds (hand k (record { comm = c; pending = p; is_open = o })) ms
unfolding hand socket_read
hands_to [] k c o ms h =
    let g : Holds (record { comm = c; pending = []; is_open = true }) ms = rw h.connected at h in
    rw h.connected (
      once-Holds (record { comm = c; pending = []; is_open = true }) (read_failed would_block) [] ms
        g (ticked waiting c.task.handler) (read_tick_idle c.task.handler g.awaits.room) g.awaits)
hands_to (b ∷ bs) k c o ms h =
    let i = c.task.handler.buffer_index in
    let buffer = c.task.handler.buffer in
    let m = min k (length (drop i buffer) - 1) in
    once-Holds (record { comm = c; pending = b ∷ bs; is_open = o }) (read_bytes (b ∷ take m bs))
      (drop m bs) ms h _ refl
      (read_tick-Advances c.task.handler b (take m bs) (drop m bs) h.awaited
        (subst (λ z. Awaits c.task.handler (b ∷ z) h.awaited) (sym (take-append-drop m bs))
          h.awaits)
        (omega (arith, length-take m bs, h.awaits.room, length-drop i buffer)))

-- Whatever the socket hands to the reading task, the same messages are still to come.
pub hand-Holds : (k : ℕ) (w : Wire) (ms : List Bytes) → Holds w ms → Holds (hand k w) ms
hand-Holds k w ms h = hands_to w.pending k w.comm w.is_open ms h

hands_pending :
    (p : Bytes) (k : ℕ) (c : Comm) (o : Bool)
    → length (hand k (record { comm = c; pending = p; is_open = o })).pending ≤ length p - 1
unfolding hand socket_read
hands_pending [] k c o = omega arith
hands_pending (b ∷ bs) k c o = omega (
  arith,
  length-drop (min k (length (drop c.task.handler.buffer_index c.task.handler.buffer) - 1)) bs,
)

pub length-hand : (k : ℕ) (w : Wire) → length (hand k w).pending ≤ length w.pending - 1
length-hand k w = hands_pending w.pending k w.comm w.is_open

-- The messages `ms` on their way over a new connection.
abbrev pub new_wire : List Bytes → Wire
new_wire ms = record { comm = new_comm; pending = frames ms; is_open = true }

pub new_wire-Holds : (ms : List Bytes) → AllFramable ms → Holds (new_wire ms) ms
unfolding new_comm
new_wire-Holds ms ok = record {
  awaited = ms;
  owed = refl;
  awaits = new-Awaits ms ok;
  going = refl;
  alive = refl;
  connected = refl;
}

-- The holder takes a message off.
pub dequeue-Holds :
    (w : Wire) (m : Bytes) (queue ms : List Bytes)
    → w.comm.task.recv_queue ≡ m ∷ queue
    → Holds w ms
    → (ns : List Bytes) × (ms ≡ m ∷ ns) × Holds (dequeue queue w) ns
unfolding dequeue
dequeue-Holds w m queue ms e h = (
  queue ++ h.awaited,
  sym h.owed ∙ ap (λ z. z ++ h.awaited) e,
  record {
    awaited = h.awaited;
    owed = refl;
    awaits = h.awaits;
    going = h.going;
    alive = h.alive;
    connected = h.connected;
  },
)

-- The connection neither breaks nor closes.
abbrev pub Unbroken : List Move → Type 0
Unbroken [] = Unit {0}
Unbroken (hands k ∷ moves) = Unbroken moves
Unbroken (polls ∷ moves) = Unbroken moves
Unbroken (breaks e ∷ moves) = ⊥
Unbroken (closes ∷ moves) = ⊥

-- How often the holder is polled once the socket has handed bytes over `b` times.
abbrev pub polls_after : ℕ → List Move → ℕ
polls_after b [] = 0
polls_after b (hands k ∷ moves) = polls_after (b - 1) moves
polls_after b (polls ∷ moves) = (if b == 0 then 1 else 0) + polls_after b moves
polls_after b (breaks e ∷ moves) = polls_after b moves
polls_after b (closes ∷ moves) = polls_after b moves

pub polls_after_mono :
    (moves : List Move) (b c : ℕ) → c ≤ b → polls_after b moves ≤ polls_after c moves
polls_after_mono [] b c le = omega arith
polls_after_mono (hands k ∷ moves) b c le = polls_after_mono moves (b - 1) (c - 1) (omega arith)
polls_after_mono (polls ∷ moves) b c le = let rest = polls_after_mono moves b c le in ground arith
polls_after_mono (breaks e ∷ moves) b c le = polls_after_mono moves b c le
polls_after_mono (closes ∷ moves) b c le = polls_after_mono moves b c le

-- All is read once nothing is pending.
pub Holds-read :
    (w : Wire) (ms : List Bytes) → Holds w ms → length w.pending ≡ 0 → w.comm.task.recv_queue ≡ ms
Holds-read w ms h e =
    let none_awaited : h.awaited ≡ [] =
      Awaits-end w.comm.task.handler h.awaited
        (subst (λ z. Awaits w.comm.task.handler z h.awaited) (length_zero w.pending e) h.awaits) in
    sym (append-nil w.comm.task.recv_queue)
    ∙ ap (λ z. w.comm.task.recv_queue ++ z) (sym none_awaited)
    ∙ h.owed
