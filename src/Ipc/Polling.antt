-- ===== src/Ipc/Polling.antt =====
-- `until_recv_msg` of ipc_comm.rs: how a holder that waits comes to the first message.
use bokken.Prelude.{
  ℕ, ◌-◌, ◌≤◌, ◌≡◌, ◌⊎◌, inl, inr, refl, sym, ap, subst, subst⁻¹, ◌∙◌, true, false, not, ◌&&◌, ◌||◌,
  Option, none, some, List, [], ◌∷◌, arith, Bytes, length, Bool-cases,
}
use bokken.Prelude.Result.{Result}
use bokken.Prelude.Post.{by_if}
use bokken.Errors.{IoErrorKind}
use bokken.Ipc.{
  shutdown, waiting, message, ReadEvent, Tick, ticked, tick_failed, panicked, read_tick, read_round,
  recv_msg,
}
use bokken.Ipc.Receiving.{
  Comm, Wire, Move, hands, breaks, closes, polls, hand, dequeue, read_on, read_once, notifies,
  stopped, as_received, Received, look, wake, wait, until_recv_msg,
}
use bokken.Ipc.Waiting.{
  Holds, hand-Holds, length-hand, dequeue-Holds, Unbroken, polls_after, polls_after_mono,
  Holds-read,
}
use bokken.Ipc.Closing.{or_true}

-- The holder is told of what is on the queue.
Noted : Comm → Type 0
Noted c = (c.unseen ≡ true) ⊎ (c.task.recv_queue ≡ [])

read_on-Noted :
    (event : ReadEvent) (c : Comm) (tick : Tick)
    → read_tick c.task.handler event ≡ tick
    → Noted c
    → Noted (read_on event c)
unfolding read_on read_round notifies Noted
read_on-Noted event c (ticked waiting _) e (inl told) = rw (read_on, e) (inl (rw told))
read_on-Noted event c (ticked waiting _) e (inr empty) = rw (read_on, e) (inr empty)
read_on-Noted event c (ticked (message m) _) e n =
    rw (read_on, e) (inl (ap (λ z. c.unseen || notifies z) e ∙ or_true c.unseen))
read_on-Noted event c (ticked shutdown _) e n =
    rw (read_on, e) (inl (ap (λ z. c.unseen || notifies z) e ∙ or_true c.unseen))
read_on-Noted event c (tick_failed _) e n = rw (read_on, e) n
read_on-Noted event c panicked e n = rw (read_on, e) n

hand-Noted : (k : ℕ) (w : Wire) → Noted w.comm → Noted (hand k w).comm
unfolding hand read_once Noted
hand-Noted k w n =
    by_if Noted (w.comm.running && not (stopped w.comm)) _ (record (w.comm) { running = false })
      (λ _. read_on-Noted _ w.comm _ refl n) (λ _. n)

module _ {R : Type 0} (decode : Bytes → Result IoErrorKind R) where
  -- A message as the holder gets it.
  abbrev pub decoded : Bytes → Received R
  decoded m = as_received (decode m)

  look_found :
      (w : Wire) (m : Bytes) (queue : List Bytes)
      → w.comm.task.recv_queue ≡ m ∷ queue
      → w.comm.task.should_stop ≡ false
      → look decode w ≡ (some (decoded m), dequeue queue w)
  unfolding look recv_msg stopped
  look_found w m queue e going = simp (going, e, recv_msg)

  pub look_empty :
      (w : Wire)
      → w.comm.task.recv_queue ≡ []
      → w.comm.task.should_stop ≡ false
      → look decode w ≡ (none, w)
  unfolding look recv_msg stopped
  look_empty w e going = simp (going, e)

  abbrev pub Hears : Bytes → List Bytes → Received R × Wire → Type 0
  Hears m ms q = (q.0 ≡ decoded m) × Holds q.1 ms

  cons-inj : (m n : Bytes) (ms ns : List Bytes) → m ∷ ms ≡ n ∷ ns → (m ≡ n) × (ms ≡ ns)
  cons-inj m n ms ns e = (cc e, cc e)

  -- A look at a connection over which `m` comes first: it is found, or nothing is there yet.
  pub look_first :
      (queue : List Bytes) (w : Wire) (m : Bytes) (ms : List Bytes)
      → w.comm.task.recv_queue ≡ queue
      → Holds w (m ∷ ms)
      → ((look decode w ≡ (none, w)) × (queue ≡ []))
        ⊎ ((v : Wire) × (look decode w ≡ (some (decoded m), v)) × Holds v ms)
  look_first [] w m ms e h = inl (look_empty w e h.going, refl)
  look_first (n ∷ queue) w m ms e h =
      let (ns, eq, g) = dequeue-Holds w n queue (m ∷ ms) e h in
      let (same, rest) = cons-inj m n ms ns eq in
      inr (
        dequeue queue w,
        look_found w n queue e h.going ∙ ap (λ z. (some (decoded z), dequeue queue w)) (sym same),
        subst (Holds (dequeue queue w)) (sym rest) g,
      )

  -- With an empty queue there are still bytes to read.
  still_polled :
      (moves : List Move) (w : Wire) (m : Bytes) (ms : List Bytes)
      → Holds w (m ∷ ms)
      → w.comm.task.recv_queue ≡ []
      → 1 ≤ polls_after (length w.pending) (polls ∷ moves)
      → 1 ≤ polls_after (length w.pending) moves
  still_polled moves w m ms h e enough =
      let unread : length w.pending ≡ 0 → length (m ∷ ms) ≡ 0 =
        λ z. ap length (sym (Holds-read w (m ∷ ms) h z) ∙ e) in
      ground (arith, unread)

  unseen-Holds :
      (w : Wire) (ms : List Bytes)
      → Holds w ms
      → Holds (record w { comm = record (w.comm) { unseen = false } }) ms
  unseen-Holds w ms h = record {
    awaited = h.awaited;
    owed = h.owed;
    awaits = h.awaits;
    going = h.going;
    alive = h.alive;
    connected = h.connected;
  }

  unfoldable pub on_look : List Move → Option (Received R) × Wire → Received R × Wire
  on_look moves q = elim q.0 [ none ↦ wait decode moves q.1 | some x ↦ (x, q.1) ]

  wait_on :
      (moves : List Move) (w v : Wire)
      → wake decode w ≡ (none, v)
      → wait decode (polls ∷ moves) w ≡ wait decode moves v
  unfolding wait on_look
  wait_on moves w v e = ap (on_look moves) e

  pub wait_ends :
      (moves : List Move) (w v : Wire) (r : Received R)
      → wake decode w ≡ (some r, v)
      → wait decode (polls ∷ moves) w ≡ (r, v)
  unfolding wait on_look
  wait_ends moves w v r e = ap (on_look moves) e

  abbrev pub unseen_of : Wire → Wire
  unseen_of w = record w { comm = record (w.comm) { unseen = false } }

  pub wake_told : (w : Wire) → w.comm.unseen ≡ true → wake decode w ≡ look decode (unseen_of w)
  unfolding wake
  wake_told w e = simp e

  wake_quiet :
      (w : Wire) → w.comm.unseen ≡ false → w.comm.running ≡ true → wake decode w ≡ (none, w)
  unfolding wake
  wake_quiet w e alive = simp (e, alive)

  woken_first :
      (moves : List Move) (w : Wire) (m : Bytes) (ms : List Bytes)
      → Holds w (m ∷ ms)
      → Noted w.comm
      → 1 ≤ polls_after (length w.pending) (polls ∷ moves)
      → ((v : Wire)
          → Holds v (m ∷ ms)
          → Noted v.comm
          → 1 ≤ polls_after (length v.pending) moves
          → Hears m ms (wait decode moves v))
      → Hears m ms (wait decode (polls ∷ moves) w)
  unfolding Noted
  woken_first moves w m ms h n enough rec = elim (Bool-cases w.comm.unseen) [
    | inl told ↦
        let v = unseen_of w in
        let g : Holds v (m ∷ ms) = unseen-Holds w (m ∷ ms) h in
        elim (look_first v.comm.task.recv_queue v m ms refl g) [
          | inl (nothing, empty) ↦
              subst⁻¹ (Hears m ms) (wait_on moves w v (wake_told w told ∙ nothing))
                (rec v g (inr empty) (still_polled moves w m ms h empty enough))
          | inr (u, found, k) ↦
              subst⁻¹ (Hears m ms) (wait_ends moves w u (decoded m) (wake_told w told ∙ found))
                (refl, k)
        ]
    | inr quiet ↦
        let empty : w.comm.task.recv_queue ≡ [] = grind arith in
        subst⁻¹ (Hears m ms) (wait_on moves w w (wake_quiet w quiet h.alive))
          (rec w h n (still_polled moves w m ms h empty enough))
  ]

  wait_first :
      (moves : List Move) (w : Wire) (m : Bytes) (ms : List Bytes)
      → Unbroken moves
      → Holds w (m ∷ ms)
      → Noted w.comm
      → 1 ≤ polls_after (length w.pending) moves
      → Hears m ms (wait decode moves w)
  unfolding wait
  wait_first [] w m ms u h n enough = absurd (omega arith)
  wait_first (hands k ∷ moves) w m ms u h n enough =
      wait_first moves (hand k w) m ms u (hand-Holds k w (m ∷ ms) h) (hand-Noted k w n) (
        omega (
          arith,
          polls_after_mono moves (length w.pending - 1) (length (hand k w).pending)
              (length-hand k w),
        ))
  wait_first (polls ∷ moves) w m ms u h n enough =
      woken_first moves w m ms h n enough (λ v g o le. wait_first moves v m ms u g o le)
  wait_first (breaks e ∷ moves) w m ms u h n enough = absurd u
  wait_first (closes ∷ moves) w m ms u h n enough = absurd u

  pub until_first :
      (moves : List Move) (w : Wire) (m : Bytes) (ms : List Bytes)
      → Unbroken moves
      → Holds w (m ∷ ms)
      → 1 ≤ polls_after (length w.pending) moves
      → Hears m ms (until_recv_msg decode moves w)
  unfolding until_recv_msg on_look Noted
  until_first moves w m ms u h enough = elim (look_first w.comm.task.recv_queue w m ms refl h) [
    | inl (nothing, empty) ↦
        subst⁻¹ (Hears m ms) (ap (on_look moves) nothing)
          (wait_first moves w m ms u h (inr empty) enough)
    | inr (v, found, g) ↦ subst⁻¹ (Hears m ms) (ap (on_look moves) found) (refl, g)
  ]
