-- ===== src/Runtime/Dispatch.antt =====
-- What the loop of lib.rs has handled of the messages that the validator sends.
use bokken.Prelude.{
  ℕ, suc, ◌-◌, ◌≤◌, false, ◌≡◌, refl, sym, ap, ◌∙◌, List, [], ◌∷◌, arith, Bytes, length, take,
}
use bokken.Prelude.Result.{Result, ok, err}
use bokken.Errors.{IoErrorKind}
use bokken.Ipc.Reading.{frames, AllFramable}
use bokken.Ipc.Receiving.{Wire, Move, hands, breaks, closes, polls, hand, dequeue, stopped}
use bokken.Ipc.Waiting.{
  Holds, hand-Holds, length-hand, new_wire, new_wire-Holds, dequeue-Holds, Unbroken, polls_after,
  polls_after_mono, Holds-read,
}
use bokken.ProgramCaller.{ValidatorMessage}
use bokken.Syscalls.{Syscalls, Host}
use bokken.Runtime.{Failure, LoopEnd, fails, goes_on, handle, ipc_read_loop}

-- How the loop stands when the handling of the messages came to this.
abbrev pub standing : Result Failure (Unit {0}) × Syscalls → LoopEnd × Syscalls
standing (ok _, s) = (goes_on, s)
standing (err e, s) = (fails e, s)

module _ (host : Host) (decode : Bytes → Result IoErrorKind ValidatorMessage) where
  -- The messages one by one.
  abbrev pub handle_all : List Bytes → Syscalls → Result Failure (Unit {0}) × Syscalls
  handle_all [] s = (ok tt, s)
  handle_all (m ∷ ms) s =
      let (r, t) = handle host decode m s in elim r [ err e ↦ (err e, t) | ok _ ↦ handle_all ms t ]

  outcome_of :
      (q : Result Failure (Unit {0}) × Syscalls) (ms : List Bytes)
      (next : Syscalls → LoopEnd × Syscalls)
      → next q.1 ≡ standing (handle_all ms q.1)
      → (let p : LoopEnd × Syscalls = elim q.0 [ err e ↦ (fails e, q.1) | ok _ ↦ next q.1 ] in p)
        ≡ standing (
            let p : Result Failure (Unit {0}) × Syscalls = elim q.0 [
              | err e ↦ (err e, q.1)
              | ok _ ↦ handle_all ms q.1
            ] in
            p)
  outcome_of (ok _, t) ms next h = h
  outcome_of (err e, t) ms next h = refl

  -- The loop finds a message on the queue.
  polled :
      (m : Bytes) (queue : List Bytes) (moves : List Move) (w : Wire) (ns : List Bytes)
      (s : Syscalls)
      → w.comm.task.recv_queue ≡ m ∷ queue
      → w.comm.task.should_stop ≡ false
      → (let t = (handle host decode m s).1 in
          ipc_read_loop host decode moves (dequeue queue w) t ≡ standing (handle_all ns t))
      → ipc_read_loop host decode (polls ∷ moves) w s ≡ standing (handle_all (m ∷ ns) s)
  unfolding ipc_read_loop stopped
  polled m queue moves w ns s e going h =
      rw (going, e)
        (outcome_of (handle host decode m s) ns (ipc_read_loop host decode moves (dequeue queue w))
          h)

  -- The loop finds an empty queue.
  idle :
      (moves : List Move) (w : Wire) (s : Syscalls)
      → w.comm.task.recv_queue ≡ []
      → w.comm.task.should_stop ≡ false
      → ipc_read_loop host decode (polls ∷ moves) w s ≡ ipc_read_loop host decode moves w s
  unfolding ipc_read_loop stopped
  idle moves w s e going = simp (going, e)

  abbrev pub Handled : List Move → Wire → List Bytes → Syscalls → Type 0
  Handled moves w ms s =
      (n : ℕ) × (n ≤ length ms)
      × (ipc_read_loop host decode moves w s ≡ standing (handle_all (take n ms) s))

  polled_prefix :
      (queue : List Bytes) (moves : List Move) (w : Wire) (ms : List Bytes) (s : Syscalls)
      → w.comm.task.recv_queue ≡ queue
      → Holds w ms
      → ((v : Wire) (ns : List Bytes) (t : Syscalls) → Holds v ns → Handled moves v ns t)
      → Handled (polls ∷ moves) w ms s
  polled_prefix [] moves w ms s e h rec =
      let (n, le, same) = rec w ms s h in (n, le, idle moves w s e h.going ∙ same)
  polled_prefix (m ∷ queue) moves w ms s e h rec =
      let (ns, eq, g) = dequeue-Holds w m queue ms e h in
      let (n, le, same) = rec (dequeue queue w) ns (handle host decode m s).1 g in
      (
        suc n,
        omega (arith, ap length eq),
        polled m queue moves w (take n ns) s e h.going same
            ∙ ap (λ z. standing (handle_all (take (suc n) z) s)) (sym eq),
      )

  -- On a connection that neither breaks nor closes, what the loop has handled at any time is a part
  -- of the messages from the first one on, in their order.
  pub ipc_read_loop_prefix :
      (moves : List Move) (w : Wire) (ms : List Bytes) (s : Syscalls)
      → Unbroken moves
      → Holds w ms
      → Handled moves w ms s
  unfolding ipc_read_loop
  ipc_read_loop_prefix [] w ms s u h = (0, omega arith, refl)
  ipc_read_loop_prefix (hands k ∷ moves) w ms s u h =
      ipc_read_loop_prefix moves (hand k w) ms s u (hand-Holds k w ms h)
  ipc_read_loop_prefix (polls ∷ moves) w ms s u h =
      polled_prefix w.comm.task.recv_queue moves w ms s refl h
        (λ v ns t. ipc_read_loop_prefix moves v ns t u)
  ipc_read_loop_prefix (breaks e ∷ moves) w ms s u h = absurd u
  ipc_read_loop_prefix (closes ∷ moves) w ms s u h = absurd u

  abbrev pub AllHandled : List Move → Wire → List Bytes → Syscalls → Type 0
  AllHandled moves w ms s = ipc_read_loop host decode moves w s ≡ standing (handle_all ms s)

  polled_all :
      (queue : List Bytes) (moves : List Move) (w : Wire) (ms : List Bytes) (s : Syscalls)
      → w.comm.task.recv_queue ≡ queue
      → Holds w ms
      → length ms ≤ polls_after (length w.pending) (polls ∷ moves)
      → ((v : Wire) (ns : List Bytes) (t : Syscalls)
          → Holds v ns
          → length ns ≤ polls_after (length v.pending) moves
          → AllHandled moves v ns t)
      → AllHandled (polls ∷ moves) w ms s
  unfolding dequeue
  polled_all [] moves w ms s e h enough rec =
      let done : length w.pending ≡ 0 → length ms ≡ 0 =
        λ z. ap length (sym (Holds-read w ms h z) ∙ e) in
      idle moves w s e h.going ∙ rec w ms s h (ground (arith, done))
  polled_all (m ∷ queue) moves w ms s e h enough rec =
      let (ns, eq, g) = dequeue-Holds w m queue ms e h in
      polled m queue moves w ns s e h.going
        (rec (dequeue queue w) ns (handle host decode m s).1 g (ground (arith, ap length eq)))
      ∙ ap (λ z. standing (handle_all z s)) (sym eq)

  handled_all :
      (moves : List Move) (w : Wire) (ms : List Bytes) (s : Syscalls)
      → Unbroken moves
      → Holds w ms
      → length ms ≤ polls_after (length w.pending) moves
      → AllHandled moves w ms s
  unfolding ipc_read_loop
  handled_all [] w [] s u h enough = refl
  handled_all [] w (m ∷ ms) s u h enough = absurd (omega arith)
  handled_all (hands k ∷ moves) w ms s u h enough =
      handled_all moves (hand k w) ms s u (hand-Holds k w ms h) (
        omega (
          arith,
          polls_after_mono moves (length w.pending - 1) (length (hand k w).pending)
              (length-hand k w),
        ))
  handled_all (polls ∷ moves) w ms s u h enough =
      polled_all w.comm.task.recv_queue moves w ms s refl h enough
        (λ v ns t g le. handled_all moves v ns t u g le)
  handled_all (breaks e ∷ moves) w ms s u h enough = absurd u
  handled_all (closes ∷ moves) w ms s u h enough = absurd u

  -- Non-empty messages are sent over a connection that neither breaks nor closes: however the reading
  -- task and the loop take turns, the loop has handled all of them in their order, up to the first
  -- that fails, once it has had as many rounds as there are messages after as many reads as the
  -- stream has bytes.
  pub ipc_read_loop_all :
      (moves : List Move) (ms : List Bytes) (s : Syscalls)
      → AllFramable ms
      → Unbroken moves
      → length ms ≤ polls_after (length (frames ms)) moves
      → AllHandled moves (new_wire ms) ms s
  ipc_read_loop_all moves ms s framable u enough =
      handled_all moves (new_wire ms) ms s u (new_wire-Holds ms framable) enough
