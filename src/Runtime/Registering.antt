-- ===== src/Runtime/Registering.antt =====
-- A program that starts (lib.rs) and the listener of the validator (program_caller.rs).
use Prim.Native.String.{String}
use bokken.Prelude.{ℕ, true, ◌≤◌, ◌≡◌, ap, Option, none, List, [], ◌∷◌, arith, Bytes, length}
use bokken.Prelude.Result.{Result, ok}
use bokken.Prelude.Maps.{Map, insert}
use bokken.Errors.{IoErrorKind}
use bokken.Ipc.{send_msg, WriteEvent}
use bokken.Ipc.Reading.{frames, AllFramable}
use bokken.Ipc.Receiving.{Wire, Move, new_comm}
use bokken.Ipc.Waiting.{Unbroken, polls_after}
use bokken.Ipc.Writing.{write_loop, WholeWrites, writes, send_all}
use bokken.Ipc.RoundTrip.{write_loop-frames}
use bokken.ProgramCaller.{ValidatorMessage}
use bokken.ProgramCaller.Listening.{Arrival, connects, listen, listen_on}
use bokken.Syscalls.{Syscalls, Host}
use bokken.Runtime.{LoopEnd, ipc_read_loop}
use bokken.Runtime.Entry.{CommandOptions, new_syscalls, has_run, bokken_runtime_main}

module _ (host : Host) (decode : Bytes → Result IoErrorKind ValidatorMessage)
    (connect : String → Option IoErrorKind) (encode_id : ℕ → Result IoErrorKind Bytes)
    (decode_id : Bytes → Result IoErrorKind ℕ) where
  main_runs :
      (opts : CommandOptions) (moves : List Move) (pending msg_bytes : Bytes)
      → connect opts.socket_path ≡ none
      → encode_id opts.program_id ≡ ok msg_bytes
      → let (e, s) =
          ipc_read_loop host decode moves
            (record { comm = new_comm; pending = pending; is_open = true })
            (new_syscalls opts.program_id) in
        bokken_runtime_main host decode connect encode_id opts moves pending
        ≡ has_run (send_msg [] msg_bytes) e s
  unfolding bokken_runtime_main
  main_runs opts moves pending msg_bytes free encoded = ground (arith, free, encoded)

  -- A program that can connect and encode its id, which decodes to itself and is not empty, starts
  -- its loop. If the socket takes what the program has queued by then, each buffer whole, and the
  -- connection neither breaks nor closes, the listener that is polled after enough reads registers
  -- the connection under that id, and goes on with what connects later.
  pub bokken_runtime_main-listen :
      (opts : CommandOptions) (moves : List Move) (pending msg_bytes : Bytes)
      (events : List WriteEvent) (turns : List Move) (rest : List Arrival) (comms : Map Wire)
      → connect opts.socket_path ≡ none
      → encode_id opts.program_id ≡ ok msg_bytes
      → decode_id msg_bytes ≡ ok opts.program_id
      → AllFramable (msg_bytes ∷ [])
      → WholeWrites events (send_msg [] msg_bytes)
      → 2 ≤ writes events
      → Unbroken turns
      → 1 ≤ polls_after (length (frames (msg_bytes ∷ []))) turns
      → (send_queue : List Bytes) × (e : LoopEnd) × (s : Syscalls) × (w : Wire)
        × (bokken_runtime_main host decode connect encode_id opts moves pending
            ≡ has_run send_queue e s)
        × (listen decode_id (connects turns (write_loop events send_queue).0 ∷ rest) comms
            ≡ listen decode_id rest (insert opts.program_id w comms))
  unfolding send_all
  bokken_runtime_main-listen opts moves pending msg_bytes events turns rest comms free encoded back
        framable whole enough stays polled =
      let comm : Wire = record { comm = new_comm; pending = pending; is_open = true } in
      let (e, s) = ipc_read_loop host decode moves comm (new_syscalls opts.program_id) in
      let a = connects turns (write_loop events (send_msg [] msg_bytes)).0 in
      let (w, same) = listen_on decode_id a rest opts.program_id comms (record {
        moves = turns;
        first = msg_bytes;
        others = [];
        sends = ap (connects turns) (write_loop-frames events (msg_bytes ∷ []) whole enough);
        framable = framable;
        stays = stays;
        enough = polled;
        names = back;
      }) in
      (send_msg [] msg_bytes, e, s, w, main_runs opts moves pending msg_bytes free encoded, same)
