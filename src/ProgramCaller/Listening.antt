-- ===== src/ProgramCaller/Listening.antt =====
-- The listener of program_caller.rs (`ProgramCaller::new`): it registers the programs that connect.
use bokken.Prelude.{
  ℕ, ◌≤◌, ◌≡◌, refl, ap, ◌∙◌, true, List, [], ◌∷◌, ◌++◌, map, arith, Bytes, length, ◌||◌,
}
use bokken.Prelude.Result.{Result, ok}
use bokken.Prelude.Maps.{Map, insert, contains_key, get-insert, contains}
use bokken.Errors.{IoErrorKind, unexpected_eof}
use bokken.Ipc.Reading.{frames, AllFramable}
use bokken.Ipc.Receiving.{
  as_received, Wire, Move, hands, closes, polls, Received, closed, received, failed, unexpected,
  unfinished, new_with_identifier,
}
use bokken.Ipc.Waiting.{Unbroken, polls_after}
use bokken.Ipc.Polling.{decoded}
use bokken.Ipc.Identifying.{new_with_identifier_first, new_with_identifier_closed}

-- What a round of the loop meets: `stop` has been called, `accept` fails, or a process has connected
-- that sends some bytes, with the moves until it has identified itself.
pub data Arrival : Type 0 where
  told_to_stop : Arrival
  not_accepted : Arrival
  connects : List Move → Bytes → Arrival

-- The loop ends, ends with an error, panics, waits for a process to identify itself, or goes on.
pub data ListenEnd : Type 0 where
  ended : ListenEnd
  ended_with : IoErrorKind → ListenEnd
  panics : ListenEnd
  waits : ListenEnd
  listens : ListenEnd

-- What becomes of a process that has connected; `again` is the next round.
pub register :
    (Map Wire → ListenEnd × Map Wire) → Map Wire → Received ℕ × Wire → ListenEnd × Map Wire
register again comms (received program_id, comm) = again (insert program_id comm comms)
register again comms (closed, comm) = (ended_with unexpected_eof, comms)
register again comms (failed e, comm) = (ended_with e, comms)
register again comms (unexpected, comm) = (panics, comms)
register again comms (unfinished, comm) = (waits, comms)

module _ (decode : Bytes → Result IoErrorKind ℕ) where
  pub listen : List Arrival → Map Wire → ListenEnd × Map Wire
  listen [] comms = (listens, comms)
  listen (told_to_stop ∷ arrivals) comms = (ended, comms)
  listen (not_accepted ∷ arrivals) comms = listen arrivals comms
  listen (connects moves pending ∷ arrivals) comms =
      register (listen arrivals) comms (new_with_identifier decode moves pending true)

  -- A process that sends its id and stays connected until it has been read.
  pub record Identifies (arrival : Arrival) (program_id : ℕ) : Type 0 where
    pub moves : List Move
    pub first : Bytes
    pub others : List Bytes
    pub sends : arrival ≡ connects moves (frames (first ∷ others))
    pub framable : AllFramable (first ∷ others)
    pub stays : Unbroken moves
    pub enough : 1 ≤ polls_after (length (frames (first ∷ others))) moves
    pub names : decode first ≡ ok program_id

  abbrev pub AllIdentify : List Arrival → List ℕ → Type 0
  AllIdentify [] [] = Unit {0}
  AllIdentify [] (i ∷ ids) = ⊥
  AllIdentify (a ∷ arrivals) [] = ⊥
  AllIdentify (a ∷ arrivals) (i ∷ ids) = Identifies a i × AllIdentify arrivals ids

  first_of :
      (a : Arrival) (program_id : ℕ) (g : Identifies a program_id)
      → (w : Wire) × (new_with_identifier decode g.moves (frames (g.first ∷ g.others)) true
          ≡ (received program_id, w))
  unfolding as_received
  first_of a program_id g =
      let q = new_with_identifier decode g.moves (frames (g.first ∷ g.others)) true in
      let (same, rest) =
        new_with_identifier_first decode g.moves g.first g.others g.framable g.stays g.enough in
      let id : decoded decode g.first ≡ received program_id = ap as_received g.names in
      (q.1, ap (λ r. (r, q.1)) (same ∙ id))

  pub listen_on :
      (a : Arrival) (arrivals : List Arrival) (program_id : ℕ) (comms : Map Wire)
      → Identifies a program_id
      → (w : Wire) × (listen (a ∷ arrivals) comms ≡ listen arrivals (insert program_id w comms))
  unfolding listen register
  listen_on a arrivals program_id comms g =
      let (w, e) = first_of a program_id g in
      (w, ap (λ z. listen (z ∷ arrivals) comms) g.sends ∙ ap (register (listen arrivals) comms) e)

  -- A process that has sent any messages and closed the connection, all of which the reading task has
  -- read before the listener looks.
  abbrev pub hangs_up : List ℕ → ℕ → List Move → List Bytes → Arrival
  hangs_up ks k moves ms = connects (map hands ks ++ closes ∷ hands k ∷ polls ∷ moves) (frames ms)

  registered :
      (arrivals : List Arrival) (ids : List ℕ) (rest : List Arrival) (comms : Map Wire)
      → AllIdentify arrivals ids
      → (final : Map Wire) × ((id : ℕ)
          → contains_key id comms || contains id ids ≡ contains_key id final)
        × (listen (arrivals ++ rest) comms ≡ listen rest final)
  unfolding contains_key contains
  registered [] [] rest comms u = (comms, λ id. grind arith, refl)
  registered [] (i ∷ ids) rest comms u = absurd u
  registered (a ∷ arrivals) [] rest comms u = absurd u
  registered (a ∷ arrivals) (i ∷ ids) rest comms (g, u) =
      let (w, e) = listen_on a (arrivals ++ rest) i comms g in
      let (final, keys, same) = registered arrivals ids rest (insert i w comms) u in
      (final, λ id. grind (arith, keys id, get-insert id i w comms), e ∙ same)

  listen_ends :
      (ks : List ℕ) (k : ℕ) (moves : List Move) (ms : List Bytes) (rest : List Arrival)
      (comms : Map Wire)
      → AllFramable ms
      → length (frames ms) ≤ length ks
      → listen (hangs_up ks k moves ms ∷ rest) comms ≡ (ended_with unexpected_eof, comms)
  unfolding listen register
  listen_ends ks k moves ms rest comms framable fits =
      let q =
        new_with_identifier decode (map hands ks ++ closes ∷ hands k ∷ polls ∷ moves) (frames ms)
          true in
      ap (λ r. register (listen rest) comms (r, q.1))
        (new_with_identifier_closed decode ks k moves ms framable fits)

  -- Programs that identify themselves are registered, and no others. The first process that closes its
  -- connection before the listener has looked ends the listener with an error, so that nothing that
  -- connects later is registered.
  pub listen_hang_up :
      (arrivals : List Arrival) (ids : List ℕ) (ks : List ℕ) (k : ℕ) (moves : List Move)
      (ms : List Bytes) (rest : List Arrival) (comms : Map Wire)
      → AllIdentify arrivals ids
      → AllFramable ms
      → length (frames ms) ≤ length ks
      → (final : Map Wire) × ((id : ℕ)
          → contains_key id comms || contains id ids ≡ contains_key id final)
        × (listen (arrivals ++ hangs_up ks k moves ms ∷ rest) comms
            ≡ (ended_with unexpected_eof, final))
  listen_hang_up arrivals ids ks k moves ms rest comms u framable fits =
      let (final, keys, same) = registered arrivals ids (hangs_up ks k moves ms ∷ rest) comms u in
      (final, keys, same ∙ listen_ends ks k moves ms rest final framable fits)
