-- ===== src/ProgramCaller/Tests.antt =====
-- A concrete caller of program_caller.rs.
use bokken.Prelude.{
  ◌++◌, ◌||◌, replicate, to_le_bytes, ℕ, ◌≡◌, ◌≢◌, refl, false, List, [], ◌∷◌, arith, Bytes,
}
use bokken.Prelude.Result.{Result, ok, err}
use bokken.Prelude.Maps.{Map, get, contains, contains_key}
use bokken.Ipc.Reading.{frames}
use bokken.Ipc.Receiving.{Wire, hands, polls}
use bokken.ProgramCaller.Listening.{Arrival, connects, listen, hangs_up, ended_with, listen_hang_up}
use bokken.Errors.{IoErrorKind, invalid_data, unexpected_eof, BokkenError, should_not_happen}
use bokken.Account.{AccountData, AccountMeta, default_account}
use bokken.Ledger.{Environment}
use bokken.Ledger.Sample.{quiet}
use bokken.Ledger.Charges.{CallsSettle}
use bokken.ProgramCaller.{
  Call, CallResult, executed, log, done, Event, arrives, stop, ProgramCaller, Failure, failed,
  out_of_fuel, all_lines, call_program,
}
use bokken.ProgramCaller.Sample.{natives}
use bokken.ProgramCaller.Ending.{pending, call_program_ends}
use bokken.ProgramCaller.Answers.{lines_of, call_program_answered}
use bokken.ProgramCaller.Native.{Uses, alone-CallsSettle}

abbrev a_call : Call
a_call = record {
  program_id = 50;
  instruction = 1 ∷ [];
  account_metas = [];
  account_datas = (7, record default_account { lamports = 9 }) ∷ [];
  call_depth = 1;
}

-- The messages of call 3 come between those of call 2.
abbrev some_events : List Event
some_events =
    arrives (log 3 "first")
    ∷ arrives (log 2 "foreign")
    ∷ arrives (done 2 (executed 0 []))
    ∷ arrives (log 3 "second")
    ∷ []

abbrev a_caller : ProgramCaller
a_caller = record {
  native_logs = [];
  should_stop = false;
  comms = (50, []) ∷ [];
  exec_logs = [];
  exec_results = [];
  next_nonce = 3;
  events =
      arrives (log 3 "first")
      ∷ arrives (log 2 "foreign")
      ∷ arrives (done 2 (executed 0 []))
      ∷ arrives (log 3 "second")
      ∷ arrives (done 3 (executed 0 []))
      ∷ stop
      ∷ [];
}

call_program_ends_example : (call_program natives 7 a_call a_caller).0 ≢ err out_of_fuel
unfolding pending
call_program_ends_example = call_program_ends natives 7 a_call a_caller (omega arith)

call_program_answered_example :
    (call_program natives 1 a_call a_caller).0
    ≡ ok (0, all_lines natives a_call 0 (lines_of 3 some_events), [])
unfolding get
call_program_answered_example =
    call_program_answered natives 0 a_call some_events (stop ∷ []) 0 [] [] a_caller
      (λ e. omega arith) refl refl refl refl (tt, (tt, ((λ e. omega arith), (tt, tt))))

two_lines : lines_of 3 some_events ≡ "first" ∷ "second" ∷ []
unfolding lines_of
two_lines = refl

abbrev a_lone_caller : ProgramCaller
a_lone_caller = record a_caller { comms = [] }

abbrev whole_call : ℕ → Bytes → List AccountMeta → Map AccountData → ℕ → Call
whole_call program bytes metas datas depth = record {
  program_id = program;
  instruction = bytes;
  account_metas = metas;
  account_datas = datas;
  call_depth = depth;
}

abbrev value_of : Result Failure CallResult → Result BokkenError CallResult
value_of (ok r) = ok r
value_of (err (failed e)) = err e
value_of (err out_of_fuel) = err should_not_happen

value_of-ok : (q : Result Failure CallResult) (r : CallResult) → value_of q ≡ ok r → q ≡ ok r
value_of-ok (ok s) r e = ground arith
value_of-ok (err (failed x)) r e = ground arith
value_of-ok (err out_of_fuel) r e = ground arith

-- The ledger's programs are those of a caller that only has the native one.
abbrev native_ledger : Environment ℕ
native_ledger = record quiet {
  call_program = λ program bytes metas datas depth.
      value_of
        (call_program natives 1 (whole_call program bytes metas datas depth) a_lone_caller).0;
}

native_ledger-Uses : Uses natives native_ledger a_lone_caller
native_ledger-Uses = record {
  calls = λ program bytes metas datas depth r e. (
    0,
    value_of-ok
        (call_program natives 1 (whole_call program bytes metas datas depth) a_lone_caller).0 r e,
  );
}

alone-CallsSettle_example : CallsSettle native_ledger
alone-CallsSettle_example =
    alone-CallsSettle natives native_ledger a_lone_caller (λ e z. omega (arith, z)) refl
      native_ledger-Uses

abbrev id_of : Bytes → Result IoErrorKind ℕ
id_of [] = err invalid_data
id_of (id ∷ bytes) = ok id

-- Program 50 sends its id and stays; another process closes its connection at once.
abbrev a_program : Arrival
a_program = connects (replicate 9 (hands 7) ++ polls ∷ []) (frames ((50 ∷ []) ∷ []))

listen_hang_up_example :
    (final : Map Wire) × ((id : ℕ)
      → contains_key {V = Wire} id [] || contains id (50 ∷ []) ≡ contains_key id final)
    × (listen id_of ((a_program ∷ []) ++ hangs_up id_of [] 0 [] [] ∷ a_program ∷ []) []
        ≡ (ended_with unexpected_eof, final))
unfolding frames to_le_bytes
listen_hang_up_example =
    listen_hang_up id_of (a_program ∷ []) (50 ∷ []) [] 0 [] [] (a_program ∷ []) []
      (
        record {
          moves = replicate 9 (hands 7) ++ polls ∷ [];
          first = 50 ∷ [];
          others = [];
          sends = refl;
          framable = (omega arith, omega arith, tt);
          stays = tt;
          enough = omega arith;
          names = refl;
        },
        tt,
      )
      tt (omega arith)
