-- ===== src/ProgramCaller.antt =====
-- solana-debug-validator/src/program_caller.rs: the calls of programs, with the messages of
-- solana-debug-runtime/src/debug_env.rs. The validator's threads are one sequence: what arrives from
-- the programs is a list of events, which are taken while a call waits. A message that is sent is
-- kept with the program that it goes to.
pub mod Ending
pub mod Answers
pub mod Native
pub mod Listening
pub mod Sample
mod Tests
use Prim.Native.String.{String, ◌++◌ as append_text}
use bokken.Prelude.{
  ℕ, zero, suc, ◌+◌, ◌%◌, ◌^◌, Bool, true, false, ◌||◌, Option, none, some, List, [], ◌∷◌, ◌++◌,
  Bytes, ◌==◌, if◌then◌else◌,
}
use bokken.Prelude.Result.{Result, ok, err}
use bokken.Prelude.Action.{Action, pure, raise, modify, ◌>>=◌, ◌>>◌}
use bokken.Prelude.Maps.{Map, get, insert, remove, contains_key}
use bokken.Errors.{
  BokkenError, ProgramError, transaction_error, account_not_found, program_closed_connection,
  stopping,
}
use bokken.Account.{AccountData, AccountMeta}
use bokken.SystemProgram.{Host, SystemState, exec}

-- What a call of a program says: who, with what, and how deep.
pub record Call : Type 0 where
  pub program_id : ℕ
  pub instruction : Bytes
  pub account_metas : List AccountMeta
  pub account_datas : Map AccountData
  pub call_depth : ℕ

-- `ProgramCallerExecStatus`
pub data ExecStatus : Type 0 where
  executed : (return_code : ℕ) (account_datas : Map AccountData) → ExecStatus
  cpi : Call → ExecStatus

-- `BokkenRuntimeMessage`; `done` is `Executed` or `CrossProgramInvoke`.
pub data RuntimeMessage : Type 0 where
  log : (nonce : ℕ) → String → RuntimeMessage
  done : (nonce : ℕ) → ExecStatus → RuntimeMessage

-- `BokkenValidatorMessage`
pub data ValidatorMessage : Type 0 where
  invoke : (nonce : ℕ) → Call → ValidatorMessage
  cross_program_invoke_result :
      (nonce return_code : ℕ) (account_datas : Map AccountData) → ValidatorMessage

-- What happens beside a call: a message arrives, or bytes that are no message, a program registers,
-- `stop` is called.
pub data Event : Type 0 where
  arrives : RuntimeMessage → Event
  garbled : Event
  registers : ℕ → Event
  stop : Event

-- `ProgramCaller`, with the number of the next call (`COMM_NONCE`).
pub record ProgramCaller : Type 0 where
  pub native_logs : List String
  pub should_stop : Bool
  pub comms : Map (List ValidatorMessage)
  pub exec_logs : Map (List String)
  pub exec_results : Map ExecStatus
  pub next_nonce : ℕ
  pub events : List Event

-- A call ends with an error value, or it is cut off.
pub data Failure : Type 0 where
  failed : BokkenError → Failure
  out_of_fuel : Failure

-- The return code, the logs and the accounts.
abbrev pub CallResult : Type 0
CallResult = ℕ × List String × Map AccountData

abbrev pub Calls : Type 0 → Type 0
Calls = Action ProgramCaller Failure

-- The lines behind those of a call: `exec_log.push`, `exec_log.extend`.
unfoldable pub add_lines : ℕ → List String → ProgramCaller → ProgramCaller
add_lines nonce lines c = elim (get nonce c.exec_logs) [
  | none ↦ c
  | some logs ↦ record c { exec_logs = insert nonce (logs ++ lines) c.exec_logs }
]

-- One message in the loop of the receiving task.
unfoldable pub receive : RuntimeMessage → ProgramCaller → ProgramCaller
receive (log nonce message) c = add_lines nonce (message ∷ []) c
receive (done nonce status) c = record c { exec_results = insert nonce status c.exec_results }

-- Bytes that are no message are not taken: `wait` ends at them.
unfoldable pub take_event : Event → ProgramCaller → ProgramCaller
take_event (arrives message) c = receive message c
take_event garbled c = c
take_event (registers program_id) c = record c { comms = insert program_id [] c.comms }
take_event stop c = record c { should_stop = true }

-- `stuff_executed`: whether the tasks that wait are woken.
unfoldable pub wakes : Event → Bool
wakes (arrives (done nonce status)) = true
wakes (arrives (log nonce message)) = false
wakes garbled = false
wakes (registers program_id) = false
wakes stop = false

-- `recv_msg().await?`: a message that cannot be decoded ends the receiving task.
unfoldable pub ends_receiving : Event → Bool
ends_receiving garbled = true
ends_receiving (arrives message) = false
ends_receiving (registers program_id) = false
ends_receiving stop = false

-- One round of the loop of `wait_for_exec_status`, up to its `changed()`.
unfoldable pub check_status : ℕ → ProgramCaller → Option (Result Failure ExecStatus × ProgramCaller)
check_status nonce c =
    if c.should_stop then some (err (failed stopping), c) else elim (get nonce c.exec_results) [
      | none ↦ none
      | some status ↦ some (ok status, record c { exec_results = remove nonce c.exec_results })
    ]

-- `awake` says that a round begins; the channel is closed behind the last event, and by bytes that are
-- no message: these stay in front, and nothing behind them is taken.
unfoldable pub wait : ℕ → (awake : Bool) → List Event → Calls ExecStatus
wait nonce awake [] c = elim (if awake then check_status nonce c else none) [
  | some r ↦ (r.0, record r.1 { events = [] })
  | none ↦ (err (failed program_closed_connection), record c { events = [] })
]
wait nonce awake (e ∷ es) c = elim (if awake then check_status nonce c else none) [
  | some r ↦ (r.0, record r.1 { events = e ∷ es })
  | none ↦ elim (ends_receiving e) [
    | true ↦ (err (failed program_closed_connection), record c { events = e ∷ es })
    | false ↦ wait nonce (wakes e) es (take_event e c)
  ]
]

unfoldable pub wait_for_exec_status : ℕ → Calls ExecStatus
wait_for_exec_status nonce c = wait nonce true c.events c

-- `comms.get_mut(&program_id).ok_or(…)?.send_msg(message)`
unfoldable pub send_to : ℕ → ValidatorMessage → Calls (Unit {0})
send_to program_id message c = elim (get program_id c.comms) [
  | none ↦ (err (failed (transaction_error account_not_found)), c)
  | some sent ↦ (ok tt, record c { comms = insert program_id (sent ++ message ∷ []) c.comms })
]

-- `COMM_NONCE.fetch_add(1)`
unfoldable pub fresh_nonce : Calls ℕ
fresh_nonce c = (ok c.next_nonce, record c { next_nonce = (c.next_nonce + 1) % 2 ^ 64 })

-- `exec_logs.remove(&nonce).unwrap_or_default()`
unfoldable pub take_lines : ℕ → Calls (List String)
take_lines nonce c = elim (get nonce c.exec_logs) [
  | none ↦ (ok [], record c { exec_logs = remove nonce c.exec_logs })
  | some lines ↦ (ok lines, record c { exec_logs = remove nonce c.exec_logs })
]

-- `BokkenError::Stopping` if the caller stops.
unfoldable pub check_stop : Calls (Unit {0})
check_stop c = (if c.should_stop then err (failed stopping) else ok tt, c)

-- The native programs, the error codes of `ProgramError` and the texts of `format!`.
pub record Natives : Type 0 where
  pub system_program_id : ℕ
  pub host : Host
  pub error_code : ProgramError → ℕ
  pub program_error : ℕ → ProgramError
  pub show_key : ℕ → String
  pub show_depth : ℕ → String
  pub show_error : ProgramError → String

module _ (env : Natives) where
  unfoldable pub invoke_line : Call → String
  invoke_line call = append_text "Program " (
      append_text (env.show_key call.program_id)
        (append_text " invoke [" (append_text (env.show_depth call.call_depth) "]")))

  unfoldable pub success_line : ℕ → String
  success_line program_id =
      append_text "Program " (append_text (env.show_key program_id) " success")

  unfoldable pub returned_line : ℕ → ProgramError → String
  returned_line program_id e =
      append_text "Program "
        (append_text (env.show_key program_id) (append_text " returned: " (env.show_error e)))

  unfoldable pub has_program_id : ℕ → ProgramCaller → Bool
  has_program_id program_id c =
      (program_id == env.system_program_id) || contains_key program_id c.comms

  -- The native program's run: its return code, its logs and the accounts.
  unfoldable pub run_native : Call → CallResult
  run_native call =
      let (r, s) =
        exec env.host call.instruction call.account_metas
          (record { logs = invoke_line call ∷ []; account_datas = call.account_datas }) in
      elim r [
        | ok _ ↦ (0, s.logs ++ success_line call.program_id ∷ [], s.account_datas)
        | err e ↦
            (env.error_code e, s.logs ++ returned_line call.program_id e ∷ [], s.account_datas)
      ]

  -- The lines that are returned for a program that ran.
  unfoldable pub all_lines : Call → ℕ → List String → List String
  all_lines call return_code lines =
      invoke_line call
      ∷ (lines
          ++ (if return_code == 0
              then success_line call.program_id
              else returned_line call.program_id (env.program_error return_code))
            ∷ [])

  -- The match on a status in the loop of `call_program`; `again` is the next round.
  unfoldable pub on_status :
      (Call → Calls CallResult)
      → Calls CallResult
      → (nonce : ℕ) → Call
      → ExecStatus
      → Calls CallResult
  on_status sub_call again nonce call (executed return_code account_datas) =
      take_lines nonce >>= λ lines.
      pure (return_code, all_lines call return_code lines, account_datas)
  on_status sub_call again nonce call (cpi sub) =
      sub_call (record sub { call_depth = (sub.call_depth + 1) % 2 ^ 8 }) >>= λ r.
      modify (add_lines nonce r.1)
      >> (send_to call.program_id (cross_program_invoke_result nonce r.0 r.2) >> again)

  -- The loop of `call_program`; `sub_call` is its recursive call.
  unfoldable pub serve : (Call → Calls CallResult) → (fuel nonce : ℕ) → Call → Calls CallResult
  serve sub_call zero nonce call = raise out_of_fuel
  serve sub_call (suc fuel) nonce call =
      check_stop
      >> (wait_for_exec_status nonce
          >>= on_status sub_call (serve sub_call fuel nonce call) nonce call)

  unfoldable pub call_program : (fuel : ℕ) → Call → Calls (CallResult)
  call_program zero call = raise out_of_fuel
  call_program (suc fuel) call = elim (call.program_id == env.system_program_id) [
    | true ↦ λ c. let r = run_native call in (ok r, record c { native_logs = r.1 })
    | false ↦ fresh_nonce >>= λ nonce.
        send_to call.program_id (invoke nonce call)
        >> (modify (λ c. record c { exec_logs = insert nonce [] c.exec_logs })
            >> serve (call_program fuel) (suc fuel) nonce call)
  ]
