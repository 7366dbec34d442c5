-- ===== src/Syscalls/Running.antt =====
-- The other system calls (sol_syscalls.rs), the dispatch of the validator's messages (lib.rs) and the
-- end of a program's run (executor.rs).
use Prim.Native.String.{String, ◌++◌ as append_text}
use bokken.Prelude.{if◌then◌else◌, ℕ, Option, none, some, List, [], ◌∷◌, Bytes}
use bokken.Prelude.Result.{Result, ok, err}
use bokken.Prelude.Action.{pure, reads, modify, ◌>>=◌, ◌>>◌}
use bokken.Prelude.Maps.{Map, get, remove}
use bokken.Account.{AccountData}
use bokken.AccountsBlob
use bokken.AccountsBlob.{AccountsBlob, get_sysvar_data, get_account_datas}
use bokken.ProgramCaller.{
  Call, executed, log, done, ValidatorMessage, invoke, cross_program_invoke_result,
}
use bokken.Syscalls.{
  unsent, Context, Instruction, Sys, last_context, send, sol_log, unpanicked, Host,
}

unfoldable pub sol_get_return_data : Sys (Option (ℕ × Bytes))
sol_get_return_data = reads (λ s. ok s.return_data)

unfoldable pub sol_set_return_data : Bytes → Sys (Unit {0})
sol_set_return_data data_bytes =
    modify (λ s. record s { return_data = some (s.program_id, data_bytes) })

unfoldable pub sol_get_stack_height : Sys ℕ
sol_get_stack_height = last_context >>= λ context. pure context.cpi_height

unfoldable pub sol_log_compute_units : Sys (Unit {0})
sol_log_compute_units = sol_log "WARNING: sol_log_compute_units() not available"

unfoldable pub sol_get_processed_sibling_instruction : ℕ → Sys (Option Instruction)
sol_get_processed_sibling_instruction index =
    sol_log "WARNING: sol_get_processed_sibling_instruction() not available" >> pure none

-- `BokkenSyscallMsg`
unfoldable pub push_context : Context → Sys (Unit {0})
push_context context = modify (λ s. record s { contexts = context ∷ s.contexts })

unfoldable pub pop_context : Sys (Unit {0})
pop_context = modify (λ s. record s {
  contexts = let rest : List Context = elim s.contexts [ [] ↦ [] | c ∷ cs ↦ cs ] in rest;
})

-- The blocks that wait for the answer of a cross-program call, and what they are handed; the sending
-- fails if its block is gone.
unfoldable pub deliver : ℕ → ℕ × Map AccountData → Sys (Option (ℕ × Map AccountData))
deliver nonce answer s = elim (get nonce s.invoke_result_senders) [
  | none ↦ (ok none, s)
  | some waiting ↦ (
    if waiting then ok (some answer) else err unsent,
    record s { invoke_result_senders = remove nonce s.invoke_result_senders },
  )
]

module _ (host : Host) where
  -- The code that is returned, and the bytes that are copied.
  unfoldable pub copy_sysvar : ℕ → Sys (ℕ × Bytes)
  copy_sysvar id = do
    context ← last_context
    found ← reads (λ _. unpanicked (get_sysvar_data host.max_increase id context.blob))
    elim found [ some a ↦ pure (0, a.account_bytes) | none ↦ pure (host.unsupported_sysvar, []) ]

  unfoldable pub sol_get_clock_sysvar : Sys (ℕ × Bytes)
  sol_get_clock_sysvar = copy_sysvar host.clock_id

  unfoldable pub sol_get_epoch_schedule_sysvar : Sys (ℕ × Bytes)
  sol_get_epoch_schedule_sysvar = copy_sysvar host.epoch_schedule_id

  unfoldable pub sol_get_fees_sysvar : Sys (ℕ × Bytes)
  sol_get_fees_sysvar = pure (host.unsupported_sysvar, [])

  unfoldable pub sol_get_rent_sysvar : Sys (ℕ × Bytes)
  sol_get_rent_sysvar = copy_sysvar host.rent_id

  unfoldable pub sol_log_data : List Bytes → Sys (Unit {0})
  sol_log_data fields = sol_log (append_text "data: " (host.show_fields fields))

  -- `BokkenSolanaContext::new`
  unfoldable pub new_context : ℕ → Call → Option Context
  new_context nonce call =
      elim (AccountsBlob.new host.max_increase call.program_id call.instruction call.account_metas
        call.account_datas) [
          | none ↦ none
          | some blob ↦ some (record { blob = blob; nonce = nonce; cpi_height = call.call_depth })
        ]

  -- One message in `ipc_read_loop`; the answer that is handed to a waiting call, if any.
  unfoldable pub on_message : ValidatorMessage → Sys (Option (ℕ × Map AccountData))
  on_message (invoke nonce call) = do
    context ← reads (λ _. unpanicked (new_context nonce call))
    push_context context
    pure none
  on_message (cross_program_invoke_result nonce return_code account_datas) =
      deliver nonce (return_code, account_datas)

  -- The end of a run: the code that the program returned, or the text of its panic.
  unfoldable pub finish : ℕ → AccountsBlob → Result String ℕ → Sys (Unit {0})
  finish nonce blob outcome = do
    pop_context
    account_datas ← reads (λ _. unpanicked (get_account_datas host.max_increase blob))
    elim outcome [
      | ok return_code ↦ send (done nonce (executed return_code account_datas))
      | err text ↦
          send (log nonce (append_text "Program panicked: " text))
          >> send (done nonce (executed host.panic_code account_datas))
    ]
