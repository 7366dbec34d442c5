-- ===== src/Syscalls.antt =====
-- solana-debug-runtime/src/sol_syscalls.rs: what a program's system calls do, with the contexts of
-- executor.rs and the messages of lib.rs. Messages to the validator are kept in the order in which
-- they are sent; what the validator answers to a cross-program call is an argument.
pub mod Running
pub mod Executing
pub mod Invoking
mod Tests
use Prim.Native.String.{String, ◌++◌ as append_text}
use bokken.Prelude.{
  ℕ, ◌+◌, Bool, true, false, not, ◌&&◌, ◌||◌, Option, none, some, List, [], ◌∷◌, ◌++◌, Bytes,
  get_elem?, ◌==◌, if◌then◌else◌,
}
use bokken.Prelude.Result.{Result, ok, err, ok_or}
use bokken.Prelude.Action.{Action, pure, raise, reads, modify, raise_if, ◌>>=◌, ◌>>◌}
use bokken.Prelude.Maps.{Map, get, insert, remove, contains_key, contains}
use bokken.Errors.{
  ProgramError, custom, invalid_account_data, missing_required_signature, not_enough_account_keys,
}
use bokken.Account.{AccountData, AccountMeta}
use bokken.AccountsBlob
use bokken.AccountsBlob.{
  AccountsBlob, get_account_data, get_sysvar_data, set_account_data, is_writable, is_signer,
  get_account_datas,
}
use bokken.ProgramCaller.{
  Call, ExecStatus, executed, cpi, RuntimeMessage, log, done, ValidatorMessage, invoke,
  cross_program_invoke_result,
}

-- An error value, a panic of the program's thread, or a channel without a receiver.
pub data Halt : Type 0 where
  failed : ProgramError → Halt
  panicked : Halt
  unsent : Halt

-- `BokkenSolanaContext`
pub record Context : Type 0 where
  pub blob : AccountsBlob
  pub nonce : ℕ
  pub cpi_height : ℕ

-- `BokkenSyscalls`, the last context first, with what was sent. A sender of an answer is whether the
-- receiver is still there.
pub record Syscalls : Type 0 where
  pub program_id : ℕ
  pub contexts : List Context
  pub invoke_result_senders : Map Bool
  pub return_data : Option (ℕ × Bytes)
  pub sent : List RuntimeMessage

-- `solana_program::instruction::Instruction`
pub record Instruction : Type 0 where
  pub program_id : ℕ
  pub accounts : List AccountMeta
  pub data_bytes : Bytes

abbrev pub Sys : Type 0 → Type 0
Sys = Action Syscalls Halt

-- `contexts.last().expect(…)`
unfoldable pub last_context : Sys Context
last_context s = elim s.contexts [ [] ↦ (err panicked, s) | context ∷ contexts ↦ (ok context, s) ]

unfoldable pub send : RuntimeMessage → Sys (Unit {0})
send message = modify (λ s. record s { sent = s.sent ++ message ∷ [] })

unfoldable pub sol_log : String → Sys (Unit {0})
sol_log message =
    last_context >>= λ context. send (log context.nonce (append_text "Program logged: " message))

-- The value of a computation on the blob that may panic.
unfoldable pub unpanicked : {A : Type 0} → Option A → Result Halt A
unpanicked none = err panicked
unpanicked (some a) = ok a

-- `get_account_data(…).ok_or(NotEnoughAccountKeys)?` and the same for system variables.
unfoldable pub or_missing : Option (Option AccountData) → Result Halt AccountData
or_missing none = err panicked
or_missing (some none) = err (failed not_enough_account_keys)
or_missing (some (some a)) = ok a

-- `get_account_data(…).expect(…)`
unfoldable pub or_panic : Option (Option AccountData) → Result Halt AccountData
or_panic none = err panicked
or_panic (some none) = err panicked
or_panic (some (some a)) = ok a

-- The blob of the last context.
unfoldable pub on_blob : {A : Type 0} → Action AccountsBlob Halt A → Sys A
on_blob m s = elim s.contexts [
  | [] ↦ (err panicked, s)
  | context ∷ contexts ↦
      let (r, b) = m context.blob in
      (r, record s { contexts = (record context { blob = b }) ∷ contexts })
]

-- The program addresses of other crates, the ids of the system variables and the texts.
pub record Host : Type 0 where
  pub max_increase : ℕ
  pub create_program_address : List Bytes → ℕ → Result ProgramError ℕ
  pub rent_id : ℕ
  pub clock_id : ℕ
  pub epoch_schedule_id : ℕ
  pub unsupported_sysvar : ℕ
  pub needs_signature : ℕ → String
  pub show_fields : List Bytes → String
  pub panic_code : ℕ

module _ (host : Host) where
  -- The addresses that the seeds sign for.
  unfoldable pub just_signed : ℕ → List (List Bytes) → Result Halt (List ℕ)
  just_signed program_id [] = ok []
  just_signed program_id (seed ∷ seeds) = elim (host.create_program_address seed program_id) [
    | err e ↦ err (failed e)
    | ok key ↦ elim (just_signed program_id seeds) [ err e ↦ err e | ok keys ↦ ok (key ∷ keys) ]
  ]

  -- What is wrong with a meta, if anything, and what is logged then.
  unfoldable pub refusal :
      AccountsBlob → List ℕ → ℕ → AccountMeta → Option (Option (String × ProgramError))
  refusal blob signed info meta =
      if not (info == meta.pubkey)
      then some (some ("Invoke: Accoune meta doesn't match account info", invalid_account_data))
      else elim (if meta.is_writable then is_writable meta.pubkey blob else some true) [
        | none ↦ none
        | some false ↦ some (
            some (
              "Invoke: Cannot instruction requres an non-writable account to be writable",
              custom 0,
            ))
        | some true ↦ elim (if meta.is_signer then is_signer meta.pubkey blob else some true) [
          | none ↦ none
          | some true ↦ some none
          | some false ↦
              if contains meta.pubkey signed
              then some none
              else some (some (host.needs_signature meta.pubkey, missing_required_signature))
        ]
      ]

  -- The first loop over the metas, from index `i` on.
  unfoldable pub check_metas :
      AccountsBlob → List ℕ → List ℕ → ℕ → List AccountMeta → Sys (Unit {0})
  check_metas blob signed infos i [] = pure tt
  check_metas blob signed infos i (meta ∷ metas) = do
    info ← reads (λ _. unpanicked (get_elem? infos i))
    wrong ← reads (λ _. unpanicked (refusal blob signed info meta))
    elim wrong [
      | some (text, e) ↦ sol_log text >> raise (failed e)
      | none ↦ reads (λ _. or_panic (get_account_data host.max_increase meta.pubkey blob)) >>= λ _.
          check_metas blob signed infos (i + 1) metas
    ]

  -- The accounts that go with the message: those of the metas, then the two system variables.
  unfoldable pub outgoing :
      AccountsBlob → List AccountMeta → Map AccountData → Result Halt (Map AccountData)
  outgoing blob [] datas = elim (or_missing (get_sysvar_data host.max_increase host.rent_id blob)) [
    | err e ↦ err e
    | ok rent ↦ elim (or_missing (get_sysvar_data host.max_increase host.clock_id blob)) [
      | err e ↦ err e
      | ok clock ↦ ok (insert host.clock_id clock (insert host.rent_id rent datas))
    ]
  ]
  outgoing blob (meta ∷ metas) datas =
      elim (or_missing (get_account_data host.max_increase meta.pubkey blob)) [
        | err e ↦ err e
        | ok account ↦ outgoing blob metas (insert meta.pubkey account datas)
      ]

  -- `sol_invoke_signed` up to the message that it sends.
  unfoldable pub request : Instruction → List ℕ → List (List Bytes) → Sys Call
  request ix infos seeds = do
    signed ← λ s. (just_signed s.program_id seeds, s)
    context ← last_context
    check_metas context.blob signed infos 0 ix.accounts
    modify (λ s. record s {
      invoke_result_senders = insert context.nonce true s.invoke_result_senders;
    })
    datas ← reads (λ _. outgoing context.blob ix.accounts [])
    call ← reads (λ s. ok (record {
      program_id = s.program_id;
      instruction = ix.data_bytes;
      account_metas = ix.accounts;
      account_datas = datas;
      call_depth = context.cpi_height;
    }))
    send (done context.nonce (cpi call))
    pure call

  -- The accounts of the answer, one after the other.
  unfoldable pub write_back : Map AccountData → Action AccountsBlob Halt (Unit {0})
  write_back [] blob = (ok tt, blob)
  write_back ((pubkey, a) ∷ datas) blob = elim (set_account_data host.max_increase pubkey a blob) [
    | none ↦ (err panicked, blob)
    | some (err e, b) ↦ (err (failed e), b)
    | some (ok _, b) ↦ write_back datas b
  ]

  -- `sol_invoke_signed` behind the message, with the answer.
  unfoldable pub settle : ℕ × Map AccountData → Sys (Unit {0})
  settle (return_code, datas) =
      on_blob (write_back datas) >> raise_if (not (return_code == 0)) panicked

  unfoldable pub sol_invoke_signed :
      (Call → Option (ℕ × Map AccountData))
      → Instruction
      → List ℕ
      → List (List Bytes)
      → Sys (Unit {0})
  sol_invoke_signed validator ix infos seeds = do
    call ← request ix infos seeds
    answer ← reads (λ _. unpanicked (validator call))
    settle answer
