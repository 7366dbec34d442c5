-- ===== src/Syscalls/Tests.antt =====
-- A concrete program that makes a system call of sol_syscalls.rs.
use bokken.Prelude.{
  zero, false, arith, ◌≡◌, ◌++◌, refl, true, none, [], ◌∷◌, replicate, to_le_bytes, from_le_bytes,
}
use bokken.Prelude.Result.{Result, ok, err}
use bokken.Prelude.Post.{Post}
use bokken.Prelude.Maps.{get, insert, remove}
use bokken.Account.{AccountData, AccountMeta, default_account}
use bokken.AccountsBlob.{
  AccountsBlob, add_accounts, add_account, account_entry, header_bytes, get_account_datas,
  read_offsets, is_writable, is_signer, get_account_data_header, header_at, slice, parse_header,
  get_account_data, account_at, get_sysvar_data,
}
use bokken.AccountsBlob.Layout.{live_bytes}
use bokken.ProgramCaller.{
  Call, executed, log, done, arrives, ProgramCaller, all_lines, call_program,
}
use bokken.ProgramCaller.Sample.{natives}
use bokken.AccountsBlob
use bokken.Syscalls.{
  Host, Context, Syscalls, Instruction, just_signed, last_context, check_metas, refusal, sol_log,
  unpanicked, or_panic, or_missing, outgoing, send, request,
}
use bokken.Syscalls.Running.{new_context, on_message, push_context, pop_context, finish}
use bokken.Syscalls.Executing.{
  Entrypoint, IsRun, execute_sol_program_thread, run_invoke, call_program-run_invoke,
}
use bokken.Syscalls.Invoking.{Requested, request-Requested}

abbrev host : Host
host = record {
  max_increase = 8;
  create_program_address = λ seed program. ok 60;
  rent_id = 101;
  clock_id = 100;
  epoch_schedule_id = 102;
  unsupported_sysvar = 7;
  needs_signature = λ key. "unsigned";
  show_fields = λ fields. "";
  panic_code = 1;
}

abbrev only_account : AccountData
only_account = record default_account { lamports = 7; account_bytes = 5 ∷ 6 ∷ 7 ∷ 8 ∷ [] }

abbrev only_meta : AccountMeta
only_meta = record { pubkey = 1; is_signer = true; is_writable = true }

abbrev a_context : Context
a_context = record {
  blob = record {
    account_offsets = (1, 8) ∷ [];
    bytes =
        to_le_bytes 8 1
        ++ (live_bytes only_meta 4 only_account
            ++ (only_account.account_bytes ++ (replicate 12 0 ++ (to_le_bytes 8 0 ++ []))));
    non_entrypointed_account_infos = (100, default_account) ∷ (101, default_account) ∷ [];
  };
  nonce = 4;
  cpi_height = 1;
}

abbrev a_program : Syscalls
a_program = record {
  program_id = 50;
  contexts = a_context ∷ [];
  invoke_result_senders = [];
  return_data = none;
  sent = [];
}

abbrev an_instruction : Instruction
an_instruction = record { program_id = 0; accounts = only_meta ∷ []; data_bytes = 3 ∷ [] }

request-Requested_example :
    Post
      (request host an_instruction (1 ∷ []) [])
      a_program
      (Requested host an_instruction (1 ∷ []) [] a_context a_program)
unfolding just_signed
request-Requested_example =
    request-Requested host an_instruction (1 ∷ []) [] [] a_context [] a_program refl refl

abbrev IsOk : {E A : Type 0} → Result E A → Type 0
IsOk (ok a) = Unit {0}
IsOk (err e) = ⊥

-- The request is sent.
request_sent : IsOk (request host an_instruction (1 ∷ []) [] a_program).0
unfolding just_signed request last_context check_metas refusal unpanicked or_panic or_missing
    outgoing is_writable is_signer get_account_data_header header_at slice parse_header
    get_account_data account_at get_sysvar_data get insert send to_le_bytes from_le_bytes
request_sent = tt

-- A program that logs and then panics.
abbrev greets : Entrypoint
greets s = let (r, t) = sol_log "hello" s in (err "bye", t)

abbrev a_started : Syscalls
a_started = record a_program { contexts = [] }

abbrev greeting : Call
greeting = record {
  program_id = 50;
  instruction = 3 ∷ [];
  account_metas = only_meta ∷ [];
  account_datas = (1, only_account) ∷ [];
  call_depth = 1;
}

abbrev waiting_caller : ProgramCaller
waiting_caller = record {
  native_logs = [];
  should_stop = false;
  comms = (50, []) ∷ [];
  exec_logs = [];
  exec_results = [];
  next_nonce = 4;
  events =
      arrives (log 4 "Program logged: hello")
      ∷ arrives (log 4 "Program panicked: bye")
      ∷ arrives (done 4 (executed 1 ((1, only_account) ∷ [])))
      ∷ [];
}

abbrev built : AccountsBlob
built = record {
  account_offsets = (1, 8) ∷ [];
  bytes =
      (to_le_bytes 8 1 ++ account_entry 8 8 only_meta only_account)
      ++ (to_le_bytes 8 1 ++ (3 ∷ [] ++ to_le_bytes 32 50));
  non_entrypointed_account_infos = [];
}

greets-IsRun :
    IsRun host greets 4 greeting a_started
      ("Program logged: hello" ∷ [])
      (err "bye")
      ((1, only_account) ∷ [])
unfolding new_context AccountsBlob.new add_accounts add_account account_entry header_bytes get
    insert remove sol_log last_context send get_account_datas read_offsets account_at header_at
    slice parse_header to_le_bytes from_le_bytes
greets-IsRun = record {
  before = record { blob = built; nonce = 4; cpi_height = 1 };
  after = built;
  returned = none;
  fresh = refl;
  made = refl;
  runs = refl;
  readable = refl;
}

call_program-run_invoke_example :
    (call_program natives 1 greeting waiting_caller).0
    ≡ ok (
      1,
      all_lines natives greeting 1 ("Program logged: hello" ∷ "Program panicked: bye" ∷ []),
      (1, only_account) ∷ [],
    )
unfolding get run_invoke on_message new_context push_context execute_sol_program_thread finish
    pop_context AccountsBlob.new add_accounts add_account account_entry header_bytes insert remove
    sol_log last_context send unpanicked get_account_datas read_offsets account_at header_at slice
    parse_header to_le_bytes from_le_bytes
call_program-run_invoke_example =
    call_program-run_invoke natives host greets a_started ("Program logged: hello" ∷ []) (err "bye")
      ((1, only_account) ∷ []) zero greeting [] [] waiting_caller greets-IsRun
      (λ e. omega (arith, e)) refl refl refl refl
