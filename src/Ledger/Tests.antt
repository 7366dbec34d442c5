-- ===== src/Ledger/Tests.antt =====
-- A concrete ledger of debug_ledger.rs.
use bokken.Prelude.{ℕ, ◌≡◌, ◌⊎◌, refl, true, false, none, [], ◌∷◌, arith, subst, ◌+◌, ◌*◌}
use bokken.Prelude.Result.{ok, err}
use bokken.Prelude.Post.{Post}
use bokken.Prelude.Maps.{Map, get, insert, contains_key, remove, sum}
use bokken.Errors.{BokkenError, transaction_error, insufficient_funds_for_fee}
use bokken.Account.{AccountData, default_account}
use bokken.SystemProgram.Lamports.{Settles, total}
use bokken.Ledger.Opening.{existing, open_ledger}
use bokken.Ledger.Opened.{IsEmptied, open_ledger-IsEmptied}
use bokken.Ledger.{
  failed, Environment, Ledger, Instruction, all, only, pick, put_all, chosen, only_these,
  account_eq, bytes_eq, nothing, fault, take_fee, count_signers, add_signers, all_metas, max_slot,
}
use bokken.Ledger.Sample.{quiet, ledger_at, rich_ledger, account_back}
use bokken.Ledger.Execution.{
  files, save_account, read_account, read_files, sysvar, clock_bytes, gather, read_metas,
  execute_instructions, run_all, execute_instruction, save_edited, save_if, to_instructions,
  execute_transaction,
}
use bokken.Ledger.Accounts.{IsStored, Refused, read-save_account}
use bokken.Ledger.Commits.{execute_instructions_failed}
use bokken.Ledger.Saving.{ReadsBack}
use bokken.Ledger.Predicting.{execute_instructions_simulated}
use bokken.Ledger.Committed.{execute_transaction-ReadsBack}
use bokken.Ledger.Charges.{CallsSettle, execute_instructions_charge}

abbrev rich : AccountData
rich = record default_account { lamports = 800 }

seven-IsStored : IsStored quiet 7
seven-IsStored = record {
  no_program = refl;
  no_clock = λ e. omega arith;
  no_rent = λ e. omega arith;
}

read-save_account_example :
    let (r, t) = save_account quiet 7 rich (ledger_at 3) in
    (r ≡ ok tt) × (read_account quiet 7 none t ≡ ok rich)
unfolding files get
read-save_account_example =
    read-save_account quiet 7 rich none (ledger_at 3) account_back seven-IsStored (omega arith, tt)
      refl

execute_instructions_failed_example :
    ((execute_instructions quiet 7 [] nothing none true (ledger_at 3)).1 ≡ ledger_at 3)
    ⊎ Refused quiet 3 (transaction_error insufficient_funds_for_fee)
unfolding execute_instructions gather read_account read_files files sysvar read_metas take_fee
    count_signers add_signers all_metas max_slot fault get insert
execute_instructions_failed_example =
    execute_instructions_failed quiet 7 [] nothing none true (ledger_at 3)
      (transaction_error insufficient_funds_for_fee) refl

quiet-CallsSettle : CallsSettle quiet
quiet-CallsSettle = record {
  call = λ program bytes metas datas depth logs out u small e.
      let same : datas ≡ out = cc in
      subst (Settles datas) same (record { unique = u; lamports = refl; same_keys = λ j. refl });
}

-- One instruction, which names the fee payer.
abbrev one_instruction : Instruction
one_instruction = record {
  program_id = 50;
  account_metas = record { pubkey = 7; is_signer = true; is_writable = true } ∷ [];
  data_bytes = [];
}

abbrev gathered : Map AccountData
gathered =
    (7, record default_account { lamports = 8000 })
    ∷ (101, sysvar quiet (3480 ∷ []))
    ∷ (100, sysvar quiet (3 ∷ 60 ∷ []))
    ∷ []

execute_instructions_charge_example :
    Post
      (execute_instructions quiet 7 (one_instruction ∷ []) all none false)
      rich_ledger
      (λ r _. total r.0 + 5000 * count_signers 7 (one_instruction ∷ []) ≡ total gathered)
unfolding gather read_account read_files files sysvar read_metas all_metas max_slot get insert
    contains_key sum clock_bytes
execute_instructions_charge_example =
    execute_instructions_charge quiet 7 (one_instruction ∷ []) none false rich_ledger gathered
      quiet-CallsSettle (λ e. omega arith) refl (omega arith)

-- The fee payer has 3000 lamports left.
charged_run :
    (execute_instructions quiet 7 (one_instruction ∷ []) (only (7 ∷ [])) none false rich_ledger).0
    ≡ ok ((7, record default_account { lamports = 3000 }) ∷ [], [])
unfolding gather read_account read_files files sysvar read_metas all_metas max_slot get insert
    contains_key clock_bytes execute_instructions take_fee count_signers add_signers run_all
    execute_instruction pick put_all fault save_edited save_if chosen only_these account_eq bytes_eq
    remove
charged_run = refl

execute_instructions_simulated_example :
    ((execute_instructions quiet 7 (one_instruction ∷ []) all none true rich_ledger).0
      ≡ (execute_instructions quiet 7 (one_instruction ∷ []) all none false rich_ledger).0)
    ⊎ ((e : BokkenError) × ((execute_instructions quiet 7
            (one_instruction ∷ [])
            all
            none
            true
            rich_ledger).0
          ≡ err (failed e))
        × Refused quiet rich_ledger.state.slot e)
execute_instructions_simulated_example =
    execute_instructions_simulated quiet 7 (one_instruction ∷ []) all none rich_ledger

-- What the transaction 0 has read, and what is left of that.
abbrev before_transaction : Map AccountData
before_transaction =
    (7, record default_account { lamports = 8000 })
    ∷ (101, sysvar quiet (3480 ∷ []))
    ∷ (100, sysvar quiet (4 ∷ 60 ∷ []))
    ∷ []

abbrev after_transaction : Map AccountData
after_transaction = insert 7 (record default_account { lamports = 3000 }) before_transaction

execute_transaction-ReadsBack_example :
    Post
      (execute_transaction quiet 0 true)
      rich_ledger
      (λ _ t. ReadsBack (read_account quiet 7 none t) (get 7 after_transaction))
unfolding gather read_account read_files files sysvar read_metas all_metas max_slot get insert
    contains_key clock_bytes execute_instructions take_fee count_signers add_signers run_all
    execute_instruction pick put_all fault save_edited save_if chosen only_these account_eq bytes_eq
    remove to_instructions
execute_transaction-ReadsBack_example =
    execute_transaction-ReadsBack quiet 7 account_back seven-IsStored 0 rich_ledger [] 7
      before_transaction (record default_account { lamports = 8000 }) (after_transaction, [])
      (omega arith, tt) refl refl refl refl refl

-- The sizes of the real files.
abbrev sized : Environment ℕ
sized = record quiet {
  block_format = record quiet.block_format { header_size = 16; identifier_size = 8 };
}

open_ledger-IsEmptied_example :
    (l : Ledger) × (open_ledger sized
        (existing rich_ledger.accounts)
        (ok (1 ∷ 2 ∷ []))
        (ok (3 ∷ []))
        none
      ≡ ok l)
    × IsEmptied sized rich_ledger.accounts l
open_ledger-IsEmptied_example =
    open_ledger-IsEmptied sized rich_ledger.accounts (1 ∷ 2 ∷ []) (3 ∷ []) none refl refl refl
