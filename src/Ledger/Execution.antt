-- ===== src/Ledger/Execution.antt =====
-- The methods of `BokkenLedger` (debug_ledger.rs), on the state of the ledger.
use Prim.Native.String.{String}
use bokken.Prelude.{
  ℕ, suc, ◌+◌, ◌*◌, Bool, true, false, Option, none, some, List, [], ◌∷◌, ◌++◌, Bytes, get_elem?,
  ◌==◌, if◌then◌else◌,
}
use bokken.Prelude.Result.{Result, ok, err, ok_or}
use bokken.Prelude.Action.{Action, pure, reads, modify, ◌>>=◌, ◌>>◌}
use bokken.Prelude.Maps.{Map, get, insert, contains_key}
use bokken.Errors.{BokkenError, io, invalid_data, init_config_is_none, instruction_exec_error}
use bokken.Account.{AccountData, AccountMeta, default_account}
use bokken.IndexFile
use bokken.IndexFile.{IndexableFile}
use bokken.IndexFile.Editing
use bokken.LedgerFile.{SlotEntry, append_new_block, read_block_at_slot}
use bokken.Ledger.{
  Fault, failed, panicked, Ledger, Instruction, ReturnChoice, nothing, CompiledInstruction,
  Environment, ghost_lamports, ghost_data, account_eq, max_slot, all_metas, count_signers, take_fee,
  pick, put_all, chosen, fault,
}

module _ {Tx : Type 0} (env : Environment Tx) where
  unfoldable pub calc_min_balance_for_rent_exemption : ℕ → Ledger → ℕ
  calc_min_balance_for_rent_exemption data_len l = (128 + data_len) * l.state.rent_per_byte_year * 2

  -- The outer `none` is a panic.
  unfoldable pub get_bokken_entry_by_tx :
      ℕ → Ledger → Option (Result BokkenError (Option (SlotEntry Tx)))
  get_bokken_entry_by_tx tx_sig l =
      elim (IndexFile.get env.index_format l.transaction_index tx_sig) [
        | err e ↦ some (err e)
        | ok none ↦ some (ok none)
        | ok (some tx_slot) ↦ read_block_at_slot env.codec env.block_format tx_slot l.state
      ]

  -- The files of an account; an account that was never saved has none.
  unfoldable pub files : ℕ → Ledger → Map Bytes
  files key l = elim (get key l.accounts) [ none ↦ [] | some fs ↦ fs ]

  -- The ledger with the file of an account for its slot.
  unfoldable pub with_file : ℕ → AccountData → Ledger → Ledger
  with_file key account l =
      let bytes = env.encode_account (if account.lamports == 0 then default_account else account) in
      record l { accounts = insert key (insert l.state.slot bytes (files key l)) l.accounts }

  unfoldable pub save_account : ℕ → AccountData → Action Ledger Fault (Unit {0})
  save_account key account l = elim (env.refuses key l.state.slot) [
    | none ↦ (ok tt, with_file key account l)
    | some e ↦ (err (failed (io e)), l)
  ]

  unfoldable pub read_files : Map Bytes → Result BokkenError AccountData
  read_files fs = elim (get (max_slot 0 fs) fs) [
    | none ↦ ok default_account
    | some bytes ↦ ok_or (env.decode_account bytes) (io invalid_data)
  ]

  -- The data of the two system variables.
  unfoldable pub sysvar : Bytes → AccountData
  sysvar bytes = record {
    lamports = ghost_lamports;
    account_bytes = bytes;
    owner = env.sysvar_owner;
    executable = false;
    rent_epoch = 0;
  }

  unfoldable pub clock_bytes : Option (ℕ × ℕ) → Ledger → Bytes
  clock_bytes none l = env.encode_clock l.state.slot env.now
  clock_bytes (some p) l = env.encode_clock p.0 p.1

  unfoldable pub read_account : ℕ → Option (ℕ × ℕ) → Ledger → Result BokkenError AccountData
  read_account key clock l =
      if env.has_program_id key
      then ok (record {
        lamports = ghost_lamports;
        account_bytes = ghost_data;
        owner = env.debug_program_loader;
        executable = true;
        rent_epoch = 0;
      })
      else if key == env.clock_id
      then ok (sysvar (clock_bytes clock l))
      else if key == env.rent_id
      then ok (sysvar (env.encode_rent l.state.rent_per_byte_year))
      else read_files (files key l)

  -- `BokkenLedger::new` without the paths: `fresh` says that the directory was made by this call.
  unfoldable pub new : (fresh : Bool) → Option (ℕ × ℕ) → Ledger → Result Fault Ledger
  new false init l = ok l
  new true none l = err (failed init_config_is_none)
  new true (some (mint, lamports)) l =
      let (r, t) = save_account mint (record default_account { lamports = lamports }) l in
      elim r [ ok _ ↦ ok t | err e ↦ err e ]

  unfoldable pub execute_instruction :
      Instruction → ℕ → Action (Map AccountData) Fault (ℕ × List String)
  execute_instruction ix call_depth = do
    rent ← reads (λ s. ok_or (get env.rent_id s) panicked)
    clock ← reads (λ s. ok_or (get env.clock_id s) panicked)
    picked ← pick ix.account_metas (insert env.clock_id clock (insert env.rent_id rent []))
    (code, logs, accounts) ← reads (λ _.
        fault (env.call_program ix.program_id ix.data_bytes ix.account_metas picked call_depth))
    modify (put_all accounts)
    pure (code, logs)

  -- The accounts that the metas name and that are not read yet.
  unfoldable pub read_metas :
      Option (ℕ × ℕ)
      → Ledger
      → List AccountMeta
      → Map AccountData
      → Result BokkenError (Map AccountData)
  read_metas clock l [] datas = ok datas
  read_metas clock l (meta ∷ metas) datas = elim (contains_key meta.pubkey datas) [
    | true ↦ read_metas clock l metas datas
    | false ↦ elim (read_account meta.pubkey clock l) [
      | err e ↦ err e
      | ok account ↦ read_metas clock l metas (insert meta.pubkey account datas)
    ]
  ]

  unfoldable pub gather :
      ℕ → List Instruction → Option (ℕ × ℕ) → Action Ledger BokkenError (Map AccountData)
  gather fee_payer ixs clock = do
    payer ← reads (read_account fee_payer clock)
    rent ← reads (read_account env.rent_id clock)
    clock_data ← reads (read_account env.clock_id clock)
    reads (λ l.
        read_metas clock l (all_metas ixs)
          (insert env.clock_id clock_data (insert env.rent_id rent (insert fee_payer payer []))))

  -- The loop over the instructions, the number of the next one first.
  unfoldable pub run_all :
      ℕ
      → List Instruction
      → List String
      → Map AccountData
      → Result Fault (List String × Map AccountData)
  run_all i [] log s = ok (log, s)
  run_all i (ix ∷ ixs) log s =
      let (r, s') = execute_instruction ix 1 s in
      elim r [
        | err e ↦ err e
        | ok (code, logs) ↦ elim (code == 0) [
          | true ↦ run_all (suc i) ixs (log ++ logs) s'
          | false ↦ err (failed (instruction_exec_error i (env.program_error code) (log ++ logs)))
        ]
      ]

  -- `if commit_changes`
  unfoldable pub save_if : Bool → ℕ → AccountData → Action Ledger Fault (Unit {0})
  save_if true key account = save_account key account
  save_if false key account = pure tt

  -- The loop that saves what has changed.
  unfoldable pub save_edited :
      Bool
      → Map AccountData
      → Map AccountData
      → Map AccountData
      → Action Ledger Fault (Map AccountData)
  save_edited commit [] changed result l = (ok result, l)
  save_edited commit ((key, old) ∷ olds) changed result l = elim (get key changed) [
    | none ↦ (err panicked, l)
    | some account ↦ elim (account_eq account old) [
      | true ↦ save_edited commit olds changed result l
      | false ↦
          (save_if commit key account
              >> save_edited commit olds changed (insert key account result))
            l
    ]
  ]

  unfoldable pub execute_instructions :
      ℕ
      → List Instruction
      → ReturnChoice
      → Option (ℕ × ℕ)
      → Bool
      → Action Ledger Fault (Map AccountData × List String)
  execute_instructions fee_payer ixs choice clock commit = do
    datas ← reads (λ l. fault (gather fee_payer ixs clock l).0)
    charged ← reads (λ _. take_fee fee_payer (count_signers fee_payer ixs) datas)
    (log, changed) ← reads (λ _. run_all 0 ixs [] charged)
    edited_accounts ← save_edited commit datas changed []
    result ← reads (λ _. chosen choice changed edited_accounts)
    pure (result, log)

  -- The metas of an instruction; an index that is out of range panics.
  unfoldable pub to_metas : Tx → List ℕ → Option (List AccountMeta)
  to_metas tx [] = some []
  to_metas tx (index ∷ indices) = elim (get_elem? (env.account_keys tx) index) [
    | none ↦ none
    | some key ↦ elim (to_metas tx indices) [
      | none ↦ none
      | some metas ↦ some (
          record {
            pubkey = key;
            is_signer = env.is_signer tx index;
            is_writable = env.is_writable tx index;
          }
          ∷ metas)
    ]
  ]

  unfoldable pub to_instructions : Tx → List CompiledInstruction → Option (List Instruction)
  to_instructions tx [] = some []
  to_instructions tx (ix ∷ ixs) = elim (get_elem? (env.account_keys tx) ix.program_id_index) [
    | none ↦ none
    | some program ↦ elim (to_metas tx ix.accounts) [
      | none ↦ none
      | some metas ↦ elim (to_instructions tx ixs) [
        | none ↦ none
        | some rest ↦ some (
            record { program_id = program; account_metas = metas; data_bytes = ix.data_bytes }
            ∷ rest)
      ]
    ]
  ]

  -- The index of transactions and the file of blocks, as actions on the ledger.
  unfoldable pub index_transaction : ℕ → ℕ → Action Ledger Fault (Unit {0})
  index_transaction signature slot l =
      let (r, f) = IndexFile.Editing.insert env.index_format signature slot l.transaction_index in
      elim r [
        | err e ↦ (err (failed e), record l { transaction_index = f })
        | ok _ ↦ (ok tt, record l { transaction_index = f })
      ]

  unfoldable pub record_block : Tx → List String → Action Ledger Fault (Unit {0})
  record_block tx logs l =
      let (r, s) = append_new_block env.codec env.block_format env.now tx none none logs l.state in
      (fault r, record l { state = s })

  unfoldable pub execute_transaction : Tx → Bool → Action Ledger Fault (Unit {0})
  execute_transaction tx commit = do
    new_slot ← reads (λ l. ok (l.state.slot + 1))
    ixs ← reads (λ _. ok_or (to_instructions tx (env.instructions tx)) panicked)
    fee_payer ← reads (λ _. ok_or (get_elem? (env.account_keys tx) 0) panicked)
    (_, logs) ← execute_instructions fee_payer ixs nothing (some (new_slot, env.now)) commit
    if commit
        then (do
          signature ← reads (λ _. ok_or (get_elem? (env.signatures tx) 0) panicked)
          index_transaction signature new_slot
          record_block tx logs)
        else pure tt
