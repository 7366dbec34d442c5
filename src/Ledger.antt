-- ===== src/Ledger.antt =====
-- solana-debug-validator/src/debug_ledger.rs: `BokkenLedger`, the accounts on disk and the
-- execution of instructions and transactions. The directory of accounts is a map from keys to the
-- files of an account, those a map from slots to bytes: `save_account` makes no other name. Errors
-- of the disk at reading and the time between calls are left out. A `HashMap` is visited in the order
-- of the list that stands for it.
pub mod Execution
pub mod Accounts
pub mod Commits
pub mod Slots
pub mod Counting
pub mod Lamports
pub mod Gathering
pub mod Charges
pub mod Saving
pub mod Predicting
pub mod Committed
pub mod Indexed
pub mod Opening
pub mod Opened
pub mod Sample
mod Tests
use Prim.Native.String.{String}
use bokken.Prelude.{
  ℕ, suc, ◌+◌, ◌-◌, ◌*◌, Bool, true, false, not, ◌&&◌, Option, none, some, List, [], ◌∷◌, ◌++◌,
  Bytes, length, get_elem?, ltb, ◌==◌, if◌then◌else◌,
}
use bokken.Prelude.Result.{Result, ok, err, ok_or}
use bokken.Prelude.Action.{Action, pure, raise, reads, modify, ◌>>=◌, ◌>>◌}
use bokken.Prelude.Maps.{Map, get, insert, remove, contains_key}
use bokken.Errors.{
  IoErrorKind, BokkenError, ProgramError, io, invalid_data, transaction_error, account_not_found,
  insufficient_funds_for_fee, instruction_exec_error,
}
use bokken.Account.{AccountData, AccountMeta, default_account}
use bokken.IndexFile.{Format, IndexableFile}
use bokken.IndexFile.Editing
use bokken.LedgerFile.{Codec, SlotEntryRaw, LedgerFile, append_new_block}

-- An error value, or the panic of an `unwrap`, an `expect` or an index.
pub data Fault : Type 0 where
  failed : BokkenError → Fault
  panicked : Fault

pub record Ledger : Type 0 where
  pub accounts : Map (Map Bytes)
  pub transaction_index : IndexableFile
  pub state : LedgerFile

-- `BokkenLedgerInstruction`
pub record Instruction : Type 0 where
  pub program_id : ℕ
  pub account_metas : List AccountMeta
  pub data_bytes : Bytes

-- `BokkenLedgerAccountReturnChoice`
pub data ReturnChoice : Type 0 where
  nothing all edited : ReturnChoice
  only : List ℕ → ReturnChoice

-- An instruction of a message of solana_sdk.
pub record CompiledInstruction : Type 0 where
  pub program_id_index : ℕ
  pub accounts : List ℕ
  pub data_bytes : Bytes

-- What the programs, the clock and other crates answer. The disk may refuse the file of an account
-- for a slot, which is then as it was.
pub record Environment (Tx : Type 0) : Type 0 where
  pub codec : Codec Tx
  pub block_format : Format SlotEntryRaw
  pub index_format : Format ℕ
  pub refuses : (key slot : ℕ) → Option IoErrorKind
  pub encode_account : AccountData → Bytes
  pub decode_account : Bytes → Option AccountData
  pub encode_clock : (slot timestamp : ℕ) → Bytes
  pub encode_rent : (per_byte_year : ℕ) → Bytes
  pub clock_id : ℕ
  pub rent_id : ℕ
  pub sysvar_owner : ℕ
  pub debug_program_loader : ℕ
  pub now : ℕ
  pub program_error : ℕ → ProgramError
  pub has_program_id : ℕ → Bool
  pub call_program :
      ℕ
      → Bytes
      → List AccountMeta
      → Map AccountData
      → (call_depth : ℕ) → Result BokkenError (ℕ × List String × Map AccountData)
  pub account_keys : Tx → List ℕ
  pub instructions : Tx → List CompiledInstruction
  pub is_signer : Tx → ℕ → Bool
  pub is_writable : Tx → ℕ → Bool
  pub signatures : Tx → List ℕ

abbrev pub ghost_lamports : ℕ
ghost_lamports = 0xf09f91bb

abbrev pub ghost_data : Bytes
ghost_data =
    0xf0 ∷ 0x9f ∷ 0x91 ∷ 0xbb ∷ 0xf0 ∷ 0x9f ∷ 0x90 ∷ 0x9b ∷ 0xf0 ∷ 0x9f ∷ 0xa7 ∷ 0x91 ∷ 0xe2 ∷ 0x80
    ∷ 0x8d ∷ 0xf0 ∷ 0x9f ∷ 0x92 ∷ 0xbb ∷ []

-- `BokkenAccountData`'s `==`
unfoldable pub bytes_eq : Bytes → Bytes → Bool
bytes_eq [] [] = true
bytes_eq [] (b ∷ bs) = false
bytes_eq (x ∷ xs) [] = false
bytes_eq (x ∷ xs) (b ∷ bs) = (x == b) && bytes_eq xs bs

abbrev pub bool_eq : Bool → Bool → Bool
bool_eq true b = b
bool_eq false b = not b

unfoldable pub account_eq : AccountData → AccountData → Bool
account_eq a b =
    (a.lamports == b.lamports)
    && (bytes_eq a.account_bytes b.account_bytes
        && ((a.owner == b.owner)
            && (bool_eq a.executable b.executable && (a.rent_epoch == b.rent_epoch))))

-- The files of one account: the highest slot among their names.
unfoldable pub max_slot : ℕ → Map Bytes → ℕ
max_slot best [] = best
max_slot best ((slot, bytes) ∷ files) = max_slot (if ltb best slot then slot else best) files

-- The metas of all instructions, in the order of the two nested loops.
unfoldable pub all_metas : List Instruction → List AccountMeta
all_metas [] = []
all_metas (ix ∷ ixs) = ix.account_metas ++ all_metas ixs

-- The signers among the metas, each once.
unfoldable pub add_signers : List AccountMeta → Map (Unit {0}) → Map (Unit {0})
add_signers [] signers = signers
add_signers (meta ∷ metas) signers =
    add_signers metas (if meta.is_signer then insert meta.pubkey tt signers else signers)

-- `unique_sigs.len()`
unfoldable pub count_signers : ℕ → List Instruction → ℕ
count_signers fee_payer ixs = length (add_signers (all_metas ixs) (insert fee_payer tt []))

-- Taking the fee.
unfoldable pub take_fee : ℕ → ℕ → Map AccountData → Result Fault (Map AccountData)
take_fee fee_payer signers datas = elim (get fee_payer datas) [
  | none ↦ err panicked
  | some payer ↦
      if ltb payer.lamports (5000 * signers)
      then err (failed (transaction_error insufficient_funds_for_fee))
      else ok (insert fee_payer (record payer { lamports = payer.lamports - 5000 * signers }) datas)
]

-- The accounts that an instruction names move from the state to the map for the program.
unfoldable pub pick :
    List AccountMeta → Map AccountData → Action (Map AccountData) Fault (Map AccountData)
pick [] picked s = (ok picked, s)
pick (meta ∷ metas) picked s = elim (contains_key meta.pubkey picked) [
  | true ↦ pick metas picked s
  | false ↦ elim (get meta.pubkey s) [
    | none ↦ (err (failed (transaction_error account_not_found)), s)
    | some account ↦ pick metas (insert meta.pubkey account picked) (remove meta.pubkey s)
  ]
]

unfoldable pub put_all : Map AccountData → Map AccountData → Map AccountData
put_all [] s = s
put_all ((key, account) ∷ accounts) s = put_all accounts (insert key account s)

-- `Only(pubkeys)`
unfoldable pub only_these :
    List ℕ → Map AccountData → Map AccountData → Result Fault (Map AccountData)
only_these [] changed result = ok result
only_these (key ∷ keys) changed result = elim (get key changed) [
  | none ↦ err panicked
  | some account ↦ only_these keys changed (insert key account result)
]

unfoldable pub chosen :
    ReturnChoice → Map AccountData → Map AccountData → Result Fault (Map AccountData)
chosen nothing changed edited_accounts = ok []
chosen all changed edited_accounts = ok changed
chosen edited changed edited_accounts = ok edited_accounts
chosen (only keys) changed edited_accounts = only_these keys changed []

-- `?` on a `BokkenError`
unfoldable pub fault : {A : Type 0} → Result BokkenError A → Result Fault A
fault (ok a) = ok a
fault (err e) = err (failed e)
