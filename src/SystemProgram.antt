-- ===== src/SystemProgram.antt =====
-- solana-debug-validator/src/native_program_stubs.rs and native_program_stubs/system_program.rs: the
-- emulated System Program. An instruction that fails leaves behind what it took out of the map of
-- accounts and what it logged, as the code does.
pub mod Lamports
pub mod Conserving
pub mod Creating
mod Tests
use Prim.Native.String.{String, ◌++◌ as append_text}
use bokken.Prelude.{
  ℕ, ◌*◌, Bool, true, false, not, ◌&&◌, Option, none, some, List, [], ◌∷◌, ◌++◌, Bytes, length,
  get_elem?, replicate, ltb, ◌==◌, if◌then◌else◌,
}
use bokken.Prelude.Result.{Result, ok, err, ok_or}
use bokken.Prelude.Action.{Action, pure, raise, reads, modify, raise_if, ◌>>=◌, ◌>>◌}
use bokken.Prelude.Maps.{Map, get, insert, remove}
use bokken.Errors.{
  ProgramError, custom, invalid_instruction_data, missing_required_signature,
  account_already_initialized, not_enough_account_keys, invalid_seeds, invalid_realloc,
}
use bokken.Account.{AccountData, AccountMeta, move_lamports}

abbrev pub max_account_size : ℕ
max_account_size = 10 * 1024 * 1024

-- `solana_sdk::system_instruction::SystemInstruction`; `other` is any that the program does not know.
pub data SystemInstruction : Type 0 where
  create_account : (lamports space owner : ℕ) → SystemInstruction
  assign : (owner : ℕ) → SystemInstruction
  transfer : (lamports : ℕ) → SystemInstruction
  create_account_with_seed : (base : ℕ) → String → (lamports space owner : ℕ) → SystemInstruction
  allocate : (space : ℕ) → SystemInstruction
  allocate_with_seed : (base : ℕ) → String → (space owner : ℕ) → SystemInstruction
  assign_with_seed : (base : ℕ) → String → (owner : ℕ) → SystemInstruction
  transfer_with_seed : (lamports : ℕ) → String → (from_owner : ℕ) → SystemInstruction
  other : SystemInstruction

-- What the program takes from other crates and from `format!`.
pub record Host : Type 0 where
  pub decode_instruction : Bytes → Option SystemInstruction
  pub create_with_seed : ℕ → String → ℕ → Result ProgramError ℕ
  pub show_size : ℕ → String

-- The program's logs and the accounts that it was handed.
pub record SystemState : Type 0 where
  pub logs : List String
  pub account_datas : Map AccountData

abbrev pub Run : Type 0 → Type 0
Run = Action SystemState ProgramError

-- `NativeProgramStub::msg` and `msg_str`
pub msg : String → Run (Unit {0})
msg text = modify (λ s. record s { logs = s.logs ++ append_text "Program logged: " text ∷ [] })

-- The guards of `assert_account_meta`: the key of the meta, if it will do.
pub checked_key : List AccountMeta → ℕ → Bool → Bool → Result ProgramError ℕ
checked_key metas index writable signer = elim (get_elem? metas index) [
  | none ↦ err not_enough_account_keys
  | some meta ↦
      if writable && not meta.is_writable
      then err (custom 0)
      else if signer && not meta.is_signer
      then err missing_required_signature
      else ok meta.pubkey
]

-- `datas.remove(&key).ok_or(…)?`
pub take_account : ℕ → Run (ℕ × AccountData)
take_account key s = elim (get key s.account_datas) [
  | none ↦ (err not_enough_account_keys, s)
  | some account ↦ (ok (key, account), record s { account_datas = remove key s.account_datas })
]

-- `assert_account_meta`
pub assert_account_meta : List AccountMeta → ℕ → Bool → Bool → Run (ℕ × AccountData)
assert_account_meta metas index writable signer = do
  key ← reads (λ _. checked_key metas index writable signer)
  take_account key

-- `account_datas.insert(key, account)`
pub put_account : ℕ → AccountData → Run (Unit {0})
put_account key account =
    modify (λ s. record s { account_datas = insert key account s.account_datas })

-- `account_metas.get(index).ok_or(NotEnoughAccountKeys)?`
pub meta_at : List AccountMeta → ℕ → Run AccountMeta
meta_at metas index = reads (λ _. ok_or (get_elem? metas index) not_enough_account_keys)

module _ (host : Host) where
  -- The two checks before an account gets its data.
  pub check_new : AccountData → ℕ → Run (Unit {0})
  check_new new_account space = do
    raise_if (ltb 0 (length new_account.account_bytes)) account_already_initialized
    if ltb max_account_size space
        then msg (
            append_text (host.show_size space)
              (append_text " > " (host.show_size max_account_size)))
          >> raise invalid_realloc
        else pure tt

  -- `key != Pubkey::create_with_seed(base, seed, owner)?`
  pub check_seed : ℕ → ℕ → String → ℕ → Run (Unit {0})
  check_seed key base seed owner = do
    derived ← reads (λ _. host.create_with_seed base seed owner)
    if key == derived
        then pure tt
        else msg "Provided new account and derived seed don't match" >> raise invalid_seeds

  -- Meta 1 signs and is the base.
  pub check_base : List AccountMeta → ℕ → Run (Unit {0})
  check_base metas base = do
    meta ← meta_at metas 1
    raise_if (not meta.is_signer) missing_required_signature
    raise_if (not (meta.pubkey == base)) missing_required_signature

  -- The end of both account creations.
  pub fund_and_put : ℕ × AccountData → ℕ × AccountData → ℕ → ℕ → ℕ → Run (Unit {0})
  fund_and_put (funding_key, funding) (new_key, new_account) lamports space owner = do
    (funding', new') ← reads (λ _. move_lamports funding new_account lamports)
    put_account funding_key funding'
    put_account new_key (record new' { owner = owner; account_bytes = replicate space 0 })

  -- `base != funding_account_key && !metas.get(2)?.is_signer`
  pub check_funder : List AccountMeta → ℕ → ℕ → Run (Unit {0})
  check_funder metas base funding_key =
      if base == funding_key
      then pure tt
      else do meta ← meta_at metas 2; raise_if (not meta.is_signer) missing_required_signature

  pub exec_instruction : SystemInstruction → List AccountMeta → Run (Unit {0})
  exec_instruction (create_account lamports space owner) metas = do
    funding ← assert_account_meta metas 0 true true
    new ← assert_account_meta metas 1 true true
    check_new new.1 space
    fund_and_put funding new lamports space owner
  exec_instruction (assign owner) metas = do
    (key, account) ← assert_account_meta metas 0 true true
    put_account key (record account { owner = owner })
  exec_instruction (transfer lamports) metas = do
    (from_key, from) ← assert_account_meta metas 0 true true
    (to_key, to) ← assert_account_meta metas 0 true false
    (from', to') ← reads (λ _. move_lamports from to lamports)
    put_account from_key from'
    put_account to_key to'
  exec_instruction (create_account_with_seed base seed lamports space owner) metas = do
    funding ← assert_account_meta metas 0 true true
    new ← assert_account_meta metas 1 true false
    check_funder metas base funding.0
    check_seed new.0 base seed owner
    check_new new.1 space
    fund_and_put funding new lamports space owner
  exec_instruction (allocate space) metas = do
    (key, account) ← assert_account_meta metas 0 true true
    check_new account space
    put_account key (record account { account_bytes = replicate space 0 })
  exec_instruction (allocate_with_seed base seed space owner) metas = do
    (key, account) ← assert_account_meta metas 0 true false
    check_new account space
    check_base metas base
    check_seed key base seed owner
    put_account key (record account { account_bytes = replicate space 0 })
  exec_instruction (assign_with_seed base seed owner) metas = do
    (key, account) ← assert_account_meta metas 0 true false
    check_base metas base
    check_seed key base seed owner
    put_account key (record account { owner = owner })
  exec_instruction (transfer_with_seed lamports from_seed from_owner) metas = do
    (from_key, from) ← assert_account_meta metas 0 true false
    base_meta ← meta_at metas 1
    raise_if (not base_meta.is_signer) missing_required_signature
    check_seed from_key base_meta.pubkey from_seed from_owner
    (to_key, to) ← assert_account_meta metas 0 true false
    (from', to') ← reads (λ _. move_lamports from to lamports)
    put_account from_key from'
    put_account to_key to'
  exec_instruction other metas =
      msg "Unknown/Unimplemented SystemInstruction" >> raise invalid_instruction_data

  -- `exec`
  pub exec : Bytes → List AccountMeta → Run (Unit {0})
  exec instruction metas = do
    decoded ← reads (λ _. ok_or (host.decode_instruction instruction) invalid_instruction_data)
    exec_instruction decoded metas
