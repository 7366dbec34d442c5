-- ===== src/Account.antt =====
-- solana-debug-runtime/src/debug_env.rs: the account data and account metas that both processes
-- exchange. A public key is the number that its 32 bytes spell (the lowest byte first), an amount
-- of lamports is a `u64`.
use bokken.Prelude.{
  ℕ, ◌+◌, ◌-◌, ◌%◌, ◌^◌, ◌≤◌, ◌<◌, ◌≡◌, Bool, false, [], Bytes, arith, ltb, if◌then◌else◌,
}
use bokken.Prelude.Result.{Result, ok, err}
use bokken.Errors.{ProgramError, insufficient_funds}

-- `BokkenAccountData`
pub record AccountData : Type 0 where
  pub lamports : ℕ
  pub account_bytes : Bytes
  pub owner : ℕ
  pub executable : Bool
  pub rent_epoch : ℕ

-- `BorshAccountMeta`
pub record AccountMeta : Type 0 where
  pub pubkey : ℕ
  pub is_signer : Bool
  pub is_writable : Bool

-- `BokkenAccountData::default()`
abbrev pub default_account : AccountData
default_account = record {
  lamports = 0;
  account_bytes = [];
  owner = 0;
  executable = false;
  rent_epoch = 0;
}

-- `move_lamports` on the two accounts. A `u64` sum wraps round.
unfoldable pub move_lamports :
    AccountData → AccountData → ℕ → Result ProgramError (AccountData × AccountData)
move_lamports from to amount =
    if ltb from.lamports amount
    then err insufficient_funds
    else ok (
      record from { lamports = from.lamports - amount },
      record to { lamports = (to.lamports + amount) % 2 ^ 64 },
    )

-- A move that succeeds was covered, and keeps the sum of both accounts if that fits into a `u64`.
pub move_lamports-ok :
    (from to : AccountData) (amount : ℕ) (p : AccountData × AccountData)
    → move_lamports from to amount ≡ ok p
    → from.lamports + to.lamports < 2 ^ 64
    → (amount ≤ from.lamports)
      × (p.0.lamports + p.1.lamports ≡ from.lamports + to.lamports)
      × (p.1.lamports ≡ to.lamports + amount)
unfolding move_lamports
move_lamports-ok from to amount p e h = ground arith
