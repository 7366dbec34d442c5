-- ===== src/Ledger/Accounts.antt =====
-- Saving and reading accounts (debug_ledger.rs).
use bokken.Prelude.{
  ℕ, ap, ◌∙◌, none, ◌≤◌, ◌<◌, ◌≡◌, ◌≢◌, false, Option, some, [], ◌∷◌, arith, Bytes, ltb, ◌==◌,
  if◌then◌else◌,
}
use bokken.Prelude.Result.{Result, ok, err}
use bokken.Prelude.Action.{Action, ◌>>◌}
use bokken.Prelude.Post.{by_option}
use bokken.Errors.{BokkenError, IoErrorKind, io}
use bokken.Prelude.Maps.{Map, insert, get-insert, get-insert_self, get-insert_ne}
use bokken.Account.{AccountData, default_account}
use bokken.Ledger.{Fault, failed, Ledger, Environment, max_slot}
use bokken.Ledger.Execution.{
  files, with_file, save_account, read_files, read_account, clock_bytes, sysvar,
}

-- No file of an account is newer than the slot `s`.
abbrev pub NotNewer : ℕ → Map Bytes → Type 0
NotNewer s [] = Unit {0}
NotNewer s ((slot, bytes) ∷ fs) = (slot ≤ s) × NotNewer s fs

-- The greater of two numbers.
abbrev greater : ℕ → ℕ → ℕ
greater a b = if ltb a b then b else a

max_slot_best : (best : ℕ) (fs : Map Bytes) → max_slot best fs ≡ greater best (max_slot 0 fs)
unfolding max_slot
max_slot_best best [] = ground arith
max_slot_best best ((j, b) ∷ fs) =
    ground (arith, max_slot_best (greater best j) fs, max_slot_best (greater 0 j) fs)

max_slot-insert :
    (s : ℕ) (bytes : Bytes) (fs : Map Bytes)
    → max_slot 0 (insert s bytes fs) ≡ greater s (max_slot 0 fs)
unfolding max_slot insert
max_slot-insert s bytes [] = ground arith
max_slot-insert s bytes ((j, b) ∷ fs) = ground (
  arith,
  max_slot-insert s bytes fs,
  max_slot_best (greater 0 j) (insert s bytes fs),
  max_slot_best (greater 0 j) fs,
  max_slot_best (greater 0 s) fs,
)

max_slot_newest : (s : ℕ) (fs : Map Bytes) → NotNewer s fs → max_slot 0 fs ≤ s
unfolding max_slot
max_slot_newest s [] n = omega arith
max_slot_newest s ((j, b) ∷ fs) n =
    ground (arith, max_slot_newest s fs, max_slot_best (greater 0 j) fs)

module _ {Tx : Type 0} (env : Environment Tx) where
  -- Neither a program nor a system variable.
  pub record IsStored (key : ℕ) : Type 0 where
    pub no_program : env.has_program_id key ≡ false
    pub no_clock : key ≢ env.clock_id
    pub no_rent : key ≢ env.rent_id

  pub read_stored :
      (key : ℕ) (clock : Option (ℕ × ℕ)) (l : Ledger)
      → IsStored key
      → read_account env key clock l ≡ read_files env (files env key l)
  unfolding read_account
  read_stored key clock l k = ground (arith, k.no_program, k.no_clock, k.no_rent)

  files-with_file :
      (key : ℕ) (a : AccountData) (l : Ledger)
      → files env key (with_file env key a l)
        ≡ insert l.state.slot
            (env.encode_account (if a.lamports == 0 then default_account else a))
            (files env key l)
  unfolding files with_file
  files-with_file key a l = ground (
    arith,
    get-insert key key
        (insert l.state.slot (env.encode_account (if a.lamports == 0 then default_account else a))
          (files env key l))
        l.accounts,
  )

  -- An account whose file is there is read from it.
  pub read-with_file :
      (key : ℕ) (a : AccountData) (clock : Option (ℕ × ℕ)) (l : Ledger)
      → ((b : AccountData) → env.decode_account (env.encode_account b) ≡ some b)
      → IsStored key
      → NotNewer l.state.slot (files env key l)
      → read_account env key clock (with_file env key a l)
        ≡ ok (if a.lamports == 0 then default_account else a)
  unfolding read_files
  read-with_file key a clock l back k n =
      let fs = files env key l in
      let bytes = env.encode_account (if a.lamports == 0 then default_account else a) in
      let newest : max_slot 0 (insert l.state.slot bytes fs) ≡ l.state.slot =
        ground (arith, max_slot-insert l.state.slot bytes fs, max_slot_newest l.state.slot fs n) in
      rw (
        read_stored key clock (with_file env key a l) k,
        files-with_file key a l,
        read_files,
        newest,
        get-insert_self l.state.slot bytes fs,
        back (if a.lamports == 0 then default_account else a),
      )

  -- Saving an account changes no other account.
  pub read-with_file_other :
      (key other : ℕ) (a : AccountData) (clock : Option (ℕ × ℕ)) (l : Ledger)
      → other ≢ key
      → read_account env other clock (with_file env key a l) ≡ read_account env other clock l
  unfolding read_account files with_file clock_bytes sysvar read_files
  read-with_file_other key other a clock l ne = ground (
    arith,
    get-insert_ne other key
        (insert l.state.slot (env.encode_account (if a.lamports == 0 then default_account else a))
          (files env key l))
        l.accounts ne,
  )

  -- An account that is neither a program nor a system variable, with a file that is newer than the
  -- slot of the ledger, is read as before, whatever is saved.
  pub read-with_file_shadowed :
      (key : ℕ) (a : AccountData) (clock : Option (ℕ × ℕ)) (l : Ledger)
      → IsStored key
      → l.state.slot < max_slot 0 (files env key l)
      → read_account env key clock (with_file env key a l) ≡ read_account env key clock l
  unfolding read_files
  read-with_file_shadowed key a clock l k newer =
      let fs = files env key l in
      let bytes = env.encode_account (if a.lamports == 0 then default_account else a) in
      let top : max_slot 0 (insert l.state.slot bytes fs) ≡ max_slot 0 fs =
        ground (arith, max_slot-insert l.state.slot bytes fs) in
      rw (
        read_stored key clock (with_file env key a l) k,
        read_stored key clock l k,
        files-with_file key a l,
        read_files,
        top,
        get-insert_ne (max_slot 0 fs) l.state.slot bytes fs (λ e. omega arith),
      )

  -- What holds after an account is saved and the rest is done, in both cases of the disk.
  pub saved_then :
      {A : Type 0} (Q : Result Fault A × Ledger → Type 0) (key : ℕ) (a : AccountData) (l : Ledger)
      (m : Action Ledger Fault A)
      → ((e : IoErrorKind) → env.refuses key l.state.slot ≡ some e → Q (err (failed (io e)), l))
      → (env.refuses key l.state.slot ≡ none → Q (m (with_file env key a l)))
      → Q ((save_account env key a >> m) l)
  unfolding save_account
  saved_then {A} Q key a l m h k =
      by_option
        (λ (p : Result Fault (Unit {0}) × Ledger).
          Q (
            let q : Result Fault A × Ledger = elim p.0 [ ok _ ↦ m p.1 | err e ↦ (err e, p.1) ] in
            q))
        (env.refuses key l.state.slot) (ok tt, with_file env key a l)
        (λ e. (err (failed (io e)), l)) k h

  pub save_account_taken :
      (key : ℕ) (a : AccountData) (l : Ledger)
      → env.refuses key l.state.slot ≡ none
      → save_account env key a l ≡ (ok tt, with_file env key a l)
  unfolding save_account
  save_account_taken key a l takes =
      ap
        (λ (o : Option IoErrorKind).
          let p : Result Fault (Unit {0}) × Ledger = elim o [
            | none ↦ (ok tt, with_file env key a l)
            | some e ↦ (err (failed (io e)), l)
          ] in
          p)
        takes

  -- Where the decoder reads what the encoder wrote, the key is neither a program nor a system
  -- variable, no file of the account is newer than the slot of the ledger, and the disk takes the
  -- file: saving an account succeeds, and it is then read back, as the default account if it holds
  -- no lamports.
  pub read-save_account :
      (key : ℕ) (a : AccountData) (clock : Option (ℕ × ℕ)) (l : Ledger)
      → ((b : AccountData) → env.decode_account (env.encode_account b) ≡ some b)
      → IsStored key
      → NotNewer l.state.slot (files env key l)
      → env.refuses key l.state.slot ≡ none
      → let (r, t) = save_account env key a l in
        (r ≡ ok tt)
        × (read_account env key clock t ≡ ok (if a.lamports == 0 then default_account else a))
  read-save_account key a clock l back k n takes =
      let saved = save_account_taken key a l takes in
      (
        ap (λ q. q.0) saved,
        ap (λ q. read_account env key clock q.1) saved ∙ read-with_file key a clock l back k n,
      )

  -- A disk error that saving at a slot comes to.
  abbrev pub Refused : ℕ → BokkenError → Type 0
  Refused slot e = (key : ℕ) × (k : IoErrorKind) × (env.refuses key slot ≡ some k) × (e ≡ io k)
