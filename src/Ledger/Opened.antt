-- ===== src/Ledger/Opened.antt =====
-- What a ledger of debug_ledger.rs is when it has been opened.
use bokken.Prelude.{
  ℕ, ◌≡◌, refl, sym, ap, ◌∙◌, ◌==◌, if◌then◌else◌, Bool, true, false, Option, none, some, [], ◌++◌,
  arith, Bytes, length_zero, replicate, to_le_bytes,
}
use bokken.Prelude.Result.{Result, ok, err, ◌>>=◌}
use bokken.Prelude.Post.{by_if}
use bokken.Prelude.Maps.{Map, get}
use bokken.Errors.{BokkenError, init_config_is_none}
use bokken.FileBytes.{set_len, length-set_len, write, read_exact}
use bokken.IndexFile.{Format, IndexableFile, stride, read_file_header, write_file_header, last}
use bokken.IndexFile
use bokken.IndexFile.Layout.{Stores}
use bokken.IndexFile.Lookup.{first-last-Stores}
use bokken.LedgerFile
use bokken.LedgerFile.{Codec, SlotEntryRaw, LedgerFile, entry_size, load_header}
use bokken.LedgerFile.Blocks.{Chain}
use bokken.Ledger.{Fault, failed, Ledger, Environment}
use bokken.Ledger.Execution.{new, with_file, files, read_account}
use bokken.Ledger.Saving.{==→≡}
use bokken.Ledger.Accounts.{IsStored, save_account_taken, read-with_file}
use bokken.Account.{AccountData, default_account}
use bokken.Ledger.Opening.{existing, created, on_state, open_files, open_ledger}

abbrev pub empty_file : ℕ → Bool → IndexableFile
empty_file size b = record {
  file = [];
  file_len = 0;
  entry_size = size;
  identifier_is_separate = b;
}

-- A file that has just been opened is empty.
emptied :
    (old : Bytes) (size : ℕ) (b : Bool) → IndexFile.new (ok old) size b ≡ ok (empty_file size b)
unfolding IndexFile.new
emptied old size b =
    ap (λ z. ok (record { file = z; file_len = 0; entry_size = size; identifier_is_separate = b }))
      (length_zero (set_len old 0) (length-set_len old 0))

module _ {Tx : Type 0} (codec : Codec Tx) (fmt : Format SlotEntryRaw) where
  abbrev pub header : Bytes
  header = to_le_bytes 8 3480 ++ to_le_bytes 8 0

  abbrev pub new_file : IndexableFile
  new_file = record {
    file = header;
    file_len = 16;
    entry_size = entry_size codec;
    identifier_is_separate = false;
  }

  header_written :
      fmt.header_size ≡ 16
      → load_header codec fmt (empty_file (entry_size codec) false) ≡ (3480, new_file)
  unfolding load_header read_file_header write_file_header read_exact set_len write to_le_bytes
  header_written e = rw e

  new_file-Stores :
      fmt.header_size ≡ 16 → fmt.identifier_size ≡ 8 → Stores fmt new_file header [] []
  unfolding stride entry_size to_le_bytes
  new_file-Stores h i = record {
    header = omega (arith, h);
    content = refl;
    size = refl;
    entries = tt;
    room = omega arith;
    inside = omega (arith, i);
  }

  -- The state of a ledger without blocks.
  abbrev pub first_state : LedgerFile
  first_state = record {
    slot = 0;
    blockhash = replicate 32 0;
    rent_per_byte_year = 3480;
    indexed_file = new_file;
  }

  state_opened :
      (old : Bytes)
      → fmt.header_size ≡ 16
      → fmt.identifier_size ≡ 8
      → LedgerFile.new codec fmt (ok old) ≡ ok first_state
  unfolding LedgerFile.new
  state_opened old h i =
      let newest : last fmt new_file ≡ ok none =
        (first-last-Stores fmt new_file header [] [] (new_file-Stores h i)).1 in
      let of_last : Result BokkenError (Option (ℕ × SlotEntryRaw)) → Result BokkenError LedgerFile =
        λ r. r >>= λ newest. elim newest [
          | some e ↦ ok (record {
            slot = e.1.slot;
            blockhash = e.1.block_hash;
            rent_per_byte_year = 3480;
            indexed_file = new_file;
          })
          | none ↦ ok first_state
        ] in
      let of_header : ℕ × IndexableFile → Result BokkenError LedgerFile = λ q.
        last fmt q.1 >>= λ newest. elim newest [
          | some e ↦ ok (record {
            slot = e.1.slot;
            blockhash = e.1.block_hash;
            rent_per_byte_year = q.0;
            indexed_file = q.1;
          })
          | none ↦ ok (record {
            slot = 0;
            blockhash = replicate 32 0;
            rent_per_byte_year = q.0;
            indexed_file = q.1;
          })
        ] in
      let of_file : Result BokkenError IndexableFile → Result BokkenError LedgerFile =
        λ r. r >>= λ f. of_header (load_header codec fmt f) in
      ap of_file (emptied old (entry_size codec) false)
      ∙ ap of_header (header_written h)
      ∙ ap of_last newest

  first_state-Chain :
      fmt.header_size ≡ 16 → fmt.identifier_size ≡ 8 → Chain codec fmt first_state header [] []
  first_state-Chain h i = record {
    stores = new_file-Stores h i;
    ascending = λ x y l m. absurd (omega arith);
    bounded = λ j l. absurd (omega arith);
  }

module _ {Tx : Type 0} (env : Environment Tx) where
  -- The ledger has the accounts, is at slot 0, and its files are in order and without entries.
  pub record IsEmptied (accounts : Map (Map Bytes)) (l : Ledger) : Type 0 where
    pub kept : l.accounts ≡ accounts
    pub slot : l.state.slot ≡ 0
    pub blocks : Chain env.codec env.block_format l.state (header env.codec env.block_format) [] []
    pub index : Stores env.index_format l.transaction_index [] [] []

  index_empty :
      env.index_format.header_size ≡ 0 → Stores env.index_format (empty_file 8 true) [] [] []
  unfolding stride
  index_empty h = record {
    header = omega (arith, h);
    content = refl;
    size = refl;
    entries = tt;
    room = omega arith;
    inside = omega arith;
  }

  index_opened :
      (fresh : Bool) (accounts : Map (Map Bytes)) (old_index : Bytes) (init : Option (ℕ × ℕ))
      (state : LedgerFile)
      → on_state env fresh accounts (ok old_index) init (ok state)
        ≡ new env fresh init
            (record { accounts = accounts; transaction_index = empty_file 8 true; state = state })
  unfolding on_state
  index_opened fresh accounts old_index init state =
      ap
        (λ (r : Result BokkenError IndexableFile).
          let p : Result Fault Ledger = elim r [
            | err e ↦ err (failed e)
            | ok index ↦
                new env fresh init
                  (record { accounts = accounts; transaction_index = index; state = state })
          ] in
          p)
        (emptied old_index 8 true)

  -- With the sizes of the header and the identifiers that debug_ledger.rs and ledger_file.rs give:
  -- a directory that is there, with two files that can be opened, is always opened, and the ledger
  -- has its accounts but is at slot 0 without any block or indexed transaction, whatever the two
  -- files have held.
  pub open_ledger-IsEmptied :
      (accounts : Map (Map Bytes)) (old_index old_state : Bytes) (init : Option (ℕ × ℕ))
      → env.block_format.header_size ≡ 16
      → env.block_format.identifier_size ≡ 8
      → env.index_format.header_size ≡ 0
      → (l : Ledger) × (open_ledger env (existing accounts) (ok old_index) (ok old_state) init
          ≡ ok l)
        × IsEmptied accounts l
  unfolding open_ledger open_files new
  open_ledger-IsEmptied accounts old_index old_state init h i n = (
    record {
      accounts = accounts;
      transaction_index = empty_file 8 true;
      state = first_state env.codec env.block_format;
    },
    ap (on_state env false accounts (ok old_index) init)
          (state_opened env.codec env.block_format old_state h i)
        ∙ index_opened false accounts old_index init (first_state env.codec env.block_format),
    record {
      kept = refl;
      slot = refl;
      blocks = first_state-Chain env.codec env.block_format h i;
      index = index_empty n;
    },
  )

  -- In a new directory, with two files that can be opened: without a configuration the ledger is refused; with one, where the decoder
  -- reads what the encoder wrote, the key is neither a program nor a system variable and the disk
  -- takes the file of the account, it is opened, and the initial account reads back with its lamports.
  pub open_ledger-mint :
      (mint lamports : ℕ) (old_index old_state : Bytes)
      → env.block_format.header_size ≡ 16
      → env.block_format.identifier_size ≡ 8
      → ((b : AccountData) → env.decode_account (env.encode_account b) ≡ some b)
      → IsStored env mint
      → env.refuses mint 0 ≡ none
      → (open_ledger env created (ok old_index) (ok old_state) none
          ≡ err (failed init_config_is_none))
        × (l : Ledger) × (open_ledger env created
              (ok old_index)
              (ok old_state)
              (some (mint, lamports))
            ≡ ok l)
        × (l.state.slot ≡ 0)
        × (read_account env mint none l ≡ ok (record default_account { lamports = lamports }))
  unfolding open_ledger open_files new files get with_file
  open_ledger-mint mint lamports old_index old_state h i back stored takes =
      let l : Ledger = record {
        accounts = [];
        transaction_index = empty_file 8 true;
        state = first_state env.codec env.block_format;
      } in
      let account : AccountData = record default_account { lamports = lamports } in
      let opened = state_opened env.codec env.block_format old_state h i in
      let same : (if lamports == 0 then default_account else account) ≡ account =
        by_if (λ z. z ≡ account) (lamports == 0) default_account account
          (λ e. ap (λ n. record default_account { lamports = n }) (sym (==→≡ lamports 0 e)))
          (λ _. refl) in
      let saved : new env true (some (mint, lamports)) l ≡ ok (with_file env mint account l) =
        ap
          (λ (q : Result Fault (Unit {0}) × Ledger).
            let r : Result Fault Ledger = elim q.0 [ ok _ ↦ ok q.1 | err e ↦ err e ] in r)
          (save_account_taken env mint account l takes) in
      (
        ap (on_state env true [] (ok old_index) none) opened
            ∙ index_opened true [] old_index none (first_state env.codec env.block_format),
        with_file env mint account l,
        ap (on_state env true [] (ok old_index) (some (mint, lamports))) opened
            ∙ index_opened true [] old_index (some (mint, lamports))
                (first_state env.codec env.block_format)
            ∙ saved,
        refl,
        read-with_file env mint account none l back stored tt ∙ ap ok same,
      )
