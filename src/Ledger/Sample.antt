-- ===== src/Ledger/Sample.antt =====
-- Sample values for tests of debug_ledger.rs.
use bokken.Prelude.{
  ◌≡◌, refl, ap, ℕ, Bool, true, false, Option, none, some, [], ◌∷◌, Bytes, replicate, ◌==◌,
}
use bokken.Prelude.Result.{ok}
use bokken.Errors.{custom}
use bokken.Account.{AccountData, default_account}
use bokken.IndexFile.{Format}
use bokken.Ledger.{Environment, Ledger}

abbrev pub flag : Bool → ℕ
flag true = 1
flag false = 0

abbrev pub to_bytes : AccountData → Bytes
to_bytes a = a.lamports ∷ a.owner ∷ flag a.executable ∷ a.rent_epoch ∷ a.account_bytes

abbrev pub of_bytes : Bytes → Option AccountData
of_bytes (l ∷ o ∷ x ∷ r ∷ bs) =
    some
      (record { lamports = l; account_bytes = bs; owner = o; executable = x == 1; rent_epoch = r })
of_bytes bs = none

abbrev pub no_format : {T : Type 0} → Format T
no_format = record {
  header_size = 0;
  identifier_size = 1;
  encode_identifier = λ k. k ∷ [];
  decode_identifier = λ bytes. none;
  encode_entry = λ e. [];
  decode_entry = λ bytes. none;
}

flag_back : (b : Bool) → (flag b == 1) ≡ b
flag_back true = refl
flag_back false = refl

pub account_back : (a : AccountData) → of_bytes (to_bytes a) ≡ some a
account_back a = ap (λ x. some (record a { executable = x })) (flag_back a.executable)

-- Programs change nothing and succeed.
abbrev pub quiet : Environment ℕ
quiet = record {
  codec = record {
    encode_tx = λ t. t ∷ [];
    decode_tx = λ bytes. none;
    encode_tx_error = λ e. 1 ∷ [];
    decode_tx_error = λ bytes. none;
    byte_len = λ text. 1;
    size_of_transaction_error = 8;
    max_return_data = 1024;
  };
  block_format = no_format;
  index_format = no_format;
  refuses = λ key slot. none;
  encode_account = to_bytes;
  decode_account = of_bytes;
  encode_clock = λ slot timestamp. slot ∷ timestamp ∷ [];
  encode_rent = λ n. n ∷ [];
  clock_id = 100;
  rent_id = 101;
  sysvar_owner = 102;
  debug_program_loader = 103;
  now = 60;
  program_error = custom;
  has_program_id = λ key. key == 50;
  call_program = λ program bytes metas accounts depth. ok (0, [], accounts);
  account_keys = λ tx. 7 ∷ 50 ∷ [];
  instructions = λ tx. [];
  is_signer = λ tx i. true;
  is_writable = λ tx i. true;
  signatures = λ tx. 9 ∷ [];
}

abbrev pub ledger_at : ℕ → Ledger
ledger_at slot = record {
  accounts = (7, (2, to_bytes (record default_account { lamports = 4 })) ∷ []) ∷ [];
  transaction_index = record {
    file = [];
    file_len = 0;
    entry_size = 8;
    identifier_is_separate = true;
  };
  state = record {
    slot = slot;
    blockhash = replicate 32 0;
    rent_per_byte_year = 3480;
    indexed_file = record {
      file = [];
      file_len = 0;
      entry_size = 8;
      identifier_is_separate = false;
    };
  };
}

-- The fee is covered here.
abbrev pub rich_ledger : Ledger
rich_ledger = record (ledger_at 3) {
  accounts = (7, (2, to_bytes (record default_account { lamports = 8000 })) ∷ []) ∷ [];
}
