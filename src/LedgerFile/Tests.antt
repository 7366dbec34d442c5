-- ===== src/LedgerFile/Tests.antt =====
-- Concrete blocks of debug_ledger/ledger_file.rs.
use bokken.Prelude.{
  ℕ, zero, suc, ◌+◌, ◌≤◌, ◌≡◌, ◌≢◌, refl, false, Option, none, some, [], ◌∷◌, arith, Bytes, length,
  replicate, to_le_bytes,
}
use bokken.Prelude.Result.{ok}
use bokken.Errors.{TransactionError, account_not_found, insufficient_funds_for_fee}
use bokken.IndexFile.{Format, stride}
use bokken.IndexFile.Slots.{Codable, slot_bytes}
use bokken.LedgerFile.{
  Codec, SlotEntryRaw, LedgerFile, to_raw, new_block, append_new_block, read_block_at_slot,
  truncate_logs, stamp, default_max_log_size,
}
use bokken.LedgerFile.Blocks.{Bincode, Chain, append_new_block-Chain, read-append_new_block}
use bokken.LedgerFile.Logs.{text_len, truncate_logs_bound}

abbrev decode_number : Bytes → Option ℕ
decode_number [] = none
decode_number (b ∷ bs) = some b

abbrev decode_error : Bytes → Option TransactionError
decode_error [] = none
decode_error (zero ∷ bs) = some account_not_found
decode_error (suc b ∷ bs) = some insufficient_funds_for_fee

-- A transaction is one number, and every text has 13 bytes.
abbrev number_codec : Codec ℕ
number_codec = record {
  encode_tx = λ t. t ∷ [];
  decode_tx = decode_number;
  encode_tx_error =
      λ e. elim e [ account_not_found ↦ 0 ∷ [] | insufficient_funds_for_fee ↦ 1 ∷ [] ];
  decode_tx_error = decode_error;
  byte_len = λ text. 13;
  size_of_transaction_error = 8;
  max_return_data = 1024;
}

-- The same, with empty texts.
abbrev empty_codec : Codec ℕ
empty_codec = record number_codec { byte_len = λ text. 0 }

error_back :
    (e : TransactionError) → number_codec.decode_tx_error (number_codec.encode_tx_error e) ≡ some e
error_back account_not_found = refl
error_back insufficient_funds_for_fee = refl

error_bytes : (e : TransactionError) → length (number_codec.encode_tx_error e) ≢ 0
error_bytes account_not_found h = omega arith
error_bytes insufficient_funds_for_fee h = omega arith

number_Bincode : Bincode number_codec
number_Bincode = record { tx = λ t. refl; tx_error = error_back; tx_error_bytes = error_bytes }

-- The blocks of this test differ in nothing but what the slot decides.
abbrev test_raw : ℕ → SlotEntryRaw
test_raw slot = record {
  slot = slot;
  block_height = slot;
  timestamp = 60;
  block_hash = replicate 32 0;
  tx_data = 4 ∷ [];
  tx_error = [];
  tx_return_data = none;
  tx_logs = [];
}

abbrev decode_block : Bytes → Option SlotEntryRaw
decode_block [] = none
decode_block (b ∷ bs) = some (test_raw b)

abbrev slot_format : Format SlotEntryRaw
slot_format = record {
  header_size = 2;
  identifier_size = 1;
  encode_identifier = λ k. k ∷ [];
  decode_identifier = decode_number;
  encode_entry = λ raw. raw.slot ∷ [];
  decode_entry = decode_block;
}

abbrev new_ledger : LedgerFile
new_ledger = record {
  slot = 0;
  blockhash = replicate 32 0;
  rent_per_byte_year = 3480;
  indexed_file = record {
    file = 0 ∷ 0 ∷ [];
    file_len = 2;
    entry_size = 3;
    identifier_is_separate = false;
  };
}

new_ledger-Chain : Chain number_codec slot_format new_ledger (0 ∷ 0 ∷ []) [] []
unfolding stride
new_ledger-Chain = record {
  stores = record {
    header = refl;
    content = refl;
    size = refl;
    entries = tt;
    room = omega arith;
    inside = omega arith;
  };
  ascending = λ i j h l. absurd (omega arith);
  bounded = λ j l. absurd (omega arith);
}

first_Codable :
    Codable slot_format new_ledger.indexed_file 1
      (to_raw number_codec (new_block number_codec slot_format 60 4 none none [] new_ledger))
unfolding to_raw new_block truncate_logs stamp to_le_bytes
first_Codable = record {
  identifier_fits = λ e. omega arith;
  entry_fits = omega arith;
  own_identifier = λ n e. refl;
  shared_identifier = λ n e. refl;
  entry_back = λ n. refl;
}

append_new_block-Chain_example :
    ((append_new_block number_codec slot_format 60 4 none none [] new_ledger).0 ≡ ok tt)
    × ((append_new_block number_codec slot_format 60 4 none none [] new_ledger).1.slot ≡ 1)
    × Chain number_codec slot_format
        (append_new_block number_codec slot_format 60 4 none none [] new_ledger).1
        (0 ∷ 0 ∷ [])
        (slot_bytes slot_format new_ledger.indexed_file 1
            (to_raw number_codec (new_block number_codec slot_format 60 4 none none [] new_ledger))
          ∷ [])
        ((1, to_raw number_codec (new_block number_codec slot_format 60 4 none none [] new_ledger))
          ∷ [])
append_new_block-Chain_example =
    append_new_block-Chain number_codec slot_format 60 4 none none [] new_ledger (0 ∷ 0 ∷ []) [] []
      new_ledger-Chain first_Codable

read-append_new_block_example :
    read_block_at_slot number_codec slot_format 1
      (append_new_block number_codec slot_format 60 4 none none [] new_ledger).1
    ≡ some (ok (some (new_block number_codec slot_format 60 4 none none [] new_ledger)))
read-append_new_block_example =
    read-append_new_block number_codec slot_format 60 4 none none [] new_ledger (0 ∷ 0 ∷ []) [] []
      new_ledger-Chain 1 number_Bincode first_Codable

truncate_logs_bound_example :
    0 + text_len number_codec (truncate_logs number_codec 0 ("a" ∷ "b" ∷ [])) ≤ default_max_log_size
truncate_logs_bound_example = truncate_logs_bound number_codec ("a" ∷ "b" ∷ []) 0 refl (omega arith)
