-- ===== src/Rpc/Tests.antt =====
-- Concrete requests to rpc_endpoint.rs.
use bokken.Prelude.{
  ℕ, ◌+◌, List, zero, suc, ◌≡◌, ◌≢◌, ◌++◌, inl, refl, Option, none, some, [], ◌∷◌, arith, Bytes,
  length, replicate, to_le_bytes,
}
use bokken.Prelude.Result.{ok}
use bokken.Prelude.Maps.{Map, get, insert, contains_key}
use bokken.Errors.{TransactionError, account_not_found, insufficient_funds_for_fee}
use bokken.Account.{AccountData, default_account}
use bokken.IndexFile
use bokken.IndexFile.{stride}
use bokken.IndexFile.Lookup.{get_absent}
use bokken.LedgerFile.{SlotEntryRaw, stamp, to_raw, new_block, truncate_logs}
use bokken.Ledger.Execution.{
  gather, read_account, read_files, files, sysvar, read_metas, clock_bytes, execute_instructions,
  run_all, save_edited, save_if, to_instructions, get_bokken_entry_by_tx,
}
use bokken.Ledger.Indexed.{Runs}
use bokken.Rpc.Encodings.{decode_bytes, decode_signature, spelled, base64}
use bokken.Rpc.Subscriptions.{signature_subscribe, notified, signature_subscribe-sent}
use bokken.Rpc.Sample.{endpoint}
use bokken.Rpc.Requests.{Request, balance_of, send_of, simulate_of, version_of, session}
use bokken.Rpc.Sessions.{accepted, session_height, session_reads}
use bokken.Rpc.Statuses.{send_transaction-statuses}
use bokken.Ledger.{
  Environment, all_metas, max_slot, take_fee, count_signers, add_signers, fault, chosen, account_eq,
  bytes_eq,
}
use bokken.Ledger.Sample.{quiet, ledger_at, rich_ledger}
use bokken.Rpc.{
  Endpoint, finalized_at, get_block_height, send_transaction, get_signature_statuses,
  decode_transaction, or_else,
}

-- Every text is the transaction 0.
abbrev open_env : Environment ℕ
open_env = record quiet { codec = record quiet.codec { decode_tx = λ bytes. some 0 } }

abbrev first_byte : Bytes → Option ℕ
first_byte [] = none
first_byte (b ∷ bs) = some b

abbrev decode_error : Bytes → Option TransactionError
decode_error [] = none
decode_error (zero ∷ bs) = some account_not_found
decode_error (suc b ∷ bs) = some insufficient_funds_for_fee

abbrev encode_error : TransactionError → Bytes
encode_error account_not_found = 0 ∷ []
encode_error insufficient_funds_for_fee = 1 ∷ []

error_back : (e : TransactionError) → decode_error (encode_error e) ≡ some e
error_back account_not_found = refl
error_back insufficient_funds_for_fee = refl

error_bytes : (e : TransactionError) → length (encode_error e) ≢ 0
error_bytes account_not_found h = omega arith
error_bytes insufficient_funds_for_fee h = omega arith

-- The blocks of this test differ in nothing but the slot.
abbrev decode_block : Bytes → Option SlotEntryRaw
decode_block [] = none
decode_block (b ∷ bs) = some (record {
  slot = b;
  block_height = b;
  timestamp = 60;
  block_hash = stamp 3 (replicate 32 0);
  tx_data = 1 ∷ [];
  tx_error = [];
  tx_return_data = none;
  tx_logs = [];
})

-- Signatures, slots and blocks of one byte.
abbrev small_ledger : Environment ℕ
small_ledger = record quiet {
  codec = record quiet.codec {
    decode_tx = first_byte;
    encode_tx_error = encode_error;
    decode_tx_error = decode_error;
  };
  index_format = record {
    header_size = 0;
    identifier_size = 1;
    encode_identifier = λ k. k ∷ [];
    decode_identifier = first_byte;
    encode_entry = λ n. n ∷ [];
    decode_entry = first_byte;
  };
  block_format = record {
    header_size = 0;
    identifier_size = 1;
    encode_identifier = λ k. k ∷ [];
    decode_identifier = first_byte;
    encode_entry = λ raw. raw.slot ∷ [];
    decode_entry = decode_block;
  };
}

abbrev left_over : Map AccountData
left_over =
    (7, record default_account { lamports = 3000 })
    ∷ (101, sysvar small_ledger (3480 ∷ []))
    ∷ (100, sysvar small_ledger (4 ∷ 60 ∷ []))
    ∷ []

small_ledger-Runs : Runs small_ledger 1 9 7 [] rich_ledger [] [] [] [] [] [] (left_over, [])
unfolding gather read_account read_files files sysvar read_metas all_metas max_slot get insert
    contains_key clock_bytes execute_instructions take_fee count_signers add_signers run_all fault
    save_edited save_if chosen account_eq bytes_eq to_instructions stride to_raw new_block
    truncate_logs stamp to_le_bytes
small_ledger-Runs = record {
  compiled = refl;
  paid_by = refl;
  signed = refl;
  simulated = refl;
  disk = λ key. refl;
  indexes = record {
    header = refl;
    content = refl;
    size = refl;
    entries = tt;
    room = omega arith;
    inside = omega arith;
  };
  ascending = λ i j h l. absurd (omega arith);
  unused = λ j l. absurd (omega arith);
  early = λ j h l. absurd (omega arith);
  index_fits = record {
    identifier_fits = λ e. omega arith;
    entry_fits = omega arith;
    own_identifier = λ n e. refl;
    shared_identifier = λ n e. absurd (cc e);
    entry_back = λ n. refl;
  };
  chain = record {
    stores = record {
      header = refl;
      content = refl;
      size = refl;
      entries = tt;
      room = omega arith;
      inside = omega arith;
    };
    ascending = λ i j h l. absurd (omega arith);
    bounded = λ j l. absurd (omega arith);
  };
  block_fits = record {
    identifier_fits = λ e. absurd (cc e);
    entry_fits = omega arith;
    own_identifier = λ n e. absurd (cc e);
    shared_identifier = λ n e. refl;
    entry_back = λ n. refl;
  };
  bincode = record { tx = λ t. refl; tx_error = error_back; tx_error_bytes = error_bytes };
}

-- The signature 9, in 64 bytes.
abbrev long_signature : Bytes
long_signature = replicate 63 0 ++ 9 ∷ []

abbrev long_endpoint : Endpoint ℕ
long_endpoint = record endpoint {
  codecs = record endpoint.codecs { decode_base58 = λ text. some long_signature };
}

send_transaction-statuses_example :
    let (reply, t) = send_transaction small_ledger long_endpoint "text" (some base64) rich_ledger in
    (reply ≡ ok "signature")
    × (get_signature_statuses small_ledger long_endpoint ("signature" ∷ []) t
        ≡ ok (record { slot = 4; value = some (finalized_at 4 none) ∷ [] }))
unfolding decode_transaction or_else decode_bytes decode_signature spelled
send_transaction-statuses_example =
    send_transaction-statuses small_ledger long_endpoint "text" (some base64) 1 9 7 [] rich_ledger
      [] [] [] [] [] [] (left_over, []) (record { decoded = refl; sane = refl; verified = refl })
      small_ledger-Runs "signature" refl

not_indexed : get_bokken_entry_by_tx small_ledger 9 rich_ledger ≡ some (ok none)
unfolding get_bokken_entry_by_tx
not_indexed =
    let absent : IndexFile.get small_ledger.index_format rich_ledger.transaction_index 9 ≡ ok none =
      get_absent small_ledger.index_format rich_ledger.transaction_index [] [] [] 9
        small_ledger-Runs.indexes (λ i j h l. absurd (omega arith)) (λ i p. absurd (omega arith)) in
    ground (arith, absent)

signature_subscribe-sent_example :
    signature_subscribe small_ledger long_endpoint (some "signature") (
      rich_ledger
      ∷ (send_transaction small_ledger long_endpoint "text" (some base64) rich_ledger).1
      ∷ [])
    ≡ notified 4 none
unfolding decode_transaction or_else decode_bytes spelled
signature_subscribe-sent_example =
    signature_subscribe-sent small_ledger long_endpoint "text" (some base64) 1 9 7 [] rich_ledger []
      [] [] [] [] [] (left_over, []) "signature" long_signature (rich_ledger ∷ []) []
      (record { decoded = refl; sane = refl; verified = refl }) small_ledger-Runs refl refl refl
      (inl not_indexed, tt)

-- One transaction between two requests that read.
abbrev three_requests : List Request
three_requests = balance_of "key" none ∷ send_of "text" none ∷ version_of ∷ []

session_height_example :
    get_block_height open_env endpoint (session open_env endpoint three_requests (ledger_at 3)).1
    ≡ get_block_height open_env endpoint (ledger_at 3)
      + accepted (session open_env endpoint three_requests (ledger_at 3)).0
session_height_example = session_height open_env endpoint three_requests (ledger_at 3)

abbrev two_reads : List Request
two_reads = simulate_of "text" none ∷ balance_of "key" none ∷ []

session_reads_example :
    ((session open_env endpoint two_reads (ledger_at 3)).1 ≡ ledger_at 3)
    × (accepted (session open_env endpoint two_reads (ledger_at 3)).0 ≡ 0)
session_reads_example = session_reads open_env endpoint two_reads (ledger_at 3) (tt, (tt, tt))
