-- ===== src/Rpc.antt =====
-- solana-debug-validator/src/rpc_endpoint.rs and rpc_endpoint_structs.rs: the methods of
-- `SolanaDebuggerRpcImpl` on the ledger. Texts are decoded and shown by other crates; a request and
-- its reply are records, the JSON round them is left out.
pub mod InstructionErrors
pub mod Encodings
pub mod Messages
pub mod Simulating
pub mod Statuses
pub mod Subscriptions
pub mod Requests
pub mod Sessions
pub mod Sample
mod Tests
use Prim.Native.String.{String}
use bokken.Prelude.{
  ℕ, ◌+◌, ◌%◌, ◌^◌, Bool, true, false, Option, none, some, List, [], ◌∷◌, Bytes, get_elem?, ◌==◌,
  if◌then◌else◌,
}
use bokken.Prelude.Result.{Result, ok, err, ok_or}
use bokken.Prelude.Action.{Action, pure, reads, ◌>>=◌, ◌>>◌}
use bokken.Prelude.Maps.{Map, get}
use bokken.Errors.{
  BokkenError, ProgramError, TransactionError, bincode_decode_error, instruction_exec_error,
}
use bokken.Account.{AccountData}
use bokken.LedgerFile.{SlotEntry}
use bokken.Ledger.{Fault, failed, panicked, Ledger, only, Environment, fault}
use bokken.Ledger.Execution.{
  read_account, get_bokken_entry_by_tx, calc_min_balance_for_rent_exemption, to_instructions,
  execute_instructions, execute_transaction,
}
use bokken.Rpc.InstructionErrors.{InstructionError, to_instruction_error}
use bokken.Rpc.Encodings.{
  Codecs, Encoding, base64, base58, EncodedString, decode_bytes, decode_signature, from_bytes,
}
pub use bokken.Rpc.Messages.{
  Commitment, finalized, confirmed, processed, Reply, AccountValue, SignatureStatus,
  SimulateRequest, SimulateReturnData, SimulateValue, default_request, finalized_at,
}

-- What other crates decode, show and verify.
pub record Endpoint (Tx : Type 0) : Type 0 where
  pub codecs : Codecs
  pub parse_key : String → Result BokkenError ℕ
  pub show_key : ℕ → String
  pub show_signature : ℕ → String
  pub show_blockhash : Bytes → String
  pub sanitize : Tx → Result BokkenError (Unit {0})
  pub sanitize_message : Tx → Result BokkenError (Unit {0})
  pub verify : Tx → Result BokkenError (Unit {0})

-- `unwrap_or`
unfoldable pub or_else : {A : Type 0} → A → Option A → A
or_else a none = a
or_else a (some b) = b

module _ {Tx : Type 0} (env : Environment Tx) (rpc : Endpoint Tx) where
  unfoldable pub account_value : Encoding → AccountData → AccountValue
  account_value encoding a = record {
    lamports = a.lamports;
    owner = rpc.show_key a.owner;
    text = from_bytes rpc.codecs a.account_bytes encoding;
    executable = a.executable;
    rent_epoch = a.rent_epoch;
  }

  unfoldable pub get_account_info :
      String → Option Encoding → Ledger → Result BokkenError (Reply (Option AccountValue))
  get_account_info text encoding l = elim (rpc.parse_key text) [
    | err e ↦ err e
    | ok key ↦ elim (read_account env key none l) [
      | err e ↦ err e
      | ok a ↦ ok (record {
        slot = l.state.slot;
        value = if a.lamports == 0 then none else some (account_value (or_else base64 encoding) a);
      })
    ]
  ]

  unfoldable pub get_balance : String → Ledger → Result BokkenError (Reply ℕ)
  get_balance text l = elim (rpc.parse_key text) [
    | err e ↦ err e
    | ok key ↦ elim (read_account env key none l) [
      | err e ↦ err e
      | ok a ↦ ok (record { slot = l.state.slot; value = a.lamports })
    ]
  ]

  unfoldable pub get_min_balance_for_rent_exemption : ℕ → Ledger → ℕ
  get_min_balance_for_rent_exemption size l = calc_min_balance_for_rent_exemption env size l

  unfoldable pub get_latest_blockhash : Ledger → Reply (String × ℕ)
  get_latest_blockhash l = record {
    slot = l.state.slot;
    value = (rpc.show_blockhash l.state.blockhash, 100);
  }

  unfoldable pub get_block_height : Ledger → ℕ
  get_block_height l = l.state.slot

  -- The transaction that a text holds.
  unfoldable pub decode_transaction : Option Encoding → String → Result BokkenError Tx
  decode_transaction encoding text = elim (decode_bytes rpc.codecs (or_else base58 encoding) text) [
    | err e ↦ err e
    | ok bytes ↦ ok_or (env.codec.decode_tx bytes) bincode_decode_error
  ]

  unfoldable pub send_transaction : String → Option Encoding → Action Ledger Fault String
  send_transaction text encoding = do
    tx ← reads (λ _. fault (decode_transaction encoding text))
    reads (λ _. fault (rpc.sanitize tx))
    reads (λ _. fault (rpc.verify tx))
    signature ← reads (λ _. ok_or (get_elem? (env.signatures tx) 0) panicked)
    execute_transaction env tx true
    pure (rpc.show_signature signature)

  unfoldable pub parse_keys : List String → Result BokkenError (List ℕ)
  parse_keys [] = ok []
  parse_keys (text ∷ texts) = elim (rpc.parse_key text) [
    | err e ↦ err e
    | ok key ↦ elim (parse_keys texts) [ err e ↦ err e | ok keys ↦ ok (key ∷ keys) ]
  ]

  -- The accounts of the reply; one that is not there is a panic.
  unfoldable pub values_of : Encoding → List ℕ → Map AccountData → Option (List AccountValue)
  values_of encoding [] states = some []
  values_of encoding (key ∷ keys) states = elim (get key states) [
    | none ↦ none
    | some a ↦ elim (values_of encoding keys states) [
      | none ↦ none
      | some values ↦ some (account_value encoding a ∷ values)
    ]
  ]

  -- The reply to what the ledger returned.
  unfoldable pub simulation_reply :
      Encoding
      → List ℕ
      → ℕ
      → Result Fault (Map AccountData × List String)
      → Result Fault (Reply SimulateValue)
  simulation_reply encoding keys slot (ok (states, logs)) = elim (values_of encoding keys states) [
    | none ↦ err panicked
    | some values ↦ ok (record {
      slot = slot;
      value = record {
        error = none;
        logs = some logs;
        accounts = some values;
        units_consumed = some 0;
        return_data = none;
      };
    })
  ]
  simulation_reply encoding keys slot (err (failed (instruction_exec_error index e logs))) =
      ok (record {
        slot = slot;
        value = record {
          error = some (index % 2 ^ 8, to_instruction_error e);
          logs = some logs;
          accounts = none;
          units_consumed = some 0;
          return_data = none;
        };
      })
  simulation_reply encoding keys slot (err e) = err e

  -- The message is run and the result is put into a reply.
  unfoldable pub run_simulation :
      SimulateRequest → List ℕ → Tx → Action Ledger Fault (Reply SimulateValue)
  run_simulation config keys tx l =
      elim (ok_or (to_instructions env tx (env.instructions tx)) panicked) [
        | err e ↦ (err e, l)
        | ok ixs ↦ elim (ok_or (get_elem? (env.account_keys tx) 0) panicked) [
          | err e ↦ (err e, l)
          | ok payer ↦
              let (r, t) = execute_instructions env payer ixs (only keys) none false l in
              (simulation_reply config.accounts_encoding keys t.state.slot r, t)
        ]
      ]

  unfoldable pub simulate_transaction :
      String → Option SimulateRequest → Action Ledger Fault (Reply SimulateValue)
  simulate_transaction text request = do
    config ← pure (or_else default_request request)
    keys ← reads (λ _. fault (parse_keys config.addresses))
    tx ← reads (λ _. fault (decode_transaction config.encoding text))
    reads (λ _. fault (rpc.sanitize_message tx))
    reads (λ _. if config.sig_verify then fault (rpc.verify tx) else ok tt)
    run_simulation config keys tx

  -- The statuses of signatures; a block that panics ends the request.
  unfoldable pub statuses : List String → Ledger → Result Fault (List (Option SignatureStatus))
  statuses [] l = ok []
  statuses (text ∷ texts) l = elim (decode_signature rpc.codecs text) [
    | err e ↦ err (failed e)
    | ok signature ↦ elim (get_bokken_entry_by_tx env signature l) [
      | none ↦ err panicked
      | some (err e) ↦ err (failed e)
      | some (ok entry) ↦ elim (statuses texts l) [
        | err e ↦ err e
        | ok rest ↦
            ok
              ((elim entry [ none ↦ none | some b ↦ some (finalized_at b.slot b.tx_error) ]) ∷ rest)
      ]
    ]
  ]

  unfoldable pub get_signature_statuses :
      List String → Ledger → Result Fault (Reply (List (Option SignatureStatus)))
  get_signature_statuses texts l = elim (statuses texts l) [
    | err e ↦ err e
    | ok values ↦ ok (record { slot = l.state.slot; value = values })
  ]
