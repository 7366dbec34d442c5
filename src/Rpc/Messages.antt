-- ===== src/Rpc/Messages.antt =====
-- solana-debug-validator/src/rpc_endpoint_structs.rs: what the methods of the endpoint return, and the
-- request of simulateTransaction.
use Prim.Native.String.{String}
use bokken.Prelude.{ℕ, Bool, false, Option, none, List, []}
use bokken.Errors.{TransactionError}
use bokken.Rpc.InstructionErrors.{InstructionError}
use bokken.Rpc.Encodings.{Encoding, base64, EncodedString}

-- `RpcCommitment`
pub data Commitment : Type 0 where
  finalized confirmed processed : Commitment

-- `RpcResponseContext` and a value.
pub record Reply (A : Type 0) : Type 0 where
  pub slot : ℕ
  pub value : A

-- `RpcGetAccountInfoResponseValue` and `RpcSimulateTransactionResponseAccounts`
pub record AccountValue : Type 0 where
  pub lamports : ℕ
  pub owner : String
  pub text : EncodedString
  pub executable : Bool
  pub rent_epoch : ℕ

-- `RpcGetSignatureStatusesResponseValue`
pub record SignatureStatus : Type 0 where
  pub slot : ℕ
  pub confirmations : Option ℕ
  pub confirmation_status : Commitment
  pub error : Option TransactionError
  pub status : Option TransactionError

-- `RpcSimulateTransactionRequest`
pub record SimulateRequest : Type 0 where
  pub sig_verify : Bool
  pub commitment : Commitment
  pub encoding : Option Encoding
  pub replace_recent_blockhash : Bool
  pub accounts_encoding : Encoding
  pub addresses : List String
  pub min_context_slot : ℕ

-- `RpcSimulateTransactionResponseReturnData`
pub record SimulateReturnData : Type 0 where
  pub program_id : String
  pub text : EncodedString

-- `RpcSimulateTransactionResponseValue`; an error is the index of an instruction and what it is.
pub record SimulateValue : Type 0 where
  pub error : Option (ℕ × InstructionError)
  pub logs : Option (List String)
  pub accounts : Option (List AccountValue)
  pub units_consumed : Option ℕ
  pub return_data : Option SimulateReturnData

abbrev pub default_request : SimulateRequest
default_request = record {
  sig_verify = false;
  commitment = finalized;
  encoding = none;
  replace_recent_blockhash = false;
  accounts_encoding = base64;
  addresses = [];
  min_context_slot = 0;
}

-- The status of a transaction that stands in a block.
unfoldable pub finalized_at : ℕ → Option TransactionError → SignatureStatus
finalized_at slot error = record {
  slot = slot;
  confirmations = none;
  confirmation_status = finalized;
  error = error;
  status = error;
}
