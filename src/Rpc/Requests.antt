-- ===== src/Rpc/Requests.antt =====
-- The methods of `SolanaDebuggerRpc` (rpc_endpoint.rs) with the parameters of rpc_endpoint_structs.rs,
-- and the requests that the endpoint takes one after the other. The bound to a slot, the commitment,
-- the data slice and the other options that no method reads are kept as parameters.
use Prim.Native.String.{String}
use bokken.Prelude.{ℕ, Bool, false, Option, none, some, List, [], ◌∷◌}
use bokken.Prelude.Result.{Result, ok, err}
use bokken.Prelude.Action.{Action}
use bokken.Ledger.{Fault, Ledger, Environment, fault}
use bokken.Rpc.Encodings.{Encoding, base64}
use bokken.Rpc.{
  Commitment, finalized, Reply, AccountValue, SignatureStatus, SimulateRequest, SimulateValue,
  Endpoint, or_else, get_account_info, get_balance, get_block_height, get_latest_blockhash,
  get_min_balance_for_rent_exemption, get_signature_statuses, send_transaction,
  simulate_transaction,
}

pub record DataSlice : Type 0 where
  pub offset : ℕ
  pub length : ℕ

pub record GetAccountInfoRequest : Type 0 where
  pub commitment : Commitment
  pub encoding : Encoding
  pub data_slice : Option DataSlice
  pub min_context_slot : ℕ

-- `RpcGetBalanceRequest`, also the parameters of getBlockHeight.
pub record GetBalanceRequest : Type 0 where
  pub commitment : Commitment
  pub min_context_slot : ℕ

-- `RpcGenericConfigRequest` and `RpcGetLatestBlockhashRequest`
pub record GenericConfigRequest : Type 0 where
  pub commitment : Commitment

pub record SendTransactionRequest : Type 0 where
  pub skip_verify : Bool
  pub pre_flight_commitment : Commitment
  pub encoding : Option Encoding
  pub min_context_slot : ℕ

pub record GetSignatureStatusesRequest : Type 0 where
  pub search_transaction_history : Bool

-- What `unwrap_or_default` takes where there is no configuration.
unfoldable pub account_info_default : GetAccountInfoRequest
account_info_default = record {
  commitment = finalized;
  encoding = base64;
  data_slice = none;
  min_context_slot = 0;
}

unfoldable pub send_default : SendTransactionRequest
send_default = record {
  skip_verify = false;
  pre_flight_commitment = finalized;
  encoding = none;
  min_context_slot = 0;
}

-- A method with its parameters.
pub data Request : Type 0 where
  account_info_of : String → Option GetAccountInfoRequest → Request
  balance_of : String → Option GetBalanceRequest → Request
  block_height_of : Option GetBalanceRequest → Request
  latest_blockhash_of : Option GenericConfigRequest → Request
  min_balance_of : (size : ℕ) → Option GenericConfigRequest → Request
  signature_statuses_of : List String → Option GetSignatureStatusesRequest → Request
  version_of : Request
  send_of : String → Option SendTransactionRequest → Request
  simulate_of : String → Option SimulateRequest → Request

-- What a method returns.
pub data Response : Type 0 where
  account_info : Reply (Option AccountValue) → Response
  balance : Reply ℕ → Response
  block_height : ℕ → Response
  latest_blockhash : Reply (String × ℕ) → Response
  min_balance : ℕ → Response
  signature_statuses : Reply (List (Option SignatureStatus)) → Response
  version : (solana_core : String) (feature_set : ℕ) → Response
  sent : (signature : String) → Response
  simulated : Reply SimulateValue → Response

-- A result as the response of a method.
unfoldable pub respond : {A : Type 0} → (A → Response) → Result Fault A → Result Fault Response
respond f (ok a) = ok (f a)
respond f (err e) = err e

module _ {Tx : Type 0} (env : Environment Tx) (rpc : Endpoint Tx) where
  unfoldable pub call : Request → Action Ledger Fault Response
  call (account_info_of text config) l = (
    respond account_info (
        fault
          (get_account_info env rpc text (some (or_else account_info_default config).encoding) l)),
    l,
  )
  call (balance_of text config) l = (respond balance (fault (get_balance env rpc text l)), l)
  call (block_height_of config) l = (ok (block_height (get_block_height env rpc l)), l)
  call (latest_blockhash_of config) l = (ok (latest_blockhash (get_latest_blockhash env rpc l)), l)
  call (min_balance_of size config) l =
      (ok (min_balance (get_min_balance_for_rent_exemption env rpc size l)), l)
  call (signature_statuses_of texts config) l =
      (respond signature_statuses (get_signature_statuses env rpc texts l), l)
  call version_of l = (ok (version "1.13.5+debug-validator-0.0.1" 0), l)
  call (send_of text config) l =
      let (r, t) = send_transaction env rpc text (or_else send_default config).encoding l in
      (respond sent r, t)
  call (simulate_of text config) l =
      let (r, t) = simulate_transaction env rpc text config l in (respond simulated r, t)

  -- The requests of all connections, in the order in which they take the lock of the ledger.
  unfoldable pub session : List Request → Ledger → List (Result Fault Response) × Ledger
  session [] l = ([], l)
  session (request ∷ requests) l =
      let (response, t) = call request l in
      let (responses, u) = session requests t in (response ∷ responses, u)
