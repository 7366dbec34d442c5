-- ===== src/Validator.antt =====
-- solana-debug-validator/src/main.rs: the options, the ledger that they open and the addresses that
-- the two servers of rpc_endpoint.rs (`start_endpoint`) listen to.
pub mod Starting
mod Tests
use Prim.Native.String.{String}
use bokken.Prelude.{ℕ, ◌+◌, ◌^◌, Bool, true, false, Option, none, some, Bytes, ltb, if◌then◌else◌}
use bokken.Prelude.Result.{Result, ok, err}
use bokken.Ledger.{Fault, failed, panicked, Ledger, Environment}
use bokken.Ledger.Opening.{Directory, open_ledger}
use bokken.Errors.{IoErrorKind, io}
use bokken.Rpc.{or_else}
use bokken.Rpc.Subscriptions.{next_port}

-- `IpAddr` and `SocketAddr`; an address is the number that its bytes spell.
pub data IpAddr : Type 0 where
  ip_v4 ip_v6 : ℕ → IpAddr

pub data SocketAddr : Type 0 where
  v4 : (addr port : ℕ) → SocketAddr
  v6 : (addr port flowinfo scope_id : ℕ) → SocketAddr

-- What stands on the command line.
pub record Arguments : Type 0 where
  pub socket_path : Option String
  pub save_path : Option String
  pub listen_addr : Option IpAddr
  pub listen_port : Option ℕ
  pub initial_mint_pubkey : Option ℕ
  pub initial_mint_lamports : Option ℕ

pub record CommandOptions : Type 0 where
  pub socket_path : String
  pub save_path : String
  pub listen_addr : IpAddr
  pub listen_port : ℕ
  pub initial_mint_pubkey : Option ℕ
  pub initial_mint_lamports : ℕ

-- The fallbacks; 2130706433 is 127.0.0.1.
unfoldable pub command_options : Arguments → CommandOptions
command_options args = record {
  socket_path = or_else "bokken.sock" args.socket_path;
  save_path = or_else "not-ledger" args.save_path;
  listen_addr = or_else (ip_v4 2130706433) args.listen_addr;
  listen_port = or_else 8899 args.listen_port;
  initial_mint_pubkey = args.initial_mint_pubkey;
  initial_mint_lamports = or_else 500000000000000000 args.initial_mint_lamports;
}

unfoldable pub init_config : CommandOptions → Option (ℕ × ℕ)
init_config opts = elim opts.initial_mint_pubkey [
  | none ↦ none
  | some pubkey ↦ some (pubkey, opts.initial_mint_lamports)
]

unfoldable pub socket_addr : IpAddr → ℕ → SocketAddr
socket_addr (ip_v4 addr) port = v4 addr port
socket_addr (ip_v6 addr) port = v6 addr port 0 0

-- The address of the server for subscriptions.
unfoldable pub subscription_addr : SocketAddr → Option SocketAddr
subscription_addr (v4 addr port) = elim (next_port port) [ none ↦ none | some p ↦ some (v4 addr p) ]
subscription_addr (v6 addr port flowinfo scope_id) = elim (next_port port) [
  | none ↦ none
  | some p ↦ some (v6 addr p flowinfo scope_id)
]

-- What the system answers to a path or an address that is to be bound: nothing, or an error.
pub record Sockets : Type 0 where
  pub bind_path : String → Option IoErrorKind
  pub bind_addr : SocketAddr → Option IoErrorKind

-- What follows if nothing has gone wrong.
unfoldable pub unless : {A : Type 0} → Option IoErrorKind → Result Fault A → Result Fault A
unless none next = next
unless (some e) next = err (failed (io e))

-- `start_endpoint`, up to the servers: the ledger, and the addresses for requests and subscriptions.
-- The server for subscriptions is built first.
unfoldable pub serve_at :
    Sockets → SocketAddr → Ledger → Result Fault (Ledger × SocketAddr × SocketAddr)
serve_at sockets addr l = elim (subscription_addr addr) [
  | none ↦ err panicked
  | some second ↦
      unless (sockets.bind_addr second) (unless (sockets.bind_addr addr) (ok (l, addr, second)))
]

-- What follows `BokkenLedger::new`.
unfoldable pub serve :
    Sockets → CommandOptions → Result Fault Ledger → Result Fault (Ledger × SocketAddr × SocketAddr)
serve sockets opts (err e) = err e
serve sockets opts (ok l) = serve_at sockets (socket_addr opts.listen_addr opts.listen_port) l

module _ {Tx : Type 0} (env : Environment Tx) where
  unfoldable pub main :
      Sockets
      → Arguments
      → Directory
      → (old_index old_state : Result IoErrorKind Bytes)
      → Result Fault (Ledger × SocketAddr × SocketAddr)
  main sockets args directory old_index old_state =
      let opts = command_options args in
      unless (sockets.bind_path opts.socket_path)
        (serve sockets opts (open_ledger env directory old_index old_state (init_config opts)))
