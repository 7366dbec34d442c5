-- ===== src/Validator/Starting.antt =====
-- What main.rs starts.
use Prim.Native.String.{String}
use bokken.Prelude.{ℕ, ◌+◌, ◌<◌, ◌^◌, ◌≡◌, ap, ◌∙◌, none, some, Bytes, arith}
use bokken.Prelude.Result.{ok}
use bokken.Account.{AccountData, default_account}
use bokken.Ledger.{Ledger, Environment}
use bokken.Ledger.Execution.{read_account}
use bokken.Ledger.Opening.{created, open_ledger}
use bokken.Ledger.Opened.{open_ledger-mint}
use bokken.Ledger.Accounts.{IsStored}
use bokken.Rpc.{Endpoint, or_else, get_balance}
use bokken.Rpc.Subscriptions.{next_port}
use bokken.Validator.{
  IpAddr, ip_v4, ip_v6, Arguments, command_options, init_config, socket_addr, subscription_addr,
  Sockets, unless, serve_at, serve, main,
}

subscription_addr-next :
    (addr : IpAddr) (port : ℕ)
    → port + 1 < 2 ^ 16
    → subscription_addr (socket_addr addr port) ≡ some (socket_addr addr (port + 1))
unfolding subscription_addr socket_addr next_port
subscription_addr-next (ip_v4 a) port small = ground (arith, small)
subscription_addr-next (ip_v6 a) port small = ground (arith, small)

serve_at-next :
    (sockets : Sockets) (addr : IpAddr) (port : ℕ) (l : Ledger)
    → port + 1 < 2 ^ 16
    → sockets.bind_addr (socket_addr addr (port + 1)) ≡ none
    → sockets.bind_addr (socket_addr addr port) ≡ none
    → serve_at sockets (socket_addr addr port) l
      ≡ ok (l, socket_addr addr port, socket_addr addr (port + 1))
unfolding serve_at unless
serve_at-next sockets addr port l small second first =
    ground (arith, subscription_addr-next addr port small, second, first)

-- The port and the lamports that the arguments come to.
abbrev pub port_of : Arguments → ℕ
port_of args = or_else 8899 args.listen_port

abbrev pub addr_of : Arguments → IpAddr
addr_of args = or_else (ip_v4 2130706433) args.listen_addr

abbrev pub minted : Arguments → ℕ
minted args = or_else 500000000000000000 args.initial_mint_lamports

module _ {Tx : Type 0} (env : Environment Tx) (rpc : Endpoint Tx) where
  balance_of :
      (text : String) (key : ℕ) (a : AccountData) (l : Ledger)
      → rpc.parse_key text ≡ ok key
      → read_account env key none l ≡ ok a
      → get_balance env rpc text l ≡ ok (record { slot = l.state.slot; value = a.lamports })
  unfolding get_balance
  balance_of text key a l parsed read = ground (arith, parsed, read)

  -- In a new directory whose two files can be opened, with the sizes of the header and the
  -- identifiers that the code gives, where the decoder reads what the encoder wrote, the key to mint
  -- is neither a program nor a system variable and the disk takes the file of its account: the start
  -- succeeds if the port is below 65535 and the path and the two addresses can be bound, listens for
  -- subscriptions one port above that for requests, and a request for the balance of the key then
  -- returns the lamports of the arguments, or 500000000000000000.
  pub main-get_balance :
      (sockets : Sockets) (args : Arguments) (mint : ℕ) (text : String)
      (old_index old_state : Bytes)
      → args.initial_mint_pubkey ≡ some mint
      → rpc.parse_key text ≡ ok mint
      → port_of args + 1 < 2 ^ 16
      → sockets.bind_path (or_else "bokken.sock" args.socket_path) ≡ none
      → sockets.bind_addr (socket_addr (addr_of args) (port_of args + 1)) ≡ none
      → sockets.bind_addr (socket_addr (addr_of args) (port_of args)) ≡ none
      → env.block_format.header_size ≡ 16
      → env.block_format.identifier_size ≡ 8
      → ((b : AccountData) → env.decode_account (env.encode_account b) ≡ some b)
      → IsStored env mint
      → env.refuses mint 0 ≡ none
      → (l : Ledger) × (main env sockets args created (ok old_index) (ok old_state)
          ≡ ok (
            l,
            socket_addr (addr_of args) (port_of args),
            socket_addr (addr_of args) (port_of args + 1),
          ))
        × (get_balance env rpc text l ≡ ok (record { slot = 0; value = minted args }))
  unfolding main serve command_options init_config unless
  main-get_balance sockets args mint text old_index old_state given parsed small free second first h
        i back stored takes =
      let (_, l, opens, slot, read) =
        open_ledger-mint env mint (minted args) old_index old_state h i back stored takes in
      let opts = command_options args in
      let config : init_config opts ≡ some (mint, minted args) = ground (arith, given) in
      (
        l,
        ap
              (λ b. unless b (
                serve sockets opts
                  (open_ledger env created (ok old_index) (ok old_state) (init_config opts))))
              free
            ∙ ap (λ c. serve sockets opts (open_ledger env created (ok old_index) (ok old_state) c))
                config
            ∙ ap (serve sockets opts) opens
            ∙ serve_at-next sockets (addr_of args) (port_of args) l small second first,
        balance_of text mint (record default_account { lamports = minted args }) l parsed read
            ∙ ap (λ n. ok (record { slot = n; value = minted args })) slot,
      )
