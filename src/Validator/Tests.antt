-- ===== src/Validator/Tests.antt =====
-- A concrete start of main.rs.
use bokken.Prelude.{ℕ, ◌≡◌, refl, none, some, [], arith}
use bokken.Prelude.Result.{ok}
use bokken.Ledger.{Environment, Ledger}
use bokken.Ledger.Opening.{created}
use bokken.Ledger.Sample.{quiet, account_back}
use bokken.Rpc.{or_else, get_balance}
use bokken.Rpc.Sample.{endpoint}
use bokken.Validator.{Sockets, Arguments, v4, socket_addr, main}
use bokken.Validator.Starting.{main-get_balance}

-- The sizes of the real files.
abbrev sized : Environment ℕ
sized = record quiet {
  block_format = record quiet.block_format { header_size = 16; identifier_size = 8 };
}

abbrev all_free : Sockets
all_free = record { bind_path = λ _. none; bind_addr = λ _. none }

abbrev only_mint : Arguments
only_mint = record {
  socket_path = none;
  save_path = none;
  listen_addr = none;
  listen_port = none;
  initial_mint_pubkey = some 7;
  initial_mint_lamports = none;
}

main-get_balance_example :
    (l : Ledger) × (main sized all_free only_mint created (ok []) (ok [])
      ≡ ok (l, v4 2130706433 8899, v4 2130706433 8900))
    × (get_balance sized endpoint "key" l ≡ ok (record { slot = 0; value = 500000000000000000 }))
unfolding or_else socket_addr
main-get_balance_example =
    main-get_balance sized endpoint all_free only_mint 7 "key" [] [] refl refl (omega arith) refl
      refl refl refl refl account_back
      (record { no_program = refl; no_clock = λ e. omega arith; no_rent = λ e. omega arith }) refl
