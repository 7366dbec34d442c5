-- ===== src/Rpc/Simulating.antt =====
-- What the requests of rpc_endpoint.rs do to the ledger.
use Prim.Native.String.{String}
use bokken.Prelude.{ℕ, ◌≡◌, refl, false, Option, none, List, get_elem?, if◌then◌else◌}
use bokken.Prelude.Result.{Result, ok, err, ok_or}
use bokken.Prelude.Action.{Action, reads, ◌>>=◌, ◌>>◌}
use bokken.Prelude.Post.{by_result}
use bokken.Ledger.{Fault, panicked, Ledger, Instruction, only, Environment, fault}
use bokken.Ledger.Execution.{to_instructions, execute_instructions}
use bokken.Ledger.Commits.{Same, reads-Same, execute_instructions_dry}
use bokken.Rpc.{
  Reply, SimulateRequest, SimulateValue, Endpoint, default_request, or_else, decode_transaction,
  parse_keys, simulation_reply, run_simulation, simulate_transaction,
}

module _ {Tx : Type 0} (env : Environment Tx) (rpc : Endpoint Tx) where
  run_simulation-Same :
      (config : SimulateRequest) (keys : List ℕ) (tx : Tx) (l : Ledger)
      → Same l (run_simulation env rpc config keys tx l)
  unfolding run_simulation
  run_simulation-Same config keys tx l =
      let run : List Instruction → ℕ → Result Fault (Reply SimulateValue) × Ledger = λ ixs payer.
        let (r, t) = execute_instructions env payer ixs (only keys) none false l in
        (simulation_reply env rpc config.accounts_encoding keys t.state.slot r, t) in
      let first = ok_or (get_elem? (env.account_keys tx) 0) panicked in
      by_result (Same l) (ok_or (to_instructions env tx (env.instructions tx)) panicked)
        (λ e. (err e, l)) (λ ixs. elim first [ err e ↦ (err e, l) | ok payer ↦ run ixs payer ])
        (λ _ _. refl)
        (λ ixs _.
          by_result (Same l) first (λ e. (err e, l)) (run ixs) (λ _ _. refl)
            (λ payer _. execute_instructions_dry env payer ixs (only keys) none l))

  -- Whatever is asked to be simulated, and whatever comes out, the ledger stays as it is.
  pub simulate_transaction_dry :
      (text : String) (request : Option SimulateRequest) (l : Ledger)
      → (simulate_transaction env rpc text request l).1 ≡ l
  unfolding simulate_transaction
  simulate_transaction_dry text request l =
      let config = or_else default_request request in
      reads-Same (fault (parse_keys env rpc config.addresses)) (to_decode config) l (λ keys.
        reads-Same (fault (decode_transaction env rpc config.encoding text))
          (to_sanitize config keys) l
          (λ tx.
            reads-Same (fault (rpc.sanitize_message tx)) (λ _. to_verify config keys tx) l
              (λ _.
                reads-Same (if config.sig_verify then fault (rpc.verify tx) else ok tt)
                  (λ _. run_simulation env rpc config keys tx) l
                  (λ _. run_simulation-Same config keys tx l))))
    where
      to_verify : SimulateRequest → List ℕ → Tx → Action Ledger Fault (Reply SimulateValue)
      to_verify config keys tx =
          reads (λ _. if config.sig_verify then fault (rpc.verify tx) else ok tt)
          >> run_simulation env rpc config keys tx

      to_sanitize : SimulateRequest → List ℕ → Tx → Action Ledger Fault (Reply SimulateValue)
      to_sanitize config keys tx =
          reads (λ _. fault (rpc.sanitize_message tx)) >> to_verify config keys tx

      to_decode : SimulateRequest → List ℕ → Action Ledger Fault (Reply SimulateValue)
      to_decode config keys =
          reads (λ _. fault (decode_transaction env rpc config.encoding text))
          >>= to_sanitize config keys
