-- ===== src/Rpc/Sessions.antt =====
-- What a sequence of requests (rpc_endpoint.rs) does to the ledger.
use Prim.Native.String.{String}
use bokken.Prelude.{ℕ, ◌+◌, ◌≡◌, refl, sym, ap, ◌∙◌, true, Option, List, [], ◌∷◌, arith, get_elem?}
use bokken.Prelude.Result.{Result, ok, err, ok_or}
use bokken.Prelude.Action.{Action, reads, pure, ◌>>=◌, ◌>>◌}
use bokken.Prelude.Post.{Post, PostOf, reads_all}
use bokken.Ledger.{Fault, panicked, Ledger, Environment, fault}
use bokken.Ledger.Execution.{execute_transaction}
use bokken.Ledger.Counting.{Counted, successes, execute_transaction-Counted}
use bokken.Rpc.Encodings.{Encoding}
use bokken.Rpc.{or_else, Endpoint, get_block_height, decode_transaction, send_transaction}
use bokken.Rpc.Requests.{
  Request, account_info_of, balance_of, block_height_of, latest_blockhash_of, min_balance_of,
  signature_statuses_of, version_of, send_of, simulate_of, Response, account_info, balance,
  signature_statuses, sent, simulated, respond, call, session, send_default,
}
use bokken.Rpc.Simulating.{simulate_transaction_dry}

-- Whether a response is the signature of a transaction.
abbrev pub is_sent : Result Fault Response → ℕ
is_sent (ok (sent _)) = 1
is_sent _ = 0

-- The transactions that have been accepted.
abbrev pub accepted : List (Result Fault Response) → ℕ
accepted [] = 0
accepted (r ∷ rs) = is_sent r + accepted rs

-- Any method but sendTransaction.
abbrev pub IsRead : Request → Type 0
IsRead (send_of _ _) = ⊥
IsRead _ = Unit {0}

abbrev pub OnlyReads : List Request → Type 0
OnlyReads [] = Unit {0}
OnlyReads (request ∷ requests) = IsRead request × OnlyReads requests

-- A response of another kind is no signature.
answers_none :
    {A : Type 0} (f : A → Response) (r : Result Fault A)
    → ((a : A) → is_sent (ok (f a)) ≡ 0)
    → is_sent (respond f r) ≡ 0
unfolding respond
answers_none f (ok a) h = h a
answers_none f (err e) h = refl

answers_sent : (r : Result Fault String) → is_sent (respond sent r) ≡ successes r
unfolding respond
answers_sent (ok a) = refl
answers_sent (err e) = refl

Counted-post :
    {A : Type 0} (l : Ledger) (q : Result Fault A × Ledger)
    → Counted l q
    → PostOf q (λ _ t. t.state.slot ≡ l.state.slot + 1)
Counted-post l (ok a, t) h = h
Counted-post l (err e, t) h = tt

module _ {Tx : Type 0} (env : Environment Tx) (rpc : Endpoint Tx) where
  send_transaction-Counted :
      (text : String) (encoding : Option Encoding) (l : Ledger)
      → Counted l (send_transaction env rpc text encoding l)
  unfolding send_transaction
  send_transaction-Counted text encoding l =
      reads_all (fault (decode_transaction env rpc encoding text)) to_check l (Counted l)
        (λ _. failing)
        (λ tx.
          reads_all (fault (rpc.sanitize tx)) (λ _. to_verify tx) l (Counted l) (λ _. failing)
            (λ _.
              reads_all (fault (rpc.verify tx)) (λ _. to_sign tx) l (Counted l) (λ _. failing)
                (λ _.
                  reads_all (ok_or (get_elem? (env.signatures tx) 0) panicked) (to_run tx) l
                    (Counted l) (λ _. failing)
                    (λ signature.
                      run_of signature (execute_transaction env tx true l)
                        (execute_transaction-Counted env tx l)))))
    where
      failing : l.state.slot ≡ l.state.slot + 0
      failing = omega arith

      to_run : Tx → ℕ → Action Ledger Fault String
      to_run tx signature = execute_transaction env tx true >> pure (rpc.show_signature signature)

      run_of :
          (signature : ℕ) (q : Result Fault (Unit {0}) × Ledger)
          → Counted l q
          → Counted l (
              let p : Result Fault String × Ledger = elim q.0 [
                | ok _ ↦ (ok (rpc.show_signature signature), q.1)
                | err e ↦ (err e, q.1)
              ] in
              p)
      run_of signature (ok _, t) h = h
      run_of signature (err e, t) h = h

      to_sign : Tx → Action Ledger Fault String
      to_sign tx = reads (λ _. ok_or (get_elem? (env.signatures tx) 0) panicked) >>= to_run tx

      to_verify : Tx → Action Ledger Fault String
      to_verify tx = reads (λ _. fault (rpc.verify tx)) >> to_sign tx

      to_check : Tx → Action Ledger Fault String
      to_check tx = reads (λ _. fault (rpc.sanitize tx)) >> to_verify tx

  -- A transaction that is sent and accepted takes the block height up by one.
  send_transaction_height :
      (text : String) (encoding : Option Encoding) (l : Ledger)
      → Post
          (send_transaction env rpc text encoding)
          l
          (λ _ t. get_block_height env rpc t ≡ get_block_height env rpc l + 1)
  unfolding get_block_height
  send_transaction_height text encoding l =
      Counted-post l (send_transaction env rpc text encoding l)
        (send_transaction-Counted text encoding l)

  -- A request that leaves the ledger and does not return a signature.
  abbrev Reads : Ledger → Result Fault Response × Ledger → Type 0
  Reads l q = (q.1 ≡ l) × (is_sent q.0 ≡ 0)

  call-Reads : (request : Request) (l : Ledger) → IsRead request → Reads l (call env rpc request l)
  unfolding call
  call-Reads (account_info_of text config) l _ = (refl, answers_none account_info _ (λ _. refl))
  call-Reads (balance_of text config) l _ = (refl, answers_none balance _ (λ _. refl))
  call-Reads (block_height_of config) l _ = (refl, refl)
  call-Reads (latest_blockhash_of config) l _ = (refl, refl)
  call-Reads (min_balance_of size config) l _ = (refl, refl)
  call-Reads (signature_statuses_of texts config) l _ =
      (refl, answers_none signature_statuses _ (λ _. refl))
  call-Reads version_of l _ = (refl, refl)
  call-Reads (send_of text config) l h = absurd h
  call-Reads (simulate_of text config) l _ =
      (simulate_transaction_dry env rpc text config l, answers_none simulated _ (λ _. refl))

  read_height :
      (l : Ledger) (q : Result Fault Response × Ledger)
      → Reads l q
      → q.1.state.slot ≡ l.state.slot + is_sent q.0
  read_height l q (same, none_sent) = ap (λ t. t.state.slot) same ∙ omega (arith, none_sent)

  call_height :
      (request : Request) (l : Ledger)
      → (call env rpc request l).1.state.slot ≡ l.state.slot + is_sent (call env rpc request l).0
  unfolding call
  call_height (send_of text config) l =
      let q = send_transaction env rpc text (or_else send_default config).encoding l in
      send_transaction-Counted text (or_else send_default config).encoding l
      ∙ ap (λ n. l.state.slot + n) (sym (answers_sent q.0))
  call_height request l = read_height l (call env rpc request l) (call-Reads request l tt)

  -- After any requests, in whatever order and whatever becomes of each, the block height has grown
  -- by the number of transactions that were answered with their signature.
  pub session_height :
      (requests : List Request) (l : Ledger)
      → get_block_height env rpc (session env rpc requests l).1
        ≡ get_block_height env rpc l + accepted (session env rpc requests l).0
  unfolding session get_block_height
  session_height [] l = omega arith
  session_height (request ∷ requests) l =
      let rest = session_height requests (call env rpc request l).1 in
      omega (arith, rest, call_height request l)

  -- Requests without sendTransaction leave the ledger as it is, and none is answered with a signature.
  pub session_reads :
      (requests : List Request) (l : Ledger)
      → OnlyReads requests
      → ((session env rpc requests l).1 ≡ l) × (accepted (session env rpc requests l).0 ≡ 0)
  unfolding session
  session_reads [] l h = (refl, refl)
  session_reads (request ∷ requests) l (first, later) =
      let (same, unsent) = call-Reads request l first in
      let (rest, none_sent) = session_reads requests (call env rpc request l).1 later in
      (rest ∙ same, omega (arith, unsent, none_sent))
