-- ===== src/Rpc/Statuses.antt =====
-- A transaction that is sent to rpc_endpoint.rs and the status of its signature.
use Prim.Native.String.{String}
use bokken.Prelude.{
  arith, ℕ, ◌+◌, ◌≡◌, ap, ◌∙◌, true, Option, none, some, List, [], ◌∷◌, Bytes, get_elem?,
}
use bokken.Prelude.Result.{ok, ok_or}
use bokken.Prelude.Action.{Action, reads, pure, ◌>>=◌, ◌>>◌}
use bokken.Prelude.Maps.{Map}
use bokken.Account.{AccountData}
use bokken.LedgerFile.{SlotEntry, SlotEntryRaw, new_block}
use bokken.Ledger.{Fault, panicked, Ledger, Instruction, Environment, fault}
use bokken.Ledger.Execution.{execute_transaction, get_bokken_entry_by_tx}
use bokken.Ledger.Indexed.{
  Runs, block_made, bind_does, reads_does, new_index, new_state, execute_transaction-Runs,
  get_bokken_entry_by_tx-Runs,
}
use bokken.Rpc.Encodings.{Encoding, decode_signature}
use bokken.Rpc.{
  finalized_at, Endpoint, decode_transaction, send_transaction, statuses, get_signature_statuses,
}

module _ {Tx : Type 0} (env : Environment Tx) (rpc : Endpoint Tx) where
  -- A text that is a transaction, which is in order.
  pub record Accepted (text : String) (encoding : Option Encoding) (tx : Tx) : Type 0 where
    pub decoded : decode_transaction env rpc encoding text ≡ ok tx
    pub sane : rpc.sanitize tx ≡ ok tt
    pub verified : rpc.verify tx ≡ ok tt

  -- The status of a signature whose block is found.
  one_status :
      (status_text : String) (sig : ℕ) (b : SlotEntry Tx) (l : Ledger)
      → decode_signature rpc.codecs status_text ≡ ok sig
      → get_bokken_entry_by_tx env sig l ≡ some (ok (some b))
      → statuses env rpc (status_text ∷ []) l ≡ ok (some (finalized_at b.slot b.tx_error) ∷ [])
  unfolding statuses
  one_status status_text sig b l named finds = ground (arith, named, finds)

  status_of :
      (status_text : String) (sig : ℕ) (b : SlotEntry Tx) (l : Ledger)
      → decode_signature rpc.codecs status_text ≡ ok sig
      → get_bokken_entry_by_tx env sig l ≡ some (ok (some b))
      → get_signature_statuses env rpc (status_text ∷ []) l
        ≡ ok (record { slot = l.state.slot; value = some (finalized_at b.slot b.tx_error) ∷ [] })
  unfolding get_signature_statuses
  status_of status_text sig b l named finds =
      ground (arith, one_status status_text sig b l named finds)

  module _ (text : String) (encoding : Option Encoding) (tx : Tx) (sig payer : ℕ)
      (ixs : List Instruction) (l : Ledger) (hd hd' : Bytes) (ss ss' : List Bytes)
      (es : List (ℕ × ℕ)) (bs : List (ℕ × SlotEntryRaw)) (r : Map AccountData × List String)
      (accepted : Accepted text encoding tx)
      (h : Runs env tx sig payer ixs l hd hd' ss ss' es bs r) where
    sent :
        (t : Ledger) × (send_transaction env rpc text encoding l ≡ (
          ok (rpc.show_signature sig),
          record t {
            transaction_index = new_index env tx sig payer ixs l hd hd' ss ss' es bs r h;
            state = new_state env tx sig payer ixs l hd hd' ss ss' es bs r h;
          },
        ))
    unfolding send_transaction fault
    sent =
        let (t, runs) = execute_transaction-Runs env tx sig payer ixs l hd hd' ss ss' es bs r h in
        let to_run : Tx → ℕ → Action Ledger Fault String =
          λ x s. execute_transaction env x true >> pure (rpc.show_signature s) in
        let to_sign : Tx → Action Ledger Fault String =
          λ x. reads (λ _. ok_or (get_elem? (env.signatures x) 0) panicked) >>= to_run x in
        let to_verify : Tx → Action Ledger Fault String =
          λ x. reads (λ _. fault (rpc.verify x)) >> to_sign x in
        let to_check : Tx → Action Ledger Fault String =
          λ x. reads (λ _. fault (rpc.sanitize x)) >> to_verify x in
        (
          t,
          reads_does (fault (decode_transaction env rpc encoding text)) to_check l tx
                (ap fault accepted.decoded)
              ∙ reads_does (fault (rpc.sanitize tx)) (λ _. to_verify tx) l tt
                  (ap fault accepted.sane)
              ∙ reads_does (fault (rpc.verify tx)) (λ _. to_sign tx) l tt
                  (ap fault accepted.verified)
              ∙ reads_does (ok_or (get_elem? (env.signatures tx) 0) panicked) (to_run tx) l sig
                  (rw h.signed)
              ∙ bind_does (execute_transaction env tx true) (λ _. pure (rpc.show_signature sig)) l
                  tt _ runs,
        )

    -- The ledger behind it finds the block of the transaction.
    pub send_transaction-found :
        get_bokken_entry_by_tx env sig (send_transaction env rpc text encoding l).1
        ≡ some (ok (some (block_made env tx sig payer ixs l hd hd' ss ss' es bs r)))
    send_transaction-found =
        let (t, done) = sent in
        ap (λ q. get_bokken_entry_by_tx env sig q.1) done
        ∙ (get_bokken_entry_by_tx-Runs env tx sig payer ixs l hd hd' ss ss' es bs r h t).1

    -- A text holds a transaction that is in order and that can be run, whose signature is new and has
    -- at most one smaller one before it in the index, what is written fits, and the disk takes it.
    -- The text of the status request is the signature in 64 bytes. Then sending the transaction
    -- succeeds and returns its signature, and a request for the status of that signature behind it
    -- returns the slot that the ledger has then, which is the next one, and no error.
    pub send_transaction-statuses :
        (status_text : String)
        → decode_signature rpc.codecs status_text ≡ ok sig
        → let (reply, t) = send_transaction env rpc text encoding l in
          (reply ≡ ok (rpc.show_signature sig))
          × (get_signature_statuses env rpc (status_text ∷ []) t
              ≡ ok (record {
                slot = l.state.slot + 1;
                value = some (finalized_at (l.state.slot + 1) none) ∷ [];
              }))
    unfolding new_block
    send_transaction-statuses status_text named =
        let (t, done) = sent in
        let u : Ledger = record t {
          transaction_index = new_index env tx sig payer ixs l hd hd' ss ss' es bs r h;
          state = new_state env tx sig payer ixs l hd hd' ss ss' es bs r h;
        } in
        let (next, finds) =
          get_bokken_entry_by_tx-Runs env tx sig payer ixs l hd hd' ss ss' es bs r h t in
        let b = block_made env tx sig payer ixs l hd hd' ss ss' es bs r in
        (
          ap (λ q. q.0) done,
          ap (λ q. get_signature_statuses env rpc (status_text ∷ []) q.1) done
              ∙ status_of status_text sig b u named finds
              ∙ ap
                  (λ n.
                    ok (record { slot = n; value = some (finalized_at b.slot b.tx_error) ∷ [] }))
                  next,
        )
