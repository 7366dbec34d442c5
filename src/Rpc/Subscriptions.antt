-- ===== src/Rpc/Subscriptions.antt =====
-- The subscription to a signature and the two servers of rpc_endpoint.rs (`start_endpoint`).
use Prim.Native.String.{String}
use bokken.Prelude.{
  ℕ, ◌+◌, ◌^◌, ◌≡◌, ◌⊎◌, inl, inr, ap, ◌∙◌, Option, none, some, List, [], ◌∷◌, ◌++◌, Bytes, arith,
  length, ltb, ◌==◌, if◌then◌else◌,
}
use bokken.Prelude.Result.{ok, err}
use bokken.Prelude.Maps.{Map}
use bokken.Errors.{BokkenError, TransactionError}
use bokken.Account.{AccountData}
use bokken.LedgerFile.{SlotEntry, SlotEntryRaw, new_block}
use bokken.Ledger.{Ledger, Instruction, Environment}
use bokken.Ledger.Execution.{get_bokken_entry_by_tx}
use bokken.Ledger.Indexed.{Runs, block_made}
use bokken.Rpc.Encodings.{Encoding, spelled}
use bokken.Rpc.{Endpoint, send_transaction}
use bokken.Rpc.Statuses.{Accepted, send_transaction-found}

-- What becomes of a subscription: it is refused for its parameters, for a text that is no base58 or
-- for its length; the subscriber is notified; the task panics, or still looks.
pub data Subscription : Type 0 where
  bad_params bad_base58 bad_length : Subscription
  notified : (slot : ℕ) → Option TransactionError → Subscription
  panics : Subscription
  looks : Subscription

-- The port of the server for subscriptions; a sum that is too large for a `u16` panics.
unfoldable pub next_port : ℕ → Option ℕ
next_port port = if ltb (port + 1) (2 ^ 16) then some (port + 1) else none

module _ {Tx : Type 0} (env : Environment Tx) (rpc : Endpoint Tx) where
  -- The loop of the task, over the ledger as it is in each round. An error counts as not found.
  unfoldable pub watch_signature : ℕ → List Ledger → Subscription
  watch_signature sig [] = looks
  watch_signature sig (l ∷ ledgers) =
      let later = watch_signature sig ledgers in
      elim (get_bokken_entry_by_tx env sig l) [
        | none ↦ panics
        | some (err e) ↦ later
        | some (ok none) ↦ later
        | some (ok (some entry)) ↦ notified entry.slot entry.tx_error
      ]

  -- `signatureSubscribe`; the parameters are parsed by jsonrpsee.
  unfoldable pub signature_subscribe : Option String → List Ledger → Subscription
  signature_subscribe none ledgers = bad_params
  signature_subscribe (some text) ledgers = elim (rpc.codecs.decode_base58 text) [
    | none ↦ bad_base58
    | some sig ↦ if length sig == 64 then watch_signature (spelled 0 sig) ledgers else bad_length
  ]

  -- The ledger has no block for the signature, or fails to look it up.
  abbrev pub NotYet : ℕ → List Ledger → Type 0
  NotYet sig [] = Unit {0}
  NotYet sig (l ∷ ledgers) =
      ((get_bokken_entry_by_tx env sig l ≡ some (ok none))
        ⊎ (e : BokkenError) × (get_bokken_entry_by_tx env sig l ≡ some (err e)))
      × NotYet sig ledgers

  watch_signature_found :
      (sig : ℕ) (before : List Ledger) (l : Ledger) (later : List Ledger) (b : SlotEntry Tx)
      → NotYet sig before
      → get_bokken_entry_by_tx env sig l ≡ some (ok (some b))
      → watch_signature sig (before ++ l ∷ later) ≡ notified b.slot b.tx_error
  unfolding watch_signature
  watch_signature_found sig [] l later b n e = ground (arith, e)
  watch_signature_found sig (m ∷ before) l later b (inl nothing, n) e =
      let rest = watch_signature_found sig before l later b n e in ground (arith, nothing, rest)
  watch_signature_found sig (m ∷ before) l later b (inr (x, fails), n) e =
      let rest = watch_signature_found sig before l later b n e in ground (arith, fails, rest)

  subscribe_parsed :
      (text : String) (bytes : Bytes) (ledgers : List Ledger)
      → rpc.codecs.decode_base58 text ≡ some bytes
      → length bytes ≡ 64
      → signature_subscribe (some text) ledgers ≡ watch_signature (spelled 0 bytes) ledgers
  unfolding signature_subscribe
  subscribe_parsed text bytes ledgers parsed long = ground (arith, parsed, long)

  -- A text holds a transaction that is in order and that can be run, whose signature is new and has
  -- at most one smaller one before it in the index, what is written fits, and the disk takes it. A
  -- subscriber to that signature finds it in none of its rounds before the transaction is sent, and
  -- its next round sees the ledger exactly as the sending leaves it, with no other transaction
  -- between the two. Then the subscriber is notified: of the next slot, and of no error.
  pub signature_subscribe-sent :
      (text : String) (encoding : Option Encoding) (tx : Tx) (sig payer : ℕ)
      (ixs : List Instruction) (l : Ledger) (hd hd' : Bytes) (ss ss' : List Bytes)
      (es : List (ℕ × ℕ)) (bs : List (ℕ × SlotEntryRaw)) (r : Map AccountData × List String)
      (subscribed : String) (bytes : Bytes) (before later : List Ledger)
      → Accepted env rpc text encoding tx
      → Runs env tx sig payer ixs l hd hd' ss ss' es bs r
      → rpc.codecs.decode_base58 subscribed ≡ some bytes
      → length bytes ≡ 64
      → spelled 0 bytes ≡ sig
      → NotYet sig before
      → signature_subscribe
          (some subscribed)
          (before ++ (send_transaction env rpc text encoding l).1 ∷ later)
        ≡ notified (l.state.slot + 1) none
  unfolding new_block
  signature_subscribe-sent text encoding tx sig payer ixs l hd hd' ss ss' es bs r subscribed bytes
        before later accepted h parsed long same n =
      let found =
        send_transaction-found env rpc text encoding tx sig payer ixs l hd hd' ss ss' es bs r
          accepted h in
      let ledgers = before ++ (send_transaction env rpc text encoding l).1 ∷ later in
      let b = block_made env tx sig payer ixs l hd hd' ss ss' es bs r in
      subscribe_parsed subscribed bytes ledgers parsed long
      ∙ ap (λ k. watch_signature k ledgers) same
      ∙ watch_signature_found sig before (send_transaction env rpc text encoding l).1 later b n
          found
