-- ===== src/Ledger/Counting.antt =====
-- The slot of a ledger (debug_ledger.rs) after a transaction, also after one that fails.
use Prim.Native.String.{String}
use bokken.Prelude.{
  ℕ, ◌+◌, ◌≡◌, refl, ap, ◌∙◌, subst, true, Bool, Option, none, some, List, [], get_elem?, arith,
}
use bokken.Prelude.Result.{Result, ok, err, ok_or}
use bokken.Prelude.Action.{Action, reads, pure, ◌>>=◌, ◌>>◌}
use bokken.Prelude.Post.{reads_all, bind_all}
use bokken.Prelude.Maps.{Map}
use bokken.Errors.{BokkenError}
use bokken.Account.{AccountData}
use bokken.IndexFile.{IndexableFile}
use bokken.IndexFile.Editing
use bokken.LedgerFile.{after_append, append_new_block, new_block, to_raw}
use bokken.Ledger.{
  Fault, failed, panicked, Ledger, Instruction, ReturnChoice, nothing, Environment, take_fee,
  count_signers, chosen, fault,
}
use bokken.Ledger.Execution.{
  gather, run_all, save_edited, execute_instructions, to_instructions, index_transaction,
  record_block, execute_transaction,
}
use bokken.Ledger.Commits.{to_choose, to_save, to_run, to_charge}
use bokken.Ledger.Slots.{save_edited_state, commit_of}

-- One for a success and none for a fault.
abbrev pub successes : {A : Type 0} → Result Fault A → ℕ
successes (ok a) = 1
successes (err e) = 0

-- The slot has grown by one if the action has succeeded, and is the same if it has failed.
abbrev pub Counted : {A : Type 0} → Ledger → Result Fault A × Ledger → Type 0
Counted l q = q.1.state.slot ≡ l.state.slot + successes q.0

abbrev pub StateKept : {A : Type 0} → Ledger → Result Fault A × Ledger → Type 0
StateKept l q = q.1.state ≡ l.state

-- What a fault that keeps the state comes to.
slot_kept : (l t : Ledger) → t.state ≡ l.state → t.state.slot ≡ l.state.slot + 0
slot_kept l t same = ap (λ s. s.slot) same ∙ omega arith

module _ {Tx : Type 0} (env : Environment Tx) where
  execute_instructions-StateKept :
      (fee_payer : ℕ) (ixs : List Instruction) (choice : ReturnChoice) (clock : Option (ℕ × ℕ))
      (commit : Bool) (l : Ledger)
      → StateKept l (execute_instructions env fee_payer ixs choice clock commit l)
  unfolding execute_instructions
  execute_instructions-StateKept fee_payer ixs choice clock commit l =
      let Q : Result Fault (Map AccountData × List String) × Ledger → Type 0 =
        λ q. q.1.state ≡ l.state in
      reads_all (fault (gather env fee_payer ixs clock l).0)
        (to_charge env fee_payer ixs choice commit) l Q (λ _. refl)
        (λ datas.
          reads_all (take_fee fee_payer (count_signers fee_payer ixs) datas)
            (to_run env fee_payer ixs choice commit datas) l Q (λ _. refl)
            (λ charged.
              reads_all (run_all env 0 ixs [] charged)
                (to_save env fee_payer ixs choice commit datas) l Q (λ _. refl)
                (λ p.
                  bind_all (save_edited env commit datas p.1 [])
                    (to_choose env fee_payer ixs choice commit p.0 p.1) l (λ t. t.state ≡ l.state) Q
                    (save_edited_state env commit datas p.1 [] l) (λ _ t e. e)
                    (λ es t e.
                      reads_all (chosen choice p.1 es) (λ result. pure (result, p.0)) t Q (λ _. e)
                        (λ _. e)))))

  index_transaction-StateKept :
      (signature slot : ℕ) (l : Ledger) → StateKept l (index_transaction env signature slot l)
  unfolding index_transaction
  index_transaction-StateKept signature slot l =
      indexed (Editing.insert env.index_format signature slot l.transaction_index)
    where
      indexed :
          (p : Result BokkenError (Option ℕ) × IndexableFile)
          → StateKept l (
              let q : Result Fault (Unit {0}) × Ledger = elim p.0 [
                | err e ↦ (err (failed e), record l { transaction_index = p.1 })
                | ok _ ↦ (ok tt, record l { transaction_index = p.1 })
              ] in
              q)
      indexed (ok o, f) = refl
      indexed (err e, f) = refl

  record_block-Counted :
      (tx : Tx) (logs : List String) (l : Ledger) → Counted l (record_block env tx logs l)
  unfolding record_block append_new_block after_append fault
  record_block-Counted tx logs l =
      let block = new_block env.codec env.block_format env.now tx none none logs l.state in
      recorded (
        Editing.append env.block_format (l.state.slot + 1) (to_raw env.codec block)
          l.state.indexed_file)
    where
      recorded :
          (p : Result BokkenError (Unit {0}) × IndexableFile)
          → Counted l (
              let q : Result Fault (Unit {0}) × Ledger = (
                fault (after_append env.codec env.block_format l.state p).0,
                record l { state = (after_append env.codec env.block_format l.state p).1 },
              ) in
              q)
      recorded (ok _, f) = refl
      recorded (err e, f) = omega arith

  commit_of-Counted :
      (tx : Tx) (logs : List String) (slot : ℕ) (l : Ledger)
      → Counted l (commit_of env tx logs slot l)
  commit_of-Counted tx logs slot l =
      reads_all (ok_or (get_elem? (env.signatures tx) 0) panicked)
        (λ signature. index_transaction env signature slot >> record_block env tx logs) l
        (Counted l) (λ _. slot_kept l l refl)
        (λ signature.
          bind_all (index_transaction env signature slot) (λ _. record_block env tx logs) l
            (λ t. t.state ≡ l.state) (Counted l) (index_transaction-StateKept signature slot l)
            (λ _. slot_kept l)
            (λ _ t same.
              subst
                (λ s.
                  (record_block env tx logs t).1.state.slot
                  ≡ s.slot + successes (record_block env tx logs t).0)
                same (record_block-Counted tx logs t)))

  -- A committed transaction takes the slot up by one if it succeeds, and leaves it if it fails.
  pub execute_transaction-Counted :
      (tx : Tx) (l : Ledger) → Counted l (execute_transaction env tx true l)
  unfolding execute_transaction
  execute_transaction-Counted tx l =
      let clock = some (l.state.slot + 1, env.now) in
      let next : ℕ → List Instruction → Action Ledger Fault (Unit {0}) = λ payer ixs.
        execute_instructions env payer ixs nothing clock true >>= λ p.
        commit_of env tx p.1 (l.state.slot + 1) in
      reads_all (ok_or (to_instructions env tx (env.instructions tx)) panicked)
        (λ ixs. reads (λ _. ok_or (get_elem? (env.account_keys tx) 0) panicked) >>= λ payer.
          next payer ixs)
        l (Counted l) (λ _. slot_kept l l refl)
        (λ ixs.
          reads_all (ok_or (get_elem? (env.account_keys tx) 0) panicked) (λ payer. next payer ixs) l
            (Counted l) (λ _. slot_kept l l refl)
            (λ payer.
              bind_all (execute_instructions env payer ixs nothing clock true)
                (λ p. commit_of env tx p.1 (l.state.slot + 1)) l (λ t. t.state ≡ l.state)
                (Counted l) (execute_instructions-StateKept payer ixs nothing clock true l)
                (λ _. slot_kept l)
                (λ p t same.
                  subst
                    (λ s.
                      (commit_of env tx p.1 (l.state.slot + 1) t).1.state.slot
                      ≡ s.slot + successes (commit_of env tx p.1 (l.state.slot + 1) t).0)
                    same (commit_of-Counted tx p.1 (l.state.slot + 1) t))))
