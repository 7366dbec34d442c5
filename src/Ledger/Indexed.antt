-- ===== src/Ledger/Indexed.antt =====
-- A transaction that is executed is found by its signature (debug_ledger.rs).
use Prim.Native.String.{String}
use bokken.Prelude.{
  ℕ, inl, inr, ◌+◌, ◌≤◌, ◌<◌, ◌≡◌, ◌≢◌, refl, ap, ◌∙◌, Bool, true, false, Option, none, some, List,
  [], ◌∷◌, ◌++◌, arith, Bytes, length, if◌then◌else◌, ◌==◌, get_elem?,
}
use bokken.Prelude.Result.{Result, ok, err, ok_or}
use bokken.Prelude.Action.{Action, reads, ◌>>=◌, ◌>>◌}
use bokken.Prelude.Maps.{Map}
use bokken.Errors.{BokkenError}
use bokken.Account.{AccountData}
use bokken.IndexFile.{IndexableFile}
use bokken.IndexFile
use bokken.IndexFile.Editing
use bokken.IndexFile.Layout.{◌!◌, keys, Stores}
use bokken.IndexFile.Lookup.{IsAscending, lookup}
use bokken.IndexFile.Slots.{Codable, slot_bytes}
use bokken.IndexFile.SortedMap.{insert_front}
use bokken.LedgerFile.{
  SlotEntry, SlotEntryRaw, LedgerFile, to_raw, new_block, append_new_block, read_block_at_slot,
}
use bokken.LedgerFile.Blocks.{Bincode, Chain, append_new_block-Chain, read-append_new_block}
use bokken.Ledger.{
  Fault, failed, panicked, Ledger, Instruction, nothing, all, Environment, take_fee, count_signers,
  chosen, fault,
}
use bokken.Ledger.Execution.{
  with_file, run_all, save_edited, gather, execute_instructions, to_instructions, index_transaction,
  record_block, execute_transaction, get_bokken_entry_by_tx,
}
use bokken.Ledger.Commits.{to_choose, to_save, to_run, to_charge}
use bokken.Ledger.Slots.{save_edited_keeps, save_edited_state, commit_of}
use bokken.Ledger.Predicting.{Ran, Ran-of, save_edited-Agree}

module _ {S E A B : Type 0} where
  -- A step whose outcome is known, and what follows it.
  pub bind_does :
      (m : Action S E A) (f : A → Action S E B) (s : S) (a : A) (t : S)
      → m s ≡ (ok a, t)
      → (m >>= f) s ≡ f a t
  bind_does m f s a t e =
      ap
        (λ (q : Result E A × S).
          let p : Result E B × S = elim q.0 [ ok b ↦ f b q.1 | err x ↦ (err x, q.1) ] in p)
        e

  pub reads_does :
      (r : Result E A) (f : A → Action S E B) (s : S) (a : A)
      → r ≡ ok a
      → (reads (λ _. r) >>= f) s ≡ f a s
  reads_does r f s a e = bind_does (reads (λ _. r)) f s a s (ap (λ z. (z, s)) e)

module _ {Tx : Type 0} (env : Environment Tx) where
  save_edited_index :
      (commit : Bool) (olds changed result : Map AccountData) (l : Ledger)
      → (save_edited env commit olds changed result l).1.transaction_index ≡ l.transaction_index
  unfolding with_file
  save_edited_index commit olds changed result l =
      save_edited_keeps env (λ m. m.transaction_index) (λ _ _ _. refl) commit olds changed result l

  -- The committed run of instructions that succeed when they are simulated.
  committed_run :
      (payer : ℕ) (ixs : List Instruction) (clock : Option (ℕ × ℕ)) (l : Ledger)
      (r : Map AccountData × List String) (ran : Ran env payer ixs clock l r)
      → ((key : ℕ) → env.refuses key l.state.slot ≡ none)
      → (t : Ledger) × (t.state ≡ l.state)
        × (t.transaction_index ≡ l.transaction_index)
        × (execute_instructions env payer ixs nothing clock true l ≡ (ok ([], r.1), t))
  unfolding execute_instructions chosen fault
  committed_run payer ixs clock l r ran takes =
      let q = save_edited env true ran.datas r.0 [] l in
      let value : q.0 ≡ ok ran.edited = elim (save_edited-Agree env ran.datas r.0 [] l l) [
        | inl same ↦ same ∙ ran.saves
        | inr (e, refused, (key, k, h, _)) ↦ absurd (cc (h, takes key))
      ] in
      (
        q.1,
        save_edited_state env true ran.datas r.0 [] l,
        save_edited_index true ran.datas r.0 [] l,
        reads_does (fault (gather env payer ixs clock l).0) (to_charge env payer ixs nothing true) l
              ran.datas (ap fault ran.gathers)
            ∙ reads_does (take_fee payer (count_signers payer ixs) ran.datas)
                (to_run env payer ixs nothing true ran.datas) l ran.charged ran.charges
            ∙ reads_does (run_all env 0 ixs [] ran.charged)
                (to_save env payer ixs nothing true ran.datas) l (r.1, r.0) ran.runs
            ∙ bind_does (save_edited env true ran.datas r.0 [])
                (to_choose env payer ixs nothing true r.1 r.0) l ran.edited q.1
                (ap (λ z. (z, q.1)) value),
      )

  module _ (tx : Tx) (sig payer : ℕ) (ixs : List Instruction) (l : Ledger) (hd hd' : Bytes)
      (ss ss' : List Bytes) (es : List (ℕ × ℕ)) (bs : List (ℕ × SlotEntryRaw))
      (r : Map AccountData × List String) where
    -- The block that the transaction makes.
    abbrev pub block_made : SlotEntry Tx
    block_made = new_block env.codec env.block_format env.now tx none none r.1 l.state

    -- The transaction can be run, the disk takes its files, the signature is new and has at most one smaller one before it in
    -- the index, and what is written fits.
    pub record Runs : Type 0 where
      pub compiled : to_instructions env tx (env.instructions tx) ≡ some ixs
      pub paid_by : get_elem? (env.account_keys tx) 0 ≡ some payer
      pub signed : get_elem? (env.signatures tx) 0 ≡ some sig
      pub simulated :
          (execute_instructions env payer ixs all (some (l.state.slot + 1, env.now)) false l).0
          ≡ ok r
      pub disk : (key : ℕ) → env.refuses key l.state.slot ≡ none
      pub indexes : Stores env.index_format l.transaction_index hd ss es
      pub ascending : IsAscending (keys es)
      pub unused : (j : ℕ) → j < length (keys es) → keys es ! j ≢ sig
      pub early : (j : ℕ) → 1 ≤ j → j < length (keys es) → sig < keys es ! j
      pub index_fits : Codable env.index_format l.transaction_index sig (l.state.slot + 1)
      pub chain : Chain env.codec env.block_format l.state hd' ss' bs
      pub block_fits :
          Codable env.block_format l.state.indexed_file
            (l.state.slot + 1)
            (to_raw env.codec block_made)
      pub bincode : Bincode env.codec

    module _ (h : Runs) where
      unfoldable pub new_index : IndexableFile
      new_index = (Editing.insert env.index_format sig (l.state.slot + 1) l.transaction_index).1

      unfoldable pub new_state : LedgerFile
      new_state = (append_new_block env.codec env.block_format env.now tx none none r.1 l.state).1

      inserted :
          ((Editing.insert env.index_format sig (l.state.slot + 1) l.transaction_index).0 ≡ ok none)
          × (IndexFile.get env.index_format new_index sig
              ≡ ok (if sig == sig then some (l.state.slot + 1) else lookup sig es))
      unfolding new_index
      inserted =
          insert_front env.index_format l.transaction_index hd ss es h.indexes h.ascending sig
            (l.state.slot + 1) h.index_fits h.unused sig h.early

      appended_block :
          let after =
            append_new_block env.codec env.block_format env.now tx none none r.1 l.state in
          (after.0 ≡ ok tt)
          × (after.1.slot ≡ l.state.slot + 1)
          × (Chain env.codec env.block_format after.1 hd'
              (ss'
                ++ slot_bytes env.block_format l.state.indexed_file
                    (l.state.slot + 1)
                    (to_raw env.codec block_made)
                  ∷ [])
              (bs ++ (l.state.slot + 1, to_raw env.codec block_made) ∷ []))
      appended_block =
          append_new_block-Chain env.codec env.block_format env.now tx none none r.1 l.state hd' ss'
            bs h.chain h.block_fits

      indexed :
          (t : Ledger)
          → t.transaction_index ≡ l.transaction_index
          → index_transaction env sig (l.state.slot + 1) t
            ≡ (ok tt, record t { transaction_index = new_index })
      unfolding index_transaction new_index
      indexed t e =
          let run : IndexableFile → Result BokkenError (Option ℕ) × IndexableFile =
            λ f. Editing.insert env.index_format sig (l.state.slot + 1) f in
          let finish : Result BokkenError (Option ℕ) × IndexableFile
              → Result Fault (Unit {0}) × Ledger =
            λ p. elim p.0 [
              | err x ↦ (err (failed x), record t { transaction_index = p.1 })
              | ok _ ↦ (ok tt, record t { transaction_index = p.1 })
            ] in
          ap (λ f. finish (run f)) e ∙ ap (λ z. finish (z, new_index)) inserted.0

      recorded :
          (t : Ledger)
          → t.state ≡ l.state
          → record_block env tx r.1 t ≡ (ok tt, record t { state = new_state })
      unfolding record_block new_state fault
      recorded t e =
          let run : LedgerFile → Result BokkenError (Unit {0}) × LedgerFile =
            λ s. append_new_block env.codec env.block_format env.now tx none none r.1 s in
          ap (λ s. (fault (run s).0, record t { state = (run s).1 })) e
          ∙ ap (λ z. (fault z, record t { state = new_state })) appended_block.0

      -- The transaction is executed.
      pub execute_transaction-Runs :
          (t : Ledger) × (execute_transaction env tx true l
            ≡ (ok tt, record t { transaction_index = new_index; state = new_state }))
      unfolding execute_transaction
      execute_transaction-Runs =
          let clock = some (l.state.slot + 1, env.now) in
          let (t, kept_state, kept_index, runs) =
            committed_run payer ixs clock l r (Ran-of env payer ixs clock l r h.simulated) h.disk in
          let u : Ledger = record t { transaction_index = new_index } in
          (
            t,
            reads_does (ok_or (to_instructions env tx (env.instructions tx)) panicked)
                  (λ ixs.
                    reads (λ _. ok_or (get_elem? (env.account_keys tx) 0) panicked) >>= λ payer.
                    execute_instructions env payer ixs nothing clock true >>= λ p.
                    commit_of env tx p.1 (l.state.slot + 1))
                  l ixs (rw h.compiled)
                ∙ reads_does (ok_or (get_elem? (env.account_keys tx) 0) panicked)
                    (λ payer. execute_instructions env payer ixs nothing clock true >>= λ p.
                      commit_of env tx p.1 (l.state.slot + 1))
                    l payer (rw h.paid_by)
                ∙ bind_does (execute_instructions env payer ixs nothing clock true)
                    (λ p. commit_of env tx p.1 (l.state.slot + 1)) l ([], r.1) t runs
                ∙ reads_does (ok_or (get_elem? (env.signatures tx) 0) panicked)
                    (λ signature.
                      index_transaction env signature (l.state.slot + 1) >> record_block env tx r.1)
                    t sig (rw h.signed)
                ∙ bind_does (index_transaction env sig (l.state.slot + 1))
                    (λ _. record_block env tx r.1) t tt u (indexed t kept_index)
                ∙ recorded u kept_state,
          )

      slot_found : IndexFile.get env.index_format new_index sig ≡ ok (some (l.state.slot + 1))
      slot_found =
          let here : (if sig == sig then some (l.state.slot + 1) else lookup sig es)
              ≡ some (l.state.slot + 1) =
            ground arith in
          inserted.1 ∙ ap ok here

      block_found :
          read_block_at_slot env.codec env.block_format (l.state.slot + 1) new_state
          ≡ some (ok (some block_made))
      unfolding new_state
      block_found =
          let here : (if l.state.slot + 1 == l.state.slot + 1
                then some (ok (some block_made))
                else read_block_at_slot env.codec env.block_format (l.state.slot + 1) l.state)
              ≡ some (ok (some block_made)) =
            ground arith in
          read-append_new_block env.codec env.block_format env.now tx none none r.1 l.state hd' ss'
            bs h.chain (l.state.slot + 1) h.bincode h.block_fits
          ∙ here

      -- The ledger is one slot further, and finds the block under the signature.
      pub get_bokken_entry_by_tx-Runs :
          (t : Ledger)
          → let u : Ledger = record t { transaction_index = new_index; state = new_state } in
            (u.state.slot ≡ l.state.slot + 1)
            × (get_bokken_entry_by_tx env sig u ≡ some (ok (some block_made)))
      unfolding get_bokken_entry_by_tx new_state
      get_bokken_entry_by_tx-Runs t =
          let at_slot : Result BokkenError (Option ℕ)
              → Option (Result BokkenError (Option (SlotEntry Tx))) =
            λ z. elim z [
              | err x ↦ some (err x)
              | ok found ↦ elim found [
                | none ↦ some (ok none)
                | some tx_slot ↦ read_block_at_slot env.codec env.block_format tx_slot new_state
              ]
            ] in
          (appended_block.1, ap at_slot slot_found ∙ block_found)
