-- ===== src/Ledger/Committed.antt =====
-- The accounts on disk after instructions and transactions are committed (debug_ledger.rs).
use Prim.Native.String.{String}
use bokken.Prelude.{
  ℕ, ◌+◌, ◌≡◌, refl, sym, ap, ◌∙◌, subst, subst⁻¹, true, false, Option, none, some, List, [], ◌∷◌,
  Bytes, ◌==◌, get_elem?,
}
use bokken.Prelude.Result.{Result, ok, err, ok_or}
use bokken.Prelude.Action.{Action, reads, ◌>>=◌, ◌>>◌}
use bokken.Prelude.Post.{Post, PostOf, OkOf, bind_post, by_bool, by_if, by_result, post_map}
use bokken.Prelude.Maps.{Map, get, insert, get-insert, Unique, contains_key}
use bokken.Errors.{BokkenError}
use bokken.Account.{AccountData, AccountMeta}
use bokken.IndexFile.{IndexableFile}
use bokken.IndexFile.Editing
use bokken.Ledger.{
  Fault, failed, panicked, Ledger, Instruction, ReturnChoice, nothing, all, Environment, all_metas,
}
use bokken.Ledger.Execution.{
  read_files, files, read_account, read_metas, gather, execute_instructions, to_instructions,
  index_transaction, record_block, execute_transaction,
}
use bokken.Ledger.Accounts.{NotNewer, IsStored, read_stored}
use bokken.Ledger.Gathering.{gather-Unique}
use bokken.Ledger.Slots.{reads_then, post_of, commit_of}
use bokken.Ledger.Saving.{==→≡, ReadsBack, Reads, save_edited-Reads}
use bokken.Ledger.Predicting.{Ran, Ran-of, Ran-post, reads_known}

-- A read, with what it has read.
read-OkOf :
    {S E A B : Type 0} (P : B → Type 0) (r : Result E A) (k : A → Action S E B) (s : S)
    → ((a : A) → r ≡ ok a → OkOf P (k a s).0)
    → OkOf P ((reads (λ _. r) >>= k) s).0
read-OkOf P (ok a) k s h = h a refl
read-OkOf P (err e) k s h = tt

module _ {Tx : Type 0} (env : Environment Tx) (clock : Option (ℕ × ℕ)) (l : Ledger) where
  -- Every account of the map is what is read from the ledger.
  AreRead : Map AccountData → Type 0
  AreRead datas =
      (k : ℕ) (a : AccountData) → get k datas ≡ some a → read_account env k clock l ≡ ok a

  insert-AreRead :
      (k : ℕ) (a : AccountData) (datas : Map AccountData)
      → read_account env k clock l ≡ ok a
      → AreRead datas
      → AreRead (insert k a datas)
  unfolding AreRead
  insert-AreRead k a datas read h j b e =
      by_if (λ o. o ≡ some b → read_account env j clock l ≡ ok b) (k == j) (some a) (get j datas)
        (λ here same.
          subst (λ x. read_account env x clock l ≡ ok b) (==→≡ k j here) (read ∙ ap ok (cc same)))
        (λ _. h j b) (sym (get-insert j k a datas) ∙ e)

  read_metas-AreRead :
      (metas : List AccountMeta) (datas : Map AccountData)
      → AreRead datas
      → OkOf AreRead (read_metas env clock l metas datas)
  unfolding read_metas
  read_metas-AreRead [] datas h = h
  read_metas-AreRead (meta ∷ metas) datas h =
      by_bool (OkOf AreRead) (contains_key meta.pubkey datas) (read_metas env clock l metas datas) _
        (λ _. read_metas-AreRead metas datas h)
        (λ _.
          by_result (OkOf AreRead) (read_account env meta.pubkey clock l) err
            (λ account. read_metas env clock l metas (insert meta.pubkey account datas)) (λ _ _. tt)
            (λ account e.
              read_metas-AreRead metas (insert meta.pubkey account datas)
                (insert-AreRead meta.pubkey account datas e h)))

  gather-AreRead :
      (payer : ℕ) (ixs : List Instruction) → OkOf AreRead (gather env payer ixs clock l).0
  unfolding gather AreRead get
  gather-AreRead payer ixs =
      let named : AccountData → AccountData → AccountData → Map AccountData =
        λ p r c. insert env.clock_id c (insert env.rent_id r (insert payer p [])) in
      let finish : AccountData
          → AccountData
          → AccountData
          → Action Ledger BokkenError (Map AccountData) =
        λ p r c. reads (λ m. read_metas env clock m (all_metas ixs) (named p r c)) in
      let nothing_read : AreRead [] = λ k a e. absurd (cc e) in
      read-OkOf AreRead (read_account env payer clock l)
        (λ p. reads (read_account env env.rent_id clock) >>= λ r.
          reads (read_account env env.clock_id clock) >>= finish p r)
        l
        (λ p e.
          let one = insert-AreRead payer p [] e nothing_read in
          read-OkOf AreRead (read_account env env.rent_id clock l)
            (λ r. reads (read_account env env.clock_id clock) >>= finish p r) l
            (λ r f.
              let two = insert-AreRead env.rent_id r (insert payer p []) f one in
              read-OkOf AreRead (read_account env env.clock_id clock l) (finish p r) l (λ c g.
                read_metas-AreRead (all_metas ixs) (named p r c) (
                  insert-AreRead env.clock_id c (insert env.rent_id r (insert payer p [])) g two))))

module _ {Tx : Type 0} (env : Environment Tx) (k : ℕ)
    (back : (b : AccountData) → env.decode_account (env.encode_account b) ≡ some b)
    (stored : IsStored env k) where
  -- A committed run whose steps are known.
  Ran-Reads :
      (payer : ℕ) (ixs : List Instruction) (choice : ReturnChoice) (clock : Option (ℕ × ℕ))
      (l : Ledger) (r : Map AccountData × List String) (ran : Ran env payer ixs clock l r)
      (old : AccountData)
      → NotNewer l.state.slot (files env k l)
      → get k ran.datas ≡ some old
      → Post
          (execute_instructions env payer ixs choice clock true)
          l
          (λ _ t. ReadsBack (read_account env k none t) (get k r.0))
  unfolding AreRead
  Ran-Reads payer ixs choice clock l r ran old new e =
      let unique = subst (OkOf Unique) ran.gathers (gather-Unique env payer ixs clock l) in
      let are_read =
        subst (OkOf (AreRead env clock l)) ran.gathers (gather-AreRead env clock l payer ixs) in
      let read : read_account env k none l ≡ ok old =
        read_stored env k none l stored
        ∙ sym (read_stored env k clock l stored)
        ∙ are_read k old e in
      Ran-post env payer ixs choice clock l r ran (Reads env k back stored r.0)
        (λ _ t. ReadsBack (read_account env k none t) (get k r.0))
        (save_edited-Reads env k back stored old ran.datas r.0 [] l unique e read new)
        (λ _ _ _ h. h)

  same_accounts :
      (l t : Ledger)
      → t.accounts ≡ l.accounts
      → read_account env k none t ≡ read_account env k none l
  unfolding files
  same_accounts l t e =
      read_stored env k none t stored
      ∙ ap
          (λ m.
            read_files env
              (elim (get {V = Map Bytes} k m) as (λ _. Map Bytes) [ none ↦ [] | some fs ↦ fs ]))
          e
      ∙ sym (read_stored env k none l stored)

  indexed_accounts :
      (signature slot : ℕ) (l : Ledger)
      → Post (index_transaction env signature slot) l (λ _ t. t.accounts ≡ l.accounts)
  unfolding index_transaction
  indexed_accounts signature slot l =
      by_result_at (Editing.insert env.index_format signature slot l.transaction_index)
    where
      by_result_at :
          (p : Result BokkenError (Option ℕ) × IndexableFile)
          → PostOf
              (let q : Result Fault (Unit {0}) × Ledger = elim p.0 [
                | err e ↦ (err (failed e), record l { transaction_index = p.1 })
                | ok _ ↦ (ok tt, record l { transaction_index = p.1 })
              ] in
                q)
              (λ _ t. t.accounts ≡ l.accounts)
      by_result_at (ok o, f) = refl
      by_result_at (err e, f) = tt

  recorded_accounts :
      (tx : Tx) (logs : List String) (l : Ledger)
      → Post (record_block env tx logs) l (λ _ t. t.accounts ≡ l.accounts)
  unfolding record_block
  recorded_accounts tx logs l =
      post_of (record_block env tx logs l) (λ (_ : Unit {0}) t. t.accounts ≡ l.accounts) (λ _. refl)

  -- Where the decoder reads what the encoder wrote: let a key that is neither a program nor a system
  -- variable, with no file newer than the slot of the ledger, be among the accounts that a
  -- transaction's run gathers, and let the simulated run, with the clock of the next slot, return a
  -- map of accounts. If the transaction is then committed and succeeds, the account that is read
  -- from the disk is that of the map, or the default account if that has no lamports.
  pub execute_transaction-ReadsBack :
      (tx : Tx) (l : Ledger) (ixs : List Instruction) (payer : ℕ) (datas : Map AccountData)
      (old : AccountData) (r : Map AccountData × List String)
      → NotNewer l.state.slot (files env k l)
      → to_instructions env tx (env.instructions tx) ≡ some ixs
      → get_elem? (env.account_keys tx) 0 ≡ some payer
      → (gather env payer ixs (some (l.state.slot + 1, env.now)) l).0 ≡ ok datas
      → get k datas ≡ some old
      → (execute_instructions env payer ixs all (some (l.state.slot + 1, env.now)) false l).0 ≡ ok r
      → Post
          (execute_transaction env tx true)
          l
          (λ _ t. ReadsBack (read_account env k none t) (get k r.0))
  unfolding execute_transaction
  execute_transaction-ReadsBack tx l ixs payer datas old r new i p g e run =
      let clock = some (l.state.slot + 1, env.now) in
      let Q : Unit {0} → Ledger → Type 0 =
        λ _ t. ReadsBack (read_account env k none t) (get k r.0) in
      let ran = Ran-of env payer ixs clock l r run in
      let same : datas ≡ ran.datas = cc (g, ran.gathers) in
      reads_known ixs (ok_or (to_instructions env tx (env.instructions tx)) panicked)
        (λ ixs. reads (λ _. ok_or (get_elem? (env.account_keys tx) 0) panicked) >>= λ payer.
          execute_instructions env payer ixs nothing clock true >>= λ p.
          commit_of env tx p.1 (l.state.slot + 1))
        l Q (rw i)
        (reads_known payer (ok_or (get_elem? (env.account_keys tx) 0) panicked)
          (λ payer. execute_instructions env payer ixs nothing clock true >>= λ p.
            commit_of env tx p.1 (l.state.slot + 1))
          l Q (rw p)
          (bind_post (execute_instructions env payer ixs nothing clock true)
            (λ p. commit_of env tx p.1 (l.state.slot + 1)) l (λ _ t. Q tt t) Q
            (Ran-Reads payer ixs nothing clock l r ran old new
              (subst (λ m. get k m ≡ some old) same e))
            (λ q t h.
              reads_then (ok_or (get_elem? (env.signatures tx) 0) panicked)
                (λ signature.
                  index_transaction env signature (l.state.slot + 1) >> record_block env tx q.1)
                t Q
                (λ signature.
                  bind_post (index_transaction env signature (l.state.slot + 1))
                    (λ _. record_block env tx q.1) t (λ _ u. u.accounts ≡ t.accounts) Q
                    (indexed_accounts signature (l.state.slot + 1) t)
                    (λ _ u kept.
                      post_map (λ _ v. v.accounts ≡ u.accounts) Q (record_block env tx q.1 u)
                        (λ _ v same_then.
                          subst⁻¹ (λ z. ReadsBack z (get k r.0))
                            (same_accounts t v (same_then ∙ kept)) h)
                        (recorded_accounts tx q.1 u))))))
