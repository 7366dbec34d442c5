-- ===== src/Ledger/Gathering.antt =====
-- The accounts that `execute_instructions` (debug_ledger.rs) gathers, and the fee.
use bokken.Prelude.{
  ℕ, ◌+◌, ◌-◌, ◌*◌, ◌≡◌, refl, subst⁻¹, Option, none, some, List, [], ◌∷◌, arith, if◌then◌else◌,
  ltb,
}
use bokken.Prelude.Result.{Result, ok, err, ok_or}
use bokken.Prelude.Action.{Action, reads, ◌>>=◌}
use bokken.Prelude.Post.{Post, OkOf, by_bool, by_if, by_option, by_result, reads-OkOf}
use bokken.Prelude.Maps.{Map, get, insert, contains_key, Unique, insert-Unique, sum-insert}
use bokken.Errors.{BokkenError, transaction_error, insufficient_funds_for_fee}
use bokken.Account.{AccountData, AccountMeta}
use bokken.SystemProgram.Lamports.{lamports_of, total}
use bokken.Ledger.{
  Fault, failed, panicked, Ledger, Instruction, Environment, take_fee, all_metas, fault,
}
use bokken.Ledger.Execution.{read_account, gather, read_metas}

module _ {A B : Type 0} {S : Type 0} where
  -- A read that may panic, and what follows it.
  pub reads_some :
      (o : Option A) (e : Fault) (f : A → Action S Fault B) (s : S) (Q : B → S → Type 0)
      → ((a : A) → o ≡ some a → Post (f a) s Q)
      → Post (reads (λ _. ok_or o e) >>= f) s Q
  reads_some none e f s Q h = tt
  reads_some (some a) e f s Q h = h a refl

  pub reads_fault :
      (r : Result BokkenError A) (f : A → Action S Fault B) (s : S) (Q : B → S → Type 0)
      → ((a : A) → r ≡ ok a → Post (f a) s Q)
      → Post (reads (λ _. fault r) >>= f) s Q
  unfolding fault
  reads_fault (ok a) f s Q h = h a refl
  reads_fault (err e) f s Q h = tt

  pub reads_ok :
      (a : A) (r : Result BokkenError A) (f : A → Action S Fault B) (s : S) (Q : B → S → Type 0)
      → r ≡ ok a
      → Post (f a) s Q
      → Post (reads (λ _. fault r) >>= f) s Q
  unfolding fault
  reads_ok a r f s Q e h = subst⁻¹ (λ x. Post (reads (λ _. fault x) >>= f) s Q) e h

-- The fee payer is charged.
pub take_fee-Holds :
    (payer signers : ℕ) (datas : Map AccountData)
    → Unique datas
    → OkOf
        (λ charged. Unique charged × (total charged + 5000 * signers ≡ total datas))
        (take_fee payer signers datas)
unfolding take_fee
take_fee-Holds payer signers datas u =
    let P : Map AccountData → Type 0 =
      λ charged. Unique charged × (total charged + 5000 * signers ≡ total datas) in
    let rest : AccountData → AccountData =
      λ a. record a { lamports = a.lamports - 5000 * signers } in
    by_option (OkOf P) (get payer datas) (err panicked)
      (λ a.
        if ltb a.lamports (5000 * signers)
        then err (failed (transaction_error insufficient_funds_for_fee))
        else ok (insert payer (rest a) datas))
      (λ _. tt)
      (λ a e.
        by_if (OkOf P) (ltb a.lamports (5000 * signers))
          (err (failed (transaction_error insufficient_funds_for_fee)))
          (ok (insert payer (rest a) datas)) (λ _. tt)
          (λ covered. (
            insert-Unique payer (rest a) datas u,
            ground (arith, sum-insert lamports_of payer (rest a) a datas e),
          )))

module _ {Tx : Type 0} (env : Environment Tx) where
  read_metas-Unique :
      (clock : Option (ℕ × ℕ)) (l : Ledger) (metas : List AccountMeta) (datas : Map AccountData)
      → Unique datas
      → OkOf Unique (read_metas env clock l metas datas)
  unfolding read_metas
  read_metas-Unique clock l [] datas u = u
  read_metas-Unique clock l (meta ∷ metas) datas u =
      by_bool (OkOf Unique) (contains_key meta.pubkey datas) (read_metas env clock l metas datas) _
        (λ _. read_metas-Unique clock l metas datas u)
        (λ _.
          by_result (OkOf Unique) (read_account env meta.pubkey clock l) err
            (λ account. read_metas env clock l metas (insert meta.pubkey account datas)) (λ _ _. tt)
            (λ account _.
              read_metas-Unique clock l metas (insert meta.pubkey account datas)
                (insert-Unique meta.pubkey account datas u)))

  pub gather-Unique :
      (payer : ℕ) (ixs : List Instruction) (clock : Option (ℕ × ℕ)) (l : Ledger)
      → OkOf Unique (gather env payer ixs clock l).0
  unfolding gather
  gather-Unique payer ixs clock l =
      let named : AccountData → AccountData → AccountData → Map AccountData =
        λ p r c. insert env.clock_id c (insert env.rent_id r (insert payer p [])) in
      let finish : AccountData
          → AccountData
          → AccountData
          → Action Ledger BokkenError (Map AccountData) =
        λ p r c. reads (λ m. read_metas env clock m (all_metas ixs) (named p r c)) in
      reads-OkOf Unique (read_account env payer clock l)
        (λ p. reads (read_account env env.rent_id clock) >>= λ r.
          reads (read_account env env.clock_id clock) >>= finish p r)
        l
        (λ p.
          reads-OkOf Unique (read_account env env.rent_id clock l)
            (λ r. reads (read_account env env.clock_id clock) >>= finish p r) l
            (λ r. reads-OkOf Unique (read_account env env.clock_id clock l) (finish p r) l (λ c.
              read_metas-Unique clock l (all_metas ixs) (named p r c) (
                insert-Unique env.clock_id c (insert env.rent_id r (insert payer p [])) (
                  insert-Unique env.rent_id r (insert payer p []) (insert-Unique payer p [] tt))))))
