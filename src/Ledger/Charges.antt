-- ===== src/Ledger/Charges.antt =====
-- Over all instructions of a transaction (debug_ledger.rs) the fee is the only loss of lamports.
use Prim.Native.String.{String}
use bokken.Prelude.{
  ℕ, suc, ◌+◌, ◌*◌, ◌≡◌, ◌≢◌, ◌<◌, ◌^◌, refl, sym, ap, ◌∙◌, subst, Bool, true, false, Option, some,
  List, [], ◌∷◌, ◌++◌, arith, Bytes, ◌==◌,
}
use bokken.Prelude.Result.{Result, ok, err, ok_or}
use bokken.Prelude.Action.{Action, reads, pure, modify, ◌>>=◌, ◌>>◌}
use bokken.Prelude.Post.{Post, PostOf, OkOf, bind_post, by_bool, reads_post, then_post}
use bokken.Prelude.Maps.{Map, get, insert, get-insert_ne, Unique, sum}
use bokken.Errors.{instruction_exec_error}
use bokken.Account.{AccountData, AccountMeta}
use bokken.SystemProgram.Lamports.{total, Settles}
use bokken.Ledger.{
  Fault, failed, panicked, Ledger, Instruction, all, Environment, take_fee, count_signers, pick,
  put_all, chosen, fault,
}
use bokken.Ledger.Execution.{
  execute_instruction, gather, run_all, save_edited, execute_instructions,
}
use bokken.Ledger.Commits.{to_charge, to_run, to_save, to_choose}
use bokken.Ledger.Gathering.{reads_some, reads_fault, reads_ok, take_fee-Holds, gather-Unique}
use bokken.Ledger.Lamports.{Shared, outside-nil, Shared-copy, pick-Shared, put_all-Shared}

-- A map with every key once, and with as many lamports as `all`.
pub record Holds (whole : ℕ) (s : Map AccountData) : Type 0 where
  pub unique : Unique s
  pub lamports : total s ≡ whole

module _ {Tx : Type 0} (env : Environment Tx) where
  -- A call that returns without an error code settles the accounts that it was given.
  pub record CallsSettle : Type 0 where
    pub call :
        (program : ℕ) (bytes : Bytes) (metas : List AccountMeta) (datas : Map AccountData)
        (depth : ℕ) (logs : List String) (out : Map AccountData)
        → Unique datas
        → total datas < 2 ^ 64
        → env.call_program program bytes metas datas depth ≡ ok (0, logs, out)
        → Settles datas out

  -- The two system variables are copied for the program.
  Shared-start :
      (whole : ℕ) (s : Map AccountData) (rent clock : AccountData)
      → env.rent_id ≢ env.clock_id
      → Holds whole s
      → get env.rent_id s ≡ some rent
      → get env.clock_id s ≡ some clock
      → Shared whole (insert env.clock_id clock (insert env.rent_id rent [])) s
  unfolding sum get
  Shared-start whole s rent clock differ h e f =
      let start : Shared whole [] s = record {
        state_unique = h.unique;
        picked_unique = tt;
        lamports = omega (arith, h.lamports, outside-nil s);
      } in
      let one = Shared-copy whole env.rent_id rent [] s start e refl in
      Shared-copy whole env.clock_id clock (insert env.rent_id rent []) s one f
        (get-insert_ne env.clock_id env.rent_id rent [] (λ x. differ (sym x)))

  -- What is left of `execute_instruction` after each of its steps.
  module _ (ix : Instruction) (depth : ℕ) where
    abbrev to_return : Map AccountData → Action (Map AccountData) Fault (ℕ × List String)
    to_return picked =
        reads
          (λ _. fault (env.call_program ix.program_id ix.data_bytes ix.account_metas picked depth))
        >>= λ r. modify (put_all r.2) >> pure (r.0, r.1)

    abbrev to_pick : AccountData → AccountData → Action (Map AccountData) Fault (ℕ × List String)
    to_pick rent clock =
        pick ix.account_metas (insert env.clock_id clock (insert env.rent_id rent [])) >>= to_return

    abbrev to_clock : AccountData → Action (Map AccountData) Fault (ℕ × List String)
    to_clock rent = reads (λ s. ok_or (get env.clock_id s) panicked) >>= to_pick rent

  -- What an instruction that ends without an error code leaves behind.
  abbrev Fair : ℕ → ℕ × List String → Map AccountData → Type 0
  Fair whole r t = r.0 ≡ 0 → Holds whole t

  module _ (whole : ℕ) (small : whole < 2 ^ 64) (differ : env.rent_id ≢ env.clock_id)
      (calls : CallsSettle) where
    to_return-Fair :
        (ix : Instruction) (depth : ℕ) (picked s : Map AccountData)
        → Shared whole picked s
        → Post (to_return ix depth picked) s (Fair whole)
    to_return-Fair ix depth picked s h =
        reads_fault (env.call_program ix.program_id ix.data_bytes ix.account_metas picked depth)
          (λ r. modify (put_all r.2) >> pure (r.0, r.1)) s (Fair whole)
          (λ r called zero.
            let settled =
              calls.call ix.program_id ix.data_bytes ix.account_metas picked depth r.1 r.2
                h.picked_unique (omega (arith, h.lamports))
                (called ∙ ap (λ c. ok (c, r.1, r.2)) zero) in
            let (lamports, unique) = put_all-Shared whole picked r.2 s h settled in
            record { unique = unique; lamports = lamports })

    execute_instruction-Fair :
        (ix : Instruction) (depth : ℕ) (s : Map AccountData)
        → Holds whole s
        → Post (execute_instruction env ix depth) s (Fair whole)
    unfolding execute_instruction
    execute_instruction-Fair ix depth s h =
        reads_some (get env.rent_id s) panicked (to_clock ix depth) s (Fair whole) (λ rent e.
          reads_some (get env.clock_id s) panicked (to_pick ix depth rent) s (Fair whole)
            (λ clock f.
              let start = insert env.clock_id clock (insert env.rent_id rent []) in
              bind_post (pick ix.account_metas start) (to_return ix depth) s (Shared whole)
                (Fair whole)
                (pick-Shared whole ix.account_metas start s
                  (Shared-start whole s rent clock differ h e f))
                (to_return-Fair ix depth)))

    run_all_step :
        (i : ℕ) (ixs : List Instruction) (log : List String)
        (q : Result Fault (ℕ × List String) × Map AccountData)
        → PostOf q (Fair whole)
        → ((log' : List String) (s : Map AccountData)
            → Holds whole s
            → OkOf (λ p. Holds whole p.1) (run_all env (suc i) ixs log' s))
        → OkOf
            (λ p. Holds whole p.1)
            (elim q.0 [
              | err e ↦ err e
              | ok (code, logs) ↦ elim (code == 0) [
                | true ↦ run_all env (suc i) ixs (log ++ logs) q.1
                | false ↦
                    err (failed (instruction_exec_error i (env.program_error code) (log ++ logs)))
              ]
            ])
    run_all_step i ixs log (err e, s) h k = tt
    run_all_step i ixs log (ok (code, logs), s) h k =
        by_bool (OkOf (λ p. Holds whole p.1)) (code == 0) (run_all env (suc i) ixs (log ++ logs) s)
          (err (failed (instruction_exec_error i (env.program_error code) (log ++ logs))))
          (λ zero. k (log ++ logs) s (h (ground arith))) (λ _. tt)

    run_all-Holds :
        (i : ℕ) (ixs : List Instruction) (log : List String) (s : Map AccountData)
        → Holds whole s
        → OkOf (λ p. Holds whole p.1) (run_all env i ixs log s)
    unfolding run_all
    run_all-Holds i [] log s h = h
    run_all-Holds i (ix ∷ ixs) log s h =
        run_all_step i ixs log (execute_instruction env ix 1 s) (execute_instruction-Fair ix 1 s h)
          (run_all-Holds (suc i) ixs)

  -- Where every call that succeeds settles its accounts, the rent and the clock have different
  -- keys, and the accounts that the instructions name are gathered and their lamports fit into
  -- a `u64`: the accounts that instructions which succeed return have together the lamports that
  -- these had, less 5000 for each signer.
  pub execute_instructions_charge :
      (payer : ℕ) (ixs : List Instruction) (clock : Option (ℕ × ℕ)) (commit : Bool) (l : Ledger)
      (datas : Map AccountData)
      → CallsSettle
      → env.rent_id ≢ env.clock_id
      → (gather env payer ixs clock l).0 ≡ ok datas
      → total datas < 2 ^ 64
      → Post
          (execute_instructions env payer ixs all clock commit)
          l
          (λ r _. total r.0 + 5000 * count_signers payer ixs ≡ total datas)
  unfolding execute_instructions chosen
  execute_instructions_charge payer ixs clock commit l datas calls differ e small =
      let fair : Map AccountData × List String → Ledger → Type 0 =
        λ r _. total r.0 + 5000 * count_signers payer ixs ≡ total datas in
      let unique = subst (OkOf Unique) e (gather-Unique env payer ixs clock l) in
      reads_ok datas (gather env payer ixs clock l).0 (to_charge env payer ixs all commit) l fair e
        (reads_post
          (λ charged.
            Unique charged × (total charged + 5000 * count_signers payer ixs ≡ total datas))
          (take_fee payer (count_signers payer ixs) datas) (to_run env payer ixs all commit datas) l
          fair (take_fee-Holds payer (count_signers payer ixs) datas unique)
          (λ charged paid.
            let start : Holds (total charged) charged = record {
              unique = paid.0;
              lamports = refl;
            } in
            reads_post (λ p. Holds (total charged) p.1) (run_all env 0 ixs [] charged)
              (to_save env payer ixs all commit datas) l fair
              (run_all-Holds (total charged) (omega (arith, paid.1)) differ calls 0 ixs [] charged
                start)
              (λ p held.
                then_post (save_edited env commit datas p.1 [])
                  (to_choose env payer ixs all commit p.0 p.1) l fair
                  (λ es t. omega (arith, held.lamports, paid.1)))))
