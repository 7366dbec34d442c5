-- ===== src/ProgramCaller/Native.antt =====
-- Calls of the native program in program_caller.rs, and what the ledger (debug_ledger.rs) relies on.
use bokken.Prelude.{ℕ, suc, ◌≡◌, ◌<◌, ◌^◌, ◌≢◌, none, List, [], ◌∷◌, ◌++◌, arith, Bytes, subst, ap}
use bokken.Prelude.Result.{Result, ok, err}
use bokken.Prelude.Post.{PostOf}
use bokken.Prelude.Maps.{Map, get, Unique}
use bokken.Errors.{ProgramError}
use bokken.Account.{AccountData, AccountMeta}
use bokken.SystemProgram.{SystemState, exec}
use bokken.SystemProgram.Lamports.{Settles, total}
use bokken.SystemProgram.Conserving.{exec-Settles}
use bokken.Ledger.{Environment}
use bokken.Ledger.Charges.{CallsSettle}
use bokken.ProgramCaller.{
  Call, CallResult, ProgramCaller, invoke_line, success_line, returned_line, run_native,
  fresh_nonce, send_to, Natives, call_program,
}

module _ (natives : Natives) where
  native_case :
      (call : Call) (q : Result ProgramError (Unit {0}) × SystemState)
      → ((e : ProgramError) → natives.error_code e ≢ 0)
      → PostOf q (λ _ t. Settles call.account_datas t.account_datas)
      → (let r : CallResult = elim q.0 [
        | ok _ ↦ (0, q.1.logs ++ success_line natives call.program_id ∷ [], q.1.account_datas)
        | err e ↦ (
          natives.error_code e,
          q.1.logs ++ returned_line natives call.program_id e ∷ [],
          q.1.account_datas,
        )
      ] in
          r.0 ≡ 0 → Settles call.account_datas r.2)
  native_case call (ok a, t) codes h zero = h
  native_case call (err e, t) codes h zero = absurd (codes e zero)

  run_native-Settles :
      (call : Call)
      → ((e : ProgramError) → natives.error_code e ≢ 0)
      → Unique call.account_datas
      → total call.account_datas < 2 ^ 64
      → (run_native natives call).0 ≡ 0
      → Settles call.account_datas (run_native natives call).2
  unfolding run_native
  run_native-Settles call codes unique small =
      let s : SystemState = record {
        logs = invoke_line natives call ∷ [];
        account_datas = call.account_datas;
      } in
      native_case call (exec natives.host call.instruction call.account_metas s) codes
        (exec-Settles natives.host s unique small call.instruction call.account_metas)

  -- Of a caller with no registered program only the native one answers.
  only_native :
      (fuel : ℕ) (call : Call) (c : ProgramCaller) (r : CallResult)
      → c.comms ≡ []
      → (call_program natives (suc fuel) call c).0 ≡ ok r
      → run_native natives call ≡ r
  unfolding call_program fresh_nonce send_to get
  only_native fuel call c r alone e =
      let unknown : get call.program_id c.comms ≡ none = ap (get call.program_id) alone in
      ground (arith, unknown)

  -- The ledger's calls are those of the caller.
  pub record Uses {Tx : Type 0} (env : Environment Tx) (c : ProgramCaller) : Type 0 where
    pub calls :
        (program : ℕ) (bytes : Bytes) (metas : List AccountMeta) (datas : Map AccountData)
        (depth : ℕ) (r : CallResult)
        → env.call_program program bytes metas datas depth ≡ ok r
        → (fuel : ℕ) × ((call_program natives
              (suc fuel)
              (record {
                program_id = program;
                instruction = bytes;
                account_metas = metas;
                account_datas = datas;
                call_depth = depth;
              })
              c).0
            ≡ ok r)

  -- Where the ledger's calls are those of a caller with which no debuggable program is
  -- registered, and no error has the code 0: every call of the ledger that succeeds conserves
  -- the lamports and the keys of the accounts that it was given.
  pub alone-CallsSettle :
      {Tx : Type 0} (env : Environment Tx) (c : ProgramCaller)
      → ((e : ProgramError) → natives.error_code e ≢ 0)
      → c.comms ≡ []
      → Uses env c
      → CallsSettle env
  alone-CallsSettle env c codes alone uses = record {
    call = λ program bytes metas datas depth logs out unique small e.
        let call : Call = record {
          program_id = program;
          instruction = bytes;
          account_metas = metas;
          account_datas = datas;
          call_depth = depth;
        } in
        let (fuel, answer) = uses.calls program bytes metas datas depth (0, logs, out) e in
        let ran = only_native fuel call c (0, logs, out) alone answer in
        subst (λ r. Settles datas r.2) ran
          (run_native-Settles call codes unique small (ap (λ r. r.0) ran));
  }
