-- ===== src/Syscalls/Executing.antt =====
-- The run of a program (`execute_sol_program_thread` of executor.rs) and what starts it: the message of
-- the validator (lib.rs) and the task that keeps the contexts (sol_syscalls.rs).
use Prim.Native.String.{String, ◌++◌ as append_text}
use bokken.Prelude.{
  ℕ, Bytes, suc, ◌≡◌, ◌≢◌, refl, ap, ◌∙◌, false, Option, none, some, List, [], ◌∷◌, ◌++◌, map,
  arith, append_assoc,
}
use mathlib.Core.List.{map-append}
use bokken.Prelude.Result.{Result, ok, err}
use bokken.Prelude.Action.{Action, ◌>>=◌}
use bokken.Prelude.Maps.{Map, get}
use bokken.Account.{AccountData}
use bokken.AccountsBlob.{AccountsBlob, get_account_datas}
use bokken.ProgramCaller.{
  Call, executed, log, done, ValidatorMessage, invoke, Event, arrives, ProgramCaller, Natives,
  all_lines, call_program,
}
use bokken.ProgramCaller.Answers.{AllForeign, lines_of, call_program_answered}
use bokken.Syscalls.{Context, Halt, Syscalls, Sys, last_context, send, unpanicked, Host}
use bokken.Syscalls.Running.{push_context, pop_context, new_context, on_message, finish}

-- The `entrypoint` of a program: its system calls, and the code that it returns or the text of its
-- panic.
abbrev pub Entrypoint : Type 0
Entrypoint = Action Syscalls String ℕ

module _ (host : Host) where
  -- The thread shares the blob of the last context with the system calls.
  unfoldable pub execute_sol_program_thread : ℕ → Entrypoint → Sys (Unit {0})
  execute_sol_program_thread nonce entrypoint s =
      let (outcome, t) = entrypoint s in
      (last_context >>= λ context. finish host nonce context.blob outcome) t

  -- A message that asks for a run, up to the end of that run.
  unfoldable pub run_invoke : Entrypoint → ℕ → Call → Sys (Unit {0})
  run_invoke entrypoint nonce call =
      on_message host (invoke nonce call) >>= λ _. execute_sol_program_thread nonce entrypoint

  -- The code and the log of an outcome, behind the lines of the program.
  abbrev pub code_of : Result String ℕ → ℕ
  code_of (ok return_code) = return_code
  code_of (err text) = host.panic_code

  abbrev pub lines_with : List String → Result String ℕ → List String
  lines_with lines (ok return_code) = lines
  lines_with lines (err text) = lines ++ append_text "Program panicked: " text ∷ []

  -- A run of the program for a call on a state that has sent nothing: the blob is built, the entry
  -- point logs some lines under the nonce, may change the blob and the return data, sends nothing
  -- else, and comes to an outcome, and the accounts of the blob can then be read.
  pub record IsRun (entrypoint : Entrypoint) (nonce : ℕ) (call : Call) (s : Syscalls)
      (lines : List String) (outcome : Result String ℕ) (datas : Map AccountData) : Type 0 where
    pub before : Context
    pub after : AccountsBlob
    pub returned : Option (ℕ × Bytes)
    pub fresh : s.sent ≡ []
    pub made : new_context host nonce call ≡ some before
    pub runs : entrypoint (record s { contexts = before ∷ s.contexts }) ≡ (
      outcome,
      record s {
        contexts = (record before { blob = after }) ∷ s.contexts;
        return_data = returned;
        sent = map (log nonce) lines;
      },
    )
    pub readable : get_account_datas host.max_increase after ≡ some datas

  finished :
      (nonce : ℕ) (before : Context) (after : AccountsBlob) (returned : Option (ℕ × Bytes))
      (lines : List String) (outcome : Result String ℕ) (datas : Map AccountData) (s : Syscalls)
      → get_account_datas host.max_increase after ≡ some datas
      → (finish host nonce after outcome (record s {
        contexts = (record before { blob = after }) ∷ s.contexts;
        return_data = returned;
        sent = map (log nonce) lines;
      })).1
        ≡ record s {
          return_data = returned;
          sent =
              map (log nonce) (lines_with lines outcome)
              ++ done nonce (executed (code_of outcome) datas) ∷ [];
        }
  unfolding finish pop_context send unpanicked
  finished nonce before after returned lines (ok return_code) datas s e = rw e refl
  finished nonce before after returned lines (err text) datas s e =
      rw (e, map-append (log nonce) lines (append_text "Program panicked: " text ∷ [])) refl

  invoke_pushes :
      (nonce : ℕ) (call : Call) (context : Context) (s : Syscalls)
      → new_context host nonce call ≡ some context
      → on_message host (invoke nonce call) s
        ≡ (ok none, record s { contexts = context ∷ s.contexts })
  unfolding on_message push_context unpanicked
  invoke_pushes nonce call context s made = rw made refl

  -- What a run sends; the contexts are those from before.
  run_sends :
      (entrypoint : Entrypoint) (nonce : ℕ) (call : Call) (s : Syscalls) (lines : List String)
      (outcome : Result String ℕ) (datas : Map AccountData)
      (r : IsRun entrypoint nonce call s lines outcome datas)
      → (run_invoke entrypoint nonce call s).1 ≡ record s {
        return_data = r.returned;
        sent =
            map (log nonce) (lines_with lines outcome)
            ++ done nonce (executed (code_of outcome) datas) ∷ [];
      }
  unfolding run_invoke execute_sol_program_thread last_context
  run_sends entrypoint nonce call s lines outcome datas r =
      let next : Result Halt (Option (ℕ × Map AccountData)) × Syscalls → Syscalls = λ q.
        let p : Result Halt (Unit {0}) × Syscalls = elim q.0 [
          | ok a ↦ execute_sol_program_thread nonce entrypoint q.1
          | err e ↦ (err e, q.1)
        ] in
        p.1 in
      let close : Result String ℕ × Syscalls → Syscalls =
        λ q. ((last_context >>= λ context. finish host nonce context.blob q.0) q.1).1 in
      ap next (invoke_pushes nonce call r.before s r.made)
      ∙ ap close r.runs
      ∙ finished nonce r.before r.after r.returned lines outcome datas s r.readable

lines_of-log :
    (nonce : ℕ) (lines : List String) → lines_of nonce (map arrives (map (log nonce) lines)) ≡ lines
unfolding lines_of
lines_of-log nonce [] = refl
lines_of-log nonce (text ∷ lines) = let rest = lines_of-log nonce lines in ground (arith, rest)

AllForeign-log :
    (nonce : ℕ) (lines : List String) → AllForeign nonce (map arrives (map (log nonce) lines))
AllForeign-log nonce [] = tt
AllForeign-log nonce (text ∷ lines) = (tt, AllForeign-log nonce lines)

module _ (env : Natives) (host : Host) where
  -- The validator calls a program that is registered and not the native one; it is running, and has
  -- no result with the number of the call. If the program's process runs its entry point for that
  -- call, and what the process sends is what arrives first at the validator, then the call returns
  -- the code of the entry point (or the one for a panic), its lines in order (with that of the
  -- panic), and the accounts that its blob holds at the end.
  pub call_program-run_invoke :
      (entrypoint : Entrypoint) (s : Syscalls) (lines : List String) (outcome : Result String ℕ)
      (datas : Map AccountData) (fuel : ℕ) (call : Call) (rest : List Event)
      (sent : List ValidatorMessage) (c : ProgramCaller)
      → IsRun host entrypoint c.next_nonce call s lines outcome datas
      → call.program_id ≢ env.system_program_id
      → get call.program_id c.comms ≡ some sent
      → c.should_stop ≡ false
      → get c.next_nonce c.exec_results ≡ none
      → c.events ≡ map arrives (run_invoke host entrypoint c.next_nonce call s).1.sent ++ rest
      → (call_program env (suc fuel) call c).0
        ≡ ok (
          code_of host outcome,
          all_lines env call (code_of host outcome) (lines_with host lines outcome),
          datas,
        )
  call_program-run_invoke entrypoint s lines outcome datas fuel call rest sent c r other there
        running fresh arriving =
      let nonce = c.next_nonce in
      let all = lines_with host lines outcome in
      let code = code_of host outcome in
      let es = map arrives (map (log nonce) all) in
      let messages = run_sends host entrypoint nonce call s lines outcome datas r in
      let end = done nonce (executed code datas) ∷ [] in
      let events : c.events ≡ es ++ arrives (done nonce (executed code datas)) ∷ rest =
        arriving
        ∙ ap (λ (t : Syscalls). map arrives t.sent ++ rest) messages
        ∙ ap (λ z. z ++ rest) (map-append arrives (map (log nonce) all) end)
        ∙ append_assoc es (map arrives end) rest in
      call_program_answered env fuel call es rest code datas sent c other there running fresh events
        (AllForeign-log nonce all)
      ∙ ap (λ ls. ok (code, all_lines env call code ls, datas)) (lines_of-log nonce all)
