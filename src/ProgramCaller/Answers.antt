-- ===== src/ProgramCaller/Answers.antt =====
-- What a call of program_caller.rs returns.
use Prim.Native.String.{String}
use bokken.Prelude.{
  ℕ, suc, ◌+◌, ◌≡◌, ◌%◌, ◌^◌, ◌≢◌, refl, Bool, true, false, none, some, List, [], ◌∷◌, ◌++◌, arith,
  ◌==◌, if◌then◌else◌, subst, subst⁻¹, sym, ap, ◌∙◌, append-nil, append_assoc,
}
use bokken.Prelude.Result.{Result, ok}
use bokken.Prelude.Post.{by_option}
use bokken.Prelude.Maps.{Map, get, insert, remove, get-insert, get-insert_self, get-insert_ne}
use bokken.Account.{AccountData}
use bokken.ProgramCaller.{
  Call, CallResult, ExecStatus, executed, log, done, Event, arrives, garbled, registers, stop,
  ProgramCaller, Failure, Calls, ValidatorMessage, invoke, add_lines, receive, take_event,
  ends_receiving, wakes, check_status, wait, wait_for_exec_status, send_to, fresh_nonce, take_lines,
  check_stop, all_lines, Natives, on_status, serve, call_program,
}

-- An event that neither answers the call nor stops the caller or its receiving task.
abbrev pub IsForeign : ℕ → Event → Type 0
IsForeign nonce (arrives (log n text)) = Unit {0}
IsForeign nonce (arrives (done n status)) = n ≢ nonce
IsForeign nonce garbled = ⊥
IsForeign nonce (registers program_id) = Unit {0}
IsForeign nonce stop = ⊥

abbrev pub AllForeign : ℕ → List Event → Type 0
AllForeign nonce [] = Unit {0}
AllForeign nonce (e ∷ es) = IsForeign nonce e × AllForeign nonce es

-- The messages of the call among the events.
unfoldable pub lines_of : ℕ → List Event → List String
lines_of nonce [] = []
lines_of nonce (arrives (log n text) ∷ es) =
    if n == nonce then text ∷ lines_of nonce es else lines_of nonce es
lines_of nonce (arrives (done n status) ∷ es) = lines_of nonce es
lines_of nonce (garbled ∷ es) = lines_of nonce es
lines_of nonce (registers program_id ∷ es) = lines_of nonce es
lines_of nonce (stop ∷ es) = lines_of nonce es

-- A caller that waits for the answer to a call, with the lines of the call so far.
record Waits (nonce : ℕ) (lines : List String) (c : ProgramCaller) : Type 0 where
  unanswered : get nonce c.exec_results ≡ none
  running : c.should_stop ≡ false
  logged : get nonce c.exec_logs ≡ some lines

record HasAnswer (nonce : ℕ) (lines : List String) (status : ExecStatus)
    (q : Result Failure ExecStatus × ProgramCaller) : Type 0 where
  answer : q.0 ≡ ok status
  logged : get nonce q.1.exec_logs ≡ some lines

unawake :
    (nonce : ℕ) (lines : List String) (awake : Bool) (c : ProgramCaller)
    → Waits nonce lines c
    → (if awake then check_status nonce c else none) ≡ none
unfolding check_status
unawake nonce lines awake c w = ground (arith, w.unanswered, w.running)

wait_answered :
    (nonce : ℕ) (es : List Event) (status : ExecStatus) (c : ProgramCaller)
    → get nonce c.exec_results ≡ some status
    → c.should_stop ≡ false
    → wait nonce true es c
      ≡ (ok status, record c { exec_results = remove nonce c.exec_results; events = es })
unfolding wait check_status
wait_answered nonce [] status c h r = ground (arith, h, r)
wait_answered nonce (e ∷ es) status c h r = ground (arith, h, r)

wait_on :
    (nonce : ℕ) (lines : List String) (awake : Bool) (e : Event) (es : List Event)
    (c : ProgramCaller)
    → ends_receiving e ≡ false
    → Waits nonce lines c
    → wait nonce awake (e ∷ es) c ≡ wait nonce (wakes e) es (take_event e c)
unfolding wait
wait_on nonce lines awake e es c goes_on w = ground (arith, goes_on, unawake nonce lines awake c w)

foreign_received : (nonce : ℕ) (e : Event) → IsForeign nonce e → ends_receiving e ≡ false
unfolding ends_receiving
foreign_received nonce (arrives (log n text)) f = refl
foreign_received nonce (arrives (done n status)) f = refl
foreign_received nonce garbled f = absurd f
foreign_received nonce (registers program_id) f = refl
foreign_received nonce stop f = refl

logged_after :
    (nonce n : ℕ) (before more : List String) (c : ProgramCaller)
    → get nonce c.exec_logs ≡ some before
    → get nonce (add_lines n more c).exec_logs
      ≡ some (if n == nonce then before ++ more else before)
unfolding add_lines
logged_after nonce n before more c e =
    by_option (λ d. get nonce d.exec_logs ≡ some (if n == nonce then before ++ more else before))
      (get n c.exec_logs) c (λ logs. record c { exec_logs = insert n (logs ++ more) c.exec_logs })
      (λ gone. ground (arith, e, gone))
      (λ logs there. ground (arith, e, there, get-insert nonce n (logs ++ more) c.exec_logs))

same_after :
    (n : ℕ) (more : List String) (c : ProgramCaller)
    → ((add_lines n more c).exec_results ≡ c.exec_results)
      × ((add_lines n more c).should_stop ≡ c.should_stop)
unfolding add_lines
same_after n more c =
    by_option (λ d. (d.exec_results ≡ c.exec_results) × (d.should_stop ≡ c.should_stop))
      (get n c.exec_logs) c (λ logs. record c { exec_logs = insert n (logs ++ more) c.exec_logs })
      (λ _. (refl, refl)) (λ _ _. (refl, refl))

lines_of_step :
    (nonce : ℕ) (e : Event) (es : List Event)
    → lines_of nonce (e ∷ es) ≡ lines_of nonce (e ∷ []) ++ lines_of nonce es
unfolding lines_of
lines_of_step nonce (arrives (log n text)) es = ground arith
lines_of_step nonce (arrives (done n status)) es = refl
lines_of_step nonce garbled es = refl
lines_of_step nonce (registers program_id) es = refl
lines_of_step nonce stop es = refl

take_event-Waits :
    (nonce : ℕ) (lines : List String) (e : Event) (c : ProgramCaller)
    → IsForeign nonce e
    → Waits nonce lines c
    → Waits nonce (lines ++ lines_of nonce (e ∷ [])) (take_event e c)
unfolding take_event receive lines_of
take_event-Waits nonce lines (arrives (log n text)) c f w =
    let (results, stops) = same_after n (text ∷ []) c in
    record {
      unanswered = ap (get nonce) results ∙ w.unanswered;
      running = stops ∙ w.running;
      logged = logged_after nonce n lines (text ∷ []) c w.logged ∙ ap some (if_lines (n == nonce));
    }
  where
    if_lines :
        (b : Bool)
        → (if b then lines ++ text ∷ [] else lines) ≡ lines ++ (if b then text ∷ [] else [])
    if_lines true = refl
    if_lines false = sym (append-nil lines)
take_event-Waits nonce lines (arrives (done n status)) c f w = record {
  unanswered = get-insert_ne nonce n status c.exec_results (λ e. f (sym e)) ∙ w.unanswered;
  running = w.running;
  logged = w.logged ∙ ap some (sym (append-nil lines));
}
take_event-Waits nonce lines garbled c f w = absurd f
take_event-Waits nonce lines (registers program_id) c f w = record {
  unanswered = w.unanswered;
  running = w.running;
  logged = w.logged ∙ ap some (sym (append-nil lines));
}
take_event-Waits nonce lines stop c f w = absurd f

wait-HasAnswer :
    (nonce : ℕ) (lines : List String) (awake : Bool) (es rest : List Event) (status : ExecStatus)
    (c : ProgramCaller)
    → AllForeign nonce es
    → Waits nonce lines c
    → HasAnswer nonce
        (lines ++ lines_of nonce es)
        status
        (wait nonce awake (es ++ arrives (done nonce status) ∷ rest) c)
unfolding lines_of take_event receive wakes ends_receiving
wait-HasAnswer nonce lines awake [] rest status c f w =
    let d = take_event (arrives (done nonce status)) c in
    let steps : wait nonce awake (arrives (done nonce status) ∷ rest) c
        ≡ (ok status, record d { exec_results = remove nonce d.exec_results; events = rest }) =
      wait_on nonce lines awake (arrives (done nonce status)) rest c refl w
      ∙ wait_answered nonce rest status d (get-insert_self nonce status c.exec_results) w.running in
    subst⁻¹ (HasAnswer nonce (lines ++ []) status) steps
      (record { answer = refl; logged = w.logged ∙ ap some (sym (append-nil lines)) })
wait-HasAnswer nonce lines awake (e ∷ es) rest status c (f, fs) w =
    let later = es ++ arrives (done nonce status) ∷ rest in
    let now = lines_of nonce (e ∷ []) in
    let next = take_event e c in
    subst⁻¹ (HasAnswer nonce (lines ++ lines_of nonce (e ∷ es)) status)
      (wait_on nonce lines awake e later c (foreign_received nonce e f) w)
      (subst (λ ls. HasAnswer nonce ls status (wait nonce (wakes e) later next))
        (append_assoc lines now (lines_of nonce es)
          ∙ ap (◌++◌ lines) (sym (lines_of_step nonce e es)))
        (wait-HasAnswer nonce (lines ++ now) (wakes e) es rest status next fs
          (take_event-Waits nonce lines e c f w)))

module _ (env : Natives) where
  serve_answered :
      (sub_call : Call → Calls CallResult) (fuel nonce : ℕ) (call : Call) (lines : List String)
      (return_code : ℕ) (account_datas : Map AccountData) (c : ProgramCaller)
      → c.should_stop ≡ false
      → HasAnswer nonce lines (executed return_code account_datas) (wait_for_exec_status nonce c)
      → (serve env sub_call (suc fuel) nonce call c).0
        ≡ ok (return_code, all_lines env call return_code lines, account_datas)
  unfolding serve on_status check_stop take_lines
  serve_answered sub_call fuel nonce call lines return_code account_datas c running a =
      ground (arith, running, a.answer, a.logged)

  -- A call of a program that is registered and not the native one, with a number that no
  -- result has yet. Before its `Executed` arrives, the caller is not stopped, every message can be
  -- decoded, and nothing else answers the call, which is woken by that message before anything
  -- behind it is taken. Then the return code and the accounts are those of that message, and the
  -- logs are the messages of this call that came before it, in their order, between the two lines
  -- that are added, whatever has arrived for other calls.
  pub call_program_answered :
      (fuel : ℕ) (call : Call) (es rest : List Event) (return_code : ℕ)
      (account_datas : Map AccountData) (sent : List ValidatorMessage) (c : ProgramCaller)
      → call.program_id ≢ env.system_program_id
      → get call.program_id c.comms ≡ some sent
      → c.should_stop ≡ false
      → get c.next_nonce c.exec_results ≡ none
      → c.events ≡ es ++ arrives (done c.next_nonce (executed return_code account_datas)) ∷ rest
      → AllForeign c.next_nonce es
      → (call_program env (suc fuel) call c).0
        ≡ ok (return_code, all_lines env call return_code (lines_of c.next_nonce es), account_datas)
  unfolding call_program fresh_nonce send_to wait_for_exec_status
  call_program_answered fuel call es rest return_code account_datas sent c other there running fresh
        arriving foreign =
      let nonce = c.next_nonce in
      let asked : ProgramCaller = record c {
        next_nonce = (c.next_nonce + 1) % 2 ^ 64;
        comms = insert call.program_id (sent ++ invoke nonce call ∷ []) c.comms;
        exec_logs = insert nonce [] c.exec_logs;
      } in
      let answered : HasAnswer nonce (lines_of nonce es) (executed return_code account_datas)
          (wait_for_exec_status nonce asked) =
        subst⁻¹
          (λ z.
            HasAnswer nonce (lines_of nonce es) (executed return_code account_datas)
              (wait nonce true z asked))
          arriving
          (wait-HasAnswer nonce [] true es rest (executed return_code account_datas) asked foreign
            (record {
              unanswered = fresh;
              running = running;
              logged = get-insert_self nonce [] c.exec_logs;
            })) in
      ground (
        arith,
        other,
        there,
        serve_answered (call_program env fuel) fuel nonce call (lines_of nonce es) return_code
            account_datas asked running answered,
      )
