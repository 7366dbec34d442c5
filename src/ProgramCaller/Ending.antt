-- ===== src/ProgramCaller/Ending.antt =====
-- The calls of program_caller.rs end: a call takes at most one round for each message that is there
-- or that still arrives.
use Prim.Native.String.{String}
use bokken.Prelude.{
  ℕ, zero, suc, ◌+◌, ◌≡◌, ◌≤◌, ◌<◌, ◌≢◌, refl, Bool, true, false, Option, none, some, List, [], ◌∷◌,
  ◌++◌, ◌%◌, ◌^◌, subst, length, arith, ◌==◌, if◌then◌else◌,
}
use bokken.Prelude.Result.{Result, ok, err}
use bokken.Prelude.Action.{pure, modify, ◌>>=◌, ◌>>◌}
use bokken.Prelude.Post.{by_bool, by_if, by_option}
use bokken.Prelude.Maps.{Map, get, insert, remove}
use bokken.Errors.{stopping, program_closed_connection}
use bokken.ProgramCaller.{
  Call, ExecStatus, executed, cpi, CallResult, on_status, log, done, Event, arrives, registers,
  stop, ProgramCaller, Failure, failed, out_of_fuel, Calls, add_lines, receive, take_event,
  ends_receiving, garbled, wakes, check_status, wait, wait_for_exec_status, send_to, fresh_nonce,
  take_lines, check_stop, ValidatorMessage, invoke, cross_program_invoke_result, run_native,
  all_lines, Natives, serve, call_program,
}

length-insert : {V : Type 0} (k : ℕ) (v : V) (m : Map V) → length (insert k v m) ≤ suc (length m)
unfolding insert
length-insert k v [] = omega arith
length-insert k v ((j, w) ∷ m) = ground (arith, length-insert k v m)

length-remove : {V : Type 0} (k : ℕ) (m : Map V) → length (remove k m) ≤ length m
unfolding remove
length-remove k [] = omega arith
length-remove k ((j, w) ∷ m) = ground (arith, length-remove k m)

length-remove_present :
    {V : Type 0} (k : ℕ) (v : V) (m : Map V) → get k m ≡ some v → length (remove k m) < length m
unfolding remove get
length-remove_present k v [] e = ground arith
length-remove_present k v ((j, w) ∷ m) e =
    ground (arith, length-remove k m, length-remove_present k v m)

-- What is there and what still arrives.
unfoldable pub pending : ProgramCaller → ℕ
pending c = length c.exec_results + length c.events

-- A result that is not cut off, and that leaves fewer than `n` messages pending.
abbrev pub Within : {A : Type 0} → ℕ → Result Failure A × ProgramCaller → Type 0
Within n (ok a, t) = pending t < n
Within n (err (failed e), t) = Unit {0}
Within n (err out_of_fuel, t) = ⊥

Within-le :
    {A : Type 0} (n k : ℕ) (q : Result Failure A × ProgramCaller) → n ≤ k → Within n q → Within k q
Within-le n k (ok a, t) le h = omega (arith, le, h)
Within-le n k (err (failed e), t) le h = tt
Within-le n k (err out_of_fuel, t) le h = h

module _ {A B : Type 0} where
  bind-Within :
      (n k : ℕ) (q : Result Failure A × ProgramCaller) (f : A → Calls B)
      → Within n q
      → ((a : A) (t : ProgramCaller) → pending t < n → Within k (f a t))
      → Within k (
          let p : Result Failure B × ProgramCaller = elim q.0 [
            | ok a ↦ f a q.1
            | err e ↦ (err e, q.1)
          ] in
          p)
  bind-Within n k (ok a, t) f h g = g a t h
  bind-Within n k (err (failed e), t) f h g = tt
  bind-Within n k (err out_of_fuel, t) f h g = absurd h

length-take_event :
    (e : Event) (c : ProgramCaller)
    → length (take_event e c).exec_results ≤ suc (length c.exec_results)
unfolding take_event receive add_lines
length-take_event (arrives (log n m)) c =
    by_option (λ d. length d.exec_results ≤ suc (length c.exec_results)) (get n c.exec_logs) c _
      (λ _. omega arith) (λ _ _. omega arith)
length-take_event (arrives (done n s)) c = length-insert n s c.exec_results
length-take_event garbled c = omega arith
length-take_event (registers k) c = omega arith
length-take_event stop c = omega arith

-- What `check_status` finds is gone.
abbrev CheckedLess : (n : ℕ) → Option (Result Failure ExecStatus × ProgramCaller) → Type 0
CheckedLess n none = Unit {0}
CheckedLess n (some (ok s, t)) = length t.exec_results < n
CheckedLess n (some (err (failed e), t)) = Unit {0}
CheckedLess n (some (err out_of_fuel, t)) = ⊥

check_status-CheckedLess :
    (nonce : ℕ) (c : ProgramCaller) → CheckedLess (length c.exec_results) (check_status nonce c)
unfolding check_status
check_status-CheckedLess nonce c =
    let found : ExecStatus → Option (Result Failure ExecStatus × ProgramCaller) =
      λ status. some (ok status, record c { exec_results = remove nonce c.exec_results }) in
    by_if (CheckedLess (length c.exec_results)) c.should_stop (some (err (failed stopping), c))
      (elim (get nonce c.exec_results) [ none ↦ none | some status ↦ found status ]) (λ _. tt)
      (λ _.
        by_option (CheckedLess (length c.exec_results)) (get nonce c.exec_results) none found
          (λ _. tt) (λ status e. length-remove_present nonce status c.exec_results e))

woken-CheckedLess :
    (nonce : ℕ) (awake : Bool) (c : ProgramCaller)
    → CheckedLess (length c.exec_results) (if awake then check_status nonce c else none)
woken-CheckedLess nonce true c = check_status-CheckedLess nonce c
woken-CheckedLess nonce false c = tt

CheckedLess-Within :
    (k n : ℕ) (es : List Event) (r : Result Failure ExecStatus × ProgramCaller)
    → CheckedLess k (some r)
    → k + length es ≤ n
    → Within n (r.0, record r.1 { events = es })
unfolding pending
CheckedLess-Within k n es (ok s, t) h le = omega (arith, h, le)
CheckedLess-Within k n es (err (failed e), t) h le = tt
CheckedLess-Within k n es (err out_of_fuel, t) h le = h

wait-Within :
    (nonce n : ℕ) (awake : Bool) (es : List Event) (c : ProgramCaller)
    → length c.exec_results + length es ≤ n
    → Within n (wait nonce awake es c)
unfolding wait
wait-Within nonce n awake [] c le =
    let o = if awake then check_status nonce c else none in
    by_option (Within n) o (err (failed program_closed_connection), record c { events = [] })
      (λ r. (r.0, record r.1 { events = [] })) (λ _. tt)
      (λ r e.
        CheckedLess-Within (length c.exec_results) n [] r
          (subst (CheckedLess (length c.exec_results)) e (woken-CheckedLess nonce awake c)) le)
wait-Within nonce n awake (e ∷ es) c le =
    let o = if awake then check_status nonce c else none in
    by_option (Within n) o
      (elim (ends_receiving e) [
        | true ↦ (err (failed program_closed_connection), record c { events = e ∷ es })
        | false ↦ wait nonce (wakes e) es (take_event e c)
      ])
      (λ r. (r.0, record r.1 { events = e ∷ es }))
      (λ _.
        by_bool (Within n) (ends_receiving e)
          (err (failed program_closed_connection), record c { events = e ∷ es })
          (wait nonce (wakes e) es (take_event e c)) (λ _. tt)
          (λ _.
            wait-Within nonce n (wakes e) es (take_event e c)
              (omega (arith, le, length-take_event e c))))
      (λ r f.
        CheckedLess-Within (length c.exec_results) n (e ∷ es) r
          (subst (CheckedLess (length c.exec_results)) f (woken-CheckedLess nonce awake c)) le)

wait_for_exec_status-Within :
    (nonce n : ℕ) (c : ProgramCaller) → pending c ≤ n → Within n (wait_for_exec_status nonce c)
unfolding wait_for_exec_status pending
wait_for_exec_status-Within nonce n c le = wait-Within nonce n true c.events c le

send_to-Within :
    (program_id : ℕ) (message : ValidatorMessage) (c : ProgramCaller)
    → Within (suc (pending c)) (send_to program_id message c)
unfolding send_to pending
send_to-Within program_id message c =
    by_option (Within (suc (pending c))) (get program_id c.comms) _ _ (λ _. tt)
      (λ sent _. omega arith)

take_lines-Within : (nonce : ℕ) (c : ProgramCaller) → Within (suc (pending c)) (take_lines nonce c)
unfolding take_lines pending
take_lines-Within nonce c =
    by_option (Within (suc (pending c))) (get nonce c.exec_logs)
      (ok [], record c { exec_logs = remove nonce c.exec_logs })
      (λ lines. (ok lines, record c { exec_logs = remove nonce c.exec_logs })) (λ _. omega arith)
      (λ lines _. omega arith)

check_stop-Within : (c : ProgramCaller) → Within (suc (pending c)) (check_stop c)
unfolding check_stop
check_stop-Within c =
    by_if (λ r. Within (suc (pending c)) (r, c)) c.should_stop (err (failed stopping)) (ok tt)
      (λ _. tt) (λ _. omega arith)

pending-add_lines :
    (nonce : ℕ) (lines : List String) (c : ProgramCaller)
    → pending (add_lines nonce lines c) ≡ pending c
unfolding add_lines pending
pending-add_lines nonce lines c =
    by_option (λ d. pending d ≡ pending c) (get nonce c.exec_logs) c
      (λ logs. record c { exec_logs = insert nonce (logs ++ lines) c.exec_logs }) (λ _. refl)
      (λ _ _. refl)

module _ (env : Natives) where
  module _ (sub_call : Call → Calls CallResult) (bound : ℕ)
      (sub_ends : (call : Call) (c : ProgramCaller)
        → pending c < bound
        → Within (suc (pending c)) (sub_call call c)) where
    on_status-Within :
        (again : Calls CallResult) (nonce : ℕ) (call : Call) (n : ℕ)
        → ((c : ProgramCaller) → pending c < n → Within n (again c))
        → n ≤ bound
        → (status : ExecStatus) (c : ProgramCaller) → pending c < n
        → Within n (on_status env sub_call again nonce call status c)
    unfolding on_status
    on_status-Within again nonce call n ends le (executed return_code account_datas) c lt =
        bind-Within (suc (pending c)) n (take_lines nonce c)
          (λ lines. pure (return_code, all_lines env call return_code lines, account_datas))
          (take_lines-Within nonce c) (λ lines t less. omega arith)
    on_status-Within again nonce call n ends le (cpi sub) c lt =
        let deeper = record sub { call_depth = (sub.call_depth + 1) % 2 ^ 8 } in
        let reply : CallResult → Calls (Unit {0}) =
          λ r. send_to call.program_id (cross_program_invoke_result nonce r.0 r.2) in
        bind-Within (suc (pending c)) n (sub_call deeper c)
          (λ r. modify (add_lines nonce r.1) >> (reply r >> again))
          (sub_ends deeper c (omega arith))
          (λ r t less.
            let u = add_lines nonce r.1 t in
            bind-Within (suc (pending u)) n (reply r u) (λ _. again)
              (send_to-Within call.program_id (cross_program_invoke_result nonce r.0 r.2) u)
              (λ _ v small. ends v (omega (arith, pending-add_lines nonce r.1 t))))

    serve-Within :
        (fuel nonce : ℕ) (call : Call) (c : ProgramCaller) (n : ℕ)
        → pending c < fuel
        → pending c < n
        → pending c ≤ bound
        → Within n (serve env sub_call fuel nonce call c)
    unfolding serve
    serve-Within zero nonce call c n lt small le = absurd (omega (arith, lt))
    serve-Within (suc fuel) nonce call c n lt small le =
        let next = on_status env sub_call (serve env sub_call fuel nonce call) nonce call in
        bind-Within (suc (pending c)) n (check_stop c) (λ _. wait_for_exec_status nonce >>= next)
          (check_stop-Within c)
          (λ _ d few.
            bind-Within (pending d) n (wait_for_exec_status nonce d) next
              (wait_for_exec_status-Within nonce (pending d) d (omega arith))
              (λ status t less. Within-le (pending d) n (next status t) (omega arith) (
                on_status-Within (serve env sub_call fuel nonce call) nonce call (pending d)
                  (λ v h. serve-Within fuel nonce call v (pending d) (omega arith) h (omega arith))
                  (omega arith) status t less)))

  call_program-Within :
      (fuel : ℕ) (call : Call) (c : ProgramCaller)
      → pending c < fuel
      → Within (suc (pending c)) (call_program env fuel call c)
  unfolding call_program pending fresh_nonce
  call_program-Within zero call c lt = absurd (omega (arith, lt))
  call_program-Within (suc fuel) call c lt =
      by_bool (λ m. Within (suc (pending c)) (m c)) (call.program_id == env.system_program_id)
        (λ c. let r = run_native env call in (ok r, record c { native_logs = r.1 }))
        (fresh_nonce >>= ask) (λ _. (omega arith))
        (λ _.
          bind-Within (suc (pending c)) (suc (pending c)) (fresh_nonce c) ask (omega arith)
            (λ nonce d few.
              bind-Within (suc (pending d)) (suc (pending c))
                (send_to call.program_id (invoke nonce call) d) (λ _. to_serve nonce)
                (send_to-Within call.program_id (invoke nonce call) d)
                (λ _ e fewer.
                  serve-Within (call_program env fuel) fuel (call_program-Within fuel) (suc fuel)
                    nonce call (record e { exec_logs = insert nonce [] e.exec_logs })
                    (suc (pending c)) (omega arith) (omega arith) (omega arith))))
    where
      to_serve : ℕ → Calls CallResult
      to_serve nonce =
          modify (λ c. record c { exec_logs = insert nonce [] c.exec_logs })
          >> serve env (call_program env fuel) (suc fuel) nonce call

      ask : ℕ → Calls CallResult
      ask nonce = send_to call.program_id (invoke nonce call) >> to_serve nonce

  -- With more fuel than there are messages, waiting or still to arrive, a call returns a result or
  -- an error value of the code: it is not cut off, and no call that it makes is.
  pub call_program_ends :
      (fuel : ℕ) (call : Call) (c : ProgramCaller)
      → pending c < fuel
      → (call_program env fuel call c).0 ≢ err out_of_fuel
  call_program_ends fuel call c lt =
      not_cut (call_program env fuel call c) (call_program-Within fuel call c lt)
    where
      not_cut :
          (q : Result Failure CallResult × ProgramCaller)
          → Within (suc (pending c)) q
          → q.0 ≢ err out_of_fuel
      not_cut (ok a, t) h e = ground arith
      not_cut (err (failed x), t) h e = ground arith
      not_cut (err out_of_fuel, t) h e = h
