-- ===== src/Ledger/Commits.antt =====
-- When the execution of instructions and transactions (debug_ledger.rs) changes the ledger.
use Prim.Native.String.{String}
use bokken.Prelude.{
  ℕ, ◌+◌, ◌≡◌, ◌⊎◌, inl, inr, refl, subst, subst⁻¹, Bool, true, false, Option, none, some, List, [],
  ◌∷◌, get_elem?,
}
use bokken.Prelude.Result.{Result, ok, err, ok_or}
use bokken.Prelude.Action.{Action, reads, pure, ◌>>=◌, ◌>>◌}
use bokken.Prelude.Maps.{Map, get, insert}
use bokken.Errors.{BokkenError}
use bokken.Account.{AccountData}
use bokken.Ledger.{
  Fault, failed, panicked, Ledger, Instruction, ReturnChoice, nothing, all, edited, only,
  Environment, account_eq, take_fee, count_signers, only_these, chosen, fault,
}
use bokken.Ledger.Accounts.{Refused, saved_then}
use bokken.Ledger.Execution.{
  save_if, with_file, gather, run_all, save_edited, execute_instructions, to_instructions,
  execute_transaction,
}

-- A result that leaves the ledger `l` as it is.
abbrev pub Same : {A : Type 0} → Ledger → Result Fault A × Ledger → Type 0
Same l p = p.1 ≡ l

-- A result that leaves the ledger `l` as it is if it is an error value, or one of those that `D` holds.
abbrev Kept : {A : Type 0} → (BokkenError → Type 0) → Ledger → Result Fault A × Ledger → Type 0
Kept D l (err (failed e), t) = (t ≡ l) ⊎ D e
Kept D l (err panicked, t) = Unit {0}
Kept D l (ok a, t) = Unit {0}

-- A result that is no error value, or one of those that `D` holds.
abbrev NoError : {A : Type 0} → (BokkenError → Type 0) → Result Fault A → Type 0
NoError D (ok a) = Unit {0}
NoError D (err panicked) = Unit {0}
NoError D (err (failed e)) = D e

pub option_case :
    {A B : Type 0} (C : B → Type 0) (o : Option A) (n : B) (f : A → B)
    → C n
    → ((a : A) → C (f a))
    → C (elim o [ none ↦ n | some a ↦ f a ])
option_case C none n f h k = h
option_case C (some a) n f h k = k a

pub bool_case :
    {B : Type 0} (C : B → Type 0) (b : Bool) (x y : B)
    → C x
    → C y
    → C (elim b [ true ↦ x | false ↦ y ])
bool_case C true x y h k = h
bool_case C false x y h k = k

module _ {A B : Type 0} where
  pub reads-Same :
      (r : Result Fault A) (k : A → Action Ledger Fault B) (l : Ledger)
      → ((a : A) → Same l (k a l))
      → Same l ((reads (λ _. r) >>= k) l)
  reads-Same (ok a) k l h = h a
  reads-Same (err e) k l h = refl

  reads-Kept :
      (D : BokkenError → Type 0) (r : Result Fault A) (k : A → Action Ledger Fault B) (l : Ledger)
      → ((a : A) → Kept D l (k a l))
      → Kept D l ((reads (λ _. r) >>= k) l)
  reads-Kept D (ok a) k l h = h a
  reads-Kept D (err (failed e)) k l h = inl refl
  reads-Kept D (err panicked) k l h = tt

  bind-Same :
      (p : Result Fault A × Ledger) (k : A → Action Ledger Fault B) (l : Ledger)
      → Same l p
      → ((a : A) → Same l (k a l))
      → Same l (
          let q : Result Fault B × Ledger = elim p.0 [ ok a ↦ k a p.1 | err e ↦ (err e, p.1) ] in q)
  bind-Same (ok a, t) k l e h = subst⁻¹ (λ z. Same l (k a z)) e (h a)
  bind-Same (err x, t) k l e h = e

  bind-Kept :
      (D : BokkenError → Type 0) (p : Result Fault A × Ledger) (k : A → Action Ledger Fault B)
      (l : Ledger)
      → NoError D p.0
      → ((a : A) (t : Ledger) → NoError D (k a t).0)
      → Kept D l (
          let q : Result Fault B × Ledger = elim p.0 [ ok a ↦ k a p.1 | err e ↦ (err e, p.1) ] in q)
  bind-Kept D (ok a, t) k l n h = no_error (k a t) (h a t)
    where
      no_error : (q : Result Fault B × Ledger) → NoError D q.0 → Kept D l q
      no_error (ok b, z) c = tt
      no_error (err panicked, z) c = tt
      no_error (err (failed e), z) c = inr c
  bind-Kept D (err panicked, t) k l n h = tt
  bind-Kept D (err (failed e), t) k l n h = inr n

Kept-failed :
    {A : Type 0} (D : BokkenError → Type 0) (p : Result Fault A × Ledger) (l : Ledger)
    (e : BokkenError)
    → Kept D l p
    → p.0 ≡ err (failed e)
    → (p.1 ≡ l) ⊎ D e
Kept-failed D (ok a, t) l e k h = absurd (cc h)
Kept-failed D (err panicked, t) l e k h = absurd (cc h)
Kept-failed D (err (failed x), t) l e k h = subst (λ z. (t ≡ l) ⊎ D z) (cc h) k

only_these-NoError :
    (D : BokkenError → Type 0) (keys : List ℕ) (changed result : Map AccountData)
    → NoError D (only_these keys changed result)
unfolding only_these
only_these-NoError D [] changed result = tt
only_these-NoError D (key ∷ keys) changed result =
    option_case (NoError D) (get key changed) (err panicked)
      (λ account. only_these keys changed (insert key account result)) tt
      (λ account. only_these-NoError D keys changed (insert key account result))

chosen-NoError :
    (D : BokkenError → Type 0) (c : ReturnChoice) (changed result : Map AccountData)
    → NoError D (chosen c changed result)
unfolding chosen
chosen-NoError D nothing changed result = tt
chosen-NoError D all changed result = tt
chosen-NoError D edited changed result = tt
chosen-NoError D (only keys) changed result = only_these-NoError D keys changed []

module _ {Tx : Type 0} (env : Environment Tx) where
  save_edited_dry :
      (olds changed result : Map AccountData) (l : Ledger)
      → Same l (save_edited env false olds changed result l)
  unfolding save_edited save_if
  save_edited_dry [] changed result l = refl
  save_edited_dry ((key, old) ∷ olds) changed result l =
      option_case (Same l) (get key changed) (err panicked, l)
        (λ account. elim (account_eq account old) [
          | true ↦ save_edited env false olds changed result l
          | false ↦ save_edited env false olds changed (insert key account result) l
        ])
        refl
        (λ account.
          bool_case (Same l) (account_eq account old) (save_edited env false olds changed result l)
            (save_edited env false olds changed (insert key account result) l)
            (save_edited_dry olds changed result l)
            (save_edited_dry olds changed (insert key account result) l))

  save_edited-NoError :
      (commit : Bool) (olds changed result : Map AccountData) (l : Ledger)
      → NoError (Refused env l.state.slot) (save_edited env commit olds changed result l).0
  unfolding save_edited with_file save_if
  save_edited-NoError commit [] changed result l = tt
  save_edited-NoError commit ((key, old) ∷ olds) changed result l =
      let C : Result Fault (Map AccountData) × Ledger → Type 0 =
        λ q. NoError (Refused env l.state.slot) q.0 in
      let more : AccountData → Action Ledger Fault (Map AccountData) =
        λ account. save_edited env commit olds changed (insert key account result) in
      option_case C (get key changed) (err panicked, l)
        (λ account. elim (account_eq account old) [
          | true ↦ save_edited env commit olds changed result l
          | false ↦ (save_if env commit key account >> more account) l
        ])
        tt
        (λ account.
          bool_case C (account_eq account old) (save_edited env commit olds changed result l)
            ((save_if env commit key account >> more account) l)
            (save_edited-NoError commit olds changed result l)
            (by_commit commit account (more account)
              (save_edited-NoError commit olds changed (insert key account result) l)
              (save_edited-NoError commit olds changed (insert key account result)
                (with_file env key account l))))
    where
      by_commit :
          (b : Bool) (account : AccountData) (m : Action Ledger Fault (Map AccountData))
          → NoError (Refused env l.state.slot) (m l).0
          → NoError (Refused env l.state.slot) (m (with_file env key account l)).0
          → NoError (Refused env l.state.slot) ((save_if env b key account >> m) l).0
      by_commit false account m h k = h
      by_commit true account m h k =
          saved_then env (λ q. NoError (Refused env l.state.slot) q.0) key account l m
            (λ e refused. (key, e, refused, refl)) (λ _. k)

  module _ (fee_payer : ℕ) (ixs : List Instruction) (choice : ReturnChoice) (commit : Bool) where
    -- What is left of `execute_instructions` after each of its steps.
    abbrev pub to_choose :
        List String
        → Map AccountData
        → Map AccountData
        → Action Ledger Fault (Map AccountData × List String)
    to_choose log changed es =
        reads (λ _. chosen choice changed es) >>= λ result. pure (result, log)

    abbrev pub to_save :
        Map AccountData
        → List String × Map AccountData
        → Action Ledger Fault (Map AccountData × List String)
    to_save datas p = save_edited env commit datas p.1 [] >>= to_choose p.0 p.1

    abbrev pub to_run :
        Map AccountData → Map AccountData → Action Ledger Fault (Map AccountData × List String)
    to_run datas charged = reads (λ _. run_all env 0 ixs [] charged) >>= to_save datas

    abbrev pub to_charge : Map AccountData → Action Ledger Fault (Map AccountData × List String)
    to_charge datas =
        reads (λ _. take_fee fee_payer (count_signers fee_payer ixs) datas) >>= to_run datas

  -- Instructions that are only simulated leave the ledger as it is, whatever comes out.
  pub execute_instructions_dry :
      (fee_payer : ℕ) (ixs : List Instruction) (choice : ReturnChoice) (clock : Option (ℕ × ℕ))
      (l : Ledger)
      → (execute_instructions env fee_payer ixs choice clock false l).1 ≡ l
  unfolding execute_instructions
  execute_instructions_dry fee_payer ixs choice clock l =
      reads-Same (fault (gather env fee_payer ixs clock l).0) (to_charge fee_payer ixs choice false)
        l
        (λ datas.
          reads-Same (take_fee fee_payer (count_signers fee_payer ixs) datas)
            (to_run fee_payer ixs choice false datas) l
            (λ charged.
              reads-Same (run_all env 0 ixs [] charged) (to_save fee_payer ixs choice false datas) l
                (λ p.
                  bind-Same (save_edited env false datas p.1 [] l)
                    (to_choose fee_payer ixs choice false p.0 p.1) l
                    (save_edited_dry datas p.1 [] l)
                    (λ es.
                      reads-Same (chosen choice p.1 es) (λ result. pure (result, p.0)) l
                        (λ _. refl)))))

  execute_instructions-Kept :
      (fee_payer : ℕ) (ixs : List Instruction) (choice : ReturnChoice) (clock : Option (ℕ × ℕ))
      (commit : Bool) (l : Ledger)
      → Kept
          (Refused env l.state.slot)
          l
          (execute_instructions env fee_payer ixs choice clock commit l)
  unfolding execute_instructions
  execute_instructions-Kept fee_payer ixs choice clock commit l =
      reads-Kept (Refused env l.state.slot) (fault (gather env fee_payer ixs clock l).0)
        (to_charge fee_payer ixs choice commit) l
        (λ datas.
          reads-Kept (Refused env l.state.slot)
            (take_fee fee_payer (count_signers fee_payer ixs) datas)
            (to_run fee_payer ixs choice commit datas) l
            (λ charged.
              reads-Kept (Refused env l.state.slot) (run_all env 0 ixs [] charged)
                (to_save fee_payer ixs choice commit datas) l
                (λ p.
                  bind-Kept (Refused env l.state.slot) (save_edited env commit datas p.1 [] l)
                    (to_choose fee_payer ixs choice commit p.0 p.1) l
                    (save_edited-NoError commit datas p.1 [] l)
                    (λ es t.
                      chosen_end p.0 (chosen choice p.1 es) t
                        (chosen-NoError (Refused env l.state.slot) choice p.1 es)))))
    where
      chosen_end :
          (log : List String) (r : Result Fault (Map AccountData)) (t : Ledger)
          → NoError (Refused env l.state.slot) r
          → NoError (Refused env l.state.slot) (
              let q : Result Fault (Map AccountData × List String) × Ledger =
                (reads (λ _. r) >>= λ result. pure (result, log)) t in
              q.0)
      chosen_end log (ok a) t n = tt
      chosen_end log (err panicked) t n = tt
      chosen_end log (err (failed e)) t n = n

  -- Instructions that end in an error value leave the ledger as it is, also if they were to be
  -- committed, unless the error is one with which the disk refuses the file of some account for the
  -- slot of the ledger.
  pub execute_instructions_failed :
      (fee_payer : ℕ) (ixs : List Instruction) (choice : ReturnChoice) (clock : Option (ℕ × ℕ))
      (commit : Bool) (l : Ledger) (e : BokkenError)
      → (execute_instructions env fee_payer ixs choice clock commit l).0 ≡ err (failed e)
      → ((execute_instructions env fee_payer ixs choice clock commit l).1 ≡ l)
        ⊎ Refused env l.state.slot e
  execute_instructions_failed fee_payer ixs choice clock commit l e =
      Kept-failed (Refused env l.state.slot)
        (execute_instructions env fee_payer ixs choice clock commit l) l e
        (execute_instructions-Kept fee_payer ixs choice clock commit l)

  -- A transaction that is only simulated leaves the ledger as it is, whatever comes out.
  pub execute_transaction_dry : (tx : Tx) (l : Ledger) → (execute_transaction env tx false l).1 ≡ l
  unfolding execute_transaction
  execute_transaction_dry tx l =
      let clock = some (l.state.slot + 1, env.now) in
      reads-Same (ok_or (to_instructions env tx (env.instructions tx)) panicked)
        (λ ixs. reads (λ _. ok_or (get_elem? (env.account_keys tx) 0) panicked) >>= λ payer.
          execute_instructions env payer ixs nothing clock false >>= λ _. pure tt)
        l
        (λ ixs.
          reads-Same (ok_or (get_elem? (env.account_keys tx) 0) panicked)
            (λ payer. execute_instructions env payer ixs nothing clock false >>= λ _. pure tt) l
            (λ payer.
              bind-Same (execute_instructions env payer ixs nothing clock false l) (λ _. pure tt) l
                (execute_instructions_dry payer ixs nothing clock l) (λ _. refl)))
