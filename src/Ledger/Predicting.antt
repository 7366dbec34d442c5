-- ===== src/Ledger/Predicting.antt =====
-- A simulated run of instructions (debug_ledger.rs) says what a committed one leaves on disk.
use Prim.Native.String.{String}
use bokken.Prelude.{
  ℕ, ◌≡◌, ◌⊎◌, inl, inr, refl, ap, ◌∙◌, subst, subst⁻¹, Bool, true, false, Option, none, some, List,
  [], ◌∷◌,
}
use bokken.Prelude.Result.{Result, ok, err}
use bokken.Prelude.Action.{Action, reads, pure, ◌>>=◌}
use bokken.Prelude.Post.{Post, bind_post}
use bokken.Prelude.Maps.{Map, get, insert}
use bokken.Errors.{BokkenError, io}
use bokken.Account.{AccountData}
use bokken.Ledger.{
  Fault, failed, panicked, Ledger, Instruction, ReturnChoice, all, Environment, account_eq,
  take_fee, count_signers, chosen, fault,
}
use bokken.Ledger.Accounts.{Refused, saved_then}
use bokken.Ledger.Execution.{with_file, save_if, run_all, save_edited, gather, execute_instructions}
use bokken.Ledger.Commits.{to_choose, to_save, to_run, to_charge}
use bokken.Ledger.Gathering.{reads_ok}
use bokken.Ledger.Slots.{reads_then}

-- The first result is the second, or an error that `D` holds.
abbrev pub Agree : (BokkenError → Type 0) → {A : Type 0} → Result Fault A → Result Fault A → Type 0
Agree D x y = (x ≡ y) ⊎ ((e : BokkenError) × (x ≡ err (failed e)) × D e)

module _ {A B S : Type 0} where
  pub reads_known :
      (a : A) (r : Result Fault A) (f : A → Action S Fault B) (s : S) (Q : B → S → Type 0)
      → r ≡ ok a
      → Post (f a) s Q
      → Post (reads (λ _. r) >>= f) s Q
  reads_known a r f s Q e h = subst⁻¹ (λ x. Post (reads (λ _. x) >>= f) s Q) e h

  -- A read that is part of a run that succeeds has succeeded.
  reads_inv :
      (r : Result Fault A) (f : A → Action S Fault B) (s : S) (b : B)
      → ((reads (λ _. r) >>= f) s).0 ≡ ok b
      → (a : A) × (r ≡ ok a) × ((f a s).0 ≡ ok b)
  reads_inv (ok a) f s b e = (a, refl, e)
  reads_inv (err x) f s b e = absurd (cc e)

  -- The values of two runs agree if the rests agree.
  reads-Agree :
      (D : BokkenError → Type 0) (r : Result Fault A) (f g : A → Action S Fault B) (s : S)
      → ((a : A) → Agree D (f a s).0 (g a s).0)
      → Agree D ((reads (λ _. r) >>= f) s).0 ((reads (λ _. r) >>= g) s).0
  reads-Agree D (ok a) f g s h = h a
  reads-Agree D (err x) f g s h = inl refl

module _ {R S : Type 0} (Both : R → R → Type 0) where
  option_agree :
      {A : Type 0} (o : Option A) (m n : R × S) (f g : A → R × S)
      → Both m.0 n.0
      → ((a : A) → Both (f a).0 (g a).0)
      → Both
          (elim o as (λ _. R × S) [ none ↦ m | some a ↦ f a ]).0
          (elim o as (λ _. R × S) [ none ↦ n | some a ↦ g a ]).0
  option_agree none m n f g h k = h
  option_agree (some a) m n f g h k = k a

  bool_agree :
      (b : Bool) (m n p q : R × S)
      → Both m.0 p.0
      → Both n.0 q.0
      → Both
          (elim b as (λ _. R × S) [ true ↦ m | false ↦ n ]).0
          (elim b as (λ _. R × S) [ true ↦ p | false ↦ q ]).0
  bool_agree true m n p q h k = h
  bool_agree false m n p q h k = k

with_log : List String → Map AccountData → Action Ledger Fault (Map AccountData × List String)
with_log log result = pure (result, log)

chosen_agree :
    (r : Result Fault (Map AccountData)) (log : List String) (t u : Ledger)
    → ((reads (λ _. r) >>= with_log log) t).0 ≡ ((reads (λ _. r) >>= with_log log) u).0
unfolding with_log
chosen_agree (ok a) log t u = refl
chosen_agree (err e) log t u = refl

fault_ok : {A : Type 0} (r : Result BokkenError A) (a : A) → fault r ≡ ok a → r ≡ ok a
unfolding fault
fault_ok (ok x) a e = cc e
fault_ok (err x) a e = absurd (cc e)

module _ {Tx : Type 0} (env : Environment Tx) where
  -- What the loop over the accounts returns does not depend on what it saves, unless the disk
  -- refuses that.
  pub save_edited-Agree :
      (olds changed result : Map AccountData) (l k : Ledger)
      → Agree
          (Refused env l.state.slot)
          (save_edited env true olds changed result l).0
          (save_edited env false olds changed result k).0
  unfolding save_edited save_if with_file
  save_edited-Agree [] changed result l k = inl refl
  save_edited-Agree ((key, old) ∷ olds) changed result l k =
      let D = Refused env l.state.slot in
      option_agree (Agree D) (get key changed) (err panicked, l) (err panicked, k) _ _ (inl refl)
        (λ account.
          bool_agree (Agree D) (account_eq account old) _ _ _ _
            (save_edited-Agree olds changed result l k)
            (saved_then env
              (λ q.
                Agree D q.0 (save_edited env false olds changed (insert key account result) k).0)
              key account l (save_edited env true olds changed (insert key account result))
              (λ e refused. inr (io e, refl, (key, e, refused, refl)))
              (λ _.
                save_edited-Agree olds changed (insert key account result)
                  (with_file env key account l) k)))

  -- Committed instructions return what they return when they are simulated, or end in an error of
  -- the disk, which refuses the file of some account for the slot of the ledger.
  pub execute_instructions_simulated :
      (payer : ℕ) (ixs : List Instruction) (choice : ReturnChoice) (clock : Option (ℕ × ℕ))
      (l : Ledger)
      → ((execute_instructions env payer ixs choice clock true l).0
          ≡ (execute_instructions env payer ixs choice clock false l).0)
        ⊎ ((e : BokkenError) × ((execute_instructions env payer ixs choice clock true l).0
              ≡ err (failed e))
            × Refused env l.state.slot e)
  unfolding execute_instructions with_log
  execute_instructions_simulated payer ixs choice clock l =
      let D = Refused env l.state.slot in
      reads-Agree D (fault (gather env payer ixs clock l).0) (to_charge env payer ixs choice true)
        (to_charge env payer ixs choice false) l
        (λ datas.
          reads-Agree D (take_fee payer (count_signers payer ixs) datas)
            (to_run env payer ixs choice true datas) (to_run env payer ixs choice false datas) l
            (λ charged.
              reads-Agree D (run_all env 0 ixs [] charged) (to_save env payer ixs choice true datas)
                (to_save env payer ixs choice false datas) l
                (λ p.
                  saved_agree choice p (save_edited env true datas p.1 [] l)
                    (save_edited env false datas p.1 [] l) (save_edited-Agree datas p.1 [] l l))))
    where
      saved_agree :
          (choice : ReturnChoice) (p : List String × Map AccountData)
          (q r : Result Fault (Map AccountData) × Ledger)
          → Agree (Refused env l.state.slot) q.0 r.0
          → Agree
              (Refused env l.state.slot)
              (let x : Result Fault (Map AccountData × List String) × Ledger = elim q.0 [
                | ok es ↦ to_choose env payer ixs choice true p.0 p.1 es q.1
                | err e ↦ (err e, q.1)
              ] in
                x.0)
              (let x : Result Fault (Map AccountData × List String) × Ledger = elim r.0 [
                | ok es ↦ to_choose env payer ixs choice false p.0 p.1 es r.1
                | err e ↦ (err e, r.1)
              ] in
                x.0)
      saved_agree choice p (ok a, t) (ok b, u) (inl e) = inl (
          subst
            (λ z.
              (to_choose env payer ixs choice true p.0 p.1 a t).0
              ≡ (to_choose env payer ixs choice false p.0 p.1 z u).0)
            (cc e) (chosen_agree (chosen choice p.1 a) p.0 t u))
      saved_agree choice p (ok a, t) (err x, u) (inl e) = absurd (cc e)
      saved_agree choice p (err x, t) (ok b, u) (inl e) = absurd (cc e)
      saved_agree choice p (err x, t) (err y, u) (inl e) = inl (ap err (cc e))
      saved_agree choice p (ok a, t) r (inr (e, h, d)) = absurd (cc h)
      saved_agree choice p (err x, t) r (inr (e, h, d)) = inr (e, ap err (cc h), d)

  -- What a run has read, taken and computed that returns the accounts and the logs of `r`.
  pub record Ran (payer : ℕ) (ixs : List Instruction) (clock : Option (ℕ × ℕ)) (l : Ledger)
      (r : Map AccountData × List String) : Type 0 where
    pub datas : Map AccountData
    pub charged : Map AccountData
    pub gathers : (gather env payer ixs clock l).0 ≡ ok datas
    pub charges : take_fee payer (count_signers payer ixs) datas ≡ ok charged
    pub runs : run_all env 0 ixs [] charged ≡ ok (r.1, r.0)
    pub edited : Map AccountData
    pub saves : (save_edited env false datas r.0 [] l).0 ≡ ok edited

  saved_inv :
      (payer : ℕ) (ixs : List Instruction) (log : List String) (changed : Map AccountData)
      (q : Result Fault (Map AccountData) × Ledger) (r : Map AccountData × List String)
      → (let x : Result Fault (Map AccountData × List String) × Ledger = elim q.0 [
        | ok es ↦ to_choose env payer ixs all false log changed es q.1
        | err e ↦ (err e, q.1)
      ] in
          x.0)
        ≡ ok r
      → ((changed, log) ≡ r) × (es : Map AccountData) × (q.0 ≡ ok es)
  unfolding chosen
  saved_inv payer ixs log changed (ok es, t) r e = (cc e, es, refl)
  saved_inv payer ixs log changed (err x, t) r e = absurd (cc e)

  pub Ran-of :
      (payer : ℕ) (ixs : List Instruction) (clock : Option (ℕ × ℕ)) (l : Ledger)
      (r : Map AccountData × List String)
      → (execute_instructions env payer ixs all clock false l).0 ≡ ok r
      → Ran payer ixs clock l r
  unfolding execute_instructions
  Ran-of payer ixs clock l r e =
      let (datas, g, e1) =
        reads_inv (fault (gather env payer ixs clock l).0) (to_charge env payer ixs all false) l r
          e in
      let (charged, c, e2) =
        reads_inv (take_fee payer (count_signers payer ixs) datas)
          (to_run env payer ixs all false datas) l r e1 in
      let (p, x, e3) =
        reads_inv (run_all env 0 ixs [] charged) (to_save env payer ixs all false datas) l r e2 in
      let (same, es, saved) =
        saved_inv payer ixs p.0 p.1 (save_edited env false datas p.1 [] l) r e3 in
      record {
        datas = datas;
        charged = charged;
        gathers = fault_ok (gather env payer ixs clock l).0 datas g;
        charges = c;
        runs = x ∙ ap (λ (m : Map AccountData × List String). ok (m.1, m.0)) same;
        edited = es;
        saves =
            subst
              (λ (m : Map AccountData × List String).
                (save_edited env false datas m.0 [] l).0 ≡ ok es)
              same saved;
      }

  -- The committed run takes the same steps, up to what it saves.
  pub Ran-post :
      (payer : ℕ) (ixs : List Instruction) (choice : ReturnChoice) (clock : Option (ℕ × ℕ))
      (l : Ledger) (r : Map AccountData × List String) (ran : Ran payer ixs clock l r)
      (P : Map AccountData → Ledger → Type 0) (Q : Map AccountData × List String → Ledger → Type 0)
      → Post (save_edited env true ran.datas r.0 []) l P
      → ((es : Map AccountData) (t : Ledger) (result : Map AccountData)
          → P es t
          → Q (result, r.1) t)
      → Post (execute_instructions env payer ixs choice clock true) l Q
  unfolding execute_instructions
  Ran-post payer ixs choice clock l r ran P Q saves ends =
      reads_ok ran.datas (gather env payer ixs clock l).0 (to_charge env payer ixs choice true) l Q
        ran.gathers
        (reads_known ran.charged (take_fee payer (count_signers payer ixs) ran.datas)
          (to_run env payer ixs choice true ran.datas) l Q ran.charges
          (reads_known (r.1, r.0) (run_all env 0 ixs [] ran.charged)
            (to_save env payer ixs choice true ran.datas) l Q ran.runs
            (bind_post (save_edited env true ran.datas r.0 [])
              (to_choose env payer ixs choice true r.1 r.0) l P Q saves
              (λ es t h.
                reads_then (chosen choice r.0 es) (λ result. pure (result, r.1)) t Q
                  (λ result. ends es t result h)))))
