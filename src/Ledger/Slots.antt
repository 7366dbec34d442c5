-- ===== src/Ledger/Slots.antt =====
-- What a committed transaction (debug_ledger.rs) does after its instructions, and what saving keeps.
use Prim.Native.String.{String}
use bokken.Prelude.{ℕ, ◌≡◌, refl, ◌∙◌, true, Bool, List, [], ◌∷◌, get_elem?, false}
use bokken.Prelude.Result.{Result, ok, err, ok_or}
use bokken.Prelude.Action.{Action, reads, ◌>>=◌, ◌>>◌}
use bokken.Prelude.Post.{Post, PostOf}
use bokken.Errors.{io}
use bokken.Prelude.Post.{bind_all}
use bokken.Prelude.Maps.{Map, get, insert}
use bokken.Account.{AccountData}
use bokken.Ledger.{Fault, failed, panicked, Ledger, Environment, account_eq}
use bokken.Ledger.Execution.{
  with_file, save_account, save_if, save_edited, index_transaction, record_block,
}
use bokken.Ledger.Commits.{option_case, bool_case}

pub reads_then :
    {A B : Type 0} (r : Result Fault A) (k : A → Action Ledger Fault B) (l : Ledger)
    (Q : B → Ledger → Type 0)
    → ((a : A) → Post (k a) l Q)
    → Post (reads (λ _. r) >>= k) l Q
reads_then (ok a) k l Q h = h a
reads_then (err e) k l Q h = tt

pub post_of :
    {A : Type 0} (p : Result Fault A × Ledger) (Q : A → Ledger → Type 0)
    → ((a : A) → Q a p.1)
    → PostOf p Q
post_of (ok a, t) Q h = h a
post_of (err e, t) Q h = tt

module _ {Tx : Type 0} (env : Environment Tx) where
  save_if_keeps :
      {A : Type 0} (part : Ledger → A)
      (keeps : (key : ℕ) (account : AccountData) (m : Ledger)
        → part (with_file env key account m) ≡ part m)
      (commit : Bool) (key : ℕ) (account : AccountData) (l : Ledger)
      → part (save_if env commit key account l).1 ≡ part l
  unfolding save_if save_account
  save_if_keeps part keeps false key account l = refl
  save_if_keeps part keeps true key account l =
      option_case (λ (q : Result Fault (Unit {0}) × Ledger). part q.1 ≡ part l)
        (env.refuses key l.state.slot) (ok tt, with_file env key account l)
        (λ e. (err (failed (io e)), l)) (keeps key account l) (λ _. refl)

  -- What the file of an account keeps, the loop keeps.
  pub save_edited_keeps :
      {A : Type 0} (part : Ledger → A)
      (keeps : (key : ℕ) (account : AccountData) (m : Ledger)
        → part (with_file env key account m) ≡ part m)
      (commit : Bool) (olds changed result : Map AccountData) (l : Ledger)
      → part (save_edited env commit olds changed result l).1 ≡ part l
  unfolding save_edited
  save_edited_keeps part keeps commit [] changed result l = refl
  save_edited_keeps part keeps commit ((key, old) ∷ olds) changed result l =
      let C : Result Fault (Map AccountData) × Ledger → Type 0 = λ q. part q.1 ≡ part l in
      let more : AccountData → Action Ledger Fault (Map AccountData) =
        λ account. save_edited env commit olds changed (insert key account result) in
      let rest = save_edited_keeps part keeps commit olds changed in
      option_case C (get key changed) (err panicked, l)
        (λ account. elim (account_eq account old) [
          | true ↦ save_edited env commit olds changed result l
          | false ↦ (save_if env commit key account >> more account) l
        ])
        refl
        (λ account.
          bool_case C (account_eq account old) (save_edited env commit olds changed result l)
            ((save_if env commit key account >> more account) l) (rest result l)
            (bind_all (save_if env commit key account) (λ _. more account) l (λ t. part t ≡ part l)
              C (save_if_keeps part keeps commit key account l) (λ _ t e. e)
              (λ _ t e. rest (insert key account result) t ∙ e)))

  pub save_edited_state :
      (commit : Bool) (olds changed result : Map AccountData) (l : Ledger)
      → (save_edited env commit olds changed result l).1.state ≡ l.state
  unfolding with_file
  save_edited_state commit olds changed result l =
      save_edited_keeps (λ m. m.state) (λ _ _ _. refl) commit olds changed result l

  -- What follows the instructions of a committed transaction.
  abbrev pub commit_of : Tx → List String → ℕ → Action Ledger Fault (Unit {0})
  commit_of tx logs slot =
      reads (λ _. ok_or (get_elem? (env.signatures tx) 0) panicked) >>= λ signature.
      index_transaction env signature slot >> record_block env tx logs
