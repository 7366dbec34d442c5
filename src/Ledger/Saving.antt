-- ===== src/Ledger/Saving.antt =====
-- What `execute_instructions` (debug_ledger.rs) leaves on disk is what it returns.
use bokken.Prelude.{
  ℕ, ◌≡◌, ◌≢◌, ◌⊎◌, inl, inr, refl, sym, ap, ◌∙◌, subst, subst⁻¹, Bool, true, false, ◌&&◌, Option,
  none, some, [], ◌∷◌, arith, Bytes, ◌==◌, if◌then◌else◌, Bool-cases,
}
use bokken.Prelude.Result.{Result, ok, err}
use bokken.Prelude.Action.{◌>>◌}
use bokken.Prelude.Post.{Post, PostOf, by_bool, by_option, post_map}
use bokken.Prelude.Maps.{Map, get, insert, get-insert_ne, Unique}
use bokken.Errors.{BokkenError}
use bokken.Account.{AccountData, default_account}
use bokken.Ledger.{Fault, panicked, Ledger, Environment, account_eq, bytes_eq, bool_eq}
use bokken.Ledger.Execution.{files, with_file, save_account, read_account, save_if, save_edited}
use bokken.Ledger.Accounts.{NotNewer, IsStored, saved_then, read-with_file, read-with_file_other}

bytes_eq→≡ : (xs ys : Bytes) → bytes_eq xs ys ≡ true → xs ≡ ys
unfolding bytes_eq
bytes_eq→≡ [] [] e = refl
bytes_eq→≡ [] (y ∷ ys) e = absurd (cc e)
bytes_eq→≡ (x ∷ xs) [] e = absurd (cc e)
bytes_eq→≡ (x ∷ xs) (y ∷ ys) e = grind (arith, bytes_eq→≡ xs ys)

and_both : (x y : Bool) → x && y ≡ true → (x ≡ true) × (y ≡ true)
and_both true y e = (refl, e)
and_both false y e = absurd (cc e)

bool_eq→≡ : (x y : Bool) → bool_eq x y ≡ true → x ≡ y
bool_eq→≡ true y e = sym e
bool_eq→≡ false true e = absurd (cc e)
bool_eq→≡ false false e = refl

pub ==→≡ : (m n : ℕ) → (m == n) ≡ true → m ≡ n
==→≡ m n e = ground arith

account_eq→≡ : (a b : AccountData) → account_eq a b ≡ true → a ≡ b
unfolding account_eq
account_eq→≡ a b e =
    let (l, e1) = and_both (a.lamports == b.lamports) _ e in
    let (d, e2) = and_both _ _ e1 in
    let (o, e3) = and_both (a.owner == b.owner) _ e2 in
    let (x, r) = and_both _ (a.rent_epoch == b.rent_epoch) e3 in
    let lamports : a.lamports ≡ b.lamports = ==→≡ a.lamports b.lamports l in
    let bytes = bytes_eq→≡ a.account_bytes b.account_bytes d in
    let owner : a.owner ≡ b.owner = ==→≡ a.owner b.owner o in
    let executable = bool_eq→≡ a.executable b.executable x in
    let epoch : a.rent_epoch ≡ b.rent_epoch = ==→≡ a.rent_epoch b.rent_epoch r in
    λ i. record {
      lamports = lamports i;
      account_bytes = bytes i;
      owner = owner i;
      executable = executable i;
      rent_epoch = epoch i;
    }

-- What is read is the account, or the default account if that has no lamports.
abbrev pub ReadsBack : Result BokkenError AccountData → Option AccountData → Type 0
ReadsBack r none = ⊥
ReadsBack r (some a) = (r ≡ ok a) ⊎ ((a.lamports ≡ 0) × (r ≡ ok default_account))

module _ {Tx : Type 0} (env : Environment Tx) where
  saved-ReadsBack :
      (a : AccountData) (r : Result BokkenError AccountData)
      → r ≡ ok (if a.lamports == 0 then default_account else a)
      → ReadsBack r (some a)
  saved-ReadsBack a r e = elim (Bool-cases (a.lamports == 0)) [
    | inl empty ↦ inr (ground arith, e ∙ rw empty)
    | inr funded ↦ inl (e ∙ rw funded)
  ]

  -- What is left of the loop after an account.
  abbrev after :
      Map AccountData
      → Map AccountData
      → Map AccountData
      → Ledger
      → ℕ
      → AccountData
      → AccountData
      → Result Fault (Map AccountData) × Ledger
  after olds changed result l key old account = elim (account_eq account old) [
    | true ↦ save_edited env true olds changed result l
    | false ↦
        (save_account env key account
            >> save_edited env true olds changed (insert key account result))
          l
  ]

  -- Accounts beside those of the list are left alone.
  save_edited_others :
      (k : ℕ) (olds changed result : Map AccountData) (l : Ledger)
      → get k olds ≡ none
      → Post
          (save_edited env true olds changed result)
          l
          (λ _ t. read_account env k none t ≡ read_account env k none l)
  unfolding save_edited save_if get
  save_edited_others k [] changed result l e = refl
  save_edited_others k ((key, old) ∷ olds) changed result l e =
      let Q : Map AccountData → Ledger → Type 0 =
        λ _ t. read_account env k none t ≡ read_account env k none l in
      let ne : k ≢ key = λ q. ground arith in
      let rest : get k olds ≡ none = ground arith in
      by_option (λ q. PostOf q Q) (get key changed) (err panicked, l)
        (after olds changed result l key old) (λ _. tt)
        (λ account _.
          by_bool (λ q. PostOf q Q) (account_eq account old)
            (save_edited env true olds changed result l)
            ((save_account env key account
                >> save_edited env true olds changed (insert key account result))
              l)
            (λ _. save_edited_others k olds changed result l rest)
            (λ _.
              saved_then env (λ q. PostOf q Q) key account l
                (save_edited env true olds changed (insert key account result)) (λ _ _. tt)
                (λ _.
                  post_map
                    (λ _ t.
                      read_account env k none t
                      ≡ read_account env k none (with_file env key account l))
                    Q
                    (save_edited env true olds changed (insert key account result)
                      (with_file env key account l))
                    (λ _ t same. same ∙ read-with_file_other env key k account none l ne)
                    (save_edited_others k olds changed (insert key account result)
                      (with_file env key account l) rest))))

  files-with_file_other :
      (key k : ℕ) (a : AccountData) (l : Ledger)
      → k ≢ key
      → files env k (with_file env key a l) ≡ files env k l
  unfolding files with_file
  files-with_file_other key k a l ne = ground (
    arith,
    get-insert_ne k key
        (insert l.state.slot (env.encode_account (if a.lamports == 0 then default_account else a))
          (files env key l))
        l.accounts ne,
  )

  module _ (k : ℕ) (back : (b : AccountData) → env.decode_account (env.encode_account b) ≡ some b)
      (stored : IsStored env k) where
    abbrev pub Reads : Map AccountData → Map AccountData → Ledger → Type 0
    Reads changed _ t = ReadsBack (read_account env k none t) (get k changed)

    head-Reads :
        (old account : AccountData) (olds changed result : Map AccountData) (l : Ledger)
        → get k olds ≡ none
        → get k changed ≡ some account
        → read_account env k none l ≡ ok old
        → NotNewer l.state.slot (files env k l)
        → PostOf (after olds changed result l k old account) (Reads changed)
    head-Reads old account olds changed result l fresh found read new =
        let saved = with_file env k account l in
        let more = save_edited env true olds changed (insert k account result) in
        let to_reads : (r : Result BokkenError AccountData)
            → ReadsBack r (some account)
            → ReadsBack r (get k changed) =
          λ r. subst⁻¹ (ReadsBack r) found in
        by_bool (λ q. PostOf q (Reads changed)) (account_eq account old)
          (save_edited env true olds changed result l) ((save_account env k account >> more) l)
          (λ same.
            post_map (λ _ t. read_account env k none t ≡ read_account env k none l) (Reads changed)
              (save_edited env true olds changed result l)
              (λ _ t kept.
                to_reads (read_account env k none t)
                  (inl (kept ∙ read ∙ ap ok (sym (account_eq→≡ account old same)))))
              (save_edited_others k olds changed result l fresh))
          (λ _.
            saved_then env (λ q. PostOf q (Reads changed)) k account l more (λ _ _. tt)
              (λ _.
                post_map (λ _ t. read_account env k none t ≡ read_account env k none saved)
                  (Reads changed) (more saved)
                  (λ _ t kept. to_reads (read_account env k none t) (
                    saved-ReadsBack account (read_account env k none t)
                      (kept ∙ read-with_file env k account none l back stored new)))
                  (save_edited_others k olds changed (insert k account result) saved fresh)))

    -- An account of the list is saved if it has changed.
    pub save_edited-Reads :
        (old : AccountData) (olds changed result : Map AccountData) (l : Ledger)
        → Unique olds
        → get k olds ≡ some old
        → read_account env k none l ≡ ok old
        → NotNewer l.state.slot (files env k l)
        → Post (save_edited env true olds changed result) l (Reads changed)
    unfolding save_edited save_if get with_file
    save_edited-Reads old [] changed result l u e read new = absurd (cc e)
    save_edited-Reads old ((key, o) ∷ olds) changed result l (fresh, u) e read new =
        by_option (λ q. PostOf q (Reads changed)) (get key changed) (err panicked, l)
          (after olds changed result l key o) (λ _. tt)
          (λ account found.
            by_key (key == k) account found
              (λ p m rest. save_edited-Reads old olds changed p m u rest) refl)
      where
        by_key :
            (b : Bool) (account : AccountData)
            → get key changed ≡ some account
            → ((p : Map AccountData) (m : Ledger)
                → get k olds ≡ some old
                → read_account env k none m ≡ ok old
                → NotNewer m.state.slot (files env k m)
                → Post (save_edited env true olds changed p) m (Reads changed))
            → (key == k) ≡ b
            → PostOf (after olds changed result l key o account) (Reads changed)
        by_key true account found rec b =
            let same : key ≡ k = ==→≡ key k b in
            let kept : o ≡ old = grind arith in
            subst⁻¹ (λ z. PostOf (after olds changed result l z o account) (Reads changed)) same
              (head-Reads o account olds changed result l
                (subst (λ z. get z olds ≡ none) same fresh)
                (subst (λ z. get z changed ≡ some account) same found) (read ∙ ap ok (sym kept))
                new)
        by_key false account found rec b =
            let ne : k ≢ key = λ q. grind arith in
            let rest : get k olds ≡ some old = grind arith in
            let saved = with_file env key account l in
            let more = save_edited env true olds changed (insert key account result) in
            by_bool (λ q. PostOf q (Reads changed)) (account_eq account o)
              (save_edited env true olds changed result l)
              ((save_account env key account >> more) l) (λ _. rec result l rest read new)
              (λ _.
                saved_then env (λ q. PostOf q (Reads changed)) key account l more (λ _ _. tt)
                  (λ _.
                    rec (insert key account result) saved rest
                      (read-with_file_other env key k account none l ne ∙ read)
                      (subst⁻¹ (NotNewer l.state.slot) (files-with_file_other key k account l ne)
                        new)))
