-- ===== src/SystemProgram/Lamports.antt =====
-- What the instructions of system_program.rs do to the map of accounts when they succeed.
use Prim.Native.String.{String}
use bokken.Prelude.{ℕ, ◌+◌, ◌≡◌, refl, Bool, Option-cases, inl, inr, some, List, arith}
use bokken.Prelude.Result.{Result, ok, err}
use bokken.Prelude.Post.{Post}
use bokken.Prelude.Maps.{
  Map, get, insert, remove, contains_key, get-insert, get-remove, Unique, insert-Unique,
  remove-Unique, sum, sum-remove, sum-insert_new,
}
use bokken.Errors.{ProgramError}
use bokken.Account.{AccountData, AccountMeta}
use bokken.SystemProgram.{
  Host, SystemState, Run, msg, checked_key, take_account, assert_account_meta, meta_at, check_new,
  check_seed, check_base, check_funder,
}

abbrev pub lamports_of : AccountData → ℕ
lamports_of a = a.lamports

-- All lamports in a map of accounts.
abbrev pub total : Map AccountData → ℕ
total = sum lamports_of

-- `n` holds the accounts of `m`: the same keys, each once, and as many lamports in all.
pub record Settles (m n : Map AccountData) : Type 0 where
  pub unique : Unique n
  pub lamports : total n ≡ total m
  pub same_keys : (j : ℕ) → contains_key j n ≡ contains_key j m

-- An account that was taken out comes back with as many lamports.
pub put_back :
    (k : ℕ) (a b : AccountData) (m : Map AccountData)
    → Unique m
    → get k m ≡ some a
    → b.lamports ≡ a.lamports
    → Settles m (insert k b (remove k m))
unfolding contains_key
put_back k a b m u g e = record {
  unique = insert-Unique k b (remove k m) (remove-Unique k m u);
  lamports = ground (
    arith,
    get-remove k k m,
    sum-insert_new lamports_of k b (remove k m),
    sum-remove lamports_of k a m u g,
  );
  same_keys = λ j. ground (arith, get-insert j k b (remove k m), get-remove j k m);
}

-- Two accounts that were taken out come back with as many lamports in all.
pub put_both_back :
    (k l : ℕ) (a b a' b' : AccountData) (m : Map AccountData)
    → Unique m
    → get k m ≡ some a
    → get l (remove k m) ≡ some b
    → a'.lamports + b'.lamports ≡ a.lamports + b.lamports
    → Settles m (insert l b' (insert k a' (remove l (remove k m))))
unfolding contains_key
put_both_back k l a b a' b' m u g h e =
    let r = remove k m in
    let q = remove l r in
    record {
      unique =
          insert-Unique l b' _ (insert-Unique k a' q (remove-Unique l r (remove-Unique k m u)));
      lamports = ground (
        arith,
        get-remove l k m,
        get-remove k k m,
        get-remove k l r,
        get-remove l l r,
        get-insert l k a' q,
        sum-insert_new lamports_of l b' (insert k a' q),
        sum-insert_new lamports_of k a' q,
        sum-remove lamports_of k a m u g,
        sum-remove lamports_of l b r (remove-Unique k m u) h,
      );
      same_keys = λ j. ground (
        arith,
        get-insert j l b' (insert k a' q),
        get-insert j k a' q,
        get-remove j l r,
        get-remove j k m,
      );
    }

-- After `assert_account_meta`: the account was there, and is out of the map.
abbrev pub Taken : SystemState → ℕ × AccountData → SystemState → Type 0
Taken s p t = (get p.0 s.account_datas ≡ some p.1) × (t.account_datas ≡ remove p.0 s.account_datas)

take_account-Taken :
    (key : ℕ) (s : SystemState)
    → Post
        (take_account key)
        s
        (λ p t. (◌≡◌ {A = Result ProgramError ℕ} (ok key) (ok p.0)) × Taken s p t)
unfolding take_account
take_account-Taken key s = elim (Option-cases (get key s.account_datas)) [
  | inl missing ↦ rw (missing, take_account) tt
  | inr (a, there) ↦ rw (there, take_account) (refl, (there, refl))
]

pub assert_account_meta-Taken :
    (metas : List AccountMeta) (i : ℕ) (w g : Bool) (s : SystemState)
    → Post
        (assert_account_meta metas i w g)
        s
        (λ p t. (checked_key metas i w g ≡ ok p.0) × Taken s p t)
unfolding assert_account_meta
assert_account_meta-Taken metas i w g s = from_key (checked_key metas i w g) refl
  where
    from_key :
        (r : Result ProgramError ℕ)
        → checked_key metas i w g ≡ r
        → Post
            (assert_account_meta metas i w g)
            s
            (λ p t. (checked_key metas i w g ≡ ok p.0) × Taken s p t)
    from_key (ok key) e = rw (e, assert_account_meta) (take_account-Taken key s)
    from_key (err x) e = rw (e, assert_account_meta) tt

-- A check that succeeds changes nothing.
abbrev pub Unchanged : Run (Unit {0}) → SystemState → Type 0
Unchanged m s = Post m s (λ _ t. t ≡ s)

pub check_new-Unchanged :
    (host : Host) (a : AccountData) (space : ℕ) (s : SystemState)
    → Unchanged (check_new host a space) s
unfolding check_new msg
check_new-Unchanged host a space s = ground arith

pub check_seed-Unchanged :
    (host : Host) (key base : ℕ) (seed : String) (owner : ℕ) (s : SystemState)
    → Unchanged (check_seed host key base seed owner) s
unfolding check_seed msg
check_seed-Unchanged host key base seed owner s = ground arith

pub check_base-Unchanged :
    (metas : List AccountMeta) (base : ℕ) (host : Host) (s : SystemState)
    → Unchanged (check_base host metas base) s
unfolding check_base meta_at
check_base-Unchanged metas base host s = ground arith

pub check_funder-Unchanged :
    (metas : List AccountMeta) (base key : ℕ) (host : Host) (s : SystemState)
    → Unchanged (check_funder host metas base key) s
unfolding check_funder meta_at
check_funder-Unchanged metas base key host s = ground arith
