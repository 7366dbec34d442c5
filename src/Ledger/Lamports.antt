-- ===== src/Ledger/Lamports.antt =====
-- The lamports of the accounts that `execute_instruction` (debug_ledger.rs) moves between the state
-- and a program.
use bokken.Prelude.{
  ℕ, ◌+◌, ◌≡◌, refl, subst⁻¹, true, false, inl, inr, Option-cases, none, some, List, [], ◌∷◌, arith,
  ◌==◌, if◌then◌else◌,
}
use bokken.Prelude.Result.{err}
use bokken.Prelude.Post.{Post, PostOf}
use bokken.Prelude.Maps.{
  Map, get, insert, remove, contains_key, get-insert, Unique, insert-Unique, remove-Unique, sum,
  sum-insert_new,
}
use bokken.Account.{AccountData, AccountMeta}
use bokken.SystemProgram.Lamports.{lamports_of, total, Settles}
use bokken.Errors.{transaction_error, account_not_found}
use bokken.Ledger.{failed, pick, put_all}

-- The lamports of the accounts in `s` whose keys are not in `m`.
unfoldable pub outside : Map AccountData → Map AccountData → ℕ
outside m [] = 0
outside m ((k, a) ∷ s) = (if contains_key k m then 0 else a.lamports) + outside m s

pub outside-nil : (s : Map AccountData) → outside [] s ≡ total s
unfolding outside contains_key get sum
outside-nil [] = refl
outside-nil ((k, a) ∷ s) = ground (arith, outside-nil s)

-- Only the keys matter.
pub outside_cong :
    (m n s : Map AccountData)
    → ((j : ℕ) → contains_key j m ≡ contains_key j n)
    → outside m s ≡ outside n s
unfolding outside
outside_cong m n [] h = refl
outside_cong m n ((k, a) ∷ s) h = ground (arith, h k, outside_cong m n s h)

pub contains_key-insert :
    {V : Type 0} (j k : ℕ) (v : V) (m : Map V)
    → contains_key j (insert k v m) ≡ (if k == j then true else contains_key j m)
unfolding contains_key
contains_key-insert j k v m = ground (arith, get-insert j k v m)

outside-insert_absent :
    (k : ℕ) (a : AccountData) (m s : Map AccountData)
    → get k s ≡ none
    → outside (insert k a m) s ≡ outside m s
unfolding outside get
outside-insert_absent k a m [] e = refl
outside-insert_absent k a m ((j, b) ∷ s) e =
    ground (arith, outside-insert_absent k a m s, contains_key-insert j k a m)

-- An account that is copied out of `s`.
pub outside-insert :
    (k : ℕ) (a b : AccountData) (m s : Map AccountData)
    → Unique s
    → get k s ≡ some b
    → contains_key k m ≡ false
    → outside (insert k a m) s + b.lamports ≡ outside m s
unfolding outside get
outside-insert k a b m [] u e h = cc
outside-insert k a b m ((j, c) ∷ s) u e h = ground (
  arith,
  outside-insert k a b m s u.1,
  outside-insert_absent k a m s,
  contains_key-insert j k a m,
)

outside-remove :
    (k : ℕ) (m s : Map AccountData) → contains_key k m ≡ true → outside m (remove k s) ≡ outside m s
unfolding outside remove
outside-remove k m [] h = refl
outside-remove k m ((j, c) ∷ s) h = ground (arith, outside-remove k m s h)

outside_unnamed :
    (k : ℕ) (a : AccountData) (m s : Map AccountData)
    → get k s ≡ none
    → outside ((k, a) ∷ m) s ≡ outside m s
unfolding outside contains_key get
outside_unnamed k a m [] e = refl
outside_unnamed k a m ((j, b) ∷ s) e = ground (arith, outside_unnamed k a m s)

outside-insert_into :
    (k : ℕ) (a : AccountData) (m s : Map AccountData)
    → Unique s
    → get k m ≡ none
    → outside m (insert k a s) ≡ a.lamports + outside ((k, a) ∷ m) s
unfolding outside insert contains_key get
outside-insert_into k a m [] u e = ground arith
outside-insert_into k a m ((j, b) ∷ s) u e =
    ground (arith, outside-insert_into k a m s u.1, outside_unnamed k a m s)

-- Accounts that are put back over those of the same keys.
pub total-put_all :
    (m s : Map AccountData)
    → Unique m
    → Unique s
    → (total (put_all m s) ≡ total m + outside m s) × Unique (put_all m s)
unfolding put_all sum
total-put_all [] s um us = (omega (arith, outside-nil s), us)
total-put_all ((k, a) ∷ m) s um us =
    let (size, unique) = total-put_all m (insert k a s) um.1 (insert-Unique k a s us) in
    (omega (arith, size, outside-insert_into k a m s us um.0), unique)

-- The accounts in the state and those for the program, between two metas.
pub record Shared (all : ℕ) (picked s : Map AccountData) : Type 0 where
  pub state_unique : Unique s
  pub picked_unique : Unique picked
  pub lamports : total picked + outside picked s ≡ all

-- An account that is copied for the program, or moved to it.
pub Shared-copy :
    (all k : ℕ) (a : AccountData) (picked s : Map AccountData)
    → Shared all picked s
    → get k s ≡ some a
    → get k picked ≡ none
    → Shared all (insert k a picked) s
unfolding contains_key
Shared-copy all k a picked s h e f = record {
  state_unique = h.state_unique;
  picked_unique = insert-Unique k a picked h.picked_unique;
  lamports = ground (
    arith,
    h.lamports,
    sum-insert_new lamports_of k a picked f,
    outside-insert k a a picked s h.state_unique e,
  );
}

Shared-move :
    (all k : ℕ) (a : AccountData) (picked s : Map AccountData)
    → Shared all picked s
    → get k s ≡ some a
    → get k picked ≡ none
    → Shared all (insert k a picked) (remove k s)
unfolding contains_key
Shared-move all k a picked s h e f =
    let copied = Shared-copy all k a picked s h e f in
    record {
      state_unique = remove-Unique k s h.state_unique;
      picked_unique = copied.picked_unique;
      lamports = ground (
        arith,
        copied.lamports,
        outside-remove k (insert k a picked) s,
        contains_key-insert k k a picked,
      );
    }

pick_again :
    (meta : AccountMeta) (metas : List AccountMeta) (a : AccountData) (picked s : Map AccountData)
    → get meta.pubkey picked ≡ some a
    → pick (meta ∷ metas) picked s ≡ pick metas picked s
unfolding pick contains_key
pick_again meta metas a picked s e = ground (arith, e)

pick_missing :
    (meta : AccountMeta) (metas : List AccountMeta) (picked s : Map AccountData)
    → get meta.pubkey picked ≡ none
    → get meta.pubkey s ≡ none
    → pick (meta ∷ metas) picked s ≡ (err (failed (transaction_error account_not_found)), s)
unfolding pick contains_key
pick_missing meta metas picked s e h = ground (arith, e, h)

pick_moved :
    (meta : AccountMeta) (metas : List AccountMeta) (a : AccountData) (picked s : Map AccountData)
    → get meta.pubkey picked ≡ none
    → get meta.pubkey s ≡ some a
    → pick (meta ∷ metas) picked s ≡ pick metas (insert meta.pubkey a picked) (remove meta.pubkey s)
unfolding pick contains_key
pick_moved meta metas a picked s e h = ground (arith, e, h)

pub pick-Shared :
    (all : ℕ) (metas : List AccountMeta) (picked s : Map AccountData)
    → Shared all picked s
    → Post (pick metas picked) s (Shared all)
unfolding pick
pick-Shared all [] picked s h = h
pick-Shared all (meta ∷ metas) picked s h = elim (Option-cases (get meta.pubkey picked)) [
  | inr (a, here) ↦
      subst⁻¹ (λ q. PostOf q (Shared all)) (pick_again meta metas a picked s here)
        (pick-Shared all metas picked s h)
  | inl absent ↦ elim (Option-cases (get meta.pubkey s)) [
    | inl gone ↦
        subst⁻¹ (λ q. PostOf q (Shared all)) (pick_missing meta metas picked s absent gone) tt
    | inr (a, there) ↦
        subst⁻¹ (λ q. PostOf q (Shared all)) (pick_moved meta metas a picked s absent there)
          (pick-Shared all metas (insert meta.pubkey a picked) (remove meta.pubkey s)
            (Shared-move all meta.pubkey a picked s h there absent))
  ]
]

-- What the program returns takes the place of what it was given.
pub put_all-Shared :
    (all : ℕ) (picked out s : Map AccountData)
    → Shared all picked s
    → Settles picked out
    → (total (put_all out s) ≡ all) × Unique (put_all out s)
put_all-Shared all picked out s h w =
    let (size, unique) = total-put_all out s w.unique h.state_unique in
    (omega (arith, size, w.lamports, h.lamports, outside_cong out picked s w.same_keys), unique)
