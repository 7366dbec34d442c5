-- ===== src/SystemProgram/Conserving.antt =====
-- Every instruction of system_program.rs that succeeds conserves lamports and accounts; and which
-- instructions never succeed.
use Prim.Native.String.{String}
use bokken.Prelude.{
  ℕ, ◌+◌, ◌<◌, ◌^◌, ◌≡◌, refl, ap, ◌∙◌, subst, subst⁻¹, Bool, not, true, false, none, some, List,
  arith, Bytes, get_elem?, replicate,
}
use bokken.Prelude.Result.{Result, ok, err, ok_or}
use bokken.Prelude.Action.{reads, raise_if, ◌>>=◌, ◌>>◌}
use bokken.Prelude.Post.{Post, bind_post, fails_of}
use bokken.Prelude.Maps.{get, insert, remove, Unique, get-remove, sum-remove, remove-Unique}
use bokken.Errors.{
  ProgramError, invalid_instruction_data, missing_required_signature, not_enough_account_keys,
}
use bokken.Account.{AccountData, AccountMeta, move_lamports, move_lamports-ok}
use bokken.SystemProgram.{
  SystemInstruction, Host, SystemState, Run, msg, checked_key, assert_account_meta, put_account,
  meta_at, check_new, check_seed, check_base, check_funder, fund_and_put, exec_instruction, exec,
  create_account, assign, transfer, create_account_with_seed, allocate, allocate_with_seed,
  assign_with_seed, transfer_with_seed, other,
}
use bokken.SystemProgram.Lamports.{
  lamports_of, total, Settles, put_back, put_both_back, Taken, assert_account_meta-Taken, Unchanged,
  check_new-Unchanged, check_seed-Unchanged, check_base-Unchanged, check_funder-Unchanged,
}

-- The end of a transfer.
abbrev transfer_pair : ℕ → ℕ × AccountData → ℕ × AccountData → Run (Unit {0})
transfer_pair lamports p q =
    reads (λ _. move_lamports p.1 q.1 lamports) >>= λ w. put_account p.0 w.0 >> put_account q.0 w.1

abbrev transfer_to : List AccountMeta → ℕ → ℕ × AccountData → Run (Unit {0})
transfer_to metas lamports p = assert_account_meta metas 0 true false >>= transfer_pair lamports p

module _ (host : Host) where
  -- A check that changes nothing, and what follows it.
  check_post :
      (m : Run (Unit {0})) (k : Run (Unit {0})) (s : SystemState)
      (Q : Unit {0} → SystemState → Type 0)
      → Unchanged m s
      → Post k s Q
      → Post (m >> k) s Q
  check_post m k s Q u h =
      bind_post m (λ _. k) s (λ _ t. t ≡ s) Q u (λ _ t e. subst⁻¹ (λ z. Post k z Q) e h)

  -- An account that was asked for, and what follows it.
  taken_post :
      (metas : List AccountMeta) (i : ℕ) (w g : Bool) (t : SystemState)
      (Q : Unit {0} → SystemState → Type 0) (k : ℕ × AccountData → Run (Unit {0}))
      → ((p : ℕ × AccountData) (r : SystemState)
          → checked_key metas i w g ≡ ok p.0
          → Taken t p r
          → Post (k p) r Q)
      → Post (assert_account_meta metas i w g >>= k) t Q
  taken_post metas i w g t Q k h =
      bind_post (assert_account_meta metas i w g) k t
        (λ p r. (checked_key metas i w g ≡ ok p.0) × Taken t p r) Q
        (assert_account_meta-Taken metas i w g t) (λ p r c. h p r c.0 c.1)

  -- The checks on the second meta of a transfer with a seed, and what follows them.
  base_post :
      (metas : List AccountMeta) (p : ℕ × AccountData) (seed : String) (owner : ℕ) (t : SystemState)
      (Q : Unit {0} → SystemState → Type 0) (k : Run (Unit {0}))
      → Post k t Q
      → Post
          (meta_at metas 1 >>= λ base.
            raise_if (not base.is_signer) missing_required_signature
            >> (check_seed host p.0 base.pubkey seed owner >> k))
          t
          Q
  unfolding meta_at
  base_post metas p seed owner t Q k h = at (ok_or (get_elem? metas 1) not_enough_account_keys)
    where
      signed :
          (c : Bool) (base : AccountMeta)
          → Post
              (raise_if c missing_required_signature
                >> (check_seed host p.0 base.pubkey seed owner >> k))
              t
              Q
      signed true base = tt
      signed false base =
          check_post (check_seed host p.0 base.pubkey seed owner) k t Q
            (check_seed-Unchanged host p.0 base.pubkey seed owner t) h

      at :
          (r : Result ProgramError AccountMeta)
          → Post
              (reads (λ _. r) >>= λ base.
                raise_if (not base.is_signer) missing_required_signature
                >> (check_seed host p.0 base.pubkey seed owner >> k))
              t
              Q
      at (err e) = tt
      at (ok base) = signed (not base.is_signer) base

  module _ (s : SystemState) (u : Unique s.account_datas)
      (fits : total s.account_datas < 2 ^ 64) where
    abbrev Good : Unit {0} → SystemState → Type 0
    Good _ t = Settles s.account_datas t.account_datas

    -- The end of an instruction on one account.
    put_one :
        (p : ℕ × AccountData) (b : AccountData) (t : SystemState)
        → Taken s p t
        → b.lamports ≡ p.1.lamports
        → Post (put_account p.0 b) t Good
    unfolding put_account
    put_one p b t (there, left) e =
        subst⁻¹ (λ m. Settles s.account_datas (insert p.0 b m)) left
          (put_back p.0 p.1 b s.account_datas u there e)

    -- The end of an instruction that moves lamports between two accounts.
    put_two :
        (p q : ℕ × AccountData) (amount : ℕ) (f : AccountData → AccountData) (t r : SystemState)
        → ((a : AccountData) → (f a).lamports ≡ a.lamports)
        → Taken s p t
        → Taken t q r
        → (m : Result ProgramError (AccountData × AccountData)) → move_lamports p.1 q.1 amount ≡ m
        → Post (reads (λ _. m) >>= λ w. put_account p.0 w.0 >> put_account q.0 (f w.1)) r Good
    unfolding put_account
    put_two p q amount f t r keeps (there, left) (there2, left2) (err e) moved = tt
    put_two p q amount f t r keeps (there, left) (there2, left2) (ok w) moved =
        let there3 : get q.0 (remove p.0 s.account_datas) ≡ some q.1 =
          subst (λ m. get q.0 m ≡ some q.1) left there2 in
        let sums : w.0.lamports + w.1.lamports ≡ p.1.lamports + q.1.lamports =
          (move_lamports-ok p.1 q.1 amount w moved (
            omega (
              arith,
              fits,
              sum-remove lamports_of p.0 p.1 s.account_datas u there,
              sum-remove lamports_of q.0 q.1 (remove p.0 s.account_datas)
                  (remove-Unique p.0 s.account_datas u) there3,
            ))).1 in
        let back : r.account_datas ≡ remove q.0 (remove p.0 s.account_datas) =
          left2 ∙ ap (remove q.0) left in
        subst⁻¹ (λ m. Settles s.account_datas (insert q.0 (f w.1) (insert p.0 w.0 m))) back
          (put_both_back p.0 q.0 p.1 q.1 w.0 (f w.1) s.account_datas u there there3
            (omega (arith, keeps w.1, sums)))

    -- Every instruction that succeeds.
    pub exec_instruction-Settles :
        (i : SystemInstruction) (metas : List AccountMeta)
        → Post (exec_instruction host i metas) s Good
    unfolding exec_instruction fund_and_put msg
    exec_instruction-Settles (create_account lamports space owner) metas =
        taken_post metas 0 true true s Good _ (λ p t _ h.
          taken_post metas 1 true true t Good _ (λ q r _ h2.
            check_post (check_new host q.1 space) (fund_and_put host p q lamports space owner) r
              Good (check_new-Unchanged host q.1 space r)
              (put_two p q lamports
                (λ a. record a { owner = owner; account_bytes = replicate space 0 }) t r (λ _. refl)
                h h2 _ refl)))
    exec_instruction-Settles (assign owner) metas =
        taken_post metas 0 true true s Good _
          (λ p t _ h. put_one p (record p.1 { owner = owner }) t h refl)
    exec_instruction-Settles (transfer lamports) metas =
        taken_post metas 0 true true s Good _ (λ p t _ h.
          taken_post metas 0 true false t Good _
            (λ q r _ h2. put_two p q lamports (λ a. a) t r (λ _. refl) h h2 _ refl))
    exec_instruction-Settles (create_account_with_seed base seed lamports space owner) metas =
        taken_post metas 0 true true s Good _ (λ p t _ h.
          taken_post metas 1 true false t Good _ (λ q r _ h2.
            let rest = check_new host q.1 space >> fund_and_put host p q lamports space owner in
            check_post (check_funder host metas base p.0)
              (check_seed host q.0 base seed owner >> rest) r Good
              (check_funder-Unchanged metas base p.0 host r)
              (check_post (check_seed host q.0 base seed owner) rest r Good
                (check_seed-Unchanged host q.0 base seed owner r)
                (check_post (check_new host q.1 space) (fund_and_put host p q lamports space owner)
                  r Good (check_new-Unchanged host q.1 space r)
                  (put_two p q lamports
                    (λ a. record a { owner = owner; account_bytes = replicate space 0 }) t r
                    (λ _. refl) h h2 _ refl)))))
    exec_instruction-Settles (allocate space) metas =
        taken_post metas 0 true true s Good _ (λ p t _ h.
          let end = put_account p.0 (record p.1 { account_bytes = replicate space 0 }) in
          check_post (check_new host p.1 space) end t Good (check_new-Unchanged host p.1 space t)
            (put_one p (record p.1 { account_bytes = replicate space 0 }) t h refl))
    exec_instruction-Settles (allocate_with_seed base seed space owner) metas =
        taken_post metas 0 true false s Good _ (λ p t _ h.
          let end = put_account p.0 (record p.1 { account_bytes = replicate space 0 }) in
          let rest = check_seed host p.0 base seed owner >> end in
          check_post (check_new host p.1 space) (check_base host metas base >> rest) t Good
            (check_new-Unchanged host p.1 space t)
            (check_post (check_base host metas base) rest t Good
              (check_base-Unchanged metas base host t)
              (check_post (check_seed host p.0 base seed owner) end t Good
                (check_seed-Unchanged host p.0 base seed owner t)
                (put_one p (record p.1 { account_bytes = replicate space 0 }) t h refl))))
    exec_instruction-Settles (assign_with_seed base seed owner) metas =
        taken_post metas 0 true false s Good _ (λ p t _ h.
          let end = put_account p.0 (record p.1 { owner = owner }) in
          check_post (check_base host metas base) (check_seed host p.0 base seed owner >> end) t
            Good (check_base-Unchanged metas base host t)
            (check_post (check_seed host p.0 base seed owner) end t Good
              (check_seed-Unchanged host p.0 base seed owner t)
              (put_one p (record p.1 { owner = owner }) t h refl)))
    exec_instruction-Settles (transfer_with_seed lamports from_seed from_owner) metas =
        taken_post metas 0 true false s Good _ (λ p t _ h.
          base_post metas p from_seed from_owner t Good (transfer_to metas lamports p) (
            taken_post metas 0 true false t Good _
              (λ q r _ h2. put_two p q lamports (λ a. a) t r (λ _. refl) h h2 _ refl)))
    exec_instruction-Settles other metas = tt

    -- Where the keys of the accounts are unique and all lamports fit into a `u64`, an instruction
    -- that succeeds conserves the sum of the lamports and the set of the keys, which stay unique.
    pub exec-Settles :
        (instruction : Bytes) (metas : List AccountMeta) → Post (exec host instruction metas) s Good
    unfolding exec
    exec-Settles instruction metas =
        decoded (ok_or (host.decode_instruction instruction) invalid_instruction_data)
      where
        decoded :
            (r : Result ProgramError SystemInstruction)
            → Post (reads (λ _. r) >>= λ i. exec_instruction host i metas) s Good
        decoded (ok i) = exec_instruction-Settles i metas
        decoded (err e) = tt

  -- Both accounts of a transfer are the first meta, so the second one has been taken already.
  Taken-twice :
      (metas : List AccountMeta) (w g w' g' : Bool) (s t r : SystemState) (p q : ℕ × AccountData)
      → checked_key metas 0 w g ≡ ok p.0
      → Taken s p t
      → checked_key metas 0 w' g' ≡ ok q.0
      → Taken t q r
      → ⊥
  unfolding checked_key
  Taken-twice metas w g w' g' s t r p q e h e2 h2 =
      let same : q.0 ≡ p.0 = ground arith in
      let gone : get q.0 t.account_datas ≡ none =
        rw (h.1, same) (ground (arith, get-remove p.0 p.0 s.account_datas)) in
      ground arith

  -- Neither instruction that transfers lamports ever succeeds.
  pub transfer_fails :
      (lamports : ℕ) (seed : String) (owner : ℕ) (metas : List AccountMeta) (s : SystemState)
      → ((e : ProgramError) × ((exec_instruction host (transfer lamports) metas s).0 ≡ err e))
        × ((e : ProgramError) × ((exec_instruction host
                (transfer_with_seed lamports seed owner)
                metas
                s).0
              ≡ err e))
  unfolding exec_instruction
  transfer_fails lamports seed owner metas s = (
    fails_of (exec_instruction host (transfer lamports) metas s) (
        taken_post metas 0 true true s (λ _ _. ⊥) (transfer_to metas lamports)
          (λ p t e h.
            taken_post metas 0 true false t (λ _ _. ⊥) (transfer_pair lamports p)
              (λ q r e2 h2. absurd (Taken-twice metas true true true false s t r p q e h e2 h2)))),
    fails_of (exec_instruction host (transfer_with_seed lamports seed owner) metas s) (
        taken_post metas 0 true false s (λ _ _. ⊥)
          (λ p. meta_at metas 1 >>= λ base.
            raise_if (not base.is_signer) missing_required_signature
            >> (check_seed host p.0 base.pubkey seed owner >> transfer_to metas lamports p))
          (λ p t e h.
            base_post metas p seed owner t (λ _ _. ⊥) (transfer_to metas lamports p)
              (taken_post metas 0 true false t (λ _ _. ⊥) (transfer_pair lamports p)
                (λ q r e2 h2.
                  absurd (Taken-twice metas true false true false s t r p q e h e2 h2))))),
  )
