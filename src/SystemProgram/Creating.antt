-- ===== src/SystemProgram/Creating.antt =====
-- What the creation of an account (system_program.rs) does.
use bokken.Prelude.{
  ℕ, ◌+◌, ◌-◌, ◌≤◌, ◌%◌, ◌^◌, ◌≡◌, ◌≢◌, refl, ap, ◌∙◌, true, Bool, some, List, [], ◌∷◌, arith,
  replicate, ◌==◌, if◌then◌else◌,
}
use bokken.Prelude.Result.{Result, ok, err}
use bokken.Prelude.Action.{reads, ◌>>=◌, ◌>>◌}
use bokken.Prelude.Maps.{get, insert, remove, get-insert, get-remove}
use bokken.Errors.{ProgramError}
use bokken.Account.{AccountData, AccountMeta, move_lamports}
use bokken.SystemProgram.{
  Host, SystemState, Run, checked_key, take_account, assert_account_meta, put_account, check_new,
  fund_and_put, exec_instruction, create_account, max_account_size,
}

-- The funding account and the new one after a creation.
abbrev pub funding_after : AccountData → ℕ → AccountData
funding_after a lamports = record a { lamports = a.lamports - lamports }

abbrev pub new_after : AccountData → ℕ → ℕ → ℕ → AccountData
new_after a lamports space owner = record a {
  lamports = (a.lamports + lamports) % 2 ^ 64;
  owner = owner;
  account_bytes = replicate space 0;
}

bind_runs :
    {A B : Type 0} (m : Run A) (k : A → Run B) (s : SystemState) (a : A) (t : SystemState)
    → m s ≡ (ok a, t)
    → (m >>= k) s ≡ k a t
bind_runs {A} {B} m k s a t e =
    ap
      (λ p.
        let q : Result ProgramError B × SystemState = elim p.0 [
          | ok x ↦ k x p.1
          | err x ↦ (err x, p.1)
        ] in
        q)
      e

module _ (host : Host) where
  taken_runs :
      (key i : ℕ) (w g : Bool) (metas : List AccountMeta) (a : AccountData) (s : SystemState)
      → checked_key metas i w g ≡ ok key
      → get key s.account_datas ≡ some a
      → assert_account_meta metas i w g s
        ≡ (ok (key, a), record s { account_datas = remove key s.account_datas })
  unfolding assert_account_meta take_account get remove
  taken_runs key i w g metas a s e h = rw (e, h)

  check_new_runs :
      (a : AccountData) (space : ℕ) (s : SystemState)
      → a.account_bytes ≡ []
      → space ≤ max_account_size
      → check_new host a space s ≡ (ok tt, s)
  unfolding check_new
  check_new_runs a space s e h = ground arith

  covered :
      (a b : AccountData) (lamports : ℕ)
      → lamports ≤ a.lamports
      → move_lamports a b lamports
        ≡ ok (funding_after a lamports, record b { lamports = (b.lamports + lamports) % 2 ^ 64 })
  unfolding move_lamports
  covered a b lamports h = ground arith

  checked_first :
      (f n : AccountMeta) (rest : List AccountMeta)
      → f.is_signer ≡ true
      → f.is_writable ≡ true
      → checked_key (f ∷ n ∷ rest) 0 true true ≡ ok f.pubkey
  unfolding checked_key
  checked_first f n rest e h = ground arith

  checked_second :
      (f n : AccountMeta) (rest : List AccountMeta)
      → n.is_signer ≡ true
      → n.is_writable ≡ true
      → checked_key (f ∷ n ∷ rest) 1 true true ≡ ok n.pubkey
  unfolding checked_key
  checked_second f n rest e h = ground arith

  creation_runs :
      (f n : AccountMeta) (rest : List AccountMeta) (lamports space owner : ℕ) (a b : AccountData)
      (s : SystemState)
      → f.is_signer ≡ true
      → f.is_writable ≡ true
      → n.is_signer ≡ true
      → n.is_writable ≡ true
      → f.pubkey ≢ n.pubkey
      → get f.pubkey s.account_datas ≡ some a
      → get n.pubkey s.account_datas ≡ some b
      → b.account_bytes ≡ []
      → space ≤ max_account_size
      → lamports ≤ a.lamports
      → exec_instruction host (create_account lamports space owner) (f ∷ n ∷ rest) s ≡ (
        ok tt,
        record s {
          account_datas = insert n.pubkey (new_after b lamports space owner) (
              insert f.pubkey
                (funding_after a lamports)
                (remove n.pubkey (remove f.pubkey s.account_datas)));
        },
      )
  unfolding exec_instruction fund_and_put put_account
  creation_runs f n rest lamports space owner a b s fs fw ns nw ne ha hb eb hs hl =
      let metas = f ∷ n ∷ rest in
      let s1 : SystemState = record s { account_datas = remove f.pubkey s.account_datas } in
      let s2 : SystemState = record s {
        account_datas = remove n.pubkey (remove f.pubkey s.account_datas);
      } in
      let there : get n.pubkey (remove f.pubkey s.account_datas) ≡ some b =
        ground (arith, get-remove n.pubkey f.pubkey s.account_datas) in
      bind_runs (assert_account_meta metas 0 true true)
        (λ p. assert_account_meta metas 1 true true >>= λ q.
          check_new host q.1 space >> fund_and_put host p q lamports space owner)
        s (f.pubkey, a) s1
        (taken_runs f.pubkey 0 true true metas a s (checked_first f n rest fs fw) ha)
      ∙ bind_runs (assert_account_meta metas 1 true true)
          (λ q. check_new host q.1 space >> fund_and_put host (f.pubkey, a) q lamports space owner)
          s1 (n.pubkey, b) s2
          (taken_runs n.pubkey 1 true true metas b s1 (checked_second f n rest ns nw) there)
      ∙ bind_runs (check_new host b space)
          (λ _. fund_and_put host (f.pubkey, a) (n.pubkey, b) lamports space owner) s2 tt s2
          (check_new_runs b space s2 eb hs)
      ∙ ap
          (λ m.
            (reads (λ _. m) >>= λ w.
            put_account f.pubkey w.0
            >> put_account n.pubkey
                (record w.1 { owner = owner; account_bytes = replicate space 0 }))
              s2)
          (covered a b lamports hl)

  -- Where the first two metas sign and are writable, have different keys and their accounts are
  -- there, the new account has no data, its size is in range and the lamports are covered: the
  -- creation succeeds, moves the lamports, gives the new account its owner and its zeros, and
  -- changes neither another account nor the logs.
  pub create_account_lem :
      (f n : AccountMeta) (rest : List AccountMeta) (lamports space owner : ℕ) (a b : AccountData)
      (s : SystemState) (j : ℕ)
      → f.is_signer ≡ true
      → f.is_writable ≡ true
      → n.is_signer ≡ true
      → n.is_writable ≡ true
      → f.pubkey ≢ n.pubkey
      → get f.pubkey s.account_datas ≡ some a
      → get n.pubkey s.account_datas ≡ some b
      → b.account_bytes ≡ []
      → space ≤ max_account_size
      → lamports ≤ a.lamports
      → let (r, t) = exec_instruction host (create_account lamports space owner) (f ∷ n ∷ rest) s in
        (r ≡ ok tt)
        × (t.logs ≡ s.logs)
        × (get j t.account_datas ≡ (
            if n.pubkey == j
            then some (new_after b lamports space owner)
            else if f.pubkey == j
            then some (funding_after a lamports)
            else get j s.account_datas))
  create_account_lem f n rest lamports space owner a b s j fs fw ns nw ne ha hb eb hs hl =
      rw (creation_runs f n rest lamports space owner a b s fs fw ns nw ne ha hb eb hs hl) (
        refl,
        refl,
        ground (
          arith,
          get-insert j n.pubkey (new_after b lamports space owner) (
              insert f.pubkey (funding_after a lamports)
                (remove n.pubkey (remove f.pubkey s.account_datas))),
          get-insert j f.pubkey (funding_after a lamports)
              (remove n.pubkey (remove f.pubkey s.account_datas)),
          get-remove j n.pubkey (remove f.pubkey s.account_datas),
          get-remove j f.pubkey s.account_datas,
        ),
      )
