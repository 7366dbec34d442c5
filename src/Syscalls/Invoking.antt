-- ===== src/Syscalls/Invoking.antt =====
-- What `sol_invoke_signed` (sol_syscalls.rs) lets through.
use Prim.Native.String.{String}
use bokken.Prelude.{
  ℕ, ◌+◌, ◌≡◌, refl, ap, true, Option, none, some, List, [], ◌∷◌, ◌++◌, Bytes, get_elem?, arith,
  ◌⊎◌,
}
use bokken.Prelude.Result.{Result, ok, err}
use bokken.Prelude.Action.{pure, raise, reads, modify, ◌>>=◌, ◌>>◌}
use bokken.Prelude.Post.{
  Post, OkOf, bind_post, reads_post, then_post, by_result, post_map, known_post, read_any,
}
use bokken.Prelude.Maps.{Map, insert, contains_key, get-insert, contains}
use bokken.Errors.{ProgramError}
use bokken.Account.{AccountData, AccountMeta}
use bokken.AccountsBlob.{AccountsBlob, is_writable, is_signer, get_account_data, get_sysvar_data}
use bokken.ProgramCaller.{Call, done, cpi}
use bokken.Syscalls.{
  Halt, failed, Context, Syscalls, Instruction, Sys, last_context, send, sol_log, unpanicked,
  or_panic, or_missing, Host, just_signed, refusal, check_metas, outgoing, request,
}

-- A meta whose account was handed over, and whose rights the program has or its seeds give.
pub record IsGranted (blob : AccountsBlob) (signed : List ℕ) (info : ℕ) (meta : AccountMeta)
    : Type 0 where
  pub same_key : info ≡ meta.pubkey
  pub may_write : meta.is_writable ≡ true → is_writable meta.pubkey blob ≡ some true
  pub may_sign :
      meta.is_signer ≡ true
      → (is_signer meta.pubkey blob ≡ some true) ⊎ (contains meta.pubkey signed ≡ true)

-- All metas of a list, whose accounts stand from index `i` on.
abbrev pub AllGranted : AccountsBlob → List ℕ → List ℕ → ℕ → List AccountMeta → Type 0
AllGranted blob signed infos i [] = Unit {0}
AllGranted blob signed infos i (meta ∷ metas) =
    ((info : ℕ) × (get_elem? infos i ≡ some info) × IsGranted blob signed info meta)
    × AllGranted blob signed infos (i + 1) metas

module _ (host : Host) where
  refusal-IsGranted :
      (blob : AccountsBlob) (signed : List ℕ) (info : ℕ) (meta : AccountMeta)
      → refusal host blob signed info meta ≡ some none
      → IsGranted blob signed info meta
  unfolding refusal
  refusal-IsGranted blob signed info meta e = record {
    same_key = ground arith;
    may_write = λ w. ground arith;
    may_sign = λ w. ground arith;
  }

module _ {A B : Type 0} (f : A → Sys B) (s : Syscalls) (Q : B → Syscalls → Type 0) where
  pub read_unpanicked :
      (o : Option A)
      → ((a : A) → o ≡ some a → Post (f a) s Q)
      → Post (reads (λ _. unpanicked o) >>= f) s Q
  unfolding unpanicked
  read_unpanicked none k = tt
  read_unpanicked (some a) k = k a refl

  read_result :
      (r : Result Halt A) → ((a : A) → r ≡ ok a → Post (f a) s Q) → Post (reads (λ _. r) >>= f) s Q
  read_result (ok a) k = k a refl
  read_result (err e) k = tt

module _ (host : Host) (blob : AccountsBlob) (signed infos : List ℕ) where
  abbrev Passed : ℕ → List AccountMeta → Syscalls → Unit {0} → Syscalls → Type 0
  Passed i metas s _ t = AllGranted blob signed infos i metas × (t ≡ s)

  abbrev to_rest : ℕ → List AccountMeta → AccountData → Sys (Unit {0})
  to_rest i metas _ = check_metas host blob signed infos (i + 1) metas

  abbrev to_wrong :
      ℕ → AccountMeta → List AccountMeta → Option (String × ProgramError) → Sys (Unit {0})
  to_wrong i meta metas wrong = elim wrong [
    | some (text, e) ↦ sol_log text >> raise (failed e)
    | none ↦
        reads (λ _. or_panic (get_account_data host.max_increase meta.pubkey blob))
        >>= to_rest i metas
  ]

  check_metas-Passed :
      (i : ℕ) (metas : List AccountMeta) (s : Syscalls)
      → Post (check_metas host blob signed infos i metas) s (Passed i metas s)
  unfolding check_metas
  check_metas-Passed i [] s = (tt, refl)
  check_metas-Passed i (meta ∷ metas) s =
      read_unpanicked
        (λ info.
          reads (λ _. unpanicked (refusal host blob signed info meta)) >>= to_wrong i meta metas)
        s (Passed i (meta ∷ metas) s) (get_elem? infos i)
        (λ info there.
          read_unpanicked (to_wrong i meta metas) s (Passed i (meta ∷ metas) s)
            (refusal host blob signed info meta)
            (λ wrong e. by_wrong (check_metas-Passed (i + 1) metas s) info there wrong e))
    where
      by_wrong :
          Post (check_metas host blob signed infos (i + 1) metas) s (Passed (i + 1) metas s)
          → (info : ℕ) → get_elem? infos i ≡ some info
          → (wrong : Option (String × ProgramError))
          → refusal host blob signed info meta ≡ some wrong
          → Post (to_wrong i meta metas wrong) s (Passed i (meta ∷ metas) s)
      by_wrong rest info there (some (text, x)) e =
          then_post (sol_log text) (λ _. raise (failed x)) s (Passed i (meta ∷ metas) s) (λ _ _. tt)
      by_wrong rest info there none e =
          read_any (to_rest i metas) s (Passed i (meta ∷ metas) s)
            (or_panic (get_account_data host.max_increase meta.pubkey blob))
            (λ _.
              post_map (Passed (i + 1) metas s) (Passed i (meta ∷ metas) s)
                (check_metas host blob signed infos (i + 1) metas s)
                (λ _ t h.
                  (((info, there, refusal-IsGranted host blob signed info meta e), h.0), h.1))
                rest)

module _ (host : Host) where
  still_there :
      (clock rent : AccountData) (datas : Map AccountData)
      → contains_key host.rent_id (insert host.clock_id clock (insert host.rent_id rent datas))
        ≡ true
  unfolding contains_key
  still_there clock rent datas = ground (
    arith,
    get-insert host.rent_id host.clock_id clock (insert host.rent_id rent datas),
    get-insert host.rent_id host.rent_id rent datas,
  )

  outgoing_rent :
      (blob : AccountsBlob) (metas : List AccountMeta) (datas : Map AccountData)
      → OkOf (λ out. contains_key host.rent_id out ≡ true) (outgoing host blob metas datas)
  unfolding outgoing
  outgoing_rent blob [] datas =
      let P : Map AccountData → Type 0 = λ out. contains_key host.rent_id out ≡ true in
      by_result (OkOf P) (or_missing (get_sysvar_data host.max_increase host.rent_id blob)) err
        (λ rent. elim (or_missing (get_sysvar_data host.max_increase host.clock_id blob)) [
          | err e ↦ err e
          | ok clock ↦ ok (insert host.clock_id clock (insert host.rent_id rent datas))
        ])
        (λ _ _. tt)
        (λ rent _.
          by_result (OkOf P) (or_missing (get_sysvar_data host.max_increase host.clock_id blob)) err
            (λ clock. ok (insert host.clock_id clock (insert host.rent_id rent datas))) (λ _ _. tt)
            (λ clock _. still_there clock rent datas))
  outgoing_rent blob (meta ∷ metas) datas =
      by_result (OkOf (λ out. contains_key host.rent_id out ≡ true))
        (or_missing (get_account_data host.max_increase meta.pubkey blob)) err
        (λ account. outgoing host blob metas (insert meta.pubkey account datas)) (λ _ _. tt)
        (λ account _. outgoing_rent blob metas (insert meta.pubkey account datas))

  last_context_here :
      (s : Syscalls) (context : Context) (contexts : List Context)
      → s.contexts ≡ context ∷ contexts
      → last_context s ≡ (ok context, s)
  unfolding last_context
  last_context_here s context contexts here = ground (arith, here)

  -- What a request that was sent says, and what it leaves.
  pub record Requested (ix : Instruction) (infos signed : List ℕ) (context : Context) (s : Syscalls)
      (call : Call) (t : Syscalls) : Type 0 where
    pub granted : AllGranted context.blob signed infos 0 ix.accounts
    pub sent : t.sent ≡ s.sent ++ done context.nonce (cpi call) ∷ []
    pub to_itself : call.program_id ≡ s.program_id
    pub metas : call.account_metas ≡ ix.accounts
    pub has_rent : contains_key host.rent_id call.account_datas ≡ true
    pub same_contexts : t.contexts ≡ s.contexts

  -- A request for a cross-program call that is sent, by a program that runs and whose seeds
  -- are accepted: each meta has the key of the account that was handed over for it, is
  -- writable only if the program may write that account, and signs only if the program's
  -- caller signed for it or the seeds do; the metas are sent as they are, the rent goes with
  -- them, the contexts stay; and the program that the message asks for is the sender, whatever
  -- program the instruction names.
  pub request-Requested :
      (ix : Instruction) (infos signed : List ℕ) (seeds : List (List Bytes)) (context : Context)
      (contexts : List Context) (s : Syscalls)
      → s.contexts ≡ context ∷ contexts
      → just_signed host s.program_id seeds ≡ ok signed
      → Post (request host ix infos seeds) s (Requested ix infos signed context s)
  unfolding request send
  request-Requested ix infos signed seeds context contexts s here signs =
      known_post (λ u. (just_signed host u.program_id seeds, u)) to_context s Q signed s
        (ap (λ r. (r, s)) signs)
        (known_post last_context (to_check signed) s Q context s
          (last_context_here s context contexts here)
          (bind_post (check_metas host context.blob signed infos 0 ix.accounts)
            (λ _. to_send context) s (Passed host context.blob signed infos 0 ix.accounts s) Q
            (check_metas-Passed host context.blob signed infos 0 ix.accounts s)
            (λ _ t passed.
              reads_post (λ out. contains_key host.rent_id out ≡ true)
                (outgoing host context.blob ix.accounts []) (to_message context) (marked context t)
                Q (outgoing_rent context.blob ix.accounts [])
                (λ datas rent. record {
                  granted = passed.0;
                  sent =
                      ap (λ u. u.sent ++ done context.nonce (cpi (the_call context datas t)) ∷ [])
                        passed.1;
                  to_itself = ap (λ u. u.program_id) passed.1;
                  metas = refl;
                  has_rent = rent;
                  same_contexts = ap (λ u. u.contexts) passed.1;
                }))))
    where
      Q : Call → Syscalls → Type 0
      Q = Requested ix infos signed context s

      marked : Context → Syscalls → Syscalls
      marked context t = record t {
        invoke_result_senders = insert context.nonce true t.invoke_result_senders;
      }

      the_call : Context → Map AccountData → Syscalls → Call
      the_call context datas s = record {
        program_id = s.program_id;
        instruction = ix.data_bytes;
        account_metas = ix.accounts;
        account_datas = datas;
        call_depth = context.cpi_height;
      }

      to_message : Context → Map AccountData → Sys Call
      to_message context datas = reads (λ s. ok (the_call context datas s)) >>= λ call.
          send (done context.nonce (cpi call)) >> pure call

      to_send : Context → Sys Call
      to_send context =
          modify (marked context)
          >> (reads (λ _. outgoing host context.blob ix.accounts []) >>= to_message context)

      to_check : List ℕ → Context → Sys Call
      to_check signed context =
          check_metas host context.blob signed infos 0 ix.accounts >> to_send context

      to_context : List ℕ → Sys Call
      to_context signed = last_context >>= to_check signed
