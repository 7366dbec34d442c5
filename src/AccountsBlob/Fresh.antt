-- ===== src/AccountsBlob/Fresh.antt =====
-- What a fresh blob of executor.rs holds.
use bokken.Prelude.{
  ℕ, zero, suc, ◌+◌, ◌%◌, ◌≡◌, refl, sym, ap, ◌∙◌, subst, none, some, Option-cases, inl, inr, ◌⊎◌,
  Bool-cases, List, [], ◌∷◌, ◌++◌, append-nil, arith, Bytes, length, get_elem?, length-append,
  to_le_bytes, length-to_le_bytes, ◌==◌, true, false,
}
use bokken.Prelude.Maps.{Map, get, insert, remove, get-insert, get-remove}
use bokken.Account.{AccountData, AccountMeta}
use bokken.AccountsBlob.{
  AccountsBlob, Building, account_entry, add_account, add_accounts, new, account_at,
  get_account_data,
}
use bokken.AccountsBlob.Placed.{Placed, Placed-append, Placed-account_at, length-account_entry}
use bokken.AccountsBlob.Layout.{Fits}

-- The account of this meta is there, fits, and has data in whole words of four bytes.
pub record IsAligned (datas : Map AccountData) (meta : AccountMeta) : Type 0 where
  pub account : AccountData
  pub there : get meta.pubkey datas ≡ some account
  pub fits : Fits meta account
  pub words : length account.account_bytes % 4 ≡ 0

abbrev pub AllAligned : Map AccountData → List AccountMeta → Type 0
AllAligned datas [] = Unit {0}
AllAligned datas (meta ∷ metas) = IsAligned datas meta × AllAligned datas metas

module _ (max_increase : ℕ) (whole : max_increase % 8 ≡ 0) where
  -- The loop of `new`, between two rounds.
  record Built (datas : Map AccountData) (b : Building) : Type 0 where
    aligned : length b.blob % 8 ≡ 0
    placed :
        (key offset : ℕ)
        → get key b.account_offsets ≡ some offset
        → (meta : AccountMeta) × ((a : AccountData) × (get key datas ≡ some a)
            × Placed max_increase whole b.blob offset meta a)
    left : (key : ℕ) → get key b.account_indices ≡ none → get key b.account_datas ≡ get key datas
    known :
        (key index : ℕ)
        → get key b.account_indices ≡ some index
        → (offset : ℕ) × (get key b.account_offsets ≡ some offset)

  -- What a round has added.
  record Added (datas : Map AccountData) (meta : AccountMeta) (b c : Building) : Type 0 where
    built : Built datas c
    present : (offset : ℕ) × (get meta.pubkey c.account_offsets ≡ some offset)
    kept :
        (key offset : ℕ)
        → get key b.account_offsets ≡ some offset
        → (other : ℕ) × (get key c.account_offsets ≡ some other)

  add_again :
      (index entry_index : ℕ) (meta : AccountMeta) (datas : Map AccountData) (b : Building)
      → Built datas b
      → get meta.pubkey b.account_indices ≡ some entry_index
      → (c : Building) × (add_account max_increase index meta b ≡ some c) × Added datas meta b c
  unfolding add_account
  add_again index entry_index meta datas b v e = (
    record b { blob = b.blob ++ to_le_bytes 8 entry_index },
    rw (e, add_account),
    record {
      built = record {
        aligned = omega (
          arith,
          v.aligned,
          length-append b.blob (to_le_bytes 8 entry_index),
          length-to_le_bytes 8 entry_index,
        );
        placed = λ key offset h.
            let (m, (a, there, p)) = v.placed key offset h in
            (
              m,
              (
                a,
                there,
                Placed-append max_increase whole b.blob (to_le_bytes 8 entry_index) offset m a p,
              ),
            );
        left = v.left;
        known = v.known;
      };
      present = v.known meta.pubkey entry_index e;
      kept = λ key offset h. (offset, h);
    },
  )

  module _ (index : ℕ) (meta : AccountMeta) (datas : Map AccountData) (b : Building)
      (v : Built datas b) (g : IsAligned datas meta) where
    Placed-new :
        (key offset : ℕ)
        → ((meta.pubkey == key) ≡ true) ⊎ ((meta.pubkey == key) ≡ false)
        → get key (insert meta.pubkey (length b.blob) b.account_offsets) ≡ some offset
        → (m : AccountMeta) × ((a : AccountData) × (get key datas ≡ some a)
            × Placed max_increase whole
                (b.blob ++ account_entry max_increase (length b.blob) meta g.account)
                offset
                m
                a)
    Placed-new key offset (inl same) h =
        let at : length b.blob ≡ offset =
          ground (arith, get-insert key meta.pubkey (length b.blob) b.account_offsets) in
        (
          meta,
          (
            g.account,
            ground (arith, g.there),
            subst
                (λ z.
                  Placed max_increase whole
                    (b.blob ++ account_entry max_increase (length b.blob) meta g.account) z meta
                    g.account)
                at
                (record {
                  pre = b.blob;
                  post = [];
                  content = ap (◌++◌ b.blob) (
                      sym (append-nil (account_entry max_increase (length b.blob) meta g.account)));
                  start = refl;
                  aligned = v.aligned;
                  fits = g.fits;
                }),
          ),
        )
    Placed-new key offset (inr other) h =
        let (m, (a, there, p)) =
          v.placed key offset
            (ground (arith, get-insert key meta.pubkey (length b.blob) b.account_offsets)) in
        (
          m,
          (
            a,
            there,
            Placed-append max_increase whole b.blob
                (account_entry max_increase (length b.blob) meta g.account) offset m a p,
          ),
        )

    known_new :
        (key i : ℕ)
        → ((meta.pubkey == key) ≡ true) ⊎ ((meta.pubkey == key) ≡ false)
        → get key (insert meta.pubkey index b.account_indices) ≡ some i
        → (offset : ℕ) × (get key (insert meta.pubkey (length b.blob) b.account_offsets)
            ≡ some offset)
    known_new key i (inl same) h = (
      length b.blob,
      ground (arith, get-insert key meta.pubkey (length b.blob) b.account_offsets),
    )
    known_new key i (inr other) h =
        let (offset, at) =
          v.known key i (ground (arith, get-insert key meta.pubkey index b.account_indices)) in
        (offset, ground (arith, get-insert key meta.pubkey (length b.blob) b.account_offsets))

  kept_new :
      (meta : AccountMeta) (b : Building) (key offset : ℕ)
      → get key b.account_offsets ≡ some offset
      → ((meta.pubkey == key) ≡ true) ⊎ ((meta.pubkey == key) ≡ false)
      → (other : ℕ) × (get key (insert meta.pubkey (length b.blob) b.account_offsets) ≡ some other)
  kept_new meta b key offset h (inl same) =
      (length b.blob, ground (arith, get-insert key meta.pubkey (length b.blob) b.account_offsets))
  kept_new meta b key offset h (inr other) =
      (offset, ground (arith, get-insert key meta.pubkey (length b.blob) b.account_offsets))

  add_new :
      (index : ℕ) (meta : AccountMeta) (datas : Map AccountData) (b : Building)
      → Built datas b
      → IsAligned datas meta
      → get meta.pubkey b.account_indices ≡ none
      → (c : Building) × (add_account max_increase index meta b ≡ some c) × Added datas meta b c
  unfolding add_account
  add_new index meta datas b v g e =
      let a = g.account in
      let entry = account_entry max_increase (length b.blob) meta a in
      let here : get meta.pubkey b.account_datas ≡ some a = v.left meta.pubkey e ∙ g.there in
      (
        record {
          blob = b.blob ++ entry;
          account_indices = insert meta.pubkey index b.account_indices;
          account_offsets = insert meta.pubkey (length b.blob) b.account_offsets;
          account_datas = remove meta.pubkey b.account_datas;
        },
        ground (arith, e, here),
        record {
          built = record {
            aligned = omega (
              arith,
              v.aligned,
              whole,
              g.words,
              length-append b.blob entry,
              length-account_entry max_increase whole (length b.blob) meta a g.fits,
            );
            placed = λ key offset h.
                Placed-new index meta datas b v g key offset (Bool-cases (meta.pubkey == key)) h;
            left = λ key h. ground (
              arith,
              v.left key,
              get-insert key meta.pubkey index b.account_indices,
              get-remove key meta.pubkey b.account_datas,
            );
            known = λ key i h.
                known_new index meta datas b v g key i (Bool-cases (meta.pubkey == key)) h;
          };
          present = (
            length b.blob,
            ground (arith, get-insert meta.pubkey meta.pubkey (length b.blob) b.account_offsets),
          );
          kept = λ key offset h. kept_new meta b key offset h (Bool-cases (meta.pubkey == key));
        },
      )

  add_one :
      (index : ℕ) (meta : AccountMeta) (datas : Map AccountData) (b : Building)
      → Built datas b
      → IsAligned datas meta
      → (c : Building) × (add_account max_increase index meta b ≡ some c) × Added datas meta b c
  add_one index meta datas b v g = elim (Option-cases (get meta.pubkey b.account_indices)) [
    | inl e ↦ add_new index meta datas b v g e
    | inr (i, e) ↦ add_again index i meta datas b v e
  ]

  -- What the loop leaves behind.
  record Finished (datas : Map AccountData) (metas : List AccountMeta) (b c : Building)
      : Type 0 where
    built : Built datas c
    present :
        (i : ℕ) (meta : AccountMeta)
        → get_elem? metas i ≡ some meta
        → (offset : ℕ) × (get meta.pubkey c.account_offsets ≡ some offset)
    kept :
        (key offset : ℕ)
        → get key b.account_offsets ≡ some offset
        → (other : ℕ) × (get key c.account_offsets ≡ some other)

  add_accounts-Finished :
      (index : ℕ) (metas : List AccountMeta) (datas : Map AccountData) (b : Building)
      → Built datas b
      → AllAligned datas metas
      → (c : Building) × (add_accounts max_increase index metas b ≡ some c)
        × Finished datas metas b c
  unfolding add_accounts
  add_accounts-Finished index [] datas b v gs = (
    b,
    refl,
    record { built = v; present = λ i meta h. ground arith; kept = λ key offset h. (offset, h) },
  )
  add_accounts-Finished index (meta ∷ metas) datas b v (g, gs) =
      let (c, runs, step) = add_one index meta datas b v g in
      let (d, rest, done) = add_accounts-Finished (index + 1) metas datas c step.built gs in
      (
        d,
        ground (arith, runs, rest),
        record {
          built = done.built;
          present = at_place meta metas c d step.present done.kept done.present;
          kept = λ key offset h. let (o, e) = step.kept key offset h in done.kept key o e;
        },
      )
    where
      at_place :
          (m : AccountMeta) (ms : List AccountMeta) (c d : Building)
          → (offset : ℕ) × (get m.pubkey c.account_offsets ≡ some offset)
          → ((key offset : ℕ)
              → get key c.account_offsets ≡ some offset
              → (other : ℕ) × (get key d.account_offsets ≡ some other))
          → ((i : ℕ) (n : AccountMeta)
              → get_elem? ms i ≡ some n
              → (offset : ℕ) × (get n.pubkey d.account_offsets ≡ some offset))
          → (i : ℕ) (n : AccountMeta) → get_elem? (m ∷ ms) i ≡ some n
          → (offset : ℕ) × (get n.pubkey d.account_offsets ≡ some offset)
      at_place m ms c d (o, e) kept later zero n h =
          let (p, q) = kept m.pubkey o e in (p, ground (arith, q))
      at_place m ms c d first kept later (suc i) n h = later i n h

  -- Where the growth is a multiple of eight, and every meta has an account that fits and whose data
  -- is a multiple of four bytes long: `new` does not panic, and `get_account_data` returns the
  -- account of every meta as it was given.
  pub get_account_data-new :
      (program_id : ℕ) (instruction : Bytes) (metas : List AccountMeta) (datas : Map AccountData)
      (i : ℕ) (meta : AccountMeta)
      → AllAligned datas metas
      → get_elem? metas i ≡ some meta
      → (b : AccountsBlob) × (new max_increase program_id instruction metas datas ≡ some b)
        × (get_account_data max_increase meta.pubkey b ≡ some (get meta.pubkey datas))
  unfolding new get_account_data get
  get_account_data-new program_id instruction metas datas i meta gs at =
      let start : Building = record {
        blob = to_le_bytes 8 (length metas);
        account_indices = [];
        account_offsets = [];
        account_datas = datas;
      } in
      let first : Built datas start = record {
        aligned = omega (arith, length-to_le_bytes 8 (length metas));
        placed = λ key offset h. no_entry key offset h;
        left = λ key h. refl;
        known = λ key index h. no_entry key index h;
      } in
      let (c, runs, done) = add_accounts-Finished 0 metas datas start first gs in
      let rest = to_le_bytes 8 (length instruction) ++ (instruction ++ to_le_bytes 32 program_id) in
      let (offset, known) = done.present i meta at in
      let (m, (a, there, p)) = done.built.placed meta.pubkey offset known in
      let read : account_at max_increase (c.blob ++ rest) offset ≡ some a =
        Placed-account_at max_increase whole (c.blob ++ rest) offset m a
          (Placed-append max_increase whole c.blob rest offset m a p) in
      (
        record {
          account_offsets = c.account_offsets;
          bytes = c.blob ++ rest;
          non_entrypointed_account_infos = c.account_datas;
        },
        ground (arith, runs),
        ground (arith, known, read, there),
      )
    where
      no_entry : {A B : Type 0} (key : ℕ) (x : A) → get key (let m : Map A = [] in m) ≡ some x → B
      no_entry key x h = absurd (ground arith)
