-- ===== src/AccountsBlob/Writing.antt =====
-- `set_account_data` of executor.rs, on an account that stands in the buffer.
use bokken.Prelude.{
  ℕ, ◌+◌, ◌%◌, ◌^◌, ◌≡◌, ◌≤◌, ◌<◌, refl, sym, ap, ◌∙◌, subst⁻¹, some, ◌∷◌, ◌++◌, append_assoc,
  arith, Bytes, length, take, drop, length-append, length-take, length-drop, take-append_length,
  drop-append_length, drop-add, take-append-drop, to_le_bytes, length-to_le_bytes,
  from_le_bytes-to_le_bytes,
}
use bokken.Prelude.Result.{ok, err}
use bokken.Errors.{invalid_realloc}
use bokken.Prelude.Maps.{get}
use bokken.Account.{AccountData, AccountMeta}
use bokken.AccountsBlob.{
  AccountsBlob, as_u8, put_at, write_account, set_account_data, get_account_data, account_at,
  header_at, slice,
}
use bokken.AccountsBlob.Layout.{
  Fits, live_bytes, live_header, parse_header-live_bytes, length-live_bytes, account_at_parts,
  slice_part, executable_back,
}

put_in :
    (z p m q part : Bytes) (offset : ℕ)
    → z ≡ p ++ (m ++ q)
    → offset ≡ length p
    → length part ≡ length m
    → put_at z offset part ≡ p ++ (part ++ q)
unfolding put_at
put_in z p m q part offset e o h = rw (
  e,
  o,
  h,
  take-append_length (length p) p (m ++ q) refl,
  drop-add (length p) (length m) (p ++ (m ++ q)),
  drop-append_length (length p) p (m ++ q) refl,
  drop-append_length (length m) m q refl,
)

-- Writing over an account that is laid out in parts.
write_parts :
    (pre h o l n d rest : Bytes) (a : AccountData)
    → length h ≡ 40
    → length o ≡ 32
    → length l ≡ 8
    → length n ≡ 8
    → length d ≡ length a.account_bytes
    → write_account (pre ++ (h ++ (o ++ (l ++ (n ++ (d ++ rest)))))) (length pre) a
      ≡ pre
        ++ (h
            ++ (to_le_bytes 32 a.owner
                ++ (to_le_bytes 8 a.lamports
                    ++ (to_le_bytes 8 (length a.account_bytes) ++ (a.account_bytes ++ rest)))))
unfolding write_account
write_parts pre h o l n d rest a lh lo ll ln ld =
    let n' = to_le_bytes 8 (length a.account_bytes) in
    let l' = to_le_bytes 8 a.lamports in
    let o' = to_le_bytes 32 a.owner in
    let sizes : (length (pre ++ (h ++ (o ++ l))) ≡ length pre + 80)
        × (length (pre ++ (h ++ o)) ≡ length pre + 72)
        × (length (pre ++ h) ≡ length pre + 40)
        × (length (pre ++ (h ++ (o' ++ (l' ++ n')))) ≡ length pre + 88) =
      omega (
        arith,
        length-append pre (h ++ (o ++ l)),
        length-append h (o ++ l),
        length-append o l,
        length-append pre (h ++ o),
        length-append h o,
        length-append pre h,
        length-append pre (h ++ (o' ++ (l' ++ n'))),
        length-append h (o' ++ (l' ++ n')),
        length-append o' (l' ++ n'),
        length-append l' n',
        length-to_le_bytes 32 a.owner,
        length-to_le_bytes 8 a.lamports,
        length-to_le_bytes 8 (length a.account_bytes),
      ) in
    let one =
      put_in (pre ++ (h ++ (o ++ (l ++ (n ++ (d ++ rest)))))) (pre ++ (h ++ (o ++ l))) n (d ++ rest)
        n' (length pre + 80) (simp append_assoc) (sym sizes.0)
        (omega (arith, length-to_le_bytes 8 (length a.account_bytes))) in
    let two =
      put_in ((pre ++ (h ++ (o ++ l))) ++ (n' ++ (d ++ rest))) (pre ++ (h ++ o)) l
        (n' ++ (d ++ rest)) l' (length pre + 72) (simp append_assoc) (sym sizes.1)
        (omega (arith, length-to_le_bytes 8 a.lamports)) in
    let three =
      put_in ((pre ++ (h ++ o)) ++ (l' ++ (n' ++ (d ++ rest)))) (pre ++ h) o
        (l' ++ (n' ++ (d ++ rest))) o' (length pre + 40) (simp append_assoc) (sym sizes.2)
        (omega (arith, length-to_le_bytes 32 a.owner)) in
    let four =
      put_in ((pre ++ h) ++ (o' ++ (l' ++ (n' ++ (d ++ rest))))) (pre ++ (h ++ (o' ++ (l' ++ n'))))
        d rest a.account_bytes (length pre + 88) (simp append_assoc) (sym sizes.3) (sym ld) in
    rw (one, two, three, four) (simp append_assoc)

-- The account `a` of this meta stands in the blob between the bytes `pre` and `post`, with room for
-- as many bytes as its data may grow by.
pub record Stands (max_increase : ℕ) (b : AccountsBlob) (pre post : Bytes) (meta : AccountMeta)
    (original : ℕ) (a : AccountData) : Type 0 where
  pub spare : Bytes
  pub known : get meta.pubkey b.account_offsets ≡ some (length pre)
  pub content :
      b.bytes
      ≡ pre
        ++ (live_bytes meta original a
            ++ (a.account_bytes ++ (spare ++ (to_le_bytes 8 a.rent_epoch ++ post))))
  pub room : length a.account_bytes + length spare ≡ original + max_increase + original % 8
  pub aligned : length pre % 8 ≡ 0
  pub small : original < 256 ^ 4
  pub fits : Fits meta a

module _ (max_increase : ℕ) (b : AccountsBlob) (pre post : Bytes) (meta : AccountMeta)
    (original : ℕ) (a : AccountData) (st : Stands max_increase b pre post meta original a) where
  Stands-header_at : header_at b.bytes (length pre) ≡ some (live_header meta original a)
  unfolding header_at
  Stands-header_at =
      let h = live_bytes meta original a in
      let rest = a.account_bytes ++ (st.spare ++ (to_le_bytes 8 a.rent_epoch ++ post)) in
      let one : slice b.bytes (length pre) 88 ≡ some h =
        subst⁻¹ (λ z. slice z (length pre) 88 ≡ some h) st.content
          (slice_part pre h rest (length pre) 88 refl
            (sym (length-live_bytes meta a original st.small st.fits))) in
      ground (arith, one, st.aligned, parse_header-live_bytes meta a original st.small st.fits)

  -- Where an account stands in the blob at the offset that is known for its key, with the room
  -- that it may grow into behind its data, `get_account_data` returns that account.
  pub get_account_data-Stands : get_account_data max_increase meta.pubkey b ≡ some (some a)
  unfolding get_account_data
  get_account_data-Stands =
      let h = live_bytes meta original a in
      let read : account_at max_increase
            (pre ++ (h ++ (a.account_bytes ++ (st.spare ++ (to_le_bytes 8 a.rent_epoch ++ post)))))
            (length pre)
          ≡ some a =
        (account_at_parts max_increase pre h a.account_bytes st.spare (to_le_bytes 8 a.rent_epoch)
            post (live_header meta original a) (length-live_bytes meta a original st.small st.fits)
            (parse_header-live_bytes meta a original st.small st.fits) refl st.room
            (length-to_le_bytes 8 a.rent_epoch) st.aligned
          ∙ ap some (λ i. record a {
            executable = executable_back a.executable i;
            rent_epoch = from_le_bytes-to_le_bytes 8 a.rent_epoch st.fits.rent_epoch i;
          })) in
      let here : account_at max_increase b.bytes (length pre) ≡ some a =
        subst⁻¹ (λ z. account_at max_increase z (length pre) ≡ some a) st.content read in
      ground (arith, st.known, here)

  -- Where an account stands in the blob, data that is longer than the account was at first and
  -- may grow is refused, and the blob stays as it is.
  pub set_account_data_too_long :
      (new : AccountData)
      → original + max_increase < length new.account_bytes
      → set_account_data max_increase meta.pubkey new b ≡ some (err invalid_realloc, b)
  unfolding set_account_data
  set_account_data_too_long new long = ground (arith, st.known, Stands-header_at)

  abbrev head : Bytes
  head =
      255
      ∷ as_u8 meta.is_signer
      ∷ as_u8 meta.is_writable
      ∷ as_u8 a.executable
      ∷ (to_le_bytes 4 original ++ to_le_bytes 32 meta.pubkey)

  length-head : length head ≡ 40
  length-head = omega (
    arith,
    length-append (to_le_bytes 4 original) (to_le_bytes 32 meta.pubkey),
    length-to_le_bytes 4 original,
    length-to_le_bytes 32 meta.pubkey,
  )

  written_content :
      (new : AccountData)
      → length new.account_bytes ≤ length (a.account_bytes ++ st.spare)
      → write_account b.bytes (length pre) new
        ≡ pre
          ++ (live_bytes meta original
                (record new { executable = a.executable; rent_epoch = a.rent_epoch })
              ++ (new.account_bytes
                  ++ (drop (length new.account_bytes) (a.account_bytes ++ st.spare)
                      ++ (to_le_bytes 8 a.rent_epoch ++ post))))
  written_content new fits_in =
      let len = length new.account_bytes in
      let body : Bytes = a.account_bytes ++ st.spare in
      let tail : Bytes = to_le_bytes 8 a.rent_epoch ++ post in
      let o : Bytes = to_le_bytes 32 a.owner in
      let l : Bytes = to_le_bytes 8 a.lamports in
      let n : Bytes = to_le_bytes 8 (length a.account_bytes) in
      let d : Bytes = take len body in
      let rest : Bytes = drop len body ++ tail in
      let parts : b.bytes ≡ pre ++ (head ++ (o ++ (l ++ (n ++ (d ++ rest))))) =
        st.content
        ∙ ap (λ (z : Bytes). pre ++ (live_bytes meta original a ++ z))
            (sym (append_assoc a.account_bytes st.spare tail)
              ∙ ap (λ (z : Bytes). z ++ tail) (sym (take-append-drop len body))
              ∙ append_assoc d (drop len body) tail)
        ∙ (simp append_assoc) in
      subst⁻¹
        (λ z.
          write_account z (length pre) new
          ≡ pre
            ++ (live_bytes meta original
                  (record new { executable = a.executable; rent_epoch = a.rent_epoch })
                ++ (new.account_bytes ++ rest)))
        parts
        (write_parts pre head o l n d rest new length-head (length-to_le_bytes 32 a.owner)
            (length-to_le_bytes 8 a.lamports) (length-to_le_bytes 8 (length a.account_bytes))
            (omega (arith, length-take len body))
          ∙ (simp append_assoc))

  -- Where an account stands in the blob and the new one fits into its fields and its room: the
  -- call succeeds, the lamports, the data and the owner are the new ones, and all bytes before
  -- and after the account stay.
  pub set_account_data-Stands :
      (new : AccountData)
      → Fits meta new
      → length new.account_bytes ≤ original + max_increase
      → (c : AccountsBlob) × (set_account_data max_increase meta.pubkey new b ≡ some (ok tt, c))
        × Stands max_increase c pre post meta original
            (record new { executable = a.executable; rent_epoch = a.rent_epoch })
  unfolding set_account_data
  set_account_data-Stands new f short =
      let kept = record new { executable = a.executable; rent_epoch = a.rent_epoch } in
      let len = length new.account_bytes in
      let body : Bytes = a.account_bytes ++ st.spare in
      let tail : Bytes = to_le_bytes 8 a.rent_epoch ++ post in
      let written = write_account b.bytes (length pre) new in
      let fits_in : len ≤ length body =
        omega (arith, short, st.room, length-append a.account_bytes st.spare) in
      let inside : length pre + 88 + len ≤ length b.bytes = omega (
        arith,
        fits_in,
        ap length st.content,
        length-append pre (live_bytes meta original a ++ (a.account_bytes ++ (st.spare ++ tail))),
        length-append (live_bytes meta original a) (a.account_bytes ++ (st.spare ++ tail)),
        length-append a.account_bytes (st.spare ++ tail),
        length-append st.spare tail,
        length-append a.account_bytes st.spare,
        length-live_bytes meta a original st.small st.fits,
      ) in
      (
        record b { bytes = written },
        ground (arith, st.known, Stands-header_at, st.room, inside),
        record {
          spare = drop len body;
          known = st.known;
          content = written_content new fits_in;
          room = omega (
            arith,
            fits_in,
            st.room,
            length-append a.account_bytes st.spare,
            length-drop len body,
          );
          aligned = st.aligned;
          small = st.small;
          fits = record {
            len = f.len;
            pubkey = f.pubkey;
            owner = f.owner;
            lamports = f.lamports;
            rent_epoch = st.fits.rent_epoch;
          };
        },
      )
