-- ===== src/AccountsBlob/Placed.antt =====
-- An account that stands in the blob of executor.rs as `new` writes it.
use bokken.Prelude.{
  ℕ, ◌+◌, ◌%◌, ◌≡◌, refl, ap, ◌∙◌, subst⁻¹, some, ◌++◌, append_assoc, arith, Bytes, length,
  replicate, length-append, length-replicate, to_le_bytes, length-to_le_bytes,
  from_le_bytes-to_le_bytes,
}
use bokken.Account.{AccountData, AccountMeta}
use bokken.AccountsBlob.{header_bytes, account_entry, account_at}
use bokken.AccountsBlob.Layout.{
  Fits, live_bytes, live_header, header_bytes-eq-live_bytes, parse_header-live_bytes,
  length-live_bytes, executable_back, account_at_parts,
}

module _ (max_increase : ℕ) (whole : max_increase % 8 ≡ 0) where
  -- The entry of `a` stands at `offset`.
  pub record Placed (blob : Bytes) (offset : ℕ) (meta : AccountMeta) (a : AccountData)
      : Type 0 where
    pub pre : Bytes
    pub post : Bytes
    pub content : blob ≡ pre ++ (account_entry max_increase offset meta a ++ post)
    pub start : offset ≡ length pre
    pub aligned : offset % 8 ≡ 0
    pub fits : Fits meta a

  pub Placed-append :
      (blob x : Bytes) (offset : ℕ) (meta : AccountMeta) (a : AccountData)
      → Placed blob offset meta a
      → Placed (blob ++ x) offset meta a
  Placed-append blob x offset meta a p = record {
    pre = p.pre;
    post = p.post ++ x;
    content =
        ap (λ z. z ++ x) p.content
        ∙ append_assoc p.pre (account_entry max_increase offset meta a ++ p.post) x
        ∙ ap (◌++◌ p.pre) (append_assoc (account_entry max_increase offset meta a) p.post x);
    start = p.start;
    aligned = p.aligned;
    fits = p.fits;
  }

  entry_parts :
      (offset : ℕ) (meta : AccountMeta) (a : AccountData) (post : Bytes)
      → account_entry max_increase offset meta a ++ post
        ≡ live_bytes meta (length a.account_bytes) a
          ++ (a.account_bytes
              ++ ((replicate max_increase 0
                    ++ replicate ((offset + 88 + length a.account_bytes + max_increase) % 8) 0)
                  ++ (to_le_bytes 8 a.rent_epoch ++ post)))
  unfolding account_entry
  entry_parts offset meta a post = rw (header_bytes-eq-live_bytes meta a) (simp append_assoc)

  -- A placed account is read back.
  pub Placed-account_at :
      (blob : Bytes) (offset : ℕ) (meta : AccountMeta) (a : AccountData)
      → Placed blob offset meta a
      → account_at max_increase blob offset ≡ some a
  Placed-account_at blob offset meta a p =
      let len = length a.account_bytes in
      let zeros : Bytes = replicate max_increase 0 in
      let pad : ℕ = (offset + 88 + len + max_increase) % 8 in
      let padding : Bytes = replicate pad 0 in
      let epoch : Bytes = to_le_bytes 8 a.rent_epoch in
      let regroup : blob
          ≡ p.pre
            ++ (live_bytes meta len a
                ++ (a.account_bytes ++ ((zeros ++ padding) ++ (epoch ++ p.post)))) =
        p.content ∙ ap (◌++◌ p.pre) (entry_parts offset meta a p.post) in
      let room : len + length (zeros ++ padding) ≡ len + max_increase + len % 8 = omega (
        arith,
        p.aligned,
        whole,
        length-append zeros padding,
        length-replicate max_increase (let z : ℕ = 0 in z),
        length-replicate pad (let z : ℕ = 0 in z),
      ) in
      let read : account_at max_increase
            (p.pre
              ++ (live_bytes meta len a
                  ++ (a.account_bytes ++ ((zeros ++ padding) ++ (epoch ++ p.post)))))
            (length p.pre)
          ≡ some a =
        (account_at_parts max_increase p.pre (live_bytes meta len a) a.account_bytes
            (zeros ++ padding) epoch p.post (live_header meta len a)
            (length-live_bytes meta a len p.fits.len p.fits)
            (parse_header-live_bytes meta a len p.fits.len p.fits) refl room
            (length-to_le_bytes 8 a.rent_epoch) (omega (arith, p.start, p.aligned))
          ∙ ap some (λ i. record a {
            executable = executable_back a.executable i;
            rent_epoch = from_le_bytes-to_le_bytes 8 a.rent_epoch p.fits.rent_epoch i;
          })) in
      subst⁻¹ (λ z. account_at max_increase z offset ≡ some a) regroup
        (subst⁻¹
          (λ o.
            account_at max_increase
              (p.pre
                ++ (live_bytes meta len a
                    ++ (a.account_bytes ++ ((zeros ++ padding) ++ (epoch ++ p.post)))))
              o
            ≡ some a)
          p.start read)

  pub length-account_entry :
      (start : ℕ) (meta : AccountMeta) (a : AccountData)
      → Fits meta a
      → length (account_entry max_increase start meta a)
        ≡ 96
          + length a.account_bytes
          + max_increase
          + (start + 88 + length a.account_bytes + max_increase) % 8
  unfolding account_entry
  length-account_entry start meta a f =
      let len = length a.account_bytes in
      let zeros : Bytes = replicate max_increase 0 in
      let pad : ℕ = (start + 88 + len + max_increase) % 8 in
      let padding : Bytes = replicate pad 0 in
      let epoch : Bytes = to_le_bytes 8 a.rent_epoch in
      omega (
        arith,
        length-append (header_bytes meta a) (a.account_bytes ++ (zeros ++ (padding ++ epoch))),
        length-append a.account_bytes (zeros ++ (padding ++ epoch)),
        length-append zeros (padding ++ epoch),
        length-append padding epoch,
        ap length (header_bytes-eq-live_bytes meta a),
        length-live_bytes meta a len f.len f,
        length-replicate max_increase (let z : ℕ = 0 in z),
        length-replicate pad (let z : ℕ = 0 in z),
        length-to_le_bytes 8 a.rent_epoch,
      )
