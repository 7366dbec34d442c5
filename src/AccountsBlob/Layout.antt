-- ===== src/AccountsBlob/Layout.antt =====
-- Where the parts of an account stand in the buffer of executor.rs, and what is read there.
use bokken.Prelude.{
  ℕ, ◌+◌, ◌%◌, ◌^◌, ◌<◌, ◌≡◌, refl, sym, ap, ◌∙◌, subst, Bool, true, false, some, List, [], ◌∷◌,
  ◌++◌, append_assoc, append-nil, arith, Bytes, length, take, drop, length-append,
  take-append_length, drop-append_length, drop-add, to_le_bytes, from_le_bytes, length-to_le_bytes,
  from_le_bytes-to_le_bytes, le→leb, ltb,
}
use bokken.Account.{AccountData, AccountMeta}
use bokken.AccountsBlob.{
  AccountInfoHeader, as_u8, header_bytes, parse_header, slice, header_at, account_at,
}

pub executable_back : (b : Bool) → ltb 0 (as_u8 b) ≡ b
executable_back true = refl
executable_back false = refl

-- Looking behind a first part.
pub drop_behind :
    {A : Type 0} (k n : ℕ) (a x : List A) → k ≡ length a + n → drop k (a ++ x) ≡ drop n x
drop_behind k n a x e =
    rw (e, drop-add (length a) n (a ++ x), drop-append_length (length a) a x refl)

-- The middle one of three parts.
pub slice_part :
    (pre mid post : Bytes) (from n : ℕ)
    → from ≡ length pre
    → n ≡ length mid
    → slice (pre ++ (mid ++ post)) from n ≡ some mid
unfolding slice
slice_part pre mid post from n e h = rw (
  e,
  h,
  le→leb (length pre + length mid) (length (pre ++ (mid ++ post)))
      (omega (arith, length-append pre (mid ++ post), length-append mid post)),
  drop-append_length (length pre) pre (mid ++ post) refl,
  take-append_length (length mid) mid post refl,
)

-- The numbers of an account fit into their fields.
pub record Fits (meta : AccountMeta) (a : AccountData) : Type 0 where
  pub len : length a.account_bytes < 256 ^ 4
  pub pubkey : meta.pubkey < 256 ^ 32
  pub owner : a.owner < 256 ^ 32
  pub lamports : a.lamports < 256 ^ 8
  pub rent_epoch : a.rent_epoch < 256 ^ 8

-- A word behind a first part is read back.
word_at :
    (k w v : ℕ) (rest : Bytes) (x : Bytes)
    → drop k x ≡ to_le_bytes w v ++ rest
    → v < 256 ^ w
    → from_le_bytes (take w (drop k x)) ≡ v
word_at k w v rest x e h =
    rw (e, take-append_length w (to_le_bytes w v) rest (length-to_le_bytes w v))
      (from_le_bytes-to_le_bytes w v h)

-- The header of an account whose data had `original` bytes at first.
abbrev pub live_header : AccountMeta → ℕ → AccountData → AccountInfoHeader
live_header meta original a = record {
  signer_byte = as_u8 meta.is_signer;
  writable_byte = as_u8 meta.is_writable;
  executable_byte = as_u8 a.executable;
  original_data_len = original;
  pubkey = meta.pubkey;
  owner = a.owner;
  lamports = a.lamports;
  data_len = length a.account_bytes;
}

-- Its bytes.
abbrev pub live_bytes : AccountMeta → ℕ → AccountData → Bytes
live_bytes meta original a =
    (255
      ∷ as_u8 meta.is_signer
      ∷ as_u8 meta.is_writable
      ∷ as_u8 a.executable
      ∷ (to_le_bytes 4 original ++ to_le_bytes 32 meta.pubkey))
    ++ (to_le_bytes 32 a.owner
        ++ (to_le_bytes 8 a.lamports ++ to_le_bytes 8 (length a.account_bytes)))

pub header_bytes-eq-live_bytes :
    (meta : AccountMeta) (a : AccountData)
    → header_bytes meta a ≡ live_bytes meta (length a.account_bytes) a
unfolding header_bytes
header_bytes-eq-live_bytes meta a = simp append_assoc

module _ (meta : AccountMeta) (a : AccountData) (original : ℕ) (small : original < 256 ^ 4)
    (f : Fits meta a) where
  abbrev tail5 : Bytes
  tail5 = to_le_bytes 8 (length a.account_bytes)

  abbrev tail4 : Bytes
  tail4 = to_le_bytes 8 a.lamports ++ tail5

  abbrev tail3 : Bytes
  tail3 = to_le_bytes 32 a.owner ++ tail4

  abbrev tail2 : Bytes
  tail2 = to_le_bytes 32 meta.pubkey ++ tail3

  abbrev head : Bytes
  head =
      255
      ∷ as_u8 meta.is_signer
      ∷ as_u8 meta.is_writable
      ∷ as_u8 a.executable
      ∷ (to_le_bytes 4 original ++ tail2)

  behind_8 : drop 8 head ≡ tail2
  behind_8 = drop-append_length 4 (to_le_bytes 4 original) tail2 (length-to_le_bytes 4 original)

  behind_40 : drop 40 head ≡ tail3
  behind_40 =
      drop-add 8 32 head
      ∙ ap (drop 32) behind_8
      ∙ drop-append_length 32 (to_le_bytes 32 meta.pubkey) tail3 (length-to_le_bytes 32 meta.pubkey)

  behind_72 : drop 72 head ≡ tail4
  behind_72 =
      drop-add 40 32 head
      ∙ ap (drop 32) behind_40
      ∙ drop-append_length 32 (to_le_bytes 32 a.owner) tail4 (length-to_le_bytes 32 a.owner)

  behind_80 : drop 80 head ≡ tail5 ++ []
  behind_80 =
      drop-add 72 8 head
      ∙ ap (drop 8) behind_72
      ∙ drop-append_length 8 (to_le_bytes 8 a.lamports) tail5 (length-to_le_bytes 8 a.lamports)
      ∙ sym (append-nil tail5)

  one_byte : (b : ℕ) → from_le_bytes (b ∷ []) ≡ b
  unfolding from_le_bytes
  one_byte b = omega arith

  parse_head : parse_header head ≡ live_header meta original a
  unfolding parse_header
  parse_head = λ i. record {
    signer_byte = one_byte (as_u8 meta.is_signer) i;
    writable_byte = one_byte (as_u8 meta.is_writable) i;
    executable_byte = one_byte (as_u8 a.executable) i;
    original_data_len = word_at 4 4 original tail2 head refl small i;
    pubkey = word_at 8 32 meta.pubkey tail3 head behind_8 f.pubkey i;
    owner = word_at 40 32 a.owner tail4 head behind_40 f.owner i;
    lamports = word_at 72 8 a.lamports tail5 head behind_72 f.lamports i;
    data_len = word_at 80 8 (length a.account_bytes) [] head behind_80 (omega (arith, f.len)) i;
  }

  live_bytes-eq-head : live_bytes meta original a ≡ head
  live_bytes-eq-head = simp append_assoc

  -- A header is read back field by field.
  pub parse_header-live_bytes :
      parse_header (live_bytes meta original a) ≡ live_header meta original a
  parse_header-live_bytes = ap parse_header live_bytes-eq-head ∙ parse_head

  pub length-live_bytes : length (live_bytes meta original a) ≡ 88
  length-live_bytes = omega (
    arith,
    length-append (to_le_bytes 4 original ++ to_le_bytes 32 meta.pubkey) tail3,
    length-append (to_le_bytes 4 original) (to_le_bytes 32 meta.pubkey),
    length-append (to_le_bytes 32 a.owner) tail4,
    length-append (to_le_bytes 8 a.lamports) tail5,
    length-to_le_bytes 4 original,
    length-to_le_bytes 32 meta.pubkey,
    length-to_le_bytes 32 a.owner,
    length-to_le_bytes 8 a.lamports,
    length-to_le_bytes 8 (length a.account_bytes),
  )

-- An account whose parts stand one after another is read back part by part.
pub account_at_parts :
    (max_increase : ℕ) (pre h d spare r post : Bytes) (info : AccountInfoHeader)
    → length h ≡ 88
    → parse_header h ≡ info
    → info.data_len ≡ length d
    → length d + length spare ≡ info.original_data_len + max_increase + info.original_data_len % 8
    → length r ≡ 8
    → length pre % 8 ≡ 0
    → account_at max_increase (pre ++ (h ++ (d ++ (spare ++ (r ++ post))))) (length pre)
      ≡ some (record {
        lamports = info.lamports;
        account_bytes = d;
        owner = info.owner;
        executable = ltb 0 info.executable_byte;
        rent_epoch = from_le_bytes r;
      })
unfolding account_at header_at
account_at_parts max_increase pre h d spare r post info lh ph ld ls lr aligned =
    let rest : Bytes = d ++ (spare ++ (r ++ post)) in
    let one : slice (pre ++ (h ++ rest)) (length pre) 88 ≡ some h =
      slice_part pre h rest (length pre) 88 refl (sym lh) in
    let two : slice (pre ++ (h ++ rest)) (length pre + 88) info.data_len ≡ some d =
      subst (λ z. slice z (length pre + 88) info.data_len ≡ some d) (append_assoc pre h rest)
        (slice_part (pre ++ h) d (spare ++ (r ++ post)) (length pre + 88) info.data_len
          (omega (arith, length-append pre h)) ld) in
    let regroup : ((pre ++ h) ++ d) ++ (spare ++ (r ++ post)) ≡ pre ++ (h ++ rest) =
      append_assoc (pre ++ h) d (spare ++ (r ++ post)) ∙ append_assoc pre h rest in
    let three : slice (pre ++ (h ++ rest))
          (length pre + 88 + info.original_data_len + max_increase + info.original_data_len % 8) 8
        ≡ some r =
      subst
        (λ z.
          slice z
            (length pre + 88 + info.original_data_len + max_increase + info.original_data_len % 8) 8
          ≡ some r)
        (append_assoc ((pre ++ h) ++ d) spare (r ++ post) ∙ regroup)
        (slice_part (((pre ++ h) ++ d) ++ spare) r post
          (length pre + 88 + info.original_data_len + max_increase + info.original_data_len % 8) 8
          (omega (
            arith,
            length-append ((pre ++ h) ++ d) spare,
            length-append (pre ++ h) d,
            length-append pre h,
          ))
          (sym lr)) in
    ground (arith, one, two, three, ph, aligned)
