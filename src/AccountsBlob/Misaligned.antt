-- ===== src/AccountsBlob/Misaligned.antt =====
-- The padding behind an account in `new` of executor.rs does not reach the next multiple of eight.
use bokken.Prelude.{
  ℕ, ◌%◌, ◌≡◌, ◌≢◌, none, some, [], ◌∷◌, ◌++◌, arith, Bytes, length, length-append, to_le_bytes,
  length-to_le_bytes,
}
use bokken.Prelude.Maps.{Map, get, insert, remove, get-remove}
use bokken.Account.{AccountData, AccountMeta}
use bokken.AccountsBlob.{
  AccountsBlob, account_entry, add_account, add_accounts, new, account_at, header_at,
  get_account_data,
}
use bokken.AccountsBlob.Layout.{Fits}
use bokken.AccountsBlob.Placed.{length-account_entry}

header_at_misaligned : (bytes : Bytes) (offset : ℕ) → offset % 8 ≢ 0 → header_at bytes offset ≡ none
unfolding header_at
header_at_misaligned bytes offset odd = ground arith

module _ (max_increase : ℕ) (whole : max_increase % 8 ≡ 0) where
  second_offset : AccountMeta → AccountData → ℕ
  second_offset f a = length (to_le_bytes 8 2 ++ account_entry max_increase 8 f a)

  second_offset_odd :
      (f : AccountMeta) (a : AccountData)
      → Fits f a
      → length a.account_bytes % 4 ≢ 0
      → second_offset f a % 8 ≢ 0
  unfolding second_offset
  second_offset_odd f a fits odd e = odd (
      omega (
        arith,
        whole,
        e,
        length-append (to_le_bytes 8 2) (account_entry max_increase 8 f a),
        length-to_le_bytes 8 2,
        length-account_entry max_increase whole 8 f a fits,
      ))

  -- Where the growth is a multiple of eight: of two different accounts that are there, the
  -- first of which fits and has data that is no multiple of four bytes long, the second one
  -- stands at an offset that is no multiple of eight. `new` succeeds, and `get_account_data`
  -- panics on it.
  pub get_account_data_misaligned :
      (program_id : ℕ) (instruction : Bytes) (f n : AccountMeta) (a c : AccountData)
      (datas : Map AccountData)
      → f.pubkey ≢ n.pubkey
      → get f.pubkey datas ≡ some a
      → get n.pubkey datas ≡ some c
      → Fits f a
      → length a.account_bytes % 4 ≢ 0
      → (b : AccountsBlob) × (new max_increase program_id instruction (f ∷ n ∷ []) datas ≡ some b)
        × (offset : ℕ) × (get n.pubkey b.account_offsets ≡ some offset)
        × (offset % 8 ≢ 0)
        × (get_account_data max_increase n.pubkey b ≡ none)
  unfolding new add_accounts add_account get_account_data account_at get insert second_offset
  get_account_data_misaligned program_id instruction f n a c datas ne ha hc fits odd =
      let here : get n.pubkey (remove f.pubkey datas) ≡ some c =
        ground (arith, get-remove n.pubkey f.pubkey datas) in
      let blob : Bytes = to_le_bytes 8 2 ++ account_entry max_increase 8 f a in
      let bytes : Bytes =
        (blob ++ account_entry max_increase (second_offset f a) n c)
        ++ (to_le_bytes 8 (length instruction) ++ (instruction ++ to_le_bytes 32 program_id)) in
      (
        record {
          account_offsets = (f.pubkey, 8) ∷ (n.pubkey, second_offset f a) ∷ [];
          bytes = bytes;
          non_entrypointed_account_infos = remove n.pubkey (remove f.pubkey datas);
        },
        ground (arith, here, length-to_le_bytes 8 2),
        second_offset f a,
        ground arith,
        second_offset_odd f a fits odd,
        ground (
          arith,
          header_at_misaligned bytes (second_offset f a) (second_offset_odd f a fits odd),
        ),
      )
