-- ===== src/AccountsBlob/Tests.antt =====
-- Concrete accounts for `SolanaAccountsBlob` (executor.rs).
use bokken.Prelude.{
  ◌≢◌, ◌%◌, ℕ, ◌≡◌, ◌<◌, ◌^◌, ◌++◌, refl, false, true, none, some, [], ◌∷◌, arith, replicate,
  to_le_bytes,
}
use bokken.Prelude.Result.{ok}
use bokken.Prelude.Maps.{Map, get}
use bokken.Account.{AccountData, AccountMeta, default_account}
use bokken.AccountsBlob.{AccountsBlob, new, get_account_data, set_account_data}
use bokken.AccountsBlob.Layout.{Fits, live_bytes}
use bokken.AccountsBlob.Fresh.{IsAligned, get_account_data-new}
use bokken.AccountsBlob.Writing.{Stands, set_account_data-Stands}
use bokken.AccountsBlob.Misaligned.{get_account_data_misaligned}

abbrev first_meta : AccountMeta
first_meta = record { pubkey = 1; is_signer = true; is_writable = true }

abbrev second_meta : AccountMeta
second_meta = record { pubkey = 2; is_signer = false; is_writable = true }

-- Four bytes of data, and two.
abbrev even_account : AccountData
even_account = record default_account { lamports = 7; account_bytes = 5 ∷ 6 ∷ 7 ∷ 8 ∷ [] }

abbrev odd_account : AccountData
odd_account = record default_account { lamports = 7; account_bytes = 5 ∷ 6 ∷ [] }

even_Fits : (meta : AccountMeta) → meta.pubkey < 256 ^ 32 → Fits meta even_account
even_Fits meta small = record {
  len = omega arith;
  pubkey = small;
  owner = omega arith;
  lamports = omega arith;
  rent_epoch = omega arith;
}

odd_Fits : Fits first_meta odd_account
odd_Fits = record {
  len = omega arith;
  pubkey = omega arith;
  owner = omega arith;
  lamports = omega arith;
  rent_epoch = omega arith;
}

abbrev even_datas : Map AccountData
even_datas = (1, even_account) ∷ (2, even_account) ∷ []

abbrev odd_datas : Map AccountData
odd_datas = (1, odd_account) ∷ (2, even_account) ∷ []

even_IsAligned : IsAligned even_datas first_meta × IsAligned even_datas second_meta
unfolding get
even_IsAligned = (
  record {
    account = even_account;
    there = refl;
    fits = even_Fits first_meta (omega arith);
    words = refl;
  },
  record {
    account = even_account;
    there = refl;
    fits = even_Fits second_meta (omega arith);
    words = refl;
  },
)

-- The first meta comes twice.
get_account_data-new_example :
    (b : AccountsBlob) × (new 8 9 (1 ∷ []) (first_meta ∷ second_meta ∷ first_meta ∷ []) even_datas
      ≡ some b)
    × (get_account_data 8 second_meta.pubkey b ≡ some (get second_meta.pubkey even_datas))
get_account_data-new_example =
    get_account_data-new 8 refl 9 (1 ∷ []) (first_meta ∷ second_meta ∷ first_meta ∷ []) even_datas 1
      second_meta (even_IsAligned.0, (even_IsAligned.1, (even_IsAligned.0, tt))) refl

get_account_data_misaligned_example :
    (b : AccountsBlob) × (new 8 9 (1 ∷ []) (first_meta ∷ second_meta ∷ []) odd_datas ≡ some b)
    × (offset : ℕ) × (get second_meta.pubkey b.account_offsets ≡ some offset)
    × (offset % 8 ≢ 0)
    × (get_account_data 8 second_meta.pubkey b ≡ none)
unfolding get
get_account_data_misaligned_example =
    get_account_data_misaligned 8 refl 9 (1 ∷ []) first_meta second_meta odd_account even_account
      odd_datas (λ e. omega arith) refl refl odd_Fits (λ e. omega arith)

-- One account behind eight bytes.
abbrev one_blob : AccountsBlob
one_blob = record {
  account_offsets = (1, 8) ∷ [];
  bytes =
      to_le_bytes 8 1
      ++ (live_bytes first_meta 4 even_account
          ++ (even_account.account_bytes ++ (replicate 12 0 ++ (to_le_bytes 8 0 ++ []))));
  non_entrypointed_account_infos = [];
}

one_Stands : Stands 8 one_blob (to_le_bytes 8 1) [] first_meta 4 even_account
unfolding get to_le_bytes
one_Stands = record {
  spare = replicate 12 0;
  known = refl;
  content = refl;
  room = refl;
  aligned = refl;
  small = omega arith;
  fits = even_Fits first_meta (omega arith);
}

set_account_data-Stands_example :
    (c : AccountsBlob) × (set_account_data 8 first_meta.pubkey odd_account one_blob
      ≡ some (ok tt, c))
    × Stands 8 c (to_le_bytes 8 1) [] first_meta 4 odd_account
set_account_data-Stands_example =
    set_account_data-Stands 8 one_blob (to_le_bytes 8 1) [] first_meta 4 even_account one_Stands
      odd_account odd_Fits (omega arith)
