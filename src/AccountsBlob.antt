-- ===== src/AccountsBlob.antt =====
-- solana-debug-runtime/src/executor.rs: `SolanaAccountsBlob`, the accounts of one execution in the
-- memory layout that the entry point of a Solana program reads. `none` is a panic: of an `expect`,
-- of a slice out of range, or of `bytemuck::from_bytes` at an address that is not a multiple of
-- eight. The buffer begins at such a multiple. `MAX_PERMITTED_DATA_INCREASE` is a parameter.
pub mod Layout
pub mod Placed
pub mod Fresh
pub mod Writing
pub mod Misaligned
mod Tests
use bokken.Prelude.{
  ℕ, ◌+◌, ◌-◌, ◌*◌, ◌%◌, Bool, true, false, not, ◌&&◌, Option, none, some, List, [], ◌∷◌, ◌++◌,
  Bytes, length, take, drop, replicate, get_elem?, to_le_bytes, from_le_bytes, ltb, leb, ◌==◌,
  if◌then◌else◌,
}
use bokken.Prelude.Result.{Result, ok, err}
use bokken.Prelude.Maps.{Map, get, insert, remove}
use bokken.Errors.{ProgramError, invalid_realloc, uninitialized_account}
use bokken.Account.{AccountData, AccountMeta}

-- `AccountInfoHeader`
pub record AccountInfoHeader : Type 0 where
  pub signer_byte : ℕ
  pub writable_byte : ℕ
  pub executable_byte : ℕ
  pub original_data_len : ℕ
  pub pubkey : ℕ
  pub owner : ℕ
  pub lamports : ℕ
  pub data_len : ℕ

pub record AccountsBlob : Type 0 where
  pub account_offsets : Map ℕ
  pub bytes : Bytes
  pub non_entrypointed_account_infos : Map AccountData

-- `b as u8`
abbrev pub as_u8 : Bool → ℕ
as_u8 true = 1
as_u8 false = 0

-- `size_of::<AccountInfoHeader>()`
abbrev pub header_len : ℕ
header_len = 88

-- The fixed part of an account: what `new` pushes before the data.
unfoldable pub header_bytes : AccountMeta → AccountData → Bytes
header_bytes meta a =
    (255 ∷ as_u8 meta.is_signer ∷ as_u8 meta.is_writable ∷ as_u8 a.executable ∷ [])
    ++ (to_le_bytes 4 (length a.account_bytes)
        ++ (to_le_bytes 32 meta.pubkey
            ++ (to_le_bytes 32 a.owner
                ++ (to_le_bytes 8 a.lamports ++ to_le_bytes 8 (length a.account_bytes)))))

-- `bytemuck::from_bytes::<AccountInfoHeader>` on the bytes of a header.
unfoldable pub parse_header : Bytes → AccountInfoHeader
parse_header h = record {
  signer_byte = from_le_bytes (take 1 (drop 1 h));
  writable_byte = from_le_bytes (take 1 (drop 2 h));
  executable_byte = from_le_bytes (take 1 (drop 3 h));
  original_data_len = from_le_bytes (take 4 (drop 4 h));
  pubkey = from_le_bytes (take 32 (drop 8 h));
  owner = from_le_bytes (take 32 (drop 40 h));
  lamports = from_le_bytes (take 8 (drop 72 h));
  data_len = from_le_bytes (take 8 (drop 80 h));
}

-- `&bytes[from..from + n]`
unfoldable pub slice : Bytes → ℕ → ℕ → Option Bytes
slice bytes from n = if leb (from + n) (length bytes) then some (take n (drop from bytes)) else none

-- What `new` has at hand during its loop: the bytes, the indices and the offsets of the accounts
-- that are written, and the accounts that are not.
pub record Building : Type 0 where
  pub blob : Bytes
  pub account_indices : Map ℕ
  pub account_offsets : Map ℕ
  pub account_datas : Map AccountData

-- Reading the header at an offset.
unfoldable pub header_at : Bytes → ℕ → Option AccountInfoHeader
header_at bytes offset = elim (slice bytes offset header_len) [
  | none ↦ none
  | some h ↦ if offset % 8 == 0 then some (parse_header h) else none
]

-- Writing over a part of the buffer.
unfoldable pub put_at : Bytes → ℕ → Bytes → Bytes
put_at bytes offset part = take offset bytes ++ (part ++ drop (offset + length part) bytes)

-- The three fields of the header that `set_account_data` writes, then the data.
unfoldable pub write_account : Bytes → ℕ → AccountData → Bytes
write_account bytes offset a =
    put_at
      (put_at
        (put_at (put_at bytes (offset + 80) (to_le_bytes 8 (length a.account_bytes))) (offset + 72)
          (to_le_bytes 8 a.lamports))
        (offset + 40) (to_le_bytes 32 a.owner))
      (offset + header_len) a.account_bytes

unfoldable pub get_account_data_header : ℕ → AccountsBlob → Option (Option AccountInfoHeader)
get_account_data_header pubkey b = elim (get pubkey b.account_offsets) [
  | none ↦ some none
  | some offset ↦ elim (header_at b.bytes offset) [ none ↦ none | some h ↦ some (some h) ]
]

unfoldable pub is_writable : ℕ → AccountsBlob → Option Bool
is_writable pubkey b = elim (get_account_data_header pubkey b) [
  | none ↦ none
  | some none ↦ some false
  | some (some h) ↦ some (ltb 0 h.writable_byte && not (ltb 0 h.executable_byte))
]

unfoldable pub is_signer : ℕ → AccountsBlob → Option Bool
is_signer pubkey b = elim (get_account_data_header pubkey b) [
  | none ↦ none
  | some none ↦ some false
  | some (some h) ↦ some (ltb 0 h.signer_byte)
]

module _ (max_increase : ℕ) where
  -- A whole account, behind `start` bytes.
  unfoldable pub account_entry : ℕ → AccountMeta → AccountData → Bytes
  account_entry start meta a =
      header_bytes meta a
      ++ (a.account_bytes
          ++ (replicate max_increase 0
              ++ (replicate ((start + header_len + length a.account_bytes + max_increase) % 8) 0
                  ++ to_le_bytes 8 a.rent_epoch)))

  -- One round of the loop; an account comes again as the index of its first time.
  unfoldable pub add_account : ℕ → AccountMeta → Building → Option Building
  add_account index meta b = elim (get meta.pubkey b.account_indices) [
    | some entry_index ↦ some (record b { blob = b.blob ++ to_le_bytes 8 entry_index })
    | none ↦ elim (get meta.pubkey b.account_datas) [
      | none ↦ none
      | some a ↦ some (record {
        blob = b.blob ++ account_entry (length b.blob) meta a;
        account_indices = insert meta.pubkey index b.account_indices;
        account_offsets = insert meta.pubkey (length b.blob) b.account_offsets;
        account_datas = remove meta.pubkey b.account_datas;
      })
    ]
  ]

  unfoldable pub add_accounts : ℕ → List AccountMeta → Building → Option Building
  add_accounts index [] b = some b
  add_accounts index (meta ∷ metas) b = elim (add_account index meta b) [
    | none ↦ none
    | some c ↦ add_accounts (index + 1) metas c
  ]

  unfoldable pub new : ℕ → Bytes → List AccountMeta → Map AccountData → Option AccountsBlob
  new program_id instruction metas datas =
      elim (add_accounts 0 metas (record {
        blob = to_le_bytes 8 (length metas);
        account_indices = [];
        account_offsets = [];
        account_datas = datas;
      })) [
        | none ↦ none
        | some b ↦ some (record {
          account_offsets = b.account_offsets;
          bytes =
              b.blob
              ++ (to_le_bytes 8 (length instruction) ++ (instruction ++ to_le_bytes 32 program_id));
          non_entrypointed_account_infos = b.account_datas;
        })
      ]

  -- The account at an offset: its header, its data and its rent epoch.
  unfoldable pub account_at : Bytes → ℕ → Option AccountData
  account_at bytes offset = elim (header_at bytes offset) [
    | none ↦ none
    | some h ↦ elim (slice bytes (offset + header_len) h.data_len) [
      | none ↦ none
      | some account_bytes ↦
          elim (slice bytes
            (offset + header_len + h.original_data_len + max_increase + h.original_data_len % 8)
            8) [
              | none ↦ none
              | some epoch ↦ some (record {
                lamports = h.lamports;
                account_bytes = account_bytes;
                owner = h.owner;
                executable = ltb 0 h.executable_byte;
                rent_epoch = from_le_bytes epoch;
              })
            ]
    ]
  ]

  -- The inner `none` is an account that is not there.
  unfoldable pub get_account_data : ℕ → AccountsBlob → Option (Option AccountData)
  get_account_data pubkey b = elim (get pubkey b.account_offsets) [
    | none ↦ some none
    | some offset ↦ elim (account_at b.bytes offset) [ none ↦ none | some a ↦ some (some a) ]
  ]

  -- `or` evaluates its argument.
  unfoldable pub get_sysvar_data : ℕ → AccountsBlob → Option (Option AccountData)
  get_sysvar_data pubkey b = elim (get_account_data pubkey b) [
    | none ↦ none
    | some inside ↦ elim (get pubkey b.non_entrypointed_account_infos) [
      | some a ↦ some (some a)
      | none ↦ some inside
    ]
  ]

  -- `none` is a panic, the result the one that is returned.
  unfoldable pub set_account_data :
      ℕ → AccountData → AccountsBlob → Option (Result ProgramError (Unit {0}) × AccountsBlob)
  set_account_data pubkey a b = elim (get pubkey b.account_offsets) [
    | none ↦ some (err uninitialized_account, b)
    | some offset ↦ elim (header_at b.bytes offset) [
      | none ↦ none
      | some h ↦
          if ltb (h.original_data_len + max_increase) (length a.account_bytes)
          then some (err invalid_realloc, b)
          else if leb (offset + header_len + length a.account_bytes) (length b.bytes)
          then some (ok tt, record b { bytes = write_account b.bytes offset a })
          else none
    ]
  ]

  -- The accounts at the offsets of the map.
  unfoldable pub read_offsets : Bytes → Map ℕ → Map AccountData → Option (Map AccountData)
  read_offsets bytes [] result = some result
  read_offsets bytes ((pubkey, offset) ∷ offsets) result = elim (account_at bytes offset) [
    | none ↦ none
    | some a ↦ read_offsets bytes offsets (insert pubkey a result)
  ]

  unfoldable pub get_account_datas : AccountsBlob → Option (Map AccountData)
  get_account_datas b = read_offsets b.bytes b.account_offsets []
