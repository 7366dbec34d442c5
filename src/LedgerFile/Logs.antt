-- ===== src/LedgerFile/Logs.antt =====
-- The loop of `append_new_block` (debug_ledger/ledger_file.rs) that cuts the logs of a block.
use Prim.Native.String.{String}
use bokken.Prelude.{ℕ, zero, suc, ◌+◌, ◌≤◌, ◌≡◌, refl, List, [], ◌∷◌, arith, replicate}
use bokken.LedgerFile.{Codec, truncate_logs, default_max_log_size, log_truncated_msg}

module _ {Tx : Type 0} (codec : Codec Tx) where
  -- The bytes of the texts, without the lengths that borsh puts before them.
  unfoldable pub text_len : List String → ℕ
  text_len [] = 0
  text_len (log ∷ logs) = codec.byte_len log + text_len logs

  -- Where the message of the cut has 13 bytes and room is left for it, the texts that are kept
  -- have at most the maximal size.
  pub truncate_logs_bound :
      (logs : List String) (total : ℕ)
      → codec.byte_len log_truncated_msg ≡ 13
      → total + 13 ≤ default_max_log_size
      → total + text_len (truncate_logs codec total logs) ≤ default_max_log_size
  unfolding truncate_logs text_len
  truncate_logs_bound [] total thirteen h = ground arith
  truncate_logs_bound (log ∷ logs) total thirteen h =
      ground (arith, truncate_logs_bound logs (total + codec.byte_len log) thirteen)

  -- Where the message of the cut has 13 bytes, logs whose texts leave 17 bytes of the maximal size
  -- are all kept.
  pub truncate_logs_whole :
      (logs : List String) (total : ℕ)
      → codec.byte_len log_truncated_msg ≡ 13
      → total + text_len logs + 17 ≤ default_max_log_size
      → truncate_logs codec total logs ≡ logs
  unfolding truncate_logs text_len
  truncate_logs_whole [] total thirteen h = refl
  truncate_logs_whole (log ∷ logs) total thirteen h =
      ground (arith, truncate_logs_whole logs (total + codec.byte_len log) thirteen)

  -- Where the sum so far leaves room for four bytes and the message of the cut, any number of empty
  -- logs is kept: the four bytes that borsh puts before each of them are not summed up.
  pub truncate_logs_empty :
      (log : String) (n total : ℕ)
      → codec.byte_len log ≡ 0
      → total + 4 + codec.byte_len log_truncated_msg ≤ default_max_log_size
      → truncate_logs codec total (replicate n log) ≡ replicate n log
  unfolding truncate_logs
  truncate_logs_empty log zero total e h = refl
  truncate_logs_empty log (suc n) total e h = ground (arith, truncate_logs_empty log n total e)
