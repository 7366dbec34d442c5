-- ===== src/Rpc/Sample.antt =====
-- Sample values for tests of rpc_endpoint.rs.
use bokken.Prelude.{ℕ, some, [], ◌∷◌}
use bokken.Prelude.Result.{ok}
use bokken.Rpc.{Endpoint}

abbrev pub endpoint : Endpoint ℕ
endpoint = record {
  codecs = record {
    encode_base64 = λ bytes. "text";
    decode_base64 = λ text. some (1 ∷ []);
    encode_base58 = λ bytes. "text";
    decode_base58 = λ text. some (1 ∷ []);
    compress = λ bytes. bytes;
    decompress = λ bytes. some bytes;
  };
  parse_key = λ text. ok 7;
  show_key = λ key. "key";
  show_signature = λ signature. "signature";
  show_blockhash = λ bytes. "hash";
  sanitize = λ tx. ok tt;
  sanitize_message = λ tx. ok tt;
  verify = λ tx. ok tt;
}
