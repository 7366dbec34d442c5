-- ===== src/Rpc/Encodings.antt =====
-- The text encodings of solana-debug-validator/src/rpc_endpoint_structs.rs.
use Prim.Native.String.{String}
use bokken.Prelude.{
  ℕ, ◌+◌, ◌*◌, ◌==◌, ◌≡◌, Option, none, some, [], ◌∷◌, Bytes, length, arith, if◌then◌else◌,
}
use bokken.Prelude.Result.{Result, ok, err, ok_or}
use bokken.Errors.{
  BokkenError, io, other_kind, base64_decode_error, base58_decode_error, invalid_signature_length,
}

-- `RpcBinaryEncoding`
pub data Encoding : Type 0 where
  base64 base58 base64_compressed : Encoding

-- `RPCBinaryEncodedString`
pub record EncodedString : Type 0 where
  pub text : String
  pub encoding : Encoding

-- The number that bytes spell, the first one highest.
unfoldable pub spelled : ℕ → Bytes → ℕ
spelled n [] = n
spelled n (b ∷ bs) = spelled (n * 256 + b) bs

-- The crates base64, bs58 and zstd.
pub record Codecs : Type 0 where
  pub encode_base64 : Bytes → String
  pub decode_base64 : String → Option Bytes
  pub encode_base58 : Bytes → String
  pub decode_base58 : String → Option Bytes
  pub compress : Bytes → Bytes
  pub decompress : Bytes → Option Bytes

-- Decoding is the inverse of encoding.
pub record Inverse (codecs : Codecs) : Type 0 where
  pub base64_back : (bytes : Bytes) → codecs.decode_base64 (codecs.encode_base64 bytes) ≡ some bytes
  pub base58_back : (bytes : Bytes) → codecs.decode_base58 (codecs.encode_base58 bytes) ≡ some bytes
  pub compress_back : (bytes : Bytes) → codecs.decompress (codecs.compress bytes) ≡ some bytes

module _ (codecs : Codecs) where
  unfoldable pub decode_bytes : Encoding → String → Result BokkenError Bytes
  decode_bytes base58 text = ok_or (codecs.decode_base58 text) base58_decode_error
  decode_bytes base64 text = ok_or (codecs.decode_base64 text) base64_decode_error
  decode_bytes base64_compressed text = elim (codecs.decode_base64 text) [
    | none ↦ err base64_decode_error
    | some bytes ↦ ok_or (codecs.decompress bytes) (io other_kind)
  ]

  -- A signature of a request: 64 bytes in base58.
  unfoldable pub decode_signature : String → Result BokkenError ℕ
  decode_signature text = elim (codecs.decode_base58 text) [
    | none ↦ err base58_decode_error
    | some bytes ↦ if length bytes == 64 then ok (spelled 0 bytes) else err invalid_signature_length
  ]

  unfoldable pub from_bytes : Bytes → Encoding → EncodedString
  from_bytes bytes base64_compressed = record {
    text = codecs.encode_base64 (codecs.compress bytes);
    encoding = base64_compressed;
  }
  from_bytes bytes base64 = record { text = codecs.encode_base64 bytes; encoding = base64 }
  from_bytes bytes base58 = record { text = codecs.encode_base58 bytes; encoding = base58 }

  -- Where the three crates decode what they encode, bytes that are sent in any encoding are decoded
  -- from the text and the encoding that were sent.
  pub decode_bytes-from_bytes :
      Inverse codecs
      → (bytes : Bytes) (encoding : Encoding)
      → (let sent = from_bytes bytes encoding in decode_bytes sent.encoding sent.text) ≡ ok bytes
  unfolding decode_bytes from_bytes
  decode_bytes-from_bytes inverse bytes base64 = ground (arith, inverse.base64_back bytes)
  decode_bytes-from_bytes inverse bytes base58 = ground (arith, inverse.base58_back bytes)
  decode_bytes-from_bytes inverse bytes base64_compressed =
      ground (arith, inverse.base64_back (codecs.compress bytes), inverse.compress_back bytes)
