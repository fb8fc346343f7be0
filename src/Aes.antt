-- ===== src/Aes.antt =====
-- Aes128FixedKeyHash (dpf/aes_128_fixed_key_hash.h, dpf/aes_128_fixed_key_hash.cc). The cipher is
-- OpenSSL's: the encryption context is a parameter, with ECB mode as the documented behaviour.
pub mod Hash
use distributed_point_functi.Base.{
  ℕ, zero, suc, ◌*◌, ◌<◌, ◌≡◌, Bool, true, false, List, [], ◌∷◌, ◌++◌, map, bit_xor, length, take,
  drop, Status, ok, err, invalid_argument, internal, guard, ◌>>=◌, ◌>>◌, ◌==◌, if◌then◌else◌,
  high64, low64, make_uint128,
}

-- What EVP_EncryptUpdate leaves behind: its status, the blocks written, and `out_len` in bytes.
pub record EncryptUpdate : Type 0 where
  pub openssl_status : ℕ
  pub out : List ℕ
  pub out_len : ℕ

-- The hash with its key, and EVP_EncryptUpdate on the context that was set up with that key.
pub record Aes128FixedKeyHash : Type 0 where
  pub key : ℕ
  pub encrypt_update : List ℕ → EncryptUpdate

abbrev pub batch_size : ℕ
batch_size = 64

-- sigma(x) = (x.high64 ^ x.low64, x.high64).
unfoldable pub sigma : ℕ → ℕ
sigma x = make_uint128 (bit_xor (high64 x) (low64 x)) (high64 x)

-- `out[i] ^= sigma_in[i]` for each block of a batch.
unfoldable pub xor_blocks : List ℕ → List ℕ → List ℕ
xor_blocks [] ss = []
xor_blocks (o ∷ os) [] = o ∷ os
xor_blocks (o ∷ os) (s ∷ ss) = bit_xor o s ∷ xor_blocks os ss

-- One batch of `Evaluate`.
unfoldable pub evaluate_batch : Aes128FixedKeyHash → List ℕ → Status (List ℕ)
evaluate_batch prg batch = do
  let sigma_in = map sigma batch
  let update = prg.encrypt_update sigma_in
  guard (update.openssl_status == 1) internal
  guard (update.out_len == 16 * length batch) internal
  ok (xor_blocks update.out sigma_in)

-- The loop over the batches, with one unit of fuel for each.
unfoldable pub evaluate_from : Aes128FixedKeyHash → ℕ → List ℕ → Status (List ℕ)
evaluate_from prg zero rest = ok []
evaluate_from prg (suc fuel) [] = ok []
evaluate_from prg (suc fuel) (x ∷ rest) = do
  out ← evaluate_batch prg (take batch_size (x ∷ rest))
  outs ← evaluate_from prg fuel (drop batch_size (x ∷ rest))
  ok (out ++ outs)

-- `Evaluate(in, out)`: what `out` holds afterwards.
unfoldable pub evaluate : Aes128FixedKeyHash → List ℕ → ℕ → Status (List ℕ)
evaluate prg input out_size = do
  guard (length input == out_size) invalid_argument
  evaluate_from prg (length input) input

-- OpenSSL, for each key: whether EVP_CIPHER_CTX_new returns a context, the status of
-- EVP_EncryptInit_ex, and EVP_EncryptUpdate on that context.
pub record OpenSsl : Type 0 where
  pub cipher_ctx_new : Bool
  pub encrypt_init : ℕ → ℕ
  pub encrypt_update : ℕ → List ℕ → EncryptUpdate

abbrev pub hash_with : OpenSsl → ℕ → Aes128FixedKeyHash
hash_with openssl key = record { key = key; encrypt_update = openssl.encrypt_update key }

-- `Aes128FixedKeyHash::Create`.
unfoldable pub create_hash : OpenSsl → ℕ → Status Aes128FixedKeyHash
create_hash openssl key = do
  guard openssl.cipher_ctx_new internal
  guard (openssl.encrypt_init key == 1) internal
  ok (hash_with openssl key)
