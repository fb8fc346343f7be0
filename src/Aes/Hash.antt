-- ===== src/Aes/Hash.antt =====
-- The batched evaluation computes the Matyas-Meyer-Oseas hash of each block.
use mathlib.Core.List.{map-append}
use distributed_point_functi.Base.{
  ℕ, zero, suc, ◌*◌, ◌≤◌, ◌≡◌, refl, ap, List, [], ◌∷◌, map, bit_xor, length, take, drop, ok, arith,
  eq→==, length-map, take-append-drop, length-drop,
}
use distributed_point_functi.Aes.{
  Aes128FixedKeyHash, batch_size, sigma, xor_blocks, evaluate_batch, evaluate_from, evaluate,
}

-- AES-128 in ECB mode encrypts block by block, and reports the number of bytes written.
pub record IsEcb (prg : Aes128FixedKeyHash) (cipher : ℕ → ℕ) : Type 0 where
  pub encrypts :
      (xs : List ℕ)
      → prg.encrypt_update xs
        ≡ record { openssl_status = 1; out = map cipher xs; out_len = 16 * length xs }

-- out[i] = AES.Encrypt(key, sigma(in[i])) ^ sigma(in[i]).
unfoldable pub hash : (ℕ → ℕ) → ℕ → ℕ
hash cipher x = bit_xor (cipher (sigma x)) (sigma x)

module _ (prg : Aes128FixedKeyHash) (cipher : ℕ → ℕ) (ecb : IsEcb prg cipher) where
  xor_blocks-map :
      (xs : List ℕ) → xor_blocks (map cipher (map sigma xs)) (map sigma xs) ≡ map (hash cipher) xs
  unfolding xor_blocks hash
  xor_blocks-map [] = refl
  xor_blocks-map (x ∷ xs) = ap (◌∷◌ (hash cipher x)) (xor_blocks-map xs)

  evaluate_batch_lem : (xs : List ℕ) → evaluate_batch prg xs ≡ ok (map (hash cipher) xs)
  unfolding evaluate_batch
  evaluate_batch_lem xs =
      rw
        (
          ecb.encrypts (map sigma xs),
          length-map xs sigma,
          eq→== (16 * length xs) (16 * length xs) refl,
        )
        (ap ok (xor_blocks-map xs))

  evaluate_from_lem :
      (fuel : ℕ) (xs : List ℕ)
      → length xs ≤ fuel
      → evaluate_from prg fuel xs ≡ ok (map (hash cipher) xs)
  unfolding evaluate_from
  evaluate_from_lem zero [] h = refl
  evaluate_from_lem zero (x ∷ xs) h = absurd (omega arith)
  evaluate_from_lem (suc fuel) [] h = refl
  evaluate_from_lem (suc fuel) (x ∷ xs) h =
      rw
        (
          evaluate_batch_lem (take batch_size (x ∷ xs)),
          evaluate_from_lem fuel (drop batch_size (x ∷ xs))
              (omega (arith, length-drop batch_size (x ∷ xs))),
          ← map-append (hash cipher) (take batch_size (x ∷ xs)) (drop batch_size (x ∷ xs)),
        )
        (ap (λ t. ok (map (hash cipher) t)) (take-append-drop batch_size (x ∷ xs)))

  -- If the cipher works in ECB mode, `Evaluate` succeeds with an output span as long as the input, and
  -- writes the Matyas-Meyer-Oseas hash of each block in order, for any number of blocks.
  pub evaluate_lem : (xs : List ℕ) → evaluate prg xs (length xs) ≡ ok (map (hash cipher) xs)
  unfolding evaluate
  evaluate_lem xs =
      rw (eq→== (length xs) (length xs) refl) (evaluate_from_lem (length xs) xs (omega arith))

-- What a client relies on: a hash of single blocks, which `Evaluate` applies to each.
pub record Prg (prg : Aes128FixedKeyHash) : Type 0 where
  pub block : ℕ → ℕ
  pub evaluates : (xs : List ℕ) → evaluate prg xs (length xs) ≡ ok (map block xs)

pub ecb-Prg : (prg : Aes128FixedKeyHash) (cipher : ℕ → ℕ) → IsEcb prg cipher → Prg prg
ecb-Prg prg cipher ecb = record { block = hash cipher; evaluates = evaluate_lem prg cipher ecb }
