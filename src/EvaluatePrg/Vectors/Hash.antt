-- ===== src/EvaluatePrg/Vectors/Hash.antt =====
-- The fixed-key hash on vectors (dpf/internal/aes_128_fixed_key_hash_hwy.h) hashes each block with one
-- of two keys, as its mask tells.
use distributed_point_functi.Base.{
  ℕ, zero, suc, ◌+◌, ◌*◌, ◌<◌, ◌≡◌, refl, sym, ap, ap₂, ◌∙◌, Bool, true, false, List, get_or,
  bit_xor, u128_mod, if◌then◌else◌, bit_and,
}
use distributed_point_functi.Aes.{sigma}
use distributed_point_functi.Aes.Hash.{hash}
use distributed_point_functi.EvaluatePrg.Highway.{Highway, IsHighway, blocks_per_vector}
use distributed_point_functi.EvaluatePrg.Vectors.{
  compute_sigma, select_key, middle_rounds, hash_one_with_key_mask,
}
use distributed_point_functi.EvaluatePrg.Vectors.Bits.{sigma_lem}

-- The middle rounds of AES on one block.
abbrev pub rounds_of : (ℕ → ℕ → ℕ) → ℕ → ℕ → List ℕ → ℕ → ℕ
rounds_of round zero r keys x = x
rounds_of round (suc left) r keys x = rounds_of round left (suc r) keys (round x (get_or keys r 0))

-- The eleven round keys of a key, with which the rounds make up the cipher.
pub record IsKeySchedule (round last_round : ℕ → ℕ → ℕ) (keys : List ℕ) (cipher : ℕ → ℕ)
    : Type 0 where
  pub encrypts :
      (x : ℕ)
      → last_round (rounds_of round 9 1 keys (bit_xor x (get_or keys 0 0))) (get_or keys 10 0)
        ≡ cipher x

module _ (hw : Highway) (round last_round : ℕ → ℕ → ℕ) (laws : IsHighway hw round last_round)
    (keys_0 keys_1 : List ℕ) (mask : hw.Mask) (j : ℕ) (inside : j < blocks_per_vector hw) (b : Bool)
    (low : laws.bit mask (2 * j) ≡ b) (high : laws.bit mask (2 * j + 1) ≡ b) where
  abbrev keys : List ℕ
  keys = if b then keys_1 else keys_0

  sigma_block :
      (v : hw.Vector)
      → laws.block v j < u128_mod
      → laws.block (compute_sigma hw v) j ≡ sigma (laws.block v j)
  unfolding compute_sigma
  sigma_block v small =
      laws.xor_block _ _ j inside
      ∙ ap₂ bit_xor (laws.shuffle_block v j inside) (
          laws.and_block _ v j inside
          ∙ ap (λ m. bit_and m (laws.block v j)) (laws.dup_block _ j inside))
      ∙ sigma_lem (laws.block v j) small

  pick :
      (r : ℕ) (c : Bool)
      → (if c then get_or keys_1 r 0 else get_or keys_0 r 0)
        ≡ get_or (if c then keys_1 else keys_0) r 0
  pick r true = refl
  pick r false = refl

  select_key-block : (r : ℕ) → laws.block (select_key hw mask keys_0 keys_1 r) j ≡ get_or keys r 0
  unfolding select_key
  select_key-block r =
      laws.select_block mask _ _ j inside (low ∙ sym high)
      ∙ ap₂ (λ x y. if laws.bit mask (2 * j) then x else y)
          (laws.dup_block (get_or keys_1 r 0) j inside)
          (laws.dup_block (get_or keys_0 r 0) j inside)
      ∙ ap (λ c. if c then get_or keys_1 r 0 else get_or keys_0 r 0) low
      ∙ pick r b

  middle_rounds-block :
      (left r : ℕ) (v : hw.Vector)
      → laws.block (middle_rounds hw left r mask keys_0 keys_1 v) j
        ≡ rounds_of round left r keys (laws.block v j)
  unfolding middle_rounds
  middle_rounds-block zero r v = refl
  middle_rounds-block (suc left) r v =
      middle_rounds-block left (suc r) _
      ∙ ap (rounds_of round left (suc r) keys)
          (laws.round_block v _ j inside ∙ ap (round (laws.block v j)) (select_key-block r))

  -- `HashOneWithKeyMask` hashes each block as the fixed-key hash does, with the key that both mask bits
  -- of the block select, if the Highway operations do what the library documents, the round keys make
  -- up the cipher of the key, and the block has 128 bits.
  pub hash_one_with_key_mask-block :
      (cipher : ℕ → ℕ) (v : hw.Vector)
      → IsKeySchedule round last_round keys cipher
      → laws.block v j < u128_mod
      → laws.block (hash_one_with_key_mask hw v mask keys_0 keys_1) j ≡ hash cipher (laws.block v j)
  unfolding hash_one_with_key_mask hash
  hash_one_with_key_mask-block cipher v schedule small =
      let s = sigma_block v small in
      laws.xor_block _ _ j inside
      ∙ ap₂ bit_xor
          (laws.last_round_block _ _ j inside
            ∙ ap₂ last_round
                (middle_rounds-block 9 1 _
                  ∙ ap (rounds_of round 9 1 keys)
                      (laws.xor_block _ _ j inside ∙ ap₂ bit_xor s (select_key-block 0)))
                (select_key-block 10)
            ∙ schedule.encrypts (sigma (laws.block v j)))
          s
