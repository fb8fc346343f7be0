-- ===== src/EvaluatePrg/Vectors.antt =====
-- Evaluation along paths on vectors (dpf/internal/evaluate_prg_hwy.cc), and the fixed-key hash on
-- vectors (dpf/internal/aes_128_fixed_key_hash_hwy.h), for a target other than HWY_SCALAR. The
-- operations of Highway are those of `hw`.
pub mod Bits
pub mod Hash
pub mod Step
use distributed_point_functi.Base.{
  ℕ, zero, suc, ◌+◌, ◌-◌, ◌*◌, ◌/◌, ◌%◌, ◌^◌, Bool, true, false, not, ◌&&◌, ◌||◌, List, [], ◌∷◌,
  ◌++◌, map, length, take, drop, get_or, upto, Status, ok, internal, ◌>>=◌, ◌>>◌, guard, ◌==◌, ltb,
  leb, if◌then◌else◌, u64_mod, u128_mod, replicate,
}
use distributed_point_functi.EvaluatePrg.{Correction, evaluate_seeds_no_hwy}
use distributed_point_functi.EvaluatePrg.Highway.{Highway, blocks_per_vector}
use distributed_point_functi.Aes.{Aes128FixedKeyHash}

module _ (hw : Highway) where
  -- `MaskFromBools(d64, input + at_index, max_blocks)`: the bits that the loop sets.
  unfoldable pub mask_bit : List Bool → ℕ → ℕ → ℕ → Bool
  mask_bit input at_index max_blocks i =
      if ltb 0 max_blocks && leb max_blocks (i / 2)
      then false
      else get_or input (at_index + i / 2) false

  unfoldable pub mask_from_bools : List Bool → ℕ → ℕ → hw.Mask
  unfolding mask_bit
  mask_from_bools input at_index max_blocks =
      hw.load_mask_bits
        (map (mask_bit input at_index max_blocks) (upto 0 (2 * blocks_per_vector hw)))

  -- `BoolsFromMask`: what it writes.
  unfoldable pub bools_from_mask : hw.Mask → ℕ → List Bool
  bools_from_mask mask max_blocks =
      map (λ i. get_or (hw.store_mask_bits mask) (2 * i) false)
        (upto 0 (if ltb 0 max_blocks then max_blocks else blocks_per_vector hw))

  unfoldable pub if_then_else_mask : hw.Mask → hw.Mask → hw.Mask → hw.Mask
  if_then_else_mask condition true_value false_value =
      hw.mask_or (hw.mask_and condition true_value)
        (hw.mask_and (hw.mask_not condition) false_value)

  unfoldable pub is_bit_set : hw.Vector → ℕ → hw.Mask
  is_bit_set input index =
      let input_64 = hw.vector_and input (hw.load_dup_128 (2 ^ index % u128_mod)) in
      hw.not_zero (hw.vector_or input_64 (hw.shuffle_01 input_64))

  -- DPF_AES_COMPUTE_SIGMA, with DPF_AES_LOAD_SIGMA_MASK.
  unfoldable pub compute_sigma : hw.Vector → hw.Vector
  compute_sigma input =
      hw.vector_xor (hw.shuffle_01 input)
        (hw.vector_and (hw.load_dup_128 ((u64_mod - 1) * u64_mod)) input)

  -- DPF_AES_SELECT_KEY, with DPF_AES_LOAD_ROUND_KEY. The round keys are blocks.
  unfoldable pub select_key : hw.Mask → List ℕ → List ℕ → ℕ → hw.Vector
  select_key mask round_keys_0 round_keys_1 round =
      hw.if_then_else mask (hw.load_dup_128 (get_or round_keys_1 round 0))
        (hw.load_dup_128 (get_or round_keys_0 round 0))

  -- The middle rounds, from one round on, with the number of rounds left.
  unfoldable pub middle_rounds : ℕ → ℕ → hw.Mask → List ℕ → List ℕ → hw.Vector → hw.Vector
  unfolding select_key
  middle_rounds zero round mask round_keys_0 round_keys_1 out = out
  middle_rounds (suc left) round mask round_keys_0 round_keys_1 out =
      middle_rounds left (suc round) mask round_keys_0 round_keys_1
        (hw.aes_round out (select_key mask round_keys_0 round_keys_1 round))

  -- `HashOneWithKeyMask`, and `HashFourWithKeyMask` for each of its four vectors.
  unfoldable pub hash_one_with_key_mask : hw.Vector → hw.Mask → List ℕ → List ℕ → hw.Vector
  unfolding compute_sigma middle_rounds
  hash_one_with_key_mask input mask round_keys_0 round_keys_1 =
      let sigma = compute_sigma input in
      let first = hw.vector_xor sigma (select_key mask round_keys_0 round_keys_1 0) in
      let middle = middle_rounds 9 1 mask round_keys_0 round_keys_1 first in
      let last = hw.aes_last_round middle (select_key mask round_keys_0 round_keys_1 10) in
      hw.vector_xor last sigma

  -- A vector of seeds, with the mask of their control bits.
  pub record VectorState : Type 0 where
    pub vec : hw.Vector
    pub control_mask : hw.Mask

  -- `correction_controls_left[j] ? mask_all_one : mask_all_zero`.
  abbrev pub control_mask_of : Bool → hw.Mask
  control_mask_of b = if b then hw.mask_not (hw.first_n 0) else hw.first_n 0

  -- The body of the loops over `num_levels` after the hash, which has a path mask.
  unfoldable pub correct_vector : Correction → hw.Mask → hw.Mask → hw.Vector → VectorState
  correct_vector c path_mask control_mask hashed =
      let vec = hw.vector_xor hashed (hw.if_then_else_zero control_mask (hw.load_dup_128 c.seed)) in
      let correction_control_mask =
        if_then_else_mask path_mask (control_mask_of c.control_right)
          (control_mask_of c.control_left) in
      record {
        vec = hw.vector_and vec (hw.load_dup_128 (u128_mod - 2));
        control_mask =
            hw.mask_xor (is_bit_set vec 0) (hw.mask_and control_mask correction_control_mask);
      }

  module _ (round_keys_0 round_keys_1 : List ℕ) where
    -- The body of the loops over `num_levels`.
    unfoldable pub vector_level : Correction → ℕ → hw.Vector → VectorState → VectorState
    unfolding is_bit_set hash_one_with_key_mask correct_vector
    vector_level c bit_index path st =
        let path_mask = is_bit_set path bit_index in
        correct_vector c path_mask st.control_mask
          (hash_one_with_key_mask st.vec path_mask round_keys_0 round_keys_1)

    unfoldable pub vector_levels : List Correction → hw.Vector → VectorState → VectorState
    vector_levels [] path st = st
    vector_levels (c ∷ cs) path st = vector_levels cs path (vector_level c (length cs) path st)
