-- ===== src/Dpf/Evaluate.antt =====
-- Evaluation at points (dpf/distributed_point_function.h and .cc): `EvaluateAt(key, ...)`, which is
-- `EvaluateAtImpl` with no evaluation context, and `HashExpandedSeeds`.
use distributed_point_functi.Base.{
  ℕ, ◌-◌, ◌^◌, Bool, true, not, ◌&&◌, List, [], ◌∷◌, ◌++◌, map, Status, ok, invalid_argument, ◌>>=◌,
  ◌>>◌, guard, ltb, leb, ◌==◌, if◌then◌else◌, length, get_or, take, drop, replicate, u128_mod,
}
use distributed_point_functi.Aes.{evaluate}
use distributed_point_functi.Proto.{Value, DpfKey, block_or_zero, block_to_uint128}
use distributed_point_functi.Values.{ElementType, Element, default}
use distributed_point_functi.Values.Bytes.{
  bytes_of_blocks, convert_bytes_to_array_of, elements_per_block,
}
use distributed_point_functi.Values.Correction.{values_to_array, correct_output}
use distributed_point_functi.Validator.{validate_dpf_key, is_empty}
use distributed_point_functi.Dpf.{
  Dpf, log_domain_size, tree_level, blocks, domain_to_tree_index, domain_to_block_index, iota,
  evaluate_seeds,
}

-- The inputs of `prg_value_`: `blocks_needed` blocks for each seed.
unfoldable pub hash_inputs : ℕ → List ℕ → List ℕ
hash_inputs k [] = []
hash_inputs k (s ∷ ss) = iota k 0 s ++ hash_inputs k ss

-- `HashExpandedSeeds`.
unfoldable pub hash_expanded_seeds : Dpf → ℕ → List ℕ → Status (List ℕ)
hash_expanded_seeds d h expansion =
    evaluate d.prg_value (hash_inputs (blocks d h) expansion)
      (length (hash_inputs (blocks d h) expansion))

-- Whether a point is above `max_evaluation_point`.
unfoldable pub all_in_domain : ℕ → List ℕ → Bool
all_in_domain max [] = true
all_in_domain max (x ∷ xs) = leb x max && all_in_domain max xs

abbrev pub max_evaluation_point : ℕ → ℕ
max_evaluation_point log_size = if ltb log_size 128 then 2 ^ log_size - 1 else u128_mod - 1

-- The value correction of a hierarchy level: the last one is in a field of its own.
unfoldable pub value_correction_at : Dpf → DpfKey → ℕ → List Value
value_correction_at d key h =
    if ltb h (length d.parameters - 1)
    then get_or (map (λ w. w.value_correction) key.correction_words) (tree_level d h) []
    else key.last_level_value_correction

-- The loop that corrects the values, over the points, control bits and hashed blocks left.
unfoldable pub correct_values :
    ElementType → ℕ → ℕ → List Element → List ℕ → List Bool → List ℕ → Status (List Element)
correct_values t party k correction_ints (i ∷ indices) (c ∷ control_bits) hashed = do
  current_elements ← convert_bytes_to_array_of t (bytes_of_blocks (take k hashed))
  rest ← correct_values t party k correction_ints indices control_bits (drop k hashed)
  ok (
      correct_output t c party (get_or correction_ints i (default t))
        (get_or current_elements i (default t))
      ∷ rest)
correct_values t party k correction_ints _ _ hashed = ok []

-- The tree and block indices of a point; they are split only for a type that is packed.
abbrev pub tree_index : Dpf → ElementType → ℕ → ℕ → ℕ
tree_index d t h x = if ltb 1 (elements_per_block t) then domain_to_tree_index d x h else x

abbrev pub block_index : Dpf → ElementType → ℕ → ℕ → ℕ
block_index d t h x = if ltb 1 (elements_per_block t) then domain_to_block_index d x h else 0

-- `EvaluateAt<T>(key, hierarchy_level, evaluation_points)`.
unfoldable pub evaluate_at : Dpf → ElementType → DpfKey → ℕ → List ℕ → Status (List Element)
evaluate_at d t key h points = do
  guard (ltb h (length d.parameters)) invalid_argument
  guard (all_in_domain (max_evaluation_point (log_domain_size d h)) points) invalid_argument
  validate_dpf_key d.hierarchy_to_tree d.tree_levels_needed key
  let evaluation = (do
    correction_ints ← values_to_array t (value_correction_at d key h)
    (seeds, control_bits) ←
        evaluate_seeds d (replicate (length points) (block_to_uint128 (block_or_zero key.seed)))
          (replicate (length points) (not (key.party == 0))) (map (tree_index d t h) points)
          (take (tree_level d h) key.correction_words)
    hashed ← hash_expanded_seeds d h seeds
    correct_values t key.party (blocks d h) correction_ints (map (block_index d t h) points)
        control_bits hashed)
  if is_empty points then ok [] else evaluation
