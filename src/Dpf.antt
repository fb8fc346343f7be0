-- ===== src/Dpf.antt =====
-- DistributedPointFunction (dpf/distributed_point_function.h and .cc): the object, and the helpers
-- that key generation and evaluation share. An index in a vector is in range where the code reads it.
pub mod Generate
pub mod Evaluate
pub mod Tree
pub mod Expand
pub mod Correct
pub mod Total
pub mod Create
pub mod Registered
pub mod Objects
pub mod Context
pub mod Until
use distributed_point_functi.Base.{
  ℕ, zero, suc, ◌+◌, ◌-◌, ◌*◌, ◌/◌, ◌%◌, ◌^◌, Bool, true, false, ◌&&◌, ◌||◌, List, [], ◌∷◌, ◌++◌,
  map, Option, none, some, Status, ok, err, invalid_argument, failed_precondition, ◌>>=◌, ◌>>◌,
  guard, ltb, leb, ◌==◌, if◌then◌else◌, length, get_or, take, drop, u128_mod,
}
use distributed_point_functi.Aes.{Aes128FixedKeyHash, evaluate}
use distributed_point_functi.Proto.{
  get_or_type, ValueType, type_not_set, DpfParameters, CorrectionWord, Value, block_to_uint128,
}
use distributed_point_functi.Values.{ElementType}
use distributed_point_functi.Values.Bytes.{bytes_of_blocks}
use distributed_point_functi.Values.Correction.{compute_value_correction_for}
use distributed_point_functi.EvaluatePrg.{Correction, evaluate_seeds_no_hwy}

-- `value_correction_functions` maps the deterministic serialization of a `ValueType`, which
-- protobuf computes, to `ComputeValueCorrectionFor<T>`, here to T.
pub record Dpf : Type 0 where
  pub parameters : List DpfParameters
  pub tree_levels_needed : ℕ
  pub tree_to_hierarchy : List (ℕ × ℕ)
  pub hierarchy_to_tree : List ℕ
  pub blocks_needed : List ℕ
  pub prg_left : Aes128FixedKeyHash
  pub prg_right : Aes128FixedKeyHash
  pub prg_value : Aes128FixedKeyHash
  pub serialize : ValueType → List ℕ
  pub value_correction_functions : List (List ℕ × ElementType)

-- `parameters_[i].log_domain_size()`, and of `parameters_.back()`.
abbrev pub log_domain_size : Dpf → ℕ → ℕ
log_domain_size d i = get_or (map (λ p. p.log_domain_size) d.parameters) i 0

abbrev pub last_log_domain_size : Dpf → ℕ
last_log_domain_size d = log_domain_size d (length d.parameters - 1)

abbrev pub value_type : Dpf → ℕ → ValueType
value_type d i = get_or (map (λ p. get_or_type p.value_type) d.parameters) i type_not_set

abbrev pub tree_level : Dpf → ℕ → ℕ
tree_level d i = get_or d.hierarchy_to_tree i 0

abbrev pub blocks : Dpf → ℕ → ℕ
blocks d i = get_or d.blocks_needed i 0

unfoldable pub domain_to_tree_index : Dpf → ℕ → ℕ → ℕ
domain_to_tree_index d domain_index h = domain_index / 2 ^ (log_domain_size d h - tree_level d h)

unfoldable pub domain_to_block_index : Dpf → ℕ → ℕ → ℕ
domain_to_block_index d domain_index h = domain_index % 2 ^ (log_domain_size d h - tree_level d h)

-- The map lookups: `tree_to_hierarchy_` and `value_correction_functions_`.
unfoldable pub find : ℕ → List (ℕ × ℕ) → Option ℕ
find k [] = none
find k ((j, v) ∷ m) = if j == k then some v else find k m

unfoldable pub same_bytes : List ℕ → List ℕ → Bool
same_bytes [] [] = true
same_bytes (x ∷ xs) (y ∷ ys) = (x == y) && same_bytes xs ys
same_bytes _ _ = false

unfoldable pub find_function : List ℕ → List (List ℕ × ElementType) → Option ElementType
unfolding same_bytes
find_function k [] = none
find_function k ((j, t) ∷ m) = if same_bytes j k then some t else find_function k m

-- `GetValueCorrectionFunction(parameters_[h])`.
unfoldable pub get_value_correction_function : Dpf → ℕ → Status ElementType
unfolding find_function
get_value_correction_function d h =
    elim (find_function (d.serialize (value_type d h)) d.value_correction_functions) [
      | none ↦ err failed_precondition
      | some t ↦ ok t
    ]

-- `std::iota`, and the seed plus each j: s + j, ..., s + j + n - 1, as absl::uint128.
unfoldable pub iota : ℕ → ℕ → ℕ → List ℕ
iota zero j s = []
iota (suc n) j s = (s + j) % u128_mod ∷ iota n (suc j) s

-- `ComputeValueCorrection`, with the two elements of `seeds`.
unfoldable pub compute_value_correction : Dpf → ℕ → ℕ → ℕ → ℕ → Value → Bool → Status (List Value)
compute_value_correction d h seed_0 seed_1 alpha beta invert = do
  let k = blocks d h
  expanded ←
      evaluate d.prg_value (iota k 0 seed_0 ++ iota k 0 seed_1)
        (length (iota k 0 seed_0 ++ iota k 0 seed_1))
  t ← get_value_correction_function d h
  compute_value_correction_for t (bytes_of_blocks (take k expanded))
      (bytes_of_blocks (drop k expanded)) (domain_to_block_index d alpha h) beta invert

-- The correction words as the arrays that `EvaluateSeeds` parses them into.
abbrev pub parse : CorrectionWord → Correction
parse w = record {
  seed = block_to_uint128 w.seed;
  control_left = w.control_left;
  control_right = w.control_right;
}

-- `EvaluateSeeds`, with the output spans the input ones, as every caller passes them.
unfoldable pub evaluate_seeds :
    Dpf → List ℕ → List Bool → List ℕ → List CorrectionWord → Status (List ℕ × List Bool)
evaluate_seeds d seeds control_bits paths words = do
  guard ((length seeds == length control_bits) && (length seeds == length paths)) invalid_argument
  let out = evaluate_seeds_no_hwy d.prg_left d.prg_right (map parse words) seeds control_bits paths
  if (length seeds == 0) || (length words == 0) then ok (seeds, control_bits) else out
