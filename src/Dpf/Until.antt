-- ===== src/Dpf/Until.antt =====
-- Hierarchical evaluation (dpf/distributed_point_function.h): `EvaluateUntil`, `EvaluateNext`, and
-- `EvaluateAt` with a context.
pub mod Points
pub mod First
pub mod Steps
pub mod Calls
pub mod Resume
pub mod Nodes
pub mod At
use distributed_point_functi.Base.{
  ℕ, zero, suc, ◌+◌, ◌-◌, ◌*◌, ◌/◌, ◌^◌, Bool, true, false, not, xor, ◌&&◌, ◌||◌, List, [], ◌∷◌,
  ◌++◌, map, Option, none, some, Status, ok, err, invalid_argument, ◌>>=◌, ◌>>◌, guard, ltb, leb,
  ◌==◌, if◌then◌else◌, length, get_or, take, drop, upto,
}
use distributed_point_functi.Proto.{DpfKey}
use distributed_point_functi.Values.{ElementType, Element, default}
use distributed_point_functi.Values.Convert.{to_value_type}
use distributed_point_functi.Values.Bytes.{bytes_of_blocks, convert_bytes_to_array_of}
use distributed_point_functi.Values.Correction.{values_to_array, correct_output}
use distributed_point_functi.Security.{Double}
use distributed_point_functi.Validator.{is_empty, validate_dpf_key}
use distributed_point_functi.Validator.Types.{value_types_are_equal}
use distributed_point_functi.Validator.Create.{ProtoValidator}
use distributed_point_functi.Validator.Context.{
  EvaluationContext, levels_done, validate_evaluation_context,
}
use distributed_point_functi.Dpf.{
  Dpf, log_domain_size, value_type, tree_level, blocks, domain_to_tree_index, domain_to_block_index,
  find, evaluate_seeds,
}
use distributed_point_functi.Dpf.Evaluate.{
  value_correction_at, hash_expanded_seeds, all_in_domain, max_evaluation_point, tree_index,
  block_index, correct_values,
}
use distributed_point_functi.Dpf.Expand.{DpfExpansion}
use distributed_point_functi.Dpf.Context.{
  level_or_zero, compute_partial_evaluations, expand_and_update_context, with_previous_level,
}

-- `tree_indices`, its inverse, and `prefix_map`.
pub record Unique : Type 0 where
  pub tree_indices : List ℕ
  pub tree_indices_inverse : List (ℕ × ℕ)
  pub prefix_map : List (ℕ × ℕ)

-- The loop that computes the unique tree indices; h is the previous hierarchy level.
unfoldable pub add_prefix : Dpf → ℕ → ℕ → Unique → Unique
unfolding domain_to_tree_index domain_to_block_index find
add_prefix d h prefix u =
    let tree_index = domain_to_tree_index d prefix h in
    let block_index = domain_to_block_index d prefix h in
    elim (find tree_index u.tree_indices_inverse) [
      | none ↦ record {
        tree_indices = u.tree_indices ++ tree_index ∷ [];
        tree_indices_inverse = (tree_index, length u.tree_indices) ∷ u.tree_indices_inverse;
        prefix_map = u.prefix_map ++ (length u.tree_indices, block_index) ∷ [];
      }
      | some position ↦ record {
        tree_indices = u.tree_indices;
        tree_indices_inverse = u.tree_indices_inverse;
        prefix_map = u.prefix_map ++ (position, block_index) ∷ [];
      }
    ]

unfoldable pub add_prefixes : Dpf → ℕ → List ℕ → Unique → Unique
unfolding add_prefix
add_prefixes d h [] u = u
add_prefixes d h (p ∷ ps) u = add_prefixes d h ps (add_prefix d h p u)

abbrev pub no_prefixes : Unique
no_prefixes = record { tree_indices = []; tree_indices_inverse = []; prefix_map = [] }

-- The loop over `j`: the elements of one block that are used.
unfoldable pub correct_block :
    ElementType → ℕ → List Element → Bool → List Element → ℕ → List Element
correct_block t party correction_ints control_bit current_elements count =
    map
      (λ j.
        correct_output t control_bit party (get_or correction_ints j (default t))
          (get_or current_elements j (default t)))
      (upto 0 count)

-- `corrected_expansion`, over the control bits and hashed blocks left.
unfoldable pub correct_expansion :
    ElementType → ℕ → ℕ → List Element → ℕ → List Bool → List ℕ → Status (List Element)
unfolding correct_block
correct_expansion t party k correction_ints count [] hashed = ok []
correct_expansion t party k correction_ints count (c ∷ control_bits) hashed = do
  current_elements ← convert_bytes_to_array_of t (bytes_of_blocks (take k hashed))
  rest ← correct_expansion t party k correction_ints count control_bits (drop k hashed)
  ok (correct_block t party correction_ints c current_elements count ++ rest)

-- The elements under the prefixes, in their order.
unfoldable pub select_outputs : List Element → ℕ → ℕ → List (ℕ × ℕ) → List Element
select_outputs corrected per_tree_prefix outputs_per_prefix [] = []
select_outputs corrected per_tree_prefix outputs_per_prefix ((position, block_index) ∷ m) =
    take outputs_per_prefix
      (drop (position * per_tree_prefix + block_index * outputs_per_prefix) corrected)
    ++ select_outputs corrected per_tree_prefix outputs_per_prefix m

-- The domain size of the previous level, 0 in the first call.
abbrev pub previous_log_domain_size : Dpf → Option ℕ → List ℕ → ℕ
previous_log_domain_size d previous prefixes =
    if is_empty prefixes then 0 else log_domain_size d (level_or_zero previous)

-- What is done with `ctx.key()`, which the checks have seen.
abbrev pub with_key {ℓ} : {A : Type ℓ} → Option DpfKey → (DpfKey → Status A) → Status A
with_key none f = err invalid_argument
with_key (some key) f = f key

module _ {ℓ} {W : Type ℓ} ⦃double : Double W⦄ where
  -- The checks of `EvaluateUntil`.
  unfoldable pub check_until :
      Dpf → ProtoValidator W → ElementType → ℕ → List ℕ → EvaluationContext W → Status (Unit {0})
  check_until d v t h prefixes ctx = do
    let previous = ctx.previous_hierarchy_level
    let previous_log = previous_log_domain_size d previous prefixes
    validate_evaluation_context v ctx
    guard (ltb h (length d.parameters)) invalid_argument
    types_are_equal ← value_types_are_equal (to_value_type t) (value_type d h)
    guard types_are_equal invalid_argument
    guard (leb (levels_done previous) h) invalid_argument
    guard (not (xor (levels_done previous == 0) (is_empty prefixes))) invalid_argument
    guard (is_empty prefixes || all_in_domain (max_evaluation_point previous_log) prefixes)
        invalid_argument
    guard (leb (log_domain_size d h - previous_log) 62) invalid_argument

  -- `EvaluateUntil` after its checks, with `ctx.key()`.
  unfoldable pub expand_until :
      Dpf
      → ElementType
      → DpfKey
      → ℕ
      → List ℕ
      → EvaluationContext W
      → Status (List Element × EvaluationContext W)
  expand_until d t key h prefixes ctx = do
    let previous = ctx.previous_hierarchy_level
    let unique = add_prefixes d (level_or_zero previous) prefixes no_prefixes
    (expansion, ctx') ← expand_and_update_context d key h unique.tree_indices ctx
    hashed ← hash_expanded_seeds d h expansion.seeds
    correction_ints ← values_to_array t (value_correction_at d key h)
    let count = 2 ^ (log_domain_size d h - tree_level d h)
    corrected ←
        correct_expansion t key.party (blocks d h) correction_ints count expansion.control_bits
          hashed
    let previous_log = previous_log_domain_size d previous prefixes
    let outputs_per_prefix = 2 ^ (log_domain_size d h - previous_log)
    let per_tree_prefix = length expansion.control_bits / length unique.tree_indices * count
    let selected = select_outputs corrected per_tree_prefix outputs_per_prefix unique.prefix_map
    ok (if is_empty prefixes then corrected else selected, ctx')

  -- `EvaluateUntil<T>(h, prefixes, ctx)`: the outputs, and the context afterwards.
  unfoldable pub evaluate_until :
      Dpf
      → ProtoValidator W
      → ElementType
      → ℕ
      → List ℕ
      → EvaluationContext W
      → Status (List Element × EvaluationContext W)
  unfolding check_until expand_until
  evaluate_until d v t h prefixes ctx = do
    check_until d v t h prefixes ctx
    with_key ctx.key (λ key. expand_until d t key h prefixes ctx)

  -- `EvaluateNext<T>(prefixes, ctx)`.
  unfoldable pub evaluate_next :
      Dpf
      → ProtoValidator W
      → ElementType
      → List ℕ
      → EvaluationContext W
      → Status (List Element × EvaluationContext W)
  unfolding evaluate_until
  evaluate_next d v t prefixes ctx =
      let first = evaluate_until d v t 0 prefixes ctx in
      let next = evaluate_until d v t (levels_done ctx.previous_hierarchy_level) prefixes ctx in
      if is_empty prefixes then first else next

  -- `EvaluateAt<T>(h, evaluation_points, ctx)`, with `ctx.key()`.
  unfoldable pub evaluate_at_with_context :
      Dpf
      → ElementType
      → DpfKey
      → ℕ
      → List ℕ
      → EvaluationContext W
      → Status (List Element × EvaluationContext W)
  evaluate_at_with_context d t key h points ctx = do
    guard (ltb h (length d.parameters)) invalid_argument
    guard (all_in_domain (max_evaluation_point (log_domain_size d h)) points) invalid_argument
    validate_dpf_key d.hierarchy_to_tree d.tree_levels_needed key
    let evaluation = (do
      correction_ints ← values_to_array t (value_correction_at d key h)
      (partial, ctx') ← compute_partial_evaluations d key (map (tree_index d t h) points) h true ctx
      (seeds, control_bits) ←
          evaluate_seeds d partial.seeds partial.control_bits (map (tree_index d t h) points) []
      hashed ← hash_expanded_seeds d h seeds
      outputs ←
          correct_values t key.party (blocks d h) correction_ints (map (block_index d t h) points)
            control_bits hashed
      ok (outputs, with_previous_level ctx' h))
    if is_empty points then ok ([], ctx) else evaluation
