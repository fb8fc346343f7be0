-- ===== src/Tests/At.antt =====
-- Evaluation at points that goes on from an evaluation context.
use distributed_point_functi.Base.{ℕ, ◌≡◌, refl, [], ◌∷◌, map, ok, arith, ◌>>=◌, test_bit}
use distributed_point_functi.Aes.{sigma}
use distributed_point_functi.Aes.Hash.{hash}
use distributed_point_functi.EvaluatePrg.{correct, path_bit, lowest_bit, clear_lowest_bit}
use distributed_point_functi.EvaluatePrg.Walk.{walk}
use distributed_point_functi.Values.{uint}
use distributed_point_functi.Values.Bytes.{
  can_be_converted_directly, total_bit_size, elements_per_block,
}
use distributed_point_functi.Validator.Context.{EvaluationContext}
use distributed_point_functi.Dpf.{domain_to_tree_index}
use distributed_point_functi.Dpf.Evaluate.{tree_index, evaluate_at}
use distributed_point_functi.Dpf.Expand.{DpfExpansion}
use distributed_point_functi.Dpf.Context.{
  starting_points, find_prefix, parse_partial_evaluations, insert_prefix, select_prefixes,
  partial_evaluations_for,
}
use distributed_point_functi.Dpf.Until.{evaluate_at_with_context}
use distributed_point_functi.Dpf.Until.At.{context_after, evaluate_at_with_context_lem}
use distributed_point_functi.Dpf.Until.Nodes.{HasNodes}
use distributed_point_functi.Tests.Setup.{prg_Prg}
use distributed_point_functi.Tests.Doubles.{whole}
use distributed_point_functi.Tests.Contexts.{two_levels, key, context}

abbrev at_first : EvaluationContext ℕ
at_first =
    context_after two_levels (prg_Prg 3) (prg_Prg 4) key (omega arith) (uint 8) 0 (omega arith)
      context (2 ∷ [])

starts_first :
    (partial : DpfExpansion) × (starting_points two_levels key
        (map (tree_index two_levels (uint 8) 0) (2 ∷ []))
        0
        context
      ≡ ok partial)
unfolding starting_points
starts_first = (_, refl)

at_first-HasNodes : HasNodes two_levels (prg_Prg 3) (prg_Prg 4) key (omega arith) at_first
at_first-HasNodes =
    (evaluate_at_with_context_lem two_levels (prg_Prg 3) (prg_Prg 4) key (omega arith) (uint 8) 0
      (omega arith) context (2 ∷ []) tt starts_first.1).1

-- The second evaluation goes on from the node that the first one, at level 0, left behind.
starts :
    (partial : DpfExpansion) × (starting_points two_levels key
        (map (tree_index two_levels (uint 8) 1) (9 ∷ 10 ∷ []))
        1
        at_first
      ≡ ok partial)
unfolding starting_points parse_partial_evaluations insert_prefix find_prefix select_prefixes
    partial_evaluations_for domain_to_tree_index elements_per_block can_be_converted_directly
    total_bit_size walk correct path_bit test_bit lowest_bit clear_lowest_bit hash sigma
starts = (_, refl)

evaluate_at_with_context_lem_example :
    (evaluate_at_with_context two_levels (uint 8) key 1 (9 ∷ 10 ∷ []) at_first ≡ (
      evaluate_at two_levels (uint 8) key 1 (9 ∷ 10 ∷ []) >>= (λ outputs. ok (
        outputs,
        context_after two_levels
            (prg_Prg 3)
            (prg_Prg 4)
            key
            (omega arith)
            (uint 8)
            1
            (omega arith)
            at_first
            (9 ∷ 10 ∷ []),
      ))))
    × HasNodes two_levels (prg_Prg 3) (prg_Prg 4) key (omega arith) (
        context_after two_levels
          (prg_Prg 3)
          (prg_Prg 4)
          key
          (omega arith)
          (uint 8)
          1
          (omega arith)
          at_first
          (9 ∷ 10 ∷ []))
evaluate_at_with_context_lem_example =
    evaluate_at_with_context_lem two_levels (prg_Prg 3) (prg_Prg 4) key (omega arith) (uint 8) 1
      (omega arith) at_first (9 ∷ 10 ∷ []) at_first-HasNodes starts.1
