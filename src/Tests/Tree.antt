-- ===== src/Tests/Tree.antt =====
-- The tree and the evaluation along paths at concrete inputs.
use distributed_point_functi.Base.{◌≡◌, refl, true, false, List, [], ◌∷◌, ok, arith, test_bit}
use distributed_point_functi.Aes.{evaluate, evaluate_from, evaluate_batch, xor_blocks, sigma}
use distributed_point_functi.Aes.Hash.{hash, evaluate_lem}
use distributed_point_functi.EvaluatePrg.{
  clear_lowest_bit, lowest_bit, evaluate_seeds_no_hwy, Correction,
}
use distributed_point_functi.Dpf.{find}
use distributed_point_functi.Dpf.Generate.{
  State, initial_state, generate_levels, generate_next, level_value_correction, next_state,
  seed_correction, control_left_correction, control_right_correction, branch, current_bit,
}
use distributed_point_functi.Dpf.Tree.Invariant.{IsTree, initial-IsTree}
use distributed_point_functi.Dpf.Tree.Levels.{HasCorrections, generate_levels-IsTree}
use distributed_point_functi.EvaluatePrg.Loops.{Point, results, evaluate_seeds_no_hwy_lem}
use distributed_point_functi.Tests.Setup.{cipher, prg, prg_Prg, dpf, beta, word}

-- The state after the only tree level below the root.
abbrev last_state : State
last_state = record {
  seed_0 = 77328751156990440374276;
  seed_1 = 77328751156990440374276;
  control_0 = false;
  control_1 = true;
  words_0 = word ∷ [];
  words_1 = word ∷ [];
}

reaches_last : generate_levels dpf 1 1 2 beta (initial_state 1000 2000) ≡ ok last_state
unfolding generate_levels generate_next level_value_correction find evaluate evaluate_from
    evaluate_batch xor_blocks sigma next_state seed_correction control_left_correction
    control_right_correction branch clear_lowest_bit lowest_bit current_bit test_bit
reaches_last = refl

generate_levels-IsTree_example :
    IsTree (prg_Prg 3).block (prg_Prg 4).block 2 2 1000 2000 1 last_state
    × HasCorrections dpf (prg_Prg 3) (prg_Prg 4) 2 beta 1000 2000 1 last_state
generate_levels-IsTree_example =
    generate_levels-IsTree dpf (prg_Prg 3) (prg_Prg 4) 2 beta 1000 2000 1 0
      (initial_state 1000 2000) last_state (omega arith) (omega arith)
      (initial-IsTree (prg_Prg 3).block (prg_Prg 4).block 2 2 1000 2000 (omega arith))
      (λ h below. absurd (omega arith)) reaches_last

abbrev two_words : List Correction
two_words =
    record { seed = 12; control_left = true; control_right = false }
    ∷ record { seed = 30; control_left = false; control_right = true }
    ∷ []

abbrev two_points : List Point
two_points =
    record { lane = record { seed = 5; control_bit = true }; path = 1 }
    ∷ record { lane = record { seed = 9; control_bit = false }; path = 2 }
    ∷ []

evaluate_seeds_no_hwy_example :
    evaluate_seeds_no_hwy (prg 3) (prg 4) two_words (5 ∷ 9 ∷ []) (true ∷ false ∷ []) (1 ∷ 2 ∷ [])
    ≡ ok (results (prg 3) (prg 4) (prg_Prg 3) (prg_Prg 4) two_words two_points)
evaluate_seeds_no_hwy_example =
    evaluate_seeds_no_hwy_lem (prg 3) (prg 4) (prg_Prg 3) (prg_Prg 4) two_words two_points

evaluate_example : evaluate (prg 3) (1 ∷ 2 ∷ []) 2 ≡ ok (hash (cipher 3) 1 ∷ hash (cipher 3) 2 ∷ [])
evaluate_example = evaluate_lem (prg 3) (cipher 3) (record { encrypts = λ xs. refl }) (1 ∷ 2 ∷ [])
