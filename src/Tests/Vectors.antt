-- ===== src/Tests/Vectors.antt =====
-- Path evaluation on vectors of 32 bytes, for eleven seeds: four vectors at a time, one vector, and one
-- block that is left.
use distributed_point_functi.Base.{
  ℕ, ◌+◌, ◌*◌, ◌/◌, ◌%◌, ◌≡◌, refl, ap, ◌∙◌, Bool, true, false, not, ◌&&◌, ◌||◌, xor, List, [], ◌∷◌,
  map, upto, get_or, bit_and, bit_or, bit_xor, bit_xor-zero, u128_mod, if◌then◌else◌, ◌==◌, high64,
  low64, make_uint128, arith, leb,
}
use distributed_point_functi.Aes.Hash.{IsEcb, hash}
use distributed_point_functi.EvaluatePrg.{Correction, evaluate_seeds_no_hwy}
use distributed_point_functi.EvaluatePrg.Loops.{Point, seeds_of, controls_of, paths_of}
use distributed_point_functi.EvaluatePrg.Highway.{Highway, IsHighway}
use distributed_point_functi.EvaluatePrg.Vectors.{hash_one_with_key_mask}
use distributed_point_functi.EvaluatePrg.Vectors.Hash.{hash_one_with_key_mask-block}
use distributed_point_functi.EvaluatePrg.Seeds.{KeySchedule, evaluate_seeds_hwy}
use distributed_point_functi.EvaluatePrg.Seeds.Chunks.{get_or-map-upto}
use distributed_point_functi.EvaluatePrg.Seeds.Equal.{
  Expands, evaluate_seeds_hwy-evaluate_seeds_no_hwy,
}
use distributed_point_functi.Tests.Setup.{cipher, prg}

-- Rounds that are easy to compute, with the cipher of the small DPF.
abbrev round : ℕ → ℕ → ℕ
round x key = x

abbrev last_round : ℕ → ℕ → ℕ
last_round x key = (x * 5 + key) % u128_mod

abbrev schedule : KeySchedule
schedule = record {
  status = λ key. 0;
  round_keys = λ key. 0 ∷ 0 ∷ 0 ∷ 0 ∷ 0 ∷ 0 ∷ 0 ∷ 0 ∷ 0 ∷ 0 ∷ key ∷ [];
}

schedule-Expands : (key : ℕ) → Expands schedule round last_round key (cipher key)
schedule-Expands key = record {
  succeeds = refl;
  keys = record { encrypts = λ x. ap (λ y. (y * 5 + key) % u128_mod) (bit_xor-zero x) };
}

prg-IsEcb : (key : ℕ) → IsEcb (prg key) (cipher key)
prg-IsEcb key = record { encrypts = λ xs. refl }

-- A vector reads a block by its index, and a mask reads a half.
abbrev half_not_zero : (ℕ → ℕ) → ℕ → Bool
half_not_zero v i =
    if i % 2 == 0 then not (low64 (v (i / 2)) == 0) else not (high64 (v (i / 2)) == 0)

abbrev vectors : Highway
vectors = record {
  Vector = ℕ → ℕ;
  Mask = ℕ → Bool;
  bytes = 32;
  load = λ xs at_index j. get_or xs (at_index + j) 0;
  store = λ v. map v (upto 0 2);
  load_dup_128 = λ x j. x;
  vector_and = λ v w j. bit_and (v j) (w j);
  vector_or = λ v w j. bit_or (v j) (w j);
  vector_xor = λ v w j. bit_xor (v j) (w j);
  shuffle_01 = λ v j. make_uint128 (low64 (v j)) (high64 (v j));
  not_zero = half_not_zero;
  if_then_else = λ m v w j. if m (2 * j) then v j else w j;
  if_then_else_zero = λ m v j. if m (2 * j) then v j else 0;
  aes_round = λ v key j. round (v j) (key j);
  aes_last_round = λ v key j. last_round (v j) (key j);
  first_n = λ n i. false;
  load_first_n = λ n xs at_index j. get_or xs (at_index + j) 0;
  mask_and = λ m n i. m i && n i;
  mask_or = λ m n i. m i || n i;
  mask_xor = λ m n i. xor (m i) (n i);
  mask_not = λ m i. not (m i);
  load_mask_bits = λ bs i. get_or bs i false;
  store_mask_bits = λ m. map m (upto 0 4);
}

low_not_zero : (v : ℕ → ℕ) (j : ℕ) → half_not_zero v (2 * j) ≡ not (low64 (v j) == 0)
low_not_zero v j =
    ap (λ r. if r == 0 then not (low64 (v (2 * j / 2)) == 0) else not (high64 (v (2 * j / 2)) == 0))
      {x = 2 * j % 2} {y = 0} (omega arith)
    ∙ ap (λ k. not (low64 (v k) == 0)) {x = 2 * j / 2} {y = j} (omega arith)

high_not_zero : (v : ℕ → ℕ) (j : ℕ) → half_not_zero v (2 * j + 1) ≡ not (high64 (v j) == 0)
high_not_zero v j =
    ap
      (λ r.
        if r == 0
        then not (low64 (v ((2 * j + 1) / 2)) == 0)
        else not (high64 (v ((2 * j + 1) / 2)) == 0))
      {x = (2 * j + 1) % 2} {y = 1} (omega arith)
    ∙ ap (λ k. not (high64 (v k) == 0)) {x = (2 * j + 1) / 2} {y = j} (omega arith)

abbrev vectors-IsHighway : IsHighway vectors round last_round
vectors-IsHighway = record {
  block = λ v j. v j;
  bit = λ m i. m i;
  load_block = λ xs at_index j inside fits. refl;
  store_blocks = λ v. refl;
  dup_block = λ x j inside. refl;
  and_block = λ v w j inside. refl;
  or_block = λ v w j inside. refl;
  xor_block = λ v w j inside. refl;
  shuffle_block = λ v j inside. refl;
  not_zero_low = λ v j inside. low_not_zero v j;
  not_zero_high = λ v j inside. high_not_zero v j;
  select_block = λ m v w j inside same. refl;
  select_zero_block = λ m v j inside same. refl;
  round_block = λ v key j inside. refl;
  last_round_block = λ v key j inside. refl;
  first_n_none = λ i inside. refl;
  load_first_n_block = λ n xs at_index j inside below fits. refl;
  and_bit = λ m n i inside. refl;
  or_bit = λ m n i inside. refl;
  xor_bit = λ m n i inside. refl;
  not_bit = λ m i inside. refl;
  load_mask_bit = λ bs i inside fits. refl;
  store_mask_bit =
      λ m i inside. get_or-map-upto m 0 4 i inside ∙ ap m {x = 0 + i} {y = i} (omega arith);
}

abbrev point : ℕ → Point
point k = record { lane = record { seed = 1000 + k; control_bit = k % 2 == 1 }; path = k % 4 }

abbrev points : List Point
points =
    point 0
    ∷ point 1
    ∷ point 2
    ∷ point 3
    ∷ point 4
    ∷ point 5
    ∷ point 6
    ∷ point 7
    ∷ point 8
    ∷ point 9
    ∷ point 10
    ∷ []

abbrev corrections : List Correction
corrections =
    record { seed = 12448; control_left = false; control_right = true }
    ∷ record { seed = 77; control_left = true; control_right = true }
    ∷ []

evaluate_seeds_hwy-evaluate_seeds_no_hwy_example :
    evaluate_seeds_hwy vectors schedule
      (prg 3)
      (prg 4)
      true
      true
      corrections
      (seeds_of points)
      (controls_of points)
      (paths_of points)
      ([], [])
    ≡ evaluate_seeds_no_hwy
        (prg 3)
        (prg 4)
        corrections
        (seeds_of points)
        (controls_of points)
        (paths_of points)
evaluate_seeds_hwy-evaluate_seeds_no_hwy_example =
    evaluate_seeds_hwy-evaluate_seeds_no_hwy vectors round last_round vectors-IsHighway schedule
      (prg 3) (prg 4) (cipher 3) (cipher 4) (prg-IsEcb 3) (prg-IsEcb 4) (schedule-Expands 3)
      (schedule-Expands 4) (λ x. omega arith) (λ x. omega arith) true corrections points ([], [])
      (omega arith) (omega arith) (omega arith) (omega arith, (omega arith, tt))
      (
        omega arith,
        (
          omega arith,
          (
            omega arith,
            (
              omega arith,
              (
                omega arith,
                (
                  omega arith,
                  (omega arith, (omega arith, (omega arith, (omega arith, (omega arith, tt))))),
                ),
              ),
            ),
          ),
        ),
      )

abbrev keys : ℕ → List ℕ
keys = schedule.round_keys

-- The mask selects the second key for the second block.
hash_one_with_key_mask-block_example :
    vectors-IsHighway.block
      (hash_one_with_key_mask vectors (λ j. 1000 + j) (λ i. leb 2 i) (keys 3) (keys 4))
      1
    ≡ hash (cipher 4) 1001
hash_one_with_key_mask-block_example =
    hash_one_with_key_mask-block vectors round last_round vectors-IsHighway (keys 3) (keys 4)
      (λ i. leb 2 i) 1 (omega arith) true refl refl (cipher 4) (λ j. 1000 + j)
      (schedule-Expands 4).keys (omega arith)
