-- ===== src/EvaluatePrg.antt =====
-- Evaluation along paths of the tree (dpf/internal/evaluate_prg_hwy.h and .cc): the version
-- without SIMD operations, which the scalar target of Highway calls. An array that is written in
-- place is a list that the call returns.
pub mod Walk
pub mod Loops
pub mod Resume
pub mod Highway
pub mod Vectors
pub mod Seeds
use distributed_point_functi.Base.{
  ℕ, zero, suc, ◌*◌, ◌/◌, ◌%◌, Bool, true, false, xor, ◌&&◌, List, [], ◌∷◌, ◌++◌, map, bit_xor,
  length, take, drop, Status, ok, err, ◌>>=◌, ◌==◌, ltb, if◌then◌else◌, test_bit,
}
use distributed_point_functi.Aes.{Aes128FixedKeyHash, batch_size, evaluate}

-- `ExtractAndClearLowestBit`: the bit, and what is left of `x`.
unfoldable pub lowest_bit : ℕ → Bool
lowest_bit x = x % 2 == 1

unfoldable pub clear_lowest_bit : ℕ → ℕ
clear_lowest_bit x = x / 2 * 2

-- The correction of one tree level: an element of `correction_seeds`, of
-- `correction_controls_left` and of `correction_controls_right`.
pub record Correction : Type 0 where
  pub seed : ℕ
  pub control_left : Bool
  pub control_right : Bool

-- What the loops write for one seed.
pub record Lane : Type 0 where
  pub seed : ℕ
  pub control_bit : Bool

-- `path_bits[i]`.
unfoldable pub path_bit : ℕ → ℕ → Bool
path_bit bit_index path = if ltb bit_index 128 then test_bit path bit_index else false

-- The body of the two loops over `i`, from both PRG outputs of the seed.
unfoldable pub correct : Correction → Bool → Bool → ℕ → ℕ → Lane
correct c path control left right =
    let child = if path then right else left in
    let seed = if control then bit_xor child c.seed else child in
    let control_correction = if path then c.control_right else c.control_left in
    record {
      seed = clear_lowest_bit seed;
      control_bit = xor (lowest_bit seed) (control && control_correction);
    }

unfoldable pub correct_lanes : Correction → ℕ → List Bool → List ℕ → List ℕ → List ℕ → List Lane
correct_lanes c bit_index (t ∷ ts) (p ∷ ps) (l ∷ ls) (r ∷ rs) =
    correct c (path_bit bit_index p) t l r ∷ correct_lanes c bit_index ts ps ls rs
correct_lanes c bit_index _ _ _ _ = []

module _ (prg_left prg_right : Aes128FixedKeyHash) where
  -- The loop over `level`. The bit index, `num_levels - level - 1`, is the number of levels left.
  unfoldable pub evaluate_levels :
      List Correction → List ℕ → List Bool → List ℕ → Status (List ℕ × List Bool)
  evaluate_levels [] seeds control_bits paths = ok (seeds, control_bits)
  evaluate_levels (c ∷ cs) seeds control_bits paths = do
    left ← evaluate prg_left seeds (length seeds)
    right ← evaluate prg_right seeds (length seeds)
    let lanes = correct_lanes c (length cs) control_bits paths left right
    evaluate_levels cs (map (λ l. l.seed) lanes) (map (λ l. l.control_bit) lanes) paths

  -- The loop over `start_block`, with one unit of fuel for each batch.
  unfoldable pub evaluate_batches :
      ℕ → List Correction → List ℕ → List Bool → List ℕ → Status (List ℕ × List Bool)
  evaluate_batches zero cs seeds control_bits paths = ok ([], [])
  evaluate_batches (suc fuel) cs [] control_bits paths = ok ([], [])
  evaluate_batches (suc fuel) cs (s ∷ seeds) control_bits paths = do
    (seeds_out, control_bits_out) ←
        evaluate_levels cs (take batch_size (s ∷ seeds)) (take batch_size control_bits)
          (take batch_size paths)
    (more_seeds, more_bits) ←
        evaluate_batches fuel cs (drop batch_size (s ∷ seeds)) (drop batch_size control_bits)
          (drop batch_size paths)
    ok (seeds_out ++ more_seeds, control_bits_out ++ more_bits)

  -- `EvaluateSeedsNoHwy`: `seeds_out` and `control_bits_out`, where the latter are the input buffers
  -- as its callers pass them, so that they keep the inputs if there are no levels.
  unfoldable pub evaluate_seeds_no_hwy :
      List Correction → List ℕ → List Bool → List ℕ → Status (List ℕ × List Bool)
  evaluate_seeds_no_hwy cs seeds control_bits paths =
      evaluate_batches (length seeds) cs seeds control_bits paths
