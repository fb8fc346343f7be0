-- ===== src/Dpf/Expand.antt =====
-- Full expansion (dpf/distributed_point_function.cc): `ExpandSeeds`. An expansion is the struct
-- `DpfExpansion` of dpf/distributed_point_function.h; the buffers it writes are lists it returns, and
-- no allocation fails.
pub mod Subtree
use distributed_point_functi.Base.{
  ℕ, zero, suc, Bool, xor, ◌&&◌, List, [], ◌∷◌, ◌++◌, map, bit_xor, length, take, drop, Status, ok,
  ◌>>=◌, if◌then◌else◌,
}
use distributed_point_functi.Aes.{Aes128FixedKeyHash, batch_size, evaluate}
use distributed_point_functi.Proto.{CorrectionWord}
use distributed_point_functi.EvaluatePrg.{Correction, Lane, lowest_bit, clear_lowest_bit}
use distributed_point_functi.Dpf.{Dpf, parse}

pub record DpfExpansion : Type 0 where
  pub seeds : List ℕ
  pub control_bits : List Bool

-- A seed and control bit of the next level, from the PRG output of its parent.
unfoldable pub expanded : ℕ → Bool → Bool → ℕ → Lane
expanded correction_seed correction_control control_bit prg_buffer =
    let seed = if control_bit then bit_xor prg_buffer correction_seed else prg_buffer in
    let bit = lowest_bit seed in
    record {
      seed = clear_lowest_bit seed;
      control_bit = if control_bit then xor bit correction_control else bit;
    }

-- The loop over `j`, which merges the results of a batch: two children for each seed.
unfoldable pub merge_batch : Correction → List Bool → List ℕ → List ℕ → List Lane
unfolding expanded
merge_batch c (t ∷ ts) (l ∷ ls) (r ∷ rs) =
    expanded c.seed c.control_left t l
    ∷ expanded c.seed c.control_right t r
    ∷ merge_batch c ts ls rs
merge_batch c _ _ _ = []

module _ (prg_left prg_right : Aes128FixedKeyHash) where
  -- The loop over `start_block`, with one unit of fuel for each batch.
  unfoldable pub expand_batches : ℕ → Correction → List ℕ → List Bool → Status (List Lane)
  expand_batches zero c seeds control_bits = ok []
  expand_batches (suc fuel) c [] control_bits = ok []
  expand_batches (suc fuel) c (s ∷ seeds) control_bits = do
    let batch = take batch_size (s ∷ seeds)
    left ← evaluate prg_left batch (length batch)
    right ← evaluate prg_right batch (length batch)
    rest ← expand_batches fuel c (drop batch_size (s ∷ seeds)) (drop batch_size control_bits)
    ok (merge_batch c (take batch_size control_bits) left right ++ rest)

  -- The loop over `i`, one level of the tree for each correction word.
  unfoldable pub expand_levels : List Correction → DpfExpansion → Status DpfExpansion
  expand_levels [] expansion = ok expansion
  expand_levels (c ∷ cs) expansion = do
    lanes ← expand_batches (length expansion.seeds) c expansion.seeds expansion.control_bits
    expand_levels cs
        (record { seeds = map (λ n. n.seed) lanes; control_bits = map (λ n. n.control_bit) lanes })

-- `ExpandSeeds`.
unfoldable pub expand_seeds : Dpf → DpfExpansion → List CorrectionWord → Status DpfExpansion
expand_seeds d partial_evaluations words =
    expand_levels d.prg_left d.prg_right (map parse words) partial_evaluations
