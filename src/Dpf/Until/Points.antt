-- ===== src/Dpf/Until/Points.antt =====
-- The first call of `EvaluateUntil` on a context returns what `EvaluateAt` returns for all points.
use distributed_point_functi.Base.{ℕ, ◌*◌, ◌≤◌, ◌≡◌, refl, List, [], ◌∷◌, map, ok, upto, concat_map}
use distributed_point_functi.EvaluatePrg.{Lane}
use distributed_point_functi.Values.{ElementType, Element}
use distributed_point_functi.Values.Bytes.Enough.{bytes_read}
use distributed_point_functi.Dpf.Evaluate.{hash_inputs, correct_values}
use distributed_point_functi.Dpf.Correct.Block.{take-hashes, drop-hashes}
use distributed_point_functi.Dpf.Correct.Point.{output}
use distributed_point_functi.Dpf.Total.Generates.{elements_of-Succeeds}
use distributed_point_functi.Dpf.Until.{correct_expansion, correct_block}

module _ (f : ℕ → ℕ) (t : ElementType) (party k : ℕ) (ints : List Element)
    (enough : bytes_read t ≤ 16 * k) where
  -- The elements of a node, and what the party returns for one of them.
  abbrev elements_at : Lane → List Element
  elements_at n = (elements_of-Succeeds f t k n.seed enough).0

  abbrev pub output_at : Lane → ℕ → Element
  output_at n j = output t ints n party j (elements_at n)

  -- The expansion is corrected block by block.
  pub correct_expansion_lem :
      (count : ℕ) (ns : List Lane)
      → correct_expansion t party k ints count
          (map (λ n. n.control_bit) ns)
          (map f (hash_inputs k (map (λ n. n.seed) ns)))
        ≡ ok (concat_map (λ n. map (output_at n) (upto 0 count)) ns)
  unfolding correct_expansion hash_inputs correct_block
  correct_expansion_lem count [] = refl
  correct_expansion_lem count (n ∷ ns) =
      rw
        (
          take-hashes f k n.seed (hash_inputs k (map (λ (m : Lane). m.seed) ns)),
          drop-hashes f k n.seed (hash_inputs k (map (λ (m : Lane). m.seed) ns)),
          (elements_of-Succeeds f t k n.seed enough).1,
          correct_expansion_lem count ns,
        )
        refl

  -- The points are corrected one by one.
  pub correct_values_lem :
      (leaf : ℕ → Lane) (index : ℕ → ℕ) (xs : List ℕ)
      → correct_values t party k ints
          (map index xs)
          (map (λ x. (leaf x).control_bit) xs)
          (map f (hash_inputs k (map (λ x. (leaf x).seed) xs)))
        ≡ ok (map (λ x. output_at (leaf x) (index x)) xs)
  unfolding correct_values hash_inputs
  correct_values_lem leaf index [] = refl
  correct_values_lem leaf index (x ∷ xs) =
      rw
        (
          take-hashes f k (leaf x).seed (hash_inputs k (map (λ y. (leaf y).seed) xs)),
          drop-hashes f k (leaf x).seed (hash_inputs k (map (λ y. (leaf y).seed) xs)),
          (elements_of-Succeeds f t k (leaf x).seed enough).1,
          correct_values_lem leaf index xs,
        )
        refl
