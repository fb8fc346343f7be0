-- ===== src/Dpf/Expand/Subtree.antt =====
-- The iterative expansion writes, below each seed, the leaves of its subtree in order.
use mathlib.Core.List.{map-append, append-nil}
use native.Mathlib.Nat.{pow-suc, div-eq_of_lt}
use distributed_point_functi.Base.{
  ℕ, zero, suc, ◌+◌, ◌^◌, ◌≤◌, ◌<◌, ◌≡◌, refl, sym, ap, ap₂, ◌∙◌, Bool, true, false, List, [], ◌∷◌,
  ◌++◌, map, length, take, drop, ok, arith, length-map, length-drop, take-map, drop-map, ◌/◌, upto,
  concat_map, upto-add, map-upto_shift, map-upto_eq, concat_map-append, concat_map-concat_map,
  concat_map_eq, test_bit, test_bit-suc, lt→ltb, xor, ◌==◌, take-append-drop,
}
use distributed_point_functi.Aes.{Aes128FixedKeyHash, batch_size}
use distributed_point_functi.Aes.Hash.{Prg}
use distributed_point_functi.Proto.{CorrectionWord}
use distributed_point_functi.EvaluatePrg.{Correction, Lane, path_bit, correct}
use distributed_point_functi.EvaluatePrg.Walk.{child, walk}
use distributed_point_functi.Dpf.{Dpf, parse}
use distributed_point_functi.Dpf.Expand.{
  DpfExpansion, expanded, merge_batch, expand_batches, expand_levels, expand_seeds,
}

abbrev pub expansion_of : List Lane → DpfExpansion
expansion_of ns = record {
  seeds = map (λ n. n.seed) ns;
  control_bits = map (λ n. n.control_bit) ns;
}

module _ (left right : ℕ → ℕ) where
  -- The leaves below a node, from left to right: the reference for the expansion.
  abbrev pub subtree : List Correction → Lane → List Lane
  subtree cs n = map (λ p. walk left right cs p n) (upto 0 (2 ^ length cs))

  abbrev children : Correction → Lane → List Lane
  children c n = child left right c false n ∷ child left right c true n ∷ []

  xor-false : (b : Bool) → xor b false ≡ b
  xor-false true = refl
  xor-false false = refl

  -- Both versions of the correction of a child agree.
  expanded-left :
      (c : Correction) (t : Bool) (l r : ℕ)
      → expanded c.seed c.control_left t l ≡ correct c false t l r
  unfolding expanded correct
  expanded-left c true l r = refl
  expanded-left c false l r = rw xor-false refl

  expanded-right :
      (c : Correction) (t : Bool) (l r : ℕ)
      → expanded c.seed c.control_right t r ≡ correct c true t l r
  unfolding expanded correct
  expanded-right c true l r = refl
  expanded-right c false l r = rw xor-false refl

  merge_batch-children :
      (c : Correction) (ns : List Lane)
      → merge_batch c
          (map (λ n. n.control_bit) ns)
          (map left (map (λ n. n.seed) ns))
          (map right (map (λ n. n.seed) ns))
        ≡ concat_map (children c) ns
  unfolding merge_batch
  merge_batch-children c [] = refl
  merge_batch-children c (n ∷ ns) =
      ap₂ (λ a as'. a ∷ as') (expanded-left c n.control_bit (left n.seed) (right n.seed))
        (ap₂ (λ a as'. a ∷ as') (expanded-right c n.control_bit (left n.seed) (right n.seed))
          (merge_batch-children c ns))

  -- Which half of the range a path is in decides its first step.
  low_half : (k p : ℕ) → k < 128 → p < 2 ^ k → path_bit k p ≡ false
  unfolding path_bit test_bit
  low_half k p h below = rw (lt→ltb k 128 h, div-eq_of_lt below) refl

  test_bit-high : (k p : ℕ) → p < 2 ^ k → test_bit (2 ^ k + p) k ≡ true
  unfolding test_bit
  test_bit-high zero p h = ap (λ x. test_bit (1 + x) 0) {x = p} {y = 0} (omega arith)
  test_bit-high (suc k) p h =
      test_bit-suc (2 ^ suc k + p) k
      ∙ ap (λ x. test_bit x k) {x = (2 ^ suc k + p) / 2} {y = 2 ^ k + p / 2}
          (omega (arith, pow-suc 2 k))
      ∙ test_bit-high k (p / 2) (omega (arith, pow-suc 2 k))

  high_half : (k p : ℕ) → k < 128 → p < 2 ^ k → path_bit k (2 ^ k + p) ≡ true
  unfolding path_bit
  high_half k p h below = rw (lt→ltb k 128 h) (test_bit-high k p below)

  test_bit-low : (k j p : ℕ) → j < k → test_bit (2 ^ k + p) j ≡ test_bit p j
  unfolding test_bit
  test_bit-low zero j p h = absurd (omega arith)
  test_bit-low (suc k) zero p h = ap (λ x. x == 1) (omega (arith, pow-suc 2 k))
  test_bit-low (suc k) (suc j) p h =
      test_bit-suc (2 ^ suc k + p) j
      ∙ ap (λ x. test_bit x j) {x = (2 ^ suc k + p) / 2} {y = 2 ^ k + p / 2}
          (omega (arith, pow-suc 2 k))
      ∙ test_bit-low k j (p / 2) (omega arith)
      ∙ sym (test_bit-suc p j)

  path_bit-low : (k j p : ℕ) → j < k → path_bit j (2 ^ k + p) ≡ path_bit j p
  unfolding path_bit
  path_bit-low k j p h = rw (test_bit-low k j p h)

  -- A walk does not look at higher bits.
  walk-low :
      (cs : List Correction) (k p : ℕ) (n : Lane)
      → length cs ≤ k
      → walk left right cs (2 ^ k + p) n ≡ walk left right cs p n
  unfolding walk
  walk-low [] k p n h = refl
  walk-low (c ∷ cs) k p n h =
      ap (λ b. walk left right cs (2 ^ k + p) (child left right c b n))
        (path_bit-low k (length cs) p (omega arith))
      ∙ walk-low cs k p (child left right c (path_bit (length cs) p) n) (omega arith)

  subtree-cons :
      (c : Correction) (cs : List Correction) (n : Lane)
      → length cs < 128
      → subtree (c ∷ cs) n ≡ concat_map (subtree cs) (children c n)
  unfolding walk
  subtree-cons c cs n h =
      let k = length cs in
      let f = λ (p : ℕ). walk left right (c ∷ cs) p n in
      ap (λ m. map f (upto 0 m)) {x = 2 ^ suc k} {y = 2 ^ k + 2 ^ k} (omega (arith, pow-suc 2 k))
      ∙ ap (map f) (upto-add 0 (2 ^ k) (2 ^ k))
      ∙ map-append f (upto 0 (2 ^ k)) (upto (0 + 2 ^ k) (2 ^ k))
      ∙ ap₂ ◌++◌
          (map-upto_eq f (λ p. walk left right cs p (child left right c false n)) 0 (2 ^ k)
            (λ p _ below.
              ap (λ b. walk left right cs p (child left right c b n))
                (low_half k p h (omega arith))))
          (ap (λ j. map f (upto j (2 ^ k))) {x = 0 + 2 ^ k} {y = 2 ^ k + 0} (omega arith)
            ∙ map-upto_shift f (2 ^ k) 0 (2 ^ k)
            ∙ map-upto_eq (λ p. f (2 ^ k + p))
                (λ p. walk left right cs p (child left right c true n)) 0 (2 ^ k)
                (λ p _ below.
                  ap (λ b. walk left right cs (2 ^ k + p) (child left right c b n))
                    (high_half k p h (omega arith))
                  ∙ walk-low cs k p (child left right c true n) (omega arith))
            ∙ sym (
                append-nil
                  (map (λ p. walk left right cs p (child left right c true n)) (upto 0 (2 ^ k)))))

module _ (prg_left prg_right : Aes128FixedKeyHash) (l : Prg prg_left) (r : Prg prg_right) where
  abbrev below : Correction → List Lane → List Lane
  below c = concat_map (children l.block r.block c)

  batch-children :
      (c : Correction) (ns : List Lane)
      → merge_batch c
          (take batch_size (map (λ n. n.control_bit) ns))
          (map l.block (take batch_size (map (λ n. n.seed) ns)))
          (map r.block (take batch_size (map (λ n. n.seed) ns)))
        ≡ below c (take batch_size ns)
  batch-children c ns =
      rw
        (
          take-map (λ (n : Lane). n.control_bit) batch_size ns,
          take-map (λ (n : Lane). n.seed) batch_size ns,
        )
        (merge_batch-children l.block r.block c (take batch_size ns))

  expand_batches_lem :
      (fuel : ℕ) (c : Correction) (ns : List Lane)
      → length ns ≤ fuel
      → expand_batches prg_left prg_right fuel c
          (map (λ n. n.seed) ns)
          (map (λ n. n.control_bit) ns)
        ≡ ok (below c ns)
  unfolding expand_batches
  expand_batches_lem zero c [] h = refl
  expand_batches_lem zero c (n ∷ ns) h = absurd (omega arith)
  expand_batches_lem (suc fuel) c [] h = refl
  expand_batches_lem (suc fuel) c (n ∷ ns) h =
      rw
        (
          l.evaluates (take batch_size (map (λ (m : Lane). m.seed) (n ∷ ns))),
          r.evaluates (take batch_size (map (λ (m : Lane). m.seed) (n ∷ ns))),
          drop-map (λ (m : Lane). m.seed) batch_size (n ∷ ns),
          drop-map (λ (m : Lane). m.control_bit) batch_size (n ∷ ns),
          expand_batches_lem fuel c (drop batch_size (n ∷ ns))
              (omega (arith, length-drop batch_size (n ∷ ns))),
          batch-children c (n ∷ ns),
          ← concat_map-append (children l.block r.block c) (take batch_size (n ∷ ns))
              (drop batch_size (n ∷ ns)),
        )
        (ap (λ t. ok (below c t)) (take-append-drop batch_size (n ∷ ns)))

  expand_levels_lem :
      (cs : List Correction) (ns : List Lane)
      → length cs ≤ 128
      → expand_levels prg_left prg_right cs (expansion_of ns)
        ≡ ok (expansion_of (concat_map (subtree l.block r.block cs) ns))
  unfolding expand_levels walk
  expand_levels_lem [] ns h = ap (λ t. ok (expansion_of t)) (sym (themselves ns))
    where
      themselves : (ns : List Lane) → concat_map (subtree l.block r.block []) ns ≡ ns
      themselves [] = refl
      themselves (n ∷ ns) = ap (◌∷◌ n) (themselves ns)
  expand_levels_lem (c ∷ cs) ns h =
      rw
        (expand_batches_lem (length (map (λ (n : Lane). n.seed) ns)) c ns
          (omega (arith, length-map ns (λ n. n.seed))))
        (expand_levels_lem cs (below c ns) (omega arith)
          ∙ ap (λ t. ok (expansion_of t))
              (concat_map-concat_map (subtree l.block r.block cs) (children l.block r.block c) ns
                ∙ sym (
                    concat_map_eq (subtree l.block r.block (c ∷ cs)) _ ns
                      (λ n. subtree-cons l.block r.block c cs n (omega arith)))))

-- With PRGs that hash single blocks and at most 128 correction words, `ExpandSeeds` succeeds. It
-- returns, for every seed in order, the node that `EvaluateSeeds` reaches along each path from 0 to
-- 2 ^ n - 1 for n correction words, in increasing order of the paths.
pub expand_seeds_lem :
    (d : Dpf) (l : Prg d.prg_left) (r : Prg d.prg_right) (words : List CorrectionWord)
    (ns : List Lane)
    → length words ≤ 128
    → expand_seeds d (expansion_of ns) words
      ≡ ok (
          expansion_of (
            concat_map
              (λ n.
                map (λ p. walk l.block r.block (map parse words) p n) (upto 0 (2 ^ length words)))
              ns))
unfolding expand_seeds
expand_seeds_lem d l r words ns h = rw (← length-map words parse) (
    expand_levels_lem d.prg_left d.prg_right l r (map parse words) ns
      (omega (arith, length-map words parse)))
