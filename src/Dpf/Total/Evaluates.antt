-- ===== src/Dpf/Total/Evaluates.antt =====
-- Incremental DPFs from end to end: keys are generated, both parties evaluate them at every point of
-- every hierarchy level, and the outputs are shares of the point function.
use distributed_point_functi.Base.{
  ℕ, ◌-◌, ◌*◌, ◌/◌, ◌^◌, ◌≤◌, ◌<◌, ◌≡◌, refl, subst, Bool, true, false, not, List, [], ◌∷◌, map, ok,
  leb, ◌==◌, length, get_or, take, arith, All, invalid_argument, lt→ltb, le→ltb, le→leb,
  if◌then◌else◌, Succeeds, >>=-Succeeds, >>=-Succeeds_at, guard-Succeeds, ok-Succeeds, u128_mod,
  Status, ◌>>=◌, replicate,
}
use native.Mathlib.Nat.{pow-le-pow_right}
use native.Mathlib.Decide.{dec_lt}
use distributed_point_functi.Aes.Hash.{Prg}
use distributed_point_functi.Proto.{
  Value, value_not_set, DpfKey, block-round_trip, block_to_uint128, uint128_to_block,
}
use distributed_point_functi.EvaluatePrg.{Lane}
use distributed_point_functi.Values.{ElementType, Element, default}
use distributed_point_functi.Values.Convert.{from_value}
use distributed_point_functi.Values.Bytes.Enough.{bytes_read}
use distributed_point_functi.Values.Correction.{values_to_array}
use distributed_point_functi.Validator.{is_empty}
use distributed_point_functi.Dpf.{
  Dpf, blocks, log_domain_size, last_log_domain_size, tree_level, evaluate_seeds,
}
use distributed_point_functi.Dpf.Generate.{
  key_of, validate_betas, value_types, generate_keys_incremental,
}
use distributed_point_functi.Dpf.Evaluate.{
  value_correction_at, all_in_domain, max_evaluation_point, hash_inputs, correct_values,
  evaluate_at, tree_index, hash_expanded_seeds, block_index,
}
use distributed_point_functi.Dpf.Correct.Block.{take-hashes, drop-hashes}
use distributed_point_functi.Dpf.Correct.Points.{sums, evaluate_seeds-leaves}
use distributed_point_functi.Dpf.Correct.Keys.{Run, generate_keys_incremental-Run}
use distributed_point_functi.Dpf.Correct.Shares.{parts, evaluate_at-shares}
use distributed_point_functi.Dpf.Correct.Party.{leaf_of}
use distributed_point_functi.Dpf.Total.{IsDpf}
use distributed_point_functi.Dpf.Total.Generates.{
  elements_of-Succeeds, generate_keys_incremental-Succeeds,
}
use distributed_point_functi.Dpf.Total.Validates.{validate_dpf_key-ok}

-- Key generation returns two keys, `EvaluateAt` returns outputs for both of them, and the outputs at a
-- point x add up to `value` if x is alpha without the lowest bits that level h does not have, and to
-- zero otherwise.
abbrev pub AreShared :
    Dpf → (ℕ → ElementType) → ℕ → ℕ → ℕ → List Value → Element → ℕ → List ℕ → Type 0
AreShared d types alpha seed_0 seed_1 beta value h points =
    (key_0 key_1 : DpfKey) × (out_0 out_1 : List Element) × (generate_keys_incremental d seed_0
        seed_1 alpha beta
      ≡ ok (key_0, key_1))
    × (evaluate_at d (types h) key_0 h points ≡ ok out_0)
    × (evaluate_at d (types h) key_1 h points ≡ ok out_1)
    × (sums (types h) out_0 out_1
        ≡ map
            (λ x.
              if x == alpha / 2 ^ (last_log_domain_size d - log_domain_size d h)
              then value
              else default (types h))
            points)

-- The loop that corrects the values returns an output for each point.
correct_values-Succeeds :
    (f : ℕ → ℕ) (t : ElementType) (party k : ℕ) (ints : List Element) (leaf : ℕ → Lane)
    (index : ℕ → ℕ) (xs : List ℕ)
    → bytes_read t ≤ 16 * k
    → Succeeds (
        correct_values t party k ints
          (map index xs)
          (map (λ x. (leaf x).control_bit) xs)
          (map f (hash_inputs k (map (λ x. (leaf x).seed) xs))))
unfolding correct_values hash_inputs
correct_values-Succeeds f t party k ints leaf index [] h = ok-Succeeds []
correct_values-Succeeds f t party k ints leaf index (x ∷ xs) h =
    rw
      (
        take-hashes f k (leaf x).seed (hash_inputs k (map (λ y. (leaf y).seed) xs)),
        drop-hashes f k (leaf x).seed (hash_inputs k (map (λ y. (leaf y).seed) xs)),
      )
      (>>=-Succeeds (elements_of-Succeeds f t k (leaf x).seed h) (λ _ _.
        >>=-Succeeds (correct_values-Succeeds f t party k ints leaf index xs h)
          (λ _ _. ok-Succeeds _)))

either {ℓ} :
    {A : Type ℓ} {x y : Status A} (b : Bool)
    → Succeeds x
    → Succeeds y
    → Succeeds (if b then x else y)
either true p q = p
either false p q = q

below_max : (l x : ℕ) → l ≤ 128 → x < 2 ^ l → leb x (max_evaluation_point l) ≡ true
below_max l x h below = elim (dec_lt l 128) [
  | yes small ↦ rw (lt→ltb l 128 small) (le→leb x (2 ^ l - 1) (omega arith))
  | no large ↦
      let whole : x < 2 ^ 128 = subst (λ k. x < 2 ^ k) {x = l} {y = 128} (omega arith) below in
      rw (le→ltb l 128 (omega arith)) (le→leb x (u128_mod - 1) (omega arith))
]

pub all_in_domain-true :
    (l : ℕ) (xs : List ℕ)
    → l ≤ 128
    → All (λ x. x < 2 ^ l) xs
    → all_in_domain (max_evaluation_point l) xs ≡ true
unfolding all_in_domain
all_in_domain-true l [] h all = refl
all_in_domain-true l (x ∷ xs) h all =
    rw (below_max l x h all.0, all_in_domain-true l xs h all.1) refl

module _ (d : Dpf) (l : Prg d.prg_left) (r : Prg d.prg_right) (v : Prg d.prg_value)
    (types : ℕ → ElementType) (setup : IsDpf d types) (alpha seed_0 seed_1 : ℕ)
    (beta : List Value) where
  module _ (small : alpha < 2 ^ 128) (key_0 key_1 : DpfKey)
      (run : Run d l r alpha beta seed_0 seed_1 key_0 key_1) where
    abbrev key : ℕ → ℕ → DpfKey
    key party seed = key_of party seed run.st.words_0 run.values

    reads_correction :
        (party seed h : ℕ) (inside : h < length d.parameters)
        → Succeeds (values_to_array (types h) (value_correction_at d (key party seed) h))
    unfolding value_correction_at
    reads_correction party seed h inside = (
      _,
      (parts d l r v (types h) h (setup.levels h inside) alpha seed_0 seed_1 small beta key_0 key_1
          run).reads_values,
    )

    -- The part of `EvaluateAt` after the checks.
    abbrev evaluation : ℕ → ℕ → ℕ → List ℕ → Status (List Element)
    evaluation party seed h points = do
      ints ← values_to_array (types h) (value_correction_at d (key party seed) h)
      (seeds, control_bits) ←
          evaluate_seeds d (replicate (length points) (block_to_uint128 (uint128_to_block seed)))
            (replicate (length points) (not (party == 0))) (map (tree_index d (types h) h) points)
            (take (tree_level d h) run.st.words_0)
      hashed ← hash_expanded_seeds d h seeds
      correct_values (types h) party (blocks d h) ints (map (block_index d (types h) h) points)
          control_bits hashed

    evaluation-Succeeds :
        (party seed h : ℕ) (points : List ℕ)
        → h < length d.parameters
        → Succeeds (evaluation party seed h points)
    unfolding hash_expanded_seeds
    evaluation-Succeeds party seed h points inside =
        let words = take (tree_level d h) run.st.words_0 in
        let leaf = leaf_of d l r v (types h) h party seed run.st.words_0 run.values in
        >>=-Succeeds (reads_correction party seed h inside) (λ ints _. rw (block-round_trip seed) (
          >>=-Succeeds_at _
            (evaluate_seeds-leaves d l r (take (tree_level d h) run.st.words_0)
              (record { seed = seed; control_bit = not (party == 0) }) (tree_index d (types h) h)
              points)
            (>>=-Succeeds_at _
              (v.evaluates (hash_inputs (blocks d h) (map (λ x. (leaf x).seed) points)))
              (correct_values-Succeeds v.block (types h) party (blocks d h) ints leaf
                (block_index d (types h) h) points (setup.enough_blocks h inside)))))

    evaluate_at-Succeeds :
        (party seed h : ℕ) (points : List ℕ)
        → h < length d.parameters
        → All (λ x. x < 2 ^ log_domain_size d h) points
        → Succeeds (evaluate_at d (types h) (key party seed) h points)
    unfolding evaluate_at
    evaluate_at-Succeeds party seed h points inside all =
        let level = setup.levels h inside in
        >>=-Succeeds (guard-Succeeds invalid_argument (lt→ltb h (length d.parameters) inside))
          (λ _ _.
            >>=-Succeeds
              (guard-Succeeds invalid_argument (
                all_in_domain-true (log_domain_size d h) points
                  (omega (arith, level.domain_fits, level.bounded)) all))
              (λ _ _.
                >>=-Succeeds_at _
                  (validate_dpf_key-ok d l r v types setup alpha seed_0 seed_1 beta small key_0
                    key_1 run party seed)
                  (either (is_empty points) (ok-Succeeds [])
                    (evaluation-Succeeds party seed h points inside))))

  -- Let the PRGs hash single blocks, every hierarchy level be set up with enough blocks, beta have a
  -- valid value for each level, readable as `values h` of the level's type, and alpha be in the
  -- domain. Then key generation returns two keys, and `EvaluateAt` returns outputs for both of them
  -- at any points in the domain of any level h. The outputs at a point x add up to `values h` if x is
  -- alpha without the lowest bits that the level does not have, and to zero otherwise.
  pub evaluate_at-total :
      (values : ℕ → Element) (h : ℕ) (points : List ℕ)
      → length beta ≡ length d.parameters
      → validate_betas (value_types d) beta ≡ ok tt
      → ((i : ℕ)
          → i < length d.parameters
          → from_value (types i) (get_or beta i value_not_set) ≡ ok (values i))
      → alpha < 2 ^ last_log_domain_size d
      → h < length d.parameters
      → All (λ x. x < 2 ^ log_domain_size d h) points
      → AreShared d types alpha seed_0 seed_1 beta (values h) h points
  evaluate_at-total values h points size valid reads below inside all =
      let level = setup.levels h inside in
      let small : alpha < 2 ^ 128 = omega (
        arith,
        pow-le-pow_right {n = 2} (omega arith) {i = last_log_domain_size d} {j = 128} level.bounded,
      ) in
      let ((key_0, key_1), generated) =
        generate_keys_incremental-Succeeds d l r v types setup alpha beta
          (λ i b. (values i, reads i b)) seed_0 seed_1 size valid below in
      let run =
        generate_keys_incremental-Run d l r alpha beta seed_0 seed_1 key_0 key_1 level.bounded
          level.tree_fits small generated in
      let (out_0, e0) = evaluate_at-Succeeds small key_0 key_1 run 0 seed_0 h points inside all in
      let (out_1, e1) = evaluate_at-Succeeds small key_0 key_1 run 1 seed_1 h points inside all in
      let e0' = subst (λ k. evaluate_at d (types h) k h points ≡ ok out_0) run.on_key_0 e0 in
      let e1' = subst (λ k. evaluate_at d (types h) k h points ≡ ok out_1) run.on_key_1 e1 in
      (
        key_0,
        key_1,
        out_0,
        out_1,
        generated,
        e0',
        e1',
        evaluate_at-shares d l r v (types h) h alpha seed_0 seed_1 beta (values h) points key_0
            key_1 out_0 out_1 level small (reads h inside) generated e0' e1',
      )
