-- ===== src/EvaluatePrg/Seeds/Loops.antt =====
-- The loops of `EvaluateSeedsHwy` (dpf/internal/evaluate_prg_hwy.cc) together write the nodes that all
-- paths lead to.
use distributed_point_functi.Base.{
  ℕ, zero, suc, ◌+◌, ◌-◌, ◌*◌, ◌<◌, ◌≤◌, ◌≡◌, refl, sym, ap, ◌∙◌, subst, false, ◌&&◌, List, [], ◌∷◌,
  map, length, take, drop, get_or, All, arith, u128_mod, ltb, leb, upto, length-upto, length-map,
  length-take, length-drop, gt→leb, get_or-take-drop, take_all, Bool-cases, inl, inr, le_of_test,
}
use distributed_point_functi.Aes.Hash.{hash}
use distributed_point_functi.Validator.Valid.{get_or-map}
use distributed_point_functi.EvaluatePrg.{Correction, Lane}
use distributed_point_functi.EvaluatePrg.Loops.{Point, seeds_of, controls_of, paths_of, end}
use distributed_point_functi.EvaluatePrg.Highway.{Highway, IsHighway, blocks_per_vector}
use distributed_point_functi.EvaluatePrg.Vectors.{VectorState, vector_level, vector_levels}
use distributed_point_functi.EvaluatePrg.Vectors.Hash.{IsKeySchedule}
use distributed_point_functi.EvaluatePrg.Seeds.{
  Four, four_levels, hash_four_with_key_mask, load_state, vector_outputs, append, four_vectors_at,
  vector_at, four_vectors, single_vectors, remaining_at, all_seeds, zip_four,
}
use distributed_point_functi.EvaluatePrg.Seeds.Covers.{
  Written, rest_of, Covers, append-Covers, chunk-Covers, nothing_left,
}
use distributed_point_functi.EvaluatePrg.Seeds.Chunks.{nothing, point_at, stored_seeds, stored_bits}

-- Four vectors at a time are each vector by itself.
four_levels-vector_levels :
    (hw : Highway) (keys_0 keys_1 : List ℕ) (cs : List Correction) (paths : Four hw.Vector)
    (sts : Four (VectorState hw))
    → four_levels hw keys_0 keys_1 cs paths sts
      ≡ zip_four (vector_levels hw keys_0 keys_1 cs) paths sts
unfolding four_levels vector_levels vector_level hash_four_with_key_mask
four_levels-vector_levels hw keys_0 keys_1 [] paths sts = refl
four_levels-vector_levels hw keys_0 keys_1 (c ∷ cs) paths sts =
    four_levels-vector_levels hw keys_0 keys_1 cs paths _

module _ (hw : Highway) (round last_round : ℕ → ℕ → ℕ) (laws : IsHighway hw round last_round)
    (ps : List Point) (keys_0 keys_1 : List ℕ) (cipher_0 cipher_1 : ℕ → ℕ)
    (schedule_0 : IsKeySchedule round last_round keys_0 cipher_0)
    (schedule_1 : IsKeySchedule round last_round keys_1 cipher_1)
    (below_0 : (x : ℕ) → cipher_0 x < u128_mod) (below_1 : (x : ℕ) → cipher_1 x < u128_mod)
    (cs : List Correction) (levels : length cs ≤ 128)
    (corrections : All (λ c. c.seed < u128_mod) cs)
    (seeds : (k : ℕ) → k < length ps → (point_at ps k).lane.seed < u128_mod)
    (wide : 0 < blocks_per_vector hw) where
  abbrev node : Point → Lane
  node = end (hash cipher_0) (hash cipher_1) cs

  abbrev start : ℕ → VectorState hw
  start p = load_state hw keys_0 keys_1 cs (seeds_of ps) (controls_of ps) (paths_of ps) p

  abbrev vector_written : ℕ → Written
  vector_written p =
      vector_outputs hw (vector_levels hw keys_0 keys_1 cs (hw.load (paths_of ps) p) (start p))

  vector-Covers :
      (p : ℕ)
      → p + blocks_per_vector hw ≤ length ps
      → Covers node ps (vector_written p) p (p + blocks_per_vector hw)
  unfolding load_state vector_outputs
  vector-Covers p fits =
      let v = hw.load (seeds_of ps) p in
      let path = hw.load (paths_of ps) p in
      let chosen : (j : ℕ) → j < blocks_per_vector hw → (ltb 0 0 && leb 0 j) ≡ false =
        λ j below. refl in
      let vector : (j : ℕ)
          → j < blocks_per_vector hw
          → laws.block v j ≡ (point_at ps (p + j)).lane.seed =
        λ j below.
          laws.load_block (seeds_of ps) p j below
            (omega (arith, length-map ps (λ (q : Point). q.lane.seed), below, fits))
          ∙ get_or-map (λ (q : Point). q.lane.seed) ps (p + j) nothing 0
              (omega (arith, below, fits)) in
      let on_path : (j : ℕ)
          → j < blocks_per_vector hw
          → laws.block path j ≡ (point_at ps (p + j)).path =
        λ j below.
          laws.load_block (paths_of ps) p j below
            (omega (arith, length-map ps (λ (q : Point). q.path), below, fits))
          ∙ get_or-map (λ (q : Point). q.path) ps (p + j) nothing 0 (omega (arith, below, fits)) in
      chunk-Covers node ps _ p (blocks_per_vector hw)
        (sym (
            take_all (blocks_per_vector hw)
              (hw.store (vector_levels hw keys_0 keys_1 cs path (start p)).vec)
              (omega (
                arith,
                ap length
                    (laws.store_blocks (vector_levels hw keys_0 keys_1 cs path (start p)).vec),
                length-map (upto 0 (blocks_per_vector hw))
                    (laws.block (vector_levels hw keys_0 keys_1 cs path (start p)).vec),
                length-upto 0 (blocks_per_vector hw),
              )))
          ∙ stored_seeds hw round last_round laws ps keys_0 keys_1 cipher_0 cipher_1 schedule_0
              schedule_1 below_0 below_1 cs levels corrections seeds v path p 0
              (blocks_per_vector hw) (omega arith) fits chosen vector on_path)
        (stored_bits hw round last_round laws ps keys_0 keys_1 cipher_0 cipher_1 schedule_0
          schedule_1 below_0 below_1 cs levels corrections seeds v path p 0 (blocks_per_vector hw)
          (omega arith) fits chosen vector on_path refl)

  vector-Covers_to :
      (p q : ℕ)
      → p + blocks_per_vector hw ≡ q
      → q ≤ length ps
      → Covers node ps (vector_written p) p q
  vector-Covers_to p q e fits =
      subst (Covers node ps (vector_written p) p) e (vector-Covers p (omega (arith, e, fits)))

  abbrev first_loop : ℕ → ℕ → Written × ℕ
  first_loop = four_vectors hw keys_0 keys_1 cs (seeds_of ps) (controls_of ps) (paths_of ps)

  abbrev second_loop : ℕ → ℕ → Written × ℕ
  second_loop = single_vectors hw keys_0 keys_1 cs (seeds_of ps) (controls_of ps) (paths_of ps)

  four_vectors_at-Covers :
      (p : ℕ)
      → p + 4 * blocks_per_vector hw ≤ length ps
      → Covers node ps
          (four_vectors_at hw keys_0 keys_1 cs (seeds_of ps) (controls_of ps) (paths_of ps) p)
          p
          (p + 4 * blocks_per_vector hw)
  unfolding four_vectors_at
  four_vectors_at-Covers p fits =
      let p_1 = p + 1 * blocks_per_vector hw in
      let p_2 = p + 2 * blocks_per_vector hw in
      let p_3 = p + 3 * blocks_per_vector hw in
      ap
        (λ (out : Four (VectorState hw)).
          append
            (append (vector_outputs hw out.at_0) (
              append (vector_outputs hw out.at_1)
                (append (vector_outputs hw out.at_2) (vector_outputs hw out.at_3))))
            (rest_of node ps (p + 4 * blocks_per_vector hw)))
        (four_levels-vector_levels hw keys_0 keys_1 cs _ _)
      ∙ append-Covers node ps (vector_written p) _ p p_1 _
          (vector-Covers_to p p_1 (omega arith) (omega (arith, fits)))
          (append-Covers node ps (vector_written p_1) _ p_1 p_2 _
            (vector-Covers_to p_1 p_2 (omega arith) (omega (arith, fits)))
            (append-Covers node ps (vector_written p_2) (vector_written p_3) p_2 p_3 _
              (vector-Covers_to p_2 p_3 (omega arith) (omega (arith, fits)))
              (vector-Covers_to p_3 _ (omega arith) fits)))

  many : length (seeds_of ps) ≡ length ps
  many = length-map ps (λ (q : Point). q.lane.seed)

  four_vectors-Covers :
      (fuel p : ℕ)
      → p ≤ length ps
      → Covers node ps (first_loop fuel p).0 p (first_loop fuel p).1
        × ((first_loop fuel p).1 ≤ length ps)
  unfolding four_vectors append
  four_vectors-Covers zero p h = (refl, h)
  four_vectors-Covers (suc fuel) p h =
      elim (Bool-cases (leb (p + 4 * blocks_per_vector hw) (length (seeds_of ps)))) [
        | inl e ↦
            let fits : p + 4 * blocks_per_vector hw ≤ length ps =
              omega
                (arith, le_of_test (p + 4 * blocks_per_vector hw) (length (seeds_of ps)) e, many) in
            let (covers, bound) = four_vectors-Covers fuel (p + 4 * blocks_per_vector hw) fits in
            rw e (append-Covers node ps _ _ p _ _ (four_vectors_at-Covers p fits) covers, bound)
        | inr e ↦ rw e (refl, h)
      ]

  gt_of_test : (a b : ℕ) → leb a b ≡ false → b < a
  gt_of_test a b e = ground arith

  single_vectors-Covers :
      (fuel p : ℕ)
      → p ≤ length ps
      → length ps ≤ p + fuel
      → Covers node ps (second_loop fuel p).0 p (second_loop fuel p).1
        × ((second_loop fuel p).1 ≤ length ps)
        × (length ps < (second_loop fuel p).1 + blocks_per_vector hw)
  unfolding single_vectors append vector_at
  single_vectors-Covers zero p h enough = (refl, h, omega (arith, wide, enough))
  single_vectors-Covers (suc fuel) p h enough =
      elim (Bool-cases (leb (p + blocks_per_vector hw) (length (seeds_of ps)))) [
        | inl e ↦
            let fits : p + blocks_per_vector hw ≤ length ps =
              omega (arith, le_of_test (p + blocks_per_vector hw) (length (seeds_of ps)) e, many) in
            let (covers, bound, short) =
              single_vectors-Covers fuel (p + blocks_per_vector hw) fits
                (omega (arith, wide, enough)) in
            rw e (
              append-Covers node ps (vector_written p) _ p _ _ (vector-Covers p fits) covers,
              bound,
              short,
            )
        | inr e ↦ rw e (
          refl,
          h,
          omega (arith, gt_of_test (p + blocks_per_vector hw) (length (seeds_of ps)) e, many),
        )
      ]

  loaded_rest :
      (p m j : ℕ) (xs : List ℕ)
      → m ≤ blocks_per_vector hw
      → j < m
      → p + j < length xs
      → laws.block (hw.load_first_n m (take m (drop p xs)) 0) j ≡ get_or xs (p + j) 0
  loaded_rest p m j xs room below fits =
      laws.load_first_n_block m (take m (drop p xs)) 0 j (omega (arith, room, below)) below
        (omega (arith, length-take m (drop p xs), length-drop p xs, below, fits))
      ∙ ap (λ k. get_or (take m (drop p xs)) k 0) {x = 0 + j} {y = j} (omega arith)
      ∙ get_or-take-drop m p j xs 0 below

  -- What is left for the last part.
  abbrev left_from : ℕ → ℕ
  left_from p = length (seeds_of ps) - p

  abbrev rest_written : ℕ → Written
  rest_written p = remaining_at hw keys_0 keys_1 cs (seeds_of ps) (controls_of ps) (paths_of ps) p

  none_left : (p : ℕ) → ltb 0 (left_from p) ≡ false → length (seeds_of ps) ≤ p
  none_left p e = ground arith

  remaining_at-Covers :
      (p : ℕ)
      → p ≤ length ps
      → length ps < p + blocks_per_vector hw
      → Covers node ps (rest_written p) p (length ps)
  unfolding remaining_at append
  remaining_at-Covers p h short = elim (Bool-cases (ltb 0 (left_from p))) [
    | inr e ↦ rw e (ap (rest_of node ps) (omega (arith, none_left p e, many, h)))
    | inl e ↦
        let m = left_from p in
        let v = hw.load_first_n m (take m (drop p (seeds_of ps))) 0 in
        let path = hw.load_first_n m (take m (drop p (paths_of ps))) 0 in
        let fits : p + m ≤ length ps = omega (arith, many, h) in
        let room : m ≤ blocks_per_vector hw = omega (arith, many, h, short) in
        let chosen : (j : ℕ) → j < m → (ltb 0 m && leb m j) ≡ false =
          λ j below. rw (e, gt→leb m j below) refl in
        let vector : (j : ℕ) → j < m → laws.block v j ≡ (point_at ps (p + j)).lane.seed = λ j below.
          loaded_rest p m j (seeds_of ps) room below (omega (arith, below, many))
          ∙ get_or-map (λ (q : Point). q.lane.seed) ps (p + j) nothing 0
              (omega (arith, below, many)) in
        let on_path : (j : ℕ) → j < m → laws.block path j ≡ (point_at ps (p + j)).path = λ j below.
          loaded_rest p m j (paths_of ps) room below
            (omega (arith, below, many, length-map ps (λ (q : Point). q.path)))
          ∙ get_or-map (λ (q : Point). q.path) ps (p + j) nothing 0 (omega (arith, below, many)) in
        rw e (
          subst (Covers node ps _ p) (omega (arith, many, h)) (
            chunk-Covers node ps _ p m
              (stored_seeds hw round last_round laws ps keys_0 keys_1 cipher_0 cipher_1 schedule_0
                schedule_1 below_0 below_1 cs levels corrections seeds v path p m m room fits chosen
                vector on_path)
              (stored_bits hw round last_round laws ps keys_0 keys_1 cipher_0 cipher_1 schedule_0
                schedule_1 below_0 below_1 cs levels corrections seeds v path p m m room fits chosen
                vector on_path (rw e refl))))
  ]

  -- The three parts together write the nodes of all points.
  pub all_seeds-results :
      all_seeds hw keys_0 keys_1 cs (seeds_of ps) (controls_of ps) (paths_of ps)
      ≡ (map (λ q. (node q).seed) ps, map (λ q. (node q).control_bit) ps)
  unfolding all_seeds
  all_seeds-results =
      let first = four_vectors-Covers (length (seeds_of ps)) 0 (omega arith) in
      let at_1 = (first_loop (length (seeds_of ps)) 0).1 in
      let second =
        single_vectors-Covers (length (seeds_of ps)) at_1 first.1 (omega (arith, many)) in
      let at_2 = (second_loop (length (seeds_of ps)) at_1).1 in
      let whole = append-Covers node ps _ _ 0 at_1 (length ps) first.0 (
        append-Covers node ps _ _ at_1 at_2 (length ps) second.0
          (remaining_at-Covers at_2 second.1 second.2)) in
      sym (nothing_left node ps _) ∙ whole
