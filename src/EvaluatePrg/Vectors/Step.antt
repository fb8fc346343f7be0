-- ===== src/EvaluatePrg/Vectors/Step.antt =====
-- One tree level on vectors (dpf/internal/evaluate_prg_hwy.cc): every block moves to the child that the
-- scalar version computes.
use native.Mathlib.Nat.{div-one}
use distributed_point_functi.Base.{
  ℕ, ◌+◌, ◌-◌, ◌*◌, ◌%◌, ◌^◌, ◌<◌, ◌≤◌, ◌≡◌, refl, sym, ap, ap₂, ◌∙◌, subst, Bool, true, false,
  ◌&&◌, ◌||◌, not, xor, List, [], ◌∷◌, length, All, bit_xor, bit_xor-zero, bit_xor-lt, bit_and,
  bit_or, u128_mod, if◌then◌else◌, lt→ltb, arith, test_bit, ◌==◌, high64, low64,
}
use distributed_point_functi.Aes.{sigma}
use distributed_point_functi.Aes.Hash.{hash}
use distributed_point_functi.EvaluatePrg.{
  Correction, Lane, path_bit, correct, lowest_bit, clear_lowest_bit,
}
use distributed_point_functi.EvaluatePrg.Walk.{child, walk}
use distributed_point_functi.EvaluatePrg.Highway.{Highway, IsHighway, blocks_per_vector}
use distributed_point_functi.EvaluatePrg.Vectors.{
  is_bit_set, if_then_else_mask, correct_vector, control_mask_of, vector_level, vector_levels,
  VectorState, hash_one_with_key_mask,
}
use distributed_point_functi.EvaluatePrg.Vectors.Bits.{
  swap, spread-low, spread-high, spread, clears,
}
use distributed_point_functi.EvaluatePrg.Vectors.Hash.{IsKeySchedule, hash_one_with_key_mask-block}

sigma_below : (x : ℕ) → x < u128_mod → sigma x < u128_mod
unfolding sigma
sigma_below x h = omega (arith, bit_xor-lt 64 (high64 x) (low64 x) (omega arith) (omega arith))

pub hash_below :
    (cipher : ℕ → ℕ) (x : ℕ)
    → ((y : ℕ) → cipher y < u128_mod)
    → x < u128_mod
    → hash cipher x < u128_mod
unfolding hash
hash_below cipher x small h =
    bit_xor-lt 128 (cipher (sigma x)) (sigma x) (small (sigma x)) (sigma_below x h)

-- The seed after the correction, and the node.
abbrev masked : Correction → Bool → ℕ → ℕ
masked c t x = if t then bit_xor x c.seed else x

abbrev moved : Correction → Bool → Bool → ℕ → Lane
moved c b t x = record {
  seed = clear_lowest_bit (masked c t x);
  control_bit =
      xor (lowest_bit (masked c t x)) (t && (if b then c.control_right else c.control_left));
}

correct-moved :
    (c : Correction) (b t : Bool) (l r : ℕ) → correct c b t l r ≡ moved c b t (if b then r else l)
unfolding correct
correct-moved c true t l r = refl
correct-moved c false t l r = refl

masked_below :
    (c : Correction) (t : Bool) (x : ℕ) → x < u128_mod → c.seed < u128_mod → masked c t x < u128_mod
masked_below c true x h h' = bit_xor-lt 128 x c.seed h h'
masked_below c false x h h' = h

module _ (hw : Highway) (round last_round : ℕ → ℕ → ℕ) (laws : IsHighway hw round last_round)
    (j : ℕ) (inside : j < blocks_per_vector hw) where
  -- A mask with the same bit for both halves of the block.
  pub record HasBit (m : hw.Mask) (b : Bool) : Type 0 where
    pub low : laws.bit m (2 * j) ≡ b
    pub high : laws.bit m (2 * j + 1) ≡ b

  -- The block of a vector, with its control bit, is a node.
  pub record Agrees (st : VectorState hw) (n : Lane) : Type 0 where
    pub seed : laws.block st.vec j ≡ n.seed
    pub control : HasBit st.control_mask n.control_bit
    pub small : n.seed < u128_mod

  is_bit_set-HasBit :
      (v : hw.Vector) (index : ℕ)
      → index < 128
      → HasBit (is_bit_set hw v index) (test_bit (laws.block v j) index)
  unfolding is_bit_set
  is_bit_set-HasBit v index h =
      let input_64 = hw.vector_and v (hw.load_dup_128 (2 ^ index % u128_mod)) in
      let e : laws.block input_64 j ≡ bit_and (laws.block v j) (2 ^ index % u128_mod) =
        laws.and_block _ _ j inside ∙ ap (bit_and (laws.block v j)) (laws.dup_block _ j inside) in
      let whole : laws.block (hw.vector_or input_64 (hw.shuffle_01 input_64)) j
          ≡ spread (laws.block v j) index =
        laws.or_block _ _ j inside ∙ ap₂ bit_or e (laws.shuffle_block _ j inside ∙ ap swap e) in
      record {
        low =
            laws.not_zero_low _ j inside
            ∙ ap (λ n. not (low64 n == 0)) whole
            ∙ spread-low (laws.block v j) index h;
        high =
            laws.not_zero_high _ j inside
            ∙ ap (λ n. not (high64 n == 0)) whole
            ∙ spread-high (laws.block v j) index h;
      }

  module _ (i : ℕ) (half : i < 2 * blocks_per_vector hw) where
    control_mask_of-bit : (b : Bool) → laws.bit (control_mask_of hw b) i ≡ b
    control_mask_of-bit true = laws.not_bit _ i half ∙ ap not (laws.first_n_none i half)
    control_mask_of-bit false = laws.first_n_none i half

    selects : (c t f : Bool) → ((c && t) || (not c && f)) ≡ (if c then t else f)
    selects true true f = refl
    selects true false f = refl
    selects false t f = refl

    if_then_else_mask-bit :
        (c t f : hw.Mask)
        → laws.bit (if_then_else_mask hw c t f) i
          ≡ (if laws.bit c i then laws.bit t i else laws.bit f i)
    unfolding if_then_else_mask
    if_then_else_mask-bit c t f =
        laws.or_bit _ _ i half
        ∙ ap₂ ◌||◌ (laws.and_bit c t i half)
            (laws.and_bit _ f i half ∙ ap (λ b. b && laws.bit f i) (laws.not_bit c i half))
        ∙ selects (laws.bit c i) (laws.bit t i) (laws.bit f i)

    -- The new control bit, at one half of the block.
    new_control :
        (c : Correction) (path_mask control_mask next : hw.Mask) {b t s : Bool}
        → laws.bit path_mask i ≡ b
        → laws.bit control_mask i ≡ t
        → laws.bit next i ≡ s
        → laws.bit
            (hw.mask_xor next (
              hw.mask_and control_mask (
                if_then_else_mask hw path_mask
                  (control_mask_of hw c.control_right)
                  (control_mask_of hw c.control_left))))
            i
          ≡ xor s (t && (if b then c.control_right else c.control_left))
    new_control c path_mask control_mask next {b} {t} {s} e_b e_t e_s =
        laws.xor_bit _ _ i half
        ∙ ap₂ xor e_s (
            laws.and_bit _ _ i half
            ∙ ap₂ ◌&&◌ e_t (
                if_then_else_mask-bit _ _ _
                ∙ ap₂ (λ u v. if laws.bit path_mask i then u else v)
                    (control_mask_of-bit c.control_right) (control_mask_of-bit c.control_left)
                ∙ ap (λ q. if q then c.control_right else c.control_left) e_b))

  low_half : 2 * j < 2 * blocks_per_vector hw
  low_half = omega (arith, inside)

  high_half : 2 * j + 1 < 2 * blocks_per_vector hw
  high_half = omega (arith, inside)

  masked_seed :
      (c : Correction) (control_mask : hw.Mask) (hashed : hw.Vector) (t : Bool) (x : ℕ)
      → HasBit control_mask t
      → laws.block hashed j ≡ x
      → laws.block
          (hw.vector_xor hashed (hw.if_then_else_zero control_mask (hw.load_dup_128 c.seed)))
          j
        ≡ (if t then bit_xor x c.seed else x)
  masked_seed c control_mask hashed t x on_control e =
      laws.xor_block _ _ j inside
      ∙ ap₂ bit_xor e (
          laws.select_zero_block control_mask _ j inside (on_control.low ∙ sym on_control.high)
          ∙ ap₂ (λ q y. if q then y else 0) on_control.low (laws.dup_block c.seed j inside))
      ∙ either t
    where
      either :
          (q : Bool) → bit_xor x (if q then c.seed else 0) ≡ (if q then bit_xor x c.seed else x)
      either true = refl
      either false = bit_xor-zero x

  correct_vector-Agrees :
      (c : Correction) (path_mask control_mask : hw.Mask) (hashed : hw.Vector) (b t : Bool) (x : ℕ)
      → HasBit path_mask b
      → HasBit control_mask t
      → laws.block hashed j ≡ x
      → x < u128_mod
      → c.seed < u128_mod
      → Agrees (correct_vector hw c path_mask control_mask hashed) (moved c b t x)
  unfolding correct_vector lowest_bit clear_lowest_bit test_bit
  correct_vector-Agrees c path_mask control_mask hashed b t x on_path on_control e small c_small =
      let vec = hw.vector_xor hashed (hw.if_then_else_zero control_mask (hw.load_dup_128 c.seed)) in
      let before : laws.block vec j ≡ masked c t x =
        masked_seed c control_mask hashed t x on_control e in
      let s_small : masked c t x < u128_mod = masked_below c t x small c_small in
      let next = is_bit_set-HasBit vec 0 (omega arith) in
      let lowest : test_bit (laws.block vec j) 0 ≡ lowest_bit (masked c t x) =
        ap (λ n. n % 2 == 1) (div-one (laws.block vec j) ∙ before) in
      record {
        seed =
            laws.and_block _ _ j inside
            ∙ ap₂ bit_and before (laws.dup_block (u128_mod - 2) j inside)
            ∙ clears (masked c t x) s_small;
        control = record {
          low =
              new_control (2 * j) low_half c path_mask control_mask _ on_path.low on_control.low
                (next.low ∙ lowest);
          high =
              new_control (2 * j + 1) high_half c path_mask control_mask _ on_path.high
                on_control.high (next.high ∙ lowest);
        };
        small = omega (arith, s_small);
      }

  module _ (keys_0 keys_1 : List ℕ) (cipher_0 cipher_1 : ℕ → ℕ)
      (schedule_0 : IsKeySchedule round last_round keys_0 cipher_0)
      (schedule_1 : IsKeySchedule round last_round keys_1 cipher_1)
      (below_0 : (x : ℕ) → cipher_0 x < u128_mod) (below_1 : (x : ℕ) → cipher_1 x < u128_mod) where
    hashed_block :
        (v : hw.Vector) (mask : hw.Mask) (b : Bool) (x : ℕ)
        → HasBit mask b
        → laws.block v j ≡ x
        → x < u128_mod
        → (laws.block (hash_one_with_key_mask hw v mask keys_0 keys_1) j
            ≡ (if b then hash cipher_1 x else hash cipher_0 x))
          × ((if b then hash cipher_1 x else hash cipher_0 x) < u128_mod)
    hashed_block v mask true x on e small = (
      hash_one_with_key_mask-block hw round last_round laws keys_0 keys_1 mask j inside true on.low
            on.high cipher_1 v schedule_1 (subst (λ n. n < u128_mod) (sym e) small)
          ∙ ap (hash cipher_1) e,
      hash_below cipher_1 x below_1 small,
    )
    hashed_block v mask false x on e small = (
      hash_one_with_key_mask-block hw round last_round laws keys_0 keys_1 mask j inside false on.low
            on.high cipher_0 v schedule_0 (subst (λ n. n < u128_mod) (sym e) small)
          ∙ ap (hash cipher_0) e,
      hash_below cipher_0 x below_0 small,
    )

    vector_level-Agrees :
        (c : Correction) (index : ℕ) (path : hw.Vector) (st : VectorState hw) (n : Lane)
        → index < 128
        → c.seed < u128_mod
        → Agrees st n
        → Agrees
            (vector_level hw keys_0 keys_1 c index path st)
            (child (hash cipher_0) (hash cipher_1) c (path_bit index (laws.block path j)) n)
    unfolding vector_level path_bit
    vector_level-Agrees c index path st n h c_small agrees =
        let b = test_bit (laws.block path j) index in
        let on_path = is_bit_set-HasBit path index h in
        let (e, small) = hashed_block st.vec _ b n.seed on_path agrees.seed agrees.small in
        rw (lt→ltb index 128 h) (
          subst (Agrees (vector_level hw keys_0 keys_1 c index path st))
            (sym (correct-moved c b n.control_bit (hash cipher_0 n.seed) (hash cipher_1 n.seed)))
            (correct_vector-Agrees c _ st.control_mask _ b n.control_bit _ on_path agrees.control e
              small c_small))

    -- The loop over the levels walks the path of each block.
    pub vector_levels-Agrees :
        (cs : List Correction) (path : hw.Vector) (st : VectorState hw) (n : Lane)
        → length cs ≤ 128
        → All (λ c. c.seed < u128_mod) cs
        → Agrees st n
        → Agrees
            (vector_levels hw keys_0 keys_1 cs path st)
            (walk (hash cipher_0) (hash cipher_1) cs (laws.block path j) n)
    unfolding vector_levels walk
    vector_levels-Agrees [] path st n h all agrees = agrees
    vector_levels-Agrees (c ∷ cs) path st n h all agrees =
        vector_levels-Agrees cs path _ _ (omega (arith, h)) all.1
          (vector_level-Agrees c (length cs) path st n (omega (arith, h)) all.0 agrees)
