-- ===== src/Dpf/Tree/Step.antt =====
-- One level of the tree: with the correction word that `GenerateNext` writes, the parties' nodes go
-- on to the generator's new state on the branch of alpha, and become equal on the other branch.
use distributed_point_functi.Base.{
  ℕ, ◌*◌, ◌/◌, ◌%◌, ◌≡◌, refl, sym, ap, ap₂, ◌∙◌, Bool, true, false, xor, not, ◌&&◌, List, [], ◌∷◌,
  ◌++◌, ◌==◌, if◌then◌else◌, bit_xor, bit_xor_step, bit_xor_comm, bit_xor_cancel, xor_half, xor_low,
  arith,
}
use distributed_point_functi.Proto.{CorrectionWord, Value, block-round_trip, uint128_to_block}
use distributed_point_functi.EvaluatePrg.{Correction, Lane, correct, lowest_bit, clear_lowest_bit}
use distributed_point_functi.EvaluatePrg.Walk.{child}
use distributed_point_functi.Dpf.{parse}
use distributed_point_functi.Dpf.Generate.{
  State, Branch, branch, next_state, seed_correction, control_left_correction,
  control_right_correction,
}

clear-xor : (a c : ℕ) → c % 2 ≡ 0 → clear_lowest_bit (bit_xor a c) ≡ bit_xor (clear_lowest_bit a) c
unfolding clear_lowest_bit
clear-xor a c h =
    omega (arith, xor_half a c, bit_xor_step (a / 2 * 2) c, ap (λ t. bit_xor t (c / 2)) halved)
  where
    halved : a / 2 * 2 / 2 ≡ a / 2
    halved = omega arith

lowest-xor : (a c : ℕ) → c % 2 ≡ 0 → lowest_bit (bit_xor a c) ≡ lowest_bit a
unfolding lowest_bit
lowest-xor a c h = ap (λ t. t == 1) (omega (arith, xor_low a c))

xor-clear_even : (a b : ℕ) → bit_xor (clear_lowest_bit a) (clear_lowest_bit b) % 2 ≡ 0
unfolding clear_lowest_bit
xor-clear_even a b = omega (arith, xor_low (a / 2 * 2) (b / 2 * 2))

abbrev pub lane_0 : State → Lane
lane_0 st = record { seed = st.seed_0; control_bit = st.control_0 }

abbrev pub lane_1 : State → Lane
lane_1 st = record { seed = st.seed_1; control_bit = st.control_1 }

-- With an even seed correction, correcting commutes with taking the lowest bit off.
correct-even :
    (c : Correction) (path control : Bool) (l r : ℕ)
    → c.seed % 2 ≡ 0
    → let raw = if path then r else l in
      let control_correction = if path then c.control_right else c.control_left in
      correct c path control l r ≡ record {
        seed = if control then bit_xor (clear_lowest_bit raw) c.seed else clear_lowest_bit raw;
        control_bit = xor (lowest_bit raw) (control && control_correction);
      }
unfolding correct
correct-even c path true l r h =
    rw (clear-xor (if path then r else l) c.seed h, lowest-xor (if path then r else l) c.seed h)
correct-even c path false l r h = refl

-- The party whose control bit is set maps its seed to the other party's.
lose_seed :
    (t0 t1 : Bool) (x y : ℕ)
    → xor t0 t1 ≡ true
    → (if t0 then bit_xor x (bit_xor x y) else x) ≡ (if t1 then bit_xor y (bit_xor x y) else y)
lose_seed true true x y h = cc
lose_seed true false x y h = bit_xor_cancel x y
lose_seed false true x y h = sym (ap (bit_xor y) (bit_xor_comm x y) ∙ bit_xor_cancel y x)
lose_seed false false x y h = cc

lose_control :
    (t0 t1 p q c : Bool) → xor t0 t1 ≡ true → c ≡ xor p q → xor p (t0 && c) ≡ xor q (t1 && c)
lose_control t0 t1 p q c h e = ground arith

keep_control :
    (t0 t1 p q c : Bool)
    → xor t0 t1 ≡ true
    → c ≡ not (xor p q)
    → xor (xor p (t0 && c)) (xor q (t1 && c)) ≡ true
keep_control t0 t1 p q c h e = ground arith

xor_twice : (b : Bool) → xor (xor b true) true ≡ b
xor_twice b = ground arith

xor-true : (b : Bool) → xor b true ≡ not b
xor-true b = ground arith

xor-false : (b : Bool) → xor b false ≡ b
xor-false b = ground arith

module _ (left right : ℕ → ℕ) (st : State) where
  abbrev left_branch : Branch
  left_branch = branch (left st.seed_0 ∷ left st.seed_1 ∷ [])

  abbrev right_branch : Branch
  right_branch = branch (right st.seed_0 ∷ right st.seed_1 ∷ [])

  -- The state after this level, and the correction that evaluation parses from its word.
  abbrev pub after : Bool → List Value → State
  after bit values = next_state bit left_branch right_branch values st

  abbrev pub correction : Bool → Correction
  correction bit = record {
    seed = seed_correction bit left_branch right_branch;
    control_left = control_left_correction bit left_branch;
    control_right = control_right_correction bit right_branch;
  }

  seed_word_even : (bit : Bool) → (correction bit).seed % 2 ≡ 0
  unfolding seed_correction branch
  seed_word_even true = xor-clear_even (left st.seed_0) (left st.seed_1)
  seed_word_even false = xor-clear_even (right st.seed_0) (right st.seed_1)

  abbrev stepped : Bool → Bool → Lane → Lane
  stepped bit path n = child left right (correction bit) path n

  -- On alpha's branch both parties reach the generator's new state.
  pub child-keep_0 :
      (bit : Bool) (values : List Value)
      → child left right (correction bit) bit (lane_0 st) ≡ lane_0 (after bit values)
  unfolding next_state branch
  child-keep_0 true values =
      correct-even (correction true) true st.control_0 (left st.seed_0) (right st.seed_0)
        (seed_word_even true)
  child-keep_0 false values =
      correct-even (correction false) false st.control_0 (left st.seed_0) (right st.seed_0)
        (seed_word_even false)

  pub child-keep_1 :
      (bit : Bool) (values : List Value)
      → child left right (correction bit) bit (lane_1 st) ≡ lane_1 (after bit values)
  unfolding next_state branch
  child-keep_1 true values =
      correct-even (correction true) true st.control_1 (left st.seed_1) (right st.seed_1)
        (seed_word_even true)
  child-keep_1 false values =
      correct-even (correction false) false st.control_1 (left st.seed_1) (right st.seed_1)
        (seed_word_even false)

  -- The control bits of the parties differ again.
  pub after-differ :
      (bit : Bool) (values : List Value)
      → xor st.control_0 st.control_1 ≡ true
      → xor (after bit values).control_0 (after bit values).control_1 ≡ true
  unfolding next_state branch
  after-differ true values h = keep_control st.control_0 st.control_1 _ _ _ h (xor-true _)
  after-differ false values h =
      keep_control st.control_0 st.control_1 _ _ _ h
        (ap (λ b. xor b true) (xor-false _) ∙ xor-true _)

  -- On the other branch the parties' nodes become equal.
  pub child-lose :
      (bit : Bool)
      → xor st.control_0 st.control_1 ≡ true
      → child left right (correction bit) (not bit) (lane_0 st)
        ≡ child left right (correction bit) (not bit) (lane_1 st)
  unfolding branch seed_correction control_left_correction control_right_correction
  child-lose true h =
      rw
        (
          correct-even (correction true) false st.control_0 (left st.seed_0) (right st.seed_0)
              (seed_word_even true),
          correct-even (correction true) false st.control_1 (left st.seed_1) (right st.seed_1)
              (seed_word_even true),
        )
        (ap₂ (λ s c. record { seed = s; control_bit = c })
          (lose_seed st.control_0 st.control_1 _ _ h)
          (lose_control st.control_0 st.control_1 _ _ _ h (xor_twice _)))
  child-lose false h =
      rw
        (
          correct-even (correction false) true st.control_0 (left st.seed_0) (right st.seed_0)
              (seed_word_even false),
          correct-even (correction false) true st.control_1 (left st.seed_1) (right st.seed_1)
              (seed_word_even false),
        )
        (ap₂ (λ s c. record { seed = s; control_bit = c })
          (lose_seed st.control_0 st.control_1 _ _ h)
          (lose_control st.control_0 st.control_1 _ _ _ h (xor-false _)))

  -- The word that is added to both keys, and what evaluation parses it into.
  abbrev pub word : Bool → List Value → CorrectionWord
  word bit values = record {
    seed = uint128_to_block (correction bit).seed;
    control_left = (correction bit).control_left;
    control_right = (correction bit).control_right;
    value_correction = values;
  }

  pub parse-word : (bit : Bool) (values : List Value) → parse (word bit values) ≡ correction bit
  parse-word bit values =
      ap
        (λ s. record {
          seed = s;
          control_left = (correction bit).control_left;
          control_right = (correction bit).control_right;
        })
        (block-round_trip (correction bit).seed)

  pub words_0-after :
      (bit : Bool) (values : List Value)
      → (after bit values).words_0 ≡ st.words_0 ++ word bit values ∷ []
  unfolding next_state
  words_0-after bit values = refl

  pub words_1-after :
      (bit : Bool) (values : List Value)
      → (after bit values).words_1 ≡ st.words_1 ++ word bit values ∷ []
  unfolding next_state
  words_1-after bit values = refl
