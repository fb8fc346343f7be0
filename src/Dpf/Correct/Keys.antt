-- ===== src/Dpf/Correct/Keys.antt =====
-- What key generation leaves in the keys: at every hierarchy level, correction words that share
-- alpha's path, and the value correction of alpha's leaf.
use distributed_point_functi.Base.{
  ℕ, ◌+◌, ◌-◌, ◌/◌, ◌^◌, ◌≤◌, ◌<◌, ◌≡◌, sym, ap, ap₂, ◌∙◌, subst, subst₂, true, false, not, ◌&&◌,
  List, ok, ◌==◌, ltb, leb, length, get_or, take, arith, lt→ltb, take_all, >>=-eq-ok, ok-injective,
  eq_of_guard, guard, invalid_argument, guard-true,
}
use native.Mathlib.Decide.{dec_lt}
use distributed_point_functi.Aes.Hash.{Prg}
use distributed_point_functi.Proto.{Value, value_not_set, DpfKey}
use distributed_point_functi.Values.{ElementType}
use distributed_point_functi.Dpf.{
  Dpf, last_log_domain_size, log_domain_size, tree_level, compute_value_correction,
}
use distributed_point_functi.Dpf.Generate.{
  State, alpha_prefix, generate_levels, initial_state, key_of, validate_betas, value_types,
  generate_keys_incremental,
}
use distributed_point_functi.Dpf.Evaluate.{value_correction_at}
use distributed_point_functi.Dpf.Tree.Invariant.{node_0, node_1, alpha_at, IsTree, initial-IsTree}
use distributed_point_functi.Dpf.Tree.Levels.{CorrectsAt, HasCorrections, generate_levels-IsTree}
use distributed_point_functi.Dpf.Correct.Level.{inner, last, IsLevel, alpha_prefix_lem}

-- alpha passed the test of key generation.
alpha_below :
    (n alpha : ℕ)
    → n ≤ 128
    → alpha < 2 ^ 128
    → not (ltb n 128 && leb (2 ^ n) alpha) ≡ true
    → alpha < 2 ^ n
alpha_below n alpha h fits e = elim (dec_lt n 128) [
  | yes small ↦ tested (2 ^ n) (rw (lt→ltb n 128 small) at e)
  | no large ↦ subst (λ k. alpha < 2 ^ k) {x = 128} {y = n} (omega arith) fits
]
  where
    tested : (b : ℕ) → not (leb b alpha) ≡ true → alpha < b
    tested b e = ground arith

not_below : (a b : ℕ) → ¬ a < b → ltb a b ≡ false
not_below a b h = ground arith

div_one : (a : ℕ) → a / 2 ^ 0 ≡ a
div_one a = omega arith

module _ (d : Dpf) (l : Prg d.prg_left) (r : Prg d.prg_right) (alpha : ℕ) (beta : List Value)
    (seed_0 seed_1 : ℕ) where
  abbrev n : ℕ
  n = last_log_domain_size d

  abbrev depth : ℕ
  depth = d.tree_levels_needed - 1

  -- A run of key generation that succeeded.
  pub record Run (key_0 key_1 : DpfKey) : Type 0 where
    pub st : State
    pub values : List Value
    pub size : length beta ≡ length d.parameters
    pub tree : IsTree l.block r.block n alpha seed_0 seed_1 depth st
    pub corrections : HasCorrections d l r alpha beta seed_0 seed_1 depth st
    pub last_correction :
        compute_value_correction d
          (length d.parameters - 1)
          st.seed_0
          st.seed_1
          alpha
          (get_or beta (length beta - 1) value_not_set)
          st.control_1
        ≡ ok values
    pub on_key_0 : key_of 0 seed_0 st.words_0 values ≡ key_0
    pub on_key_1 : key_of 1 seed_1 st.words_0 values ≡ key_1

  from_root :
      (st : State)
      → n ≤ 128
      → depth ≤ n
      → alpha < 2 ^ n
      → generate_levels d depth 1 alpha beta (initial_state seed_0 seed_1) ≡ ok st
      → IsTree l.block r.block n alpha seed_0 seed_1 depth st
        × HasCorrections d l r alpha beta seed_0 seed_1 depth st
  from_root st bounded fits inside e =
      subst
        (λ k.
          IsTree l.block r.block n alpha seed_0 seed_1 k st
          × HasCorrections d l r alpha beta seed_0 seed_1 k st)
        {x = 0 + depth} {y = depth} (omega arith)
        (generate_levels-IsTree d l r alpha beta seed_0 seed_1 depth 0 (initial_state seed_0 seed_1)
          st (omega arith) bounded (initial-IsTree l.block r.block n alpha seed_0 seed_1 inside)
          (λ h below. absurd (omega arith)) e)

  pub generate_keys_incremental-Run :
      (key_0 key_1 : DpfKey)
      → n ≤ 128
      → depth ≤ n
      → alpha < 2 ^ 128
      → generate_keys_incremental d seed_0 seed_1 alpha beta ≡ ok (key_0, key_1)
      → Run key_0 key_1
  unfolding generate_keys_incremental
  generate_keys_incremental-Run key_0 key_1 bounded fits small e =
      let (_, g0, e0) =
        >>=-eq-ok (guard (length beta == length d.parameters) invalid_argument) _ e in
      let (_, g1, e1) = >>=-eq-ok (validate_betas (value_types d) beta) _ e0 in
      let (_, g2, e2) =
        >>=-eq-ok (guard (not (ltb n 128 && leb (2 ^ n) alpha)) invalid_argument) _ e1 in
      let (st, g3, e3) =
        >>=-eq-ok (generate_levels d depth 1 alpha beta (initial_state seed_0 seed_1)) _ e2 in
      let (values, g4, e4) =
        >>=-eq-ok
          (compute_value_correction d (length d.parameters - 1) st.seed_0 st.seed_1 alpha
            (get_or beta (length beta - 1) value_not_set) st.control_1)
          _ e3 in
      let inside =
        alpha_below n alpha bounded small
          (guard-true (not (ltb n 128 && leb (2 ^ n) alpha)) _ g2) in
      let (tree, corrections) = from_root st bounded fits inside g3 in
      let pair = ok-injective e4 in
      record {
        st = st;
        values = values;
        size = eq_of_guard (length beta) (length d.parameters) _ g0;
        tree = tree;
        corrections = corrections;
        last_correction = g4;
        on_key_0 = ap (λ p. p.0) pair;
        on_key_1 = ap (λ ws. key_of 1 seed_1 ws values) tree.same_words ∙ ap (λ p. p.1) pair;
      }

  -- The value correction of a hierarchy level in a key is the one of alpha's leaf there.
  module _ (t : ElementType) (h : ℕ) (level : IsLevel d t h) (small : alpha < 2 ^ 128)
      (key : DpfKey) (st : State) (values : List Value) (size : length beta ≡ length d.parameters)
      (tree : IsTree l.block r.block n alpha seed_0 seed_1 depth st)
      (last_correction : compute_value_correction d
          (length d.parameters - 1)
          st.seed_0
          st.seed_1
          alpha
          (get_or beta (length beta - 1) value_not_set)
          st.control_1
        ≡ ok values)
      (corrections : HasCorrections d l r alpha beta seed_0 seed_1 depth st)
      (words : key.correction_words ≡ st.words_0)
      (stored : key.last_level_value_correction ≡ values) where
    all_words : tree_level d h ≡ depth → take (tree_level d h) st.words_0 ≡ st.words_0
    all_words deep = take_all (tree_level d h) st.words_0 (omega (arith, tree.size, deep))

    whole_alpha : h ≡ length d.parameters - 1 → alpha_prefix d h alpha ≡ alpha
    whole_alpha here =
        alpha_prefix_lem d t h level alpha small
        ∙ ap (λ k. alpha / 2 ^ k) {x = n - log_domain_size d h} {y = 0}
            (omega (arith, ap (log_domain_size d) here))
        ∙ div_one alpha

    at_last :
        h ≡ length d.parameters - 1
        → tree_level d h ≡ depth
        → CorrectsAt d l r alpha beta seed_0 seed_1 h (take (tree_level d h) st.words_0) values
    at_last here deep =
        rw
          (
            ap₂ (node_0 l.block r.block n alpha seed_0 seed_1) (all_words deep)
                  (ap (alpha_at l.block r.block n alpha seed_0 seed_1) deep)
                ∙ tree.on_0,
            ap₂ (node_1 l.block r.block n alpha seed_0 seed_1) (all_words deep)
                  (ap (alpha_at l.block r.block n alpha seed_0 seed_1) deep)
                ∙ tree.on_1,
            whole_alpha here,
          )
          (let index : length beta - 1 ≡ h = omega (arith, size, here) in
            subst₂
              (λ j i.
                compute_value_correction d j st.seed_0 st.seed_1 alpha (get_or beta i value_not_set)
                  st.control_1
                ≡ ok values)
              (sym here) index last_correction)

    pub stored_correction :
        CorrectsAt d l r alpha beta seed_0 seed_1 h
          (take (tree_level d h) st.words_0)
          (value_correction_at d key h)
    unfolding value_correction_at
    stored_correction = elim level.place [
      | inner before above found ↦
          rw (lt→ltb h (length d.parameters - 1) before, words) (corrections h above found)
      | last here deep ↦
          rw (not_below h (length d.parameters - 1) (λ b. absurd (omega arith)), stored)
            (at_last here deep)
    ]
