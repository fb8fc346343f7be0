-- ===== src/Dpf/Tree/Levels.antt =====
-- The loop over the tree levels, and the value correction that it stores at each output level.
use distributed_point_functi.Base.{
  ℕ, zero, suc, ◌+◌, ◌-◌, ◌%◌, ◌≤◌, ◌<◌, ◌≡◌, sym, ap, ◌∙◌, subst, subst₂, Bool, List, [], ◌∷◌,
  ◌++◌, map, some, ok, ◌==◌, length, get_or, take, arith, test_bit, lt→ltb, take_all,
  get_or-append_lt, get_or-append_length, length-map, >>=-eq-ok, ok-injective,
}
use mathlib.Core.List.{map-append}
use native.Mathlib.Decide.{dec_lt}
use distributed_point_functi.Aes.Hash.{Prg}
use distributed_point_functi.Proto.{CorrectionWord, Value, value_not_set}
use distributed_point_functi.Dpf.{
  Dpf, last_log_domain_size, tree_level, find, compute_value_correction,
}
use distributed_point_functi.Dpf.Generate.{
  State, current_bit, alpha_prefix, level_value_correction, generate_next, generate_levels,
}
use distributed_point_functi.Dpf.Tree.Step.{after, word, words_0-after}
use distributed_point_functi.Dpf.Tree.Invariant.{
  node_0, node_1, alpha_at, IsTree, next-IsTree, take-next,
}

module _ (d : Dpf) (l : Prg d.prg_left) (r : Prg d.prg_right) (alpha : ℕ) (beta : List Value)
    (seed_0 seed_1 : ℕ) where
  abbrev n : ℕ
  n = last_log_domain_size d

  abbrev at_0 : List CorrectionWord → ℕ → ℕ
  at_0 us t =
      (node_0 l.block r.block n alpha seed_0 seed_1 us
        (alpha_at l.block r.block n alpha seed_0 seed_1 t)).seed

  -- The value correction of hierarchy level h is computed from the parties' nodes on alpha's path.
  abbrev pub CorrectsAt : ℕ → List CorrectionWord → List Value → Type 0
  CorrectsAt h us values =
      let t = tree_level d h in
      let p = alpha_at l.block r.block n alpha seed_0 seed_1 t in
      let n0 = node_0 l.block r.block n alpha seed_0 seed_1 us p in
      let n1 = node_1 l.block r.block n alpha seed_0 seed_1 us p in
      compute_value_correction d h n0.seed n1.seed (alpha_prefix d h alpha)
        (get_or beta h value_not_set) n1.control_bit
      ≡ ok values

  abbrev pub HasCorrections : ℕ → State → Type 0
  HasCorrections k st =
      (h : ℕ)
      → tree_level d h < k
      → find (tree_level d h) d.tree_to_hierarchy ≡ some h
      → CorrectsAt h (take (tree_level d h) st.words_0)
          (get_or (map (λ w. w.value_correction) st.words_0) (tree_level d h) [])

  generate_next-after :
      (k : ℕ) (st st' : State)
      → k < n
      → n ≤ 128
      → generate_next d (suc k) alpha beta st ≡ ok st'
      → (values : List Value) × (level_value_correction d (suc k) alpha beta st ≡ ok values)
        × (after l.block r.block st
              (alpha_at l.block r.block n alpha seed_0 seed_1 (suc k) % 2 == 1)
              values
            ≡ st')
  unfolding generate_next current_bit test_bit
  generate_next-after k st st' deeper fits e =
      let (values, e1, e2) = >>=-eq-ok (level_value_correction d (suc k) alpha beta st) _ e in
      (
        values,
        e1,
        ok-injective (
            rw
              (
                l.evaluates (st.seed_0 ∷ st.seed_1 ∷ []),
                r.evaluates (st.seed_0 ∷ st.seed_1 ∷ []),
                lt→ltb (n - suc k) 128 (omega arith),
              )
              at e2),
      )

  module _ (k : ℕ) (st : State) (values : List Value)
      (tree : IsTree l.block r.block n alpha seed_0 seed_1 k st) (deeper : k < n)
      (fits : n ≤ 128) where
    abbrev bit : Bool
    bit = alpha_at l.block r.block n alpha seed_0 seed_1 (suc k) % 2 == 1

    abbrev next : State
    next = after l.block r.block st bit values

    corrections-next :
        map (λ w. w.value_correction) next.words_0
        ≡ map (λ w. w.value_correction) st.words_0 ++ values ∷ []
    corrections-next =
        ap (map (λ w. w.value_correction)) (words_0-after l.block r.block st bit values)
        ∙ map-append (λ w. w.value_correction) st.words_0 (word l.block r.block st bit values ∷ [])

    prefix-next : (t : ℕ) → t ≤ k → take t next.words_0 ≡ take t st.words_0
    prefix-next t h =
        take-next l.block r.block n alpha seed_0 seed_1 k st tree deeper fits values t h

    corrections_size : length (map (λ (w : CorrectionWord). w.value_correction) st.words_0) ≡ k
    corrections_size = length-map st.words_0 (λ w. w.value_correction) ∙ tree.size

    earlier_CorrectsAt :
        (h : ℕ)
        → tree_level d h < k
        → CorrectsAt h
            (take (tree_level d h) st.words_0)
            (get_or (map (λ w. w.value_correction) st.words_0) (tree_level d h) [])
        → CorrectsAt h
            (take (tree_level d h) next.words_0)
            (get_or (map (λ w. w.value_correction) next.words_0) (tree_level d h) [])
    earlier_CorrectsAt h above =
        subst₂ (CorrectsAt h) (sym (prefix-next (tree_level d h) (omega arith))) (
          sym (
            ap (λ vs. get_or vs (tree_level d h) []) corrections-next
            ∙ get_or-append_lt (tree_level d h) (map (λ w. w.value_correction) st.words_0)
                (values ∷ []) [] (omega (arith, corrections_size))))

    level_value_correction-at :
        (h : ℕ)
        → tree_level d h ≡ k
        → find (tree_level d h) d.tree_to_hierarchy ≡ some h
        → level_value_correction d (suc k) alpha beta st
          ≡ compute_value_correction d h st.seed_0 st.seed_1
              (alpha_prefix d h alpha)
              (get_or beta h value_not_set)
              st.control_1
    unfolding level_value_correction
    level_value_correction-at h here found = rw (
      ap (λ t. find t d.tree_to_hierarchy) {x = suc k - 1} {y = tree_level d h} (omega arith)
          ∙ found,
      level_value_correction,
    )

    here_CorrectsAt :
        (h : ℕ)
        → tree_level d h ≡ k
        → find (tree_level d h) d.tree_to_hierarchy ≡ some h
        → level_value_correction d (suc k) alpha beta st ≡ ok values
        → CorrectsAt h
            (take (tree_level d h) next.words_0)
            (get_or (map (λ w. w.value_correction) next.words_0) (tree_level d h) [])
    here_CorrectsAt h here found e =
        subst₂ (CorrectsAt h)
          (sym (
            prefix-next (tree_level d h) (omega arith)
            ∙ take_all (tree_level d h) st.words_0 (omega (arith, tree.size))))
          (sym (
            ap (λ vs. get_or vs (tree_level d h) []) corrections-next
            ∙ get_or-append_length (tree_level d h) (map (λ w. w.value_correction) st.words_0)
                values [] (omega (arith, corrections_size))))
          (rw
            (
              ap
                    (λ t.
                      node_0 l.block r.block n alpha seed_0 seed_1 st.words_0
                        (alpha_at l.block r.block n alpha seed_0 seed_1 t))
                    here
                  ∙ tree.on_0,
              ap
                    (λ t.
                      node_1 l.block r.block n alpha seed_0 seed_1 st.words_0
                        (alpha_at l.block r.block n alpha seed_0 seed_1 t))
                    here
                  ∙ tree.on_1,
            )
            (sym (level_value_correction-at h here found) ∙ e))

    next-HasCorrections :
        level_value_correction d (suc k) alpha beta st ≡ ok values
        → HasCorrections k st
        → HasCorrections (suc k) next
    next-HasCorrections e old h below found = elim (dec_lt (tree_level d h) k) [
      | yes earlier ↦ earlier_CorrectsAt h earlier (old h earlier found)
      | no here ↦ here_CorrectsAt h (omega arith) found e
    ]

  -- If the loop of key generation goes from depth k to depth k + left, which is at most the domain's
  -- size in bits, of at most 128 bits, and the invariant holds at k, then it holds at k + left: the
  -- parties' nodes have different control bits on alpha's path and are equal off it, and every value
  -- correction that was stored is the one of alpha's node.
  pub generate_levels-IsTree :
      (left k : ℕ) (st st' : State)
      → k + left ≤ n
      → n ≤ 128
      → IsTree l.block r.block n alpha seed_0 seed_1 k st
      → HasCorrections k st
      → generate_levels d left (suc k) alpha beta st ≡ ok st'
      → IsTree l.block r.block n alpha seed_0 seed_1 (k + left) st' × HasCorrections (k + left) st'
  unfolding generate_levels
  generate_levels-IsTree zero k st st' deep fits tree old e =
      subst (λ j. IsTree l.block r.block n alpha seed_0 seed_1 j st' × HasCorrections j st')
        (omega arith)
        (subst (λ s. IsTree l.block r.block n alpha seed_0 seed_1 k s × HasCorrections k s)
          (ok-injective e) (tree, old))
  generate_levels-IsTree (suc left) k st st' deep fits tree old e =
      let (mid, e1, e2) = >>=-eq-ok (generate_next d (suc k) alpha beta st) _ e in
      let (values, e3, e4) = generate_next-after k st mid (omega arith) fits e1 in
      let tree' =
        next-IsTree l.block r.block n alpha seed_0 seed_1 k st tree (omega arith) fits values in
      let old' = next-HasCorrections k st values tree (omega arith) fits e3 old in
      let rest =
        λ (t : IsTree l.block r.block n alpha seed_0 seed_1 (suc k) mid)
            (c : HasCorrections (suc k) mid).
          generate_levels-IsTree left (suc k) mid st' (omega arith) fits t c e2 in
      subst (λ j. IsTree l.block r.block n alpha seed_0 seed_1 j st' × HasCorrections j st')
        (omega arith)
        (rest (subst (IsTree l.block r.block n alpha seed_0 seed_1 (suc k)) e4 tree')
          (subst (HasCorrections (suc k)) e4 old'))
