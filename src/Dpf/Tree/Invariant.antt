-- ===== src/Dpf/Tree/Invariant.antt =====
-- The loop of key generation keeps the invariant of the incremental DPF: at every depth, the
-- parties' nodes on alpha's path have different control bits, and are equal off the path.
use mathlib.Core.List.{map-append}
use distributed_point_functi.Base.{
  ℕ, zero, suc, ◌-◌, ◌/◌, ◌%◌, ◌^◌, ◌≤◌, ◌<◌, ◌≡◌, ◌≢◌, refl, sym, ap, ap₂, ◌∙◌, subst, Bool, true,
  false, xor, not, List, [], ◌∷◌, ◌++◌, map, ◌==◌, length, take, arith, test_bit, take-append_le,
  take_all, length-append, length-map,
}
use native.Mathlib.Decide.{ℕ_discrete, dec_le}
use native.Mathlib.Nat.{pow-suc, div-eq_of_lt, div-div-eq-div-mul}
use distributed_point_functi.Proto.{CorrectionWord, Value}
use distributed_point_functi.EvaluatePrg.{Lane, path_bit}
use distributed_point_functi.EvaluatePrg.Walk.{child, walk, walk-snoc}
use distributed_point_functi.Dpf.{parse}
use distributed_point_functi.Dpf.Generate.{State, initial_state}
use distributed_point_functi.Dpf.Tree.Step.{
  lane_0, lane_1, after, correction, child-keep_0, child-keep_1, word, parse-word, words_0-after,
  words_1-after, after-differ, child-lose,
}

path_bit-zero : (p : ℕ) → path_bit 0 p ≡ (p % 2 == 1)
unfolding path_bit test_bit
path_bit-zero p = ap (λ t. t % 2 == 1) (omega arith)

odd_ne : (p q : ℕ) → p / 2 ≡ q / 2 → p ≢ q → (p % 2 == 1) ≡ not (q % 2 == 1)
odd_ne p q h ne = ground arith

-- What the invariant speaks of: alpha on n bits, and the two PRGs.
module _ (left right : ℕ → ℕ) (n alpha seed_0 seed_1 : ℕ) where
  abbrev pub root_0 : Lane
  root_0 = record { seed = seed_0; control_bit = false }

  abbrev pub root_1 : Lane
  root_1 = record { seed = seed_1; control_bit = true }

  abbrev pub node_0 : List CorrectionWord → ℕ → Lane
  node_0 ws p = walk left right (map parse ws) p root_0

  abbrev pub node_1 : List CorrectionWord → ℕ → Lane
  node_1 ws p = walk left right (map parse ws) p root_1

  -- The index of alpha's node at a depth.
  abbrev pub alpha_at : ℕ → ℕ
  alpha_at t = alpha / 2 ^ (n - t)

  -- At depth t, along the first t correction words.
  pub record SharesAt (us : List CorrectionWord) (t : ℕ) : Type 0 where
    pub differ :
        xor (node_0 us (alpha_at t)).control_bit (node_1 us (alpha_at t)).control_bit ≡ true
    pub off_path : (p : ℕ) → p < 2 ^ t → p ≢ alpha_at t → node_0 us p ≡ node_1 us p

  pub record IsTree (k : ℕ) (st : State) : Type 0 where
    pub same_words : st.words_0 ≡ st.words_1
    pub size : length st.words_0 ≡ k
    pub on_0 : node_0 st.words_0 (alpha_at k) ≡ lane_0 st
    pub on_1 : node_1 st.words_0 (alpha_at k) ≡ lane_1 st
    pub shares : (t : ℕ) → t ≤ k → SharesAt (take t st.words_0) t

  pub initial-IsTree : alpha < 2 ^ n → IsTree 0 (initial_state seed_0 seed_1)
  unfolding walk
  initial-IsTree h = record {
    same_words = refl;
    size = refl;
    on_0 = refl;
    on_1 = refl;
    shares = root;
  }
    where
      at_root : alpha_at 0 ≡ 0
      at_root = ap (λ t. alpha / 2 ^ t) (omega arith) ∙ div-eq_of_lt h

      root : (t : ℕ) → t ≤ 0 → SharesAt (take t []) t
      root zero l = record {
        differ = refl;
        off_path = λ p below ne. absurd (ne (omega (arith, at_root)));
      }
      root (suc t) l = absurd (omega arith)

  module _ (k : ℕ) (st : State) (tree : IsTree k st) (deeper : k < n) (n_fits : n ≤ 128)
      (values : List Value) where
    abbrev bit : Bool
    bit = alpha_at (suc k) % 2 == 1

    abbrev next : State
    next = after left right st bit values

    half_alpha : alpha_at (suc k) / 2 ≡ alpha_at k
    half_alpha =
        div-div-eq-div-mul alpha (2 ^ (n - suc k)) 2
        ∙ ap (λ t. alpha / t) (sym (pow-suc 2 (n - suc k)))
        ∙ ap (λ t. alpha / 2 ^ t) (omega arith)

    walk-next :
        (root : Lane) (p : ℕ)
        → walk left right (map parse next.words_0) p root
          ≡ child left right
              (correction left right st bit)
              (p % 2 == 1)
              (walk left right (map parse st.words_0) (p / 2) root)
    walk-next root p =
        rw
          (
            words_0-after left right st bit values,
            map-append parse st.words_0 (word left right st bit values ∷ []),
          )
          (walk-snoc left right (map parse st.words_0) (parse (word left right st bit values)) p
              root (omega (arith, length-map st.words_0 parse, tree.size))
            ∙ ap₂
                (λ c b. child left right c b (walk left right (map parse st.words_0) (p / 2) root))
                (parse-word left right st bit values) (path_bit-zero p))

    next_on_0 : node_0 next.words_0 (alpha_at (suc k)) ≡ lane_0 next
    next_on_0 =
        rw (walk-next root_0 (alpha_at (suc k)), half_alpha, tree.on_0)
          (child-keep_0 left right st bit values)

    next_on_1 : node_1 next.words_0 (alpha_at (suc k)) ≡ lane_1 next
    next_on_1 =
        rw (walk-next root_1 (alpha_at (suc k)), half_alpha, tree.on_1)
          (child-keep_1 left right st bit values)

    current : SharesAt st.words_0 k
    current =
        subst (λ us. SharesAt us k) (take_all k st.words_0 (omega (arith, tree.size)))
          (tree.shares k (omega arith))

    st_differs : xor st.control_0 st.control_1 ≡ true
    st_differs =
        ap₂ (λ a b. xor a.control_bit b.control_bit) (sym tree.on_0) (sym tree.on_1)
        ∙ current.differ

    -- A sibling of alpha's node, and a child of a node off the path.
    next_off_path :
        (p : ℕ)
        → p < 2 ^ suc k
        → p ≢ alpha_at (suc k)
        → node_0 next.words_0 p ≡ node_1 next.words_0 p
    next_off_path p below ne =
        rw (walk-next root_0 p, walk-next root_1 p)
          (elim (ℕ_discrete (p / 2) (alpha_at k)) [
            | yes e ↦
                rw (odd_ne p (alpha_at (suc k)) (e ∙ sym half_alpha) ne, e, tree.on_0, tree.on_1)
                  (child-lose left right st bit st_differs)
            | no off ↦
                ap (child left right (correction left right st bit) (p % 2 == 1))
                  (current.off_path (p / 2) (omega (arith, pow-suc 2 k)) off)
          ])

    next_shares : SharesAt next.words_0 (suc k)
    next_shares = record {
      differ = rw (next_on_0, next_on_1) (after-differ left right st bit values st_differs);
      off_path = next_off_path;
    }

    next_size : length next.words_0 ≡ suc k
    next_size =
        rw
          (
            words_0-after left right st bit values,
            length-append st.words_0 (word left right st bit values ∷ []),
          )
          (omega (arith, tree.size))

    pub take-next : (t : ℕ) → t ≤ k → take t next.words_0 ≡ take t st.words_0
    take-next t l = rw (words_0-after left right st bit values) (
        take-append_le t st.words_0 (word left right st bit values ∷ []) (omega (arith, tree.size)))

    pub next-IsTree : IsTree (suc k) next
    next-IsTree = record {
      same_words =
          words_0-after left right st bit values
          ∙ ap (λ ws. ws ++ word left right st bit values ∷ []) tree.same_words
          ∙ sym (words_1-after left right st bit values);
      size = next_size;
      on_0 = next_on_0;
      on_1 = next_on_1;
      shares = λ t l. elim (dec_le t k) [
        | yes above ↦ subst (λ us. SharesAt us t) (sym (take-next t above)) (tree.shares t above)
        | no below ↦
            subst (λ s. SharesAt (take s next.words_0) s) (omega arith)
              (subst (λ us. SharesAt us (suc k))
                (sym (take_all (suc k) next.words_0 (omega (arith, next_size)))) next_shares)
      ];
    }
