-- ===== src/Dpf/Total/Generates.antt =====
-- Key generation returns keys.
use distributed_point_functi.Base.{
  ℕ, zero, suc, ◌-◌, ◌*◌, ◌/◌, ◌^◌, ◌≤◌, ◌<◌, ◌≡◌, refl, ap, ◌∙◌, subst, Bool, true, false, not,
  ◌&&◌, List, [], ◌∷◌, ◌++◌, map, ok, leb, ltb, length, get_or, arith, inl, inr, Option-cases,
  length-map, length-append, eq→==, gt→leb, Succeeds, >>=-Succeeds, >>=-Succeeds_at, guard-Succeeds,
  ok-Succeeds, invalid_argument,
}
use distributed_point_functi.Aes.Hash.{Prg}
use distributed_point_functi.Proto.{Value, value_not_set}
use distributed_point_functi.Values.{ElementType}
use distributed_point_functi.Values.Convert.{from_value}
use distributed_point_functi.Values.Bytes.{bytes_of, bytes_of_blocks}
use distributed_point_functi.Values.Bytes.Enough.{bytes_read, convert_bytes_to_array_of-Succeeds}
use distributed_point_functi.Values.Correction.{compute_value_correction_for}
use distributed_point_functi.Dpf.{
  Dpf, blocks, iota, find, last_log_domain_size, get_value_correction_function,
  compute_value_correction,
}
use distributed_point_functi.Dpf.Generate.{
  State, level_value_correction, generate_next, generate_levels, validate_betas, value_types,
  generate_keys_incremental, initial_state, alpha_prefix,
}
use distributed_point_functi.Dpf.Correct.Block.{elements_of, length-iota, take-hashes, drop-hashes}
use distributed_point_functi.Dpf.Total.{IsDpf}

length-bytes_of : (n x : ℕ) → length (bytes_of n x) ≡ n
unfolding bytes_of
length-bytes_of zero x = refl
length-bytes_of (suc n) x = ap suc (length-bytes_of n (x / 256))

length-bytes_of_blocks : (xs : List ℕ) → length (bytes_of_blocks xs) ≡ 16 * length xs
unfolding bytes_of_blocks
length-bytes_of_blocks [] = refl
length-bytes_of_blocks (x ∷ xs) =
    length-append (bytes_of 16 x) (bytes_of_blocks xs)
    ∙ omega (arith, length-bytes_of 16 x, length-bytes_of_blocks xs)

-- With enough blocks, a seed expands to elements.
pub elements_of-Succeeds :
    (f : ℕ → ℕ) (t : ElementType) (k s : ℕ) → bytes_read t ≤ 16 * k → Succeeds (elements_of f t k s)
elements_of-Succeeds f t k s h =
    convert_bytes_to_array_of-Succeeds t (bytes_of_blocks (map f (iota k 0 s))) (
      omega (
        arith,
        length-bytes_of_blocks (map f (iota k 0 s)),
        length-map (iota k 0 s) f,
        length-iota k 0 s,
      ))

module _ (d : Dpf) (l : Prg d.prg_left) (r : Prg d.prg_right) (v : Prg d.prg_value) where
  compute_value_correction-Succeeds :
      (t : ElementType) (h s0 s1 a : ℕ) (beta : Value) (invert : Bool)
      → get_value_correction_function d h ≡ ok t
      → bytes_read t ≤ 16 * blocks d h
      → Succeeds (from_value t beta)
      → Succeeds (compute_value_correction d h s0 s1 a beta invert)
  unfolding compute_value_correction compute_value_correction_for
  compute_value_correction-Succeeds t h s0 s1 a beta invert registered enough reads =
      let (xs, ea) = elements_of-Succeeds v.block t (blocks d h) s0 enough in
      let (ys, eb) = elements_of-Succeeds v.block t (blocks d h) s1 enough in
      >>=-Succeeds_at _ (v.evaluates (iota (blocks d h) 0 s0 ++ iota (blocks d h) 0 s1)) (
        >>=-Succeeds_at _ registered (
          >>=-Succeeds reads (λ _ _.
            rw
              (
                take-hashes v.block (blocks d h) s0 (iota (blocks d h) 0 s1),
                drop-hashes v.block (blocks d h) s0 (iota (blocks d h) 0 s1),
              )
              (>>=-Succeeds_at _ ea (>>=-Succeeds_at _ eb (ok-Succeeds _))))))

  module _ (types : ℕ → ElementType) (setup : IsDpf d types) (alpha : ℕ) (beta : List Value)
      (reads : (h : ℕ)
        → h < length d.parameters
        → Succeeds (from_value (types h) (get_or beta h value_not_set))) where
    level_value_correction-Succeeds :
        (level : ℕ) (st : State) → Succeeds (level_value_correction d level alpha beta st)
    unfolding level_value_correction
    level_value_correction-Succeeds level st =
        elim (Option-cases (find (level - 1) d.tree_to_hierarchy)) [
          | inl missing ↦ rw (missing, level_value_correction) (ok-Succeeds [])
          | inr (h, found) ↦
              let inside = setup.maps_back (level - 1) h found in
              rw (found, level_value_correction)
                (compute_value_correction-Succeeds (types h) h st.seed_0 st.seed_1
                  (alpha_prefix d h alpha) (get_or beta h value_not_set) st.control_1
                  (setup.levels h inside).registered (setup.enough_blocks h inside)
                  (reads h inside))
        ]

    generate_next-Succeeds :
        (level : ℕ) (st : State) → Succeeds (generate_next d level alpha beta st)
    unfolding generate_next
    generate_next-Succeeds level st =
        >>=-Succeeds (level_value_correction-Succeeds level st) (λ _ _.
          >>=-Succeeds_at _ (l.evaluates (st.seed_0 ∷ st.seed_1 ∷ []))
            (>>=-Succeeds_at _ (r.evaluates (st.seed_0 ∷ st.seed_1 ∷ [])) (ok-Succeeds _)))

    generate_levels-Succeeds :
        (left level : ℕ) (st : State) → Succeeds (generate_levels d left level alpha beta st)
    unfolding generate_levels
    generate_levels-Succeeds zero level st = ok-Succeeds st
    generate_levels-Succeeds (suc left) level st =
        >>=-Succeeds (generate_next-Succeeds level st)
          (λ st' _. generate_levels-Succeeds left (suc level) st')

    in_domain-true : (n : ℕ) → alpha < 2 ^ n → not (ltb n 128 && leb (2 ^ n) alpha) ≡ true
    in_domain-true n h = rw (gt→leb (2 ^ n) alpha h) (nothing (ltb n 128))
      where
        nothing : (b : Bool) → not (b && false) ≡ true
        nothing true = refl
        nothing false = refl

    -- `GenerateKeysIncremental` returns keys.
    pub generate_keys_incremental-Succeeds :
        (seed_0 seed_1 : ℕ)
        → length beta ≡ length d.parameters
        → validate_betas (value_types d) beta ≡ ok tt
        → alpha < 2 ^ last_log_domain_size d
        → Succeeds (generate_keys_incremental d seed_0 seed_1 alpha beta)
    unfolding generate_keys_incremental
    generate_keys_incremental-Succeeds seed_0 seed_1 size valid below =
        let final : length d.parameters - 1 < length d.parameters =
          omega (arith, setup.some_level) in
        >>=-Succeeds (guard-Succeeds invalid_argument (eq→== _ _ size)) (λ _ _.
          >>=-Succeeds_at _ valid (
            >>=-Succeeds
              (guard-Succeeds invalid_argument (in_domain-true (last_log_domain_size d) below))
              (λ _ _.
                >>=-Succeeds
                  (generate_levels-Succeeds (d.tree_levels_needed - 1) 1
                    (initial_state seed_0 seed_1))
                  (λ st _.
                    >>=-Succeeds
                      (compute_value_correction-Succeeds (types (length d.parameters - 1))
                        (length d.parameters - 1) st.seed_0 st.seed_1 alpha
                        (get_or beta (length beta - 1) value_not_set) st.control_1
                        (setup.levels (length d.parameters - 1) final).registered
                        (setup.enough_blocks (length d.parameters - 1) final)
                        (subst
                          (λ i. Succeeds (
                            from_value (types (length d.parameters - 1))
                              (get_or beta i value_not_set)))
                          {x = length d.parameters - 1} {y = length beta - 1} (omega (arith, size))
                          (reads (length d.parameters - 1) final)))
                      (λ _ _. ok-Succeeds _)))))
