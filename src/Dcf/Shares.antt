-- ===== src/Dcf/Shares.antt =====
-- Distributed comparison functions from end to end (dcf/distributed_comparison_function.h and .cc): an
-- object is created, keys are generated from an object, and both parties evaluate them.
use distributed_point_functi.Base.{
  ℕ, ◌^◌, ◌<◌, ◌≡◌, refl, sym, ap, ◌∙◌, subst, List, [], ◌∷◌, ok, ltb, some, if◌then◌else◌,
  >>=-eq-ok, ok-injective, guard, length, ◌==◌, not, leb, ◌&&◌, get_or, invalid_argument, ◌/◌, ◌-◌,
}
use distributed_point_functi.Aes.{OpenSsl, hash_with}
use distributed_point_functi.Aes.Hash.{IsEcb}
use distributed_point_functi.Proto.{ValueType, Value, value_not_set, DpfKey}
use distributed_point_functi.Values.{ElementType, Element, HasType, default, add, IsSupported}
use distributed_point_functi.Values.Convert.{to_value, to_value_type}
use distributed_point_functi.Security.{Double}
use distributed_point_functi.Validator.Bits.{RoundsUp}
use distributed_point_functi.Validator.Simple.{IsSimple}
use distributed_point_functi.Dpf.{
  Dpf, find_function, last_log_domain_size, compute_value_correction,
}
use distributed_point_functi.Dpf.Generate.{
  generate_keys_incremental, validate_betas, value_types, generate_levels, initial_state,
}
use distributed_point_functi.Dpf.Create.{register_value_type}
use distributed_point_functi.Dpf.Objects.{object_to_value}
use distributed_point_functi.Dcf.{
  Dcf, DcfKey, DcfParameters, create_dcf, dpf_values, generate_keys, generate_keys_from_object,
  evaluate_key,
}
use distributed_point_functi.Dcf.Zero.{IsXorFree}
use distributed_point_functi.Dcf.Levels.{IsDcf, generate_keys_incremental-LevelsShared}
use distributed_point_functi.Dcf.Compare.{evaluate_key-compares}
use distributed_point_functi.Dcf.Create.{registered-IsDcf, kept}
use distributed_point_functi.Dpf.Registered.{finds_registered}

-- Both keys evaluate at x, to shares of b if x is below alpha, and of zero otherwise.
abbrev pub Compares : Dcf → ElementType → ℕ → Element → DcfKey → DcfKey → ℕ → Type 0
Compares d t alpha b key_0 key_1 x =
    (out_0 out_1 : Element) × (evaluate_key d t key_0 x ≡ ok out_0)
    × (evaluate_key d t key_1 x ≡ ok out_1)
    × HasType t out_0
    × HasType t out_1
    × (add t out_0 out_1 ≡ (if ltb x alpha then b else default t))

-- The keys, and what they evaluate to.
pub generate_keys-Compares :
    (d : Dcf) (t : ElementType) (n : ℕ)
    → IsDcf d t n
    → (b : Element) → HasType t b
    → (alpha seed_0 seed_1 : ℕ) → alpha < 2 ^ n
    → (key_0 key_1 : DcfKey) × (generate_keys d seed_0 seed_1 alpha (to_value t b)
        ≡ ok (key_0, key_1))
      × ((x : ℕ) → x < 2 ^ n → Compares d t alpha b key_0 key_1 x)
unfolding generate_keys
generate_keys-Compares d t n dcf b typed alpha seed_0 seed_1 below =
    let (k_0, k_1, generated, shared) =
      generate_keys_incremental-LevelsShared d t n dcf b typed alpha seed_0 seed_1 below in
    let key_0 : DcfKey = record { key = k_0 } in
    let key_1 : DcfKey = record { key = k_1 } in
    (
      key_0,
      key_1,
      rw (dcf.bits, generated) refl,
      λ x inside.
          let (out_0, out_1, e_0, e_1, typed_0, typed_1, total) =
            evaluate_key-compares d t n dcf b typed alpha x inside key_0 key_1 shared below in
          (out_0, out_1, e_0, e_1, typed_0, typed_1, total),
    )

generate_keys_incremental-party :
    (d : Dpf) (seed_0 seed_1 alpha : ℕ) (beta : List Value) (keys : DpfKey × DpfKey)
    → generate_keys_incremental d seed_0 seed_1 alpha beta ≡ ok keys
    → (keys.0.party ≡ 0) × (keys.1.party ≡ 1)
unfolding generate_keys_incremental
generate_keys_incremental-party d seed_0 seed_1 alpha beta keys e =
    let (_, _, e1) = >>=-eq-ok (guard (length beta == length d.parameters) invalid_argument) _ e in
    let (_, _, e2) = >>=-eq-ok (validate_betas (value_types d) beta) _ e1 in
    let (_, _, e3) =
      >>=-eq-ok
        (guard (not (ltb (last_log_domain_size d) 128 && leb (2 ^ last_log_domain_size d) alpha))
          invalid_argument)
        _ e2 in
    let (st, _, e4) =
      >>=-eq-ok
        (generate_levels d (d.tree_levels_needed - 1) 1 alpha beta (initial_state seed_0 seed_1)) _
        e3 in
    let (last, _, e5) =
      >>=-eq-ok
        (compute_value_correction d (length d.parameters - 1) st.seed_0 st.seed_1 alpha
          (get_or beta (length beta - 1) value_not_set) st.control_1)
        _ e4 in
    let same = ok-injective e5 in
    (sym (ap (λ ks. ks.0.party) same), sym (ap (λ ks. ks.1.party) same))

-- The party of each key.
pub generate_keys-party :
    (d : Dcf) (seed_0 seed_1 alpha : ℕ) (v : Value) (key_0 key_1 : DcfKey)
    → generate_keys d seed_0 seed_1 alpha v ≡ ok (key_0, key_1)
    → (key_0.key.party ≡ 0) × (key_1.key.party ≡ 1)
unfolding generate_keys
generate_keys-party d seed_0 seed_1 alpha v key_0 key_1 e =
    let (keys, generated, e') =
      >>=-eq-ok
        (generate_keys_incremental d.dpf seed_0 seed_1 (alpha / 2)
          (dpf_values d.log_domain_size alpha v d.log_domain_size 0))
        _ e in
    let (p_0, p_1) =
      generate_keys_incremental-party d.dpf seed_0 seed_1 (alpha / 2) _ keys generated in
    let same = ok-injective e' in
    (sym (ap (λ ks. ks.0.key.party) same) ∙ p_0, sym (ap (λ ks. ks.1.key.party) same) ∙ p_1)

module _ {ℓ} {W : Type ℓ} ⦃double : Double W⦄ (openssl : OpenSsl) (serialize : ValueType → List ℕ)
    (p : DcfParameters W) (t : ElementType) (d : Dcf) where
  -- The object after the call.
  abbrev pub after_call : Dcf
  after_call = record { log_domain_size = d.log_domain_size; dpf = register_value_type t d.dpf }

  finds_type :
      d.dpf.serialize ≡ serialize
      → find_function
          (serialize (to_value_type t))
          (register_value_type t d.dpf).value_correction_functions
        ≡ some t
  unfolding register_value_type
  finds_type e =
      subst
        (λ s.
          find_function (s (to_value_type t))
            (register_value_type t d.dpf).value_correction_functions
          ≡ some t)
        e (finds_registered t d.dpf)

  -- Let OpenSSL encrypt in ECB mode, logarithms of positive ints be rounded up, and the DCF be
  -- created for inputs of fewer than 128 bits and outputs of a supported type t: an integer type, a
  -- tuple of such types of at least one and fewer than 2 ^ 31 bits, or a single IntModN. Then for
  -- any beta in the range of t and any alpha in the domain, `GenerateKeys` returns two keys, and
  -- `Evaluate` returns an object for both of them at any x in the domain. The two objects add up to
  -- beta if x is below alpha, and to zero otherwise.
  pub generate_keys_from_object-shares :
      (cipher : ℕ → ℕ → ℕ) (b : Element) (alpha x seed_0 seed_1 : ℕ)
      → RoundsUp double
      → ((key : ℕ) → IsEcb (hash_with openssl key) (cipher key))
      → create_dcf openssl serialize p ≡ ok d
      → p.parameters.parameters.value_type ≡ some (to_value_type t)
      → p.parameters.parameters.log_domain_size < 128
      → IsXorFree t
      → IsSimple t
      → IsSupported t
      → HasType t b
      → alpha < 2 ^ p.parameters.parameters.log_domain_size
      → x < 2 ^ p.parameters.parameters.log_domain_size
      → (key_0 key_1 : DcfKey) × (out_0 out_1 : Element) × (generate_keys_from_object d seed_0
            seed_1 alpha t b
          ≡ (ok (key_0, key_1), after_call))
        × (evaluate_key after_call t key_0 x ≡ ok out_0)
        × (evaluate_key after_call t key_1 x ≡ ok out_1)
        × (add t out_0 out_1 ≡ (if ltb x alpha then b else default t))
  unfolding generate_keys_from_object object_to_value
  generate_keys_from_object-shares cipher b alpha x seed_0 seed_1 up ecb e has_type small free
        simple supported typed below inside =
      let dcf =
        registered-IsDcf openssl serialize p t free simple supported small up cipher ecb d e
          has_type (t ∷ [])
          (finds_type
            (kept openssl serialize p t free simple supported small up cipher ecb d e has_type
              []).1) in
      let (key_0, key_1, generated, compares) =
        generate_keys-Compares after_call t p.parameters.parameters.log_domain_size dcf b typed
          alpha seed_0 seed_1 below in
      let (out_0, out_1, e_0, e_1, _, _, total) = compares x inside in
      (key_0, key_1, out_0, out_1, ap (λ r. (r, after_call)) generated, e_0, e_1, total)
