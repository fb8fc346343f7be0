-- ===== src/Dpf/Create/Room.antt =====
-- The room that `ProtoValidator::Create` (dpf/internal/proto_validator.cc) and `CreateIncremental`
-- (dpf/distributed_point_function.cc) make for the values of a hierarchy level.
use native.Mathlib.Nat.{pow-le-pow_right}
use distributed_point_functi.Base.{
  ℕ, zero, suc, ◌+◌, ◌-◌, ◌*◌, ◌/◌, ◌^◌, ◌≤◌, ◌<◌, ◌≡◌, sym, ap, ◌∙◌, subst, List, [], ◌∷◌, ok,
  length, get_or, arith, >>=-eq-ok, ok-injective, add_int, add_int-eq-ok,
}
use distributed_point_functi.Proto.{get_or_type}
use distributed_point_functi.Values.{ElementType}
use distributed_point_functi.Values.Convert.{to_value_type}
use distributed_point_functi.Values.Bytes.{elements_per_block}
use distributed_point_functi.Values.Bytes.Enough.{bytes_read}
use distributed_point_functi.Security.{Double}
use distributed_point_functi.Validator.Create.{
  SecuredParameters, ProtoValidator, bits_of_parameters, create_validator,
}
use distributed_point_functi.Validator.Setup.{spare}
use distributed_point_functi.Validator.Valid.{at_level, IsCreated, create_validator-IsCreated}
use distributed_point_functi.Validator.Types.{bits_needed}
use distributed_point_functi.Validator.Simple.{IsSimple}
use distributed_point_functi.Validator.Bits.{RoundsUp, bits_needed-packs, bits_needed-fits}
use distributed_point_functi.Dpf.Create.{blocks_needed_for}

module _ {ℓ} {W : Type ℓ} ⦃double : Double W⦄ where
  blocks_needed_for-at :
      (ps : List (SecuredParameters W)) (ks : List ℕ) (h : ℕ)
      → blocks_needed_for ps ≡ ok ks
      → h < length ps
      → (b c : ℕ) × (bits_of_parameters (at_level ps h) ≡ ok b)
        × (add_int b 127 ≡ ok c)
        × (get_or ks h 0 ≡ c / 128)
  unfolding blocks_needed_for
  blocks_needed_for-at [] ks h e below = absurd (omega arith)
  blocks_needed_for-at (p ∷ ps) ks zero e below =
      let (b, e1, e2) = >>=-eq-ok (bits_of_parameters p) _ e in
      let (c, e3, e4) = >>=-eq-ok (add_int b 127) _ e2 in
      let (rest, e5, e6) = >>=-eq-ok (blocks_needed_for ps) _ e4 in
      (b, c, e1, e3, ap (λ l. get_or l 0 0) (sym (ok-injective e6)))
  blocks_needed_for-at (p ∷ ps) ks (suc h) e below =
      let (b, e1, e2) = >>=-eq-ok (bits_of_parameters p) _ e in
      let (c, e3, e4) = >>=-eq-ok (add_int b 127) _ e2 in
      let (rest, e5, e6) = >>=-eq-ok (blocks_needed_for ps) _ e4 in
      let (b', c', e7, e8, e9) = blocks_needed_for-at ps rest h e5 (omega arith) in
      (b', c', e7, e8, ap (λ l. get_or l (suc h) 0) (sym (ok-injective e6)) ∙ e9)

  module _ (t : ElementType) (simple : IsSimple t) where
    -- If t is an integer type, an XorWrapper, a tuple of such types of at least one and fewer than
    -- 2 ^ 31 bits, or a single IntModN, and `CreateIncremental` succeeds in computing the blocks
    -- that the values of each hierarchy level need, then those of a level of type t hold all bytes
    -- that the conversion to an array of objects reads.
    pub blocks_needed_for-fits :
        (ps : List (SecuredParameters W)) (ks : List ℕ) (h : ℕ)
        → blocks_needed_for ps ≡ ok ks
        → h < length ps
        → get_or_type (at_level ps h).parameters.value_type ≡ to_value_type t
        → bytes_read t ≤ 16 * get_or ks h 0
    blocks_needed_for-fits ps ks h e below typed =
        let (b, c, bits, padded, counts) = blocks_needed_for-at ps ks h e below in
        let (int, fits) =
          bits_needed-fits t (at_level ps h).security_parameter simple
            (subst (λ u. bits_needed u (at_level ps h).security_parameter ≡ ok b) typed bits) in
        let sum : c ≡ b + 127 = add_int-eq-ok b 127 int (omega arith) padded in
        subst (λ k. bytes_read t ≤ 16 * k) (sym (counts ∙ ap (λ n. n / 128) sum)) fits

    module _ (up : RoundsUp double) (ps : List (SecuredParameters W)) (v : ProtoValidator W) where
      pub create_validator-packs :
          IsCreated ps v
          → (h : ℕ) → h < length ps
          → get_or_type (at_level v.parameters h).parameters.value_type ≡ to_value_type t
          → 2
              ^ ((at_level v.parameters h).parameters.log_domain_size
                  - get_or v.hierarchy_to_tree h 0)
            ≤ elements_per_block t
      create_validator-packs created h below typed =
          let (b, bits, packs) = created.built.level_packs h below in
          let enough = bits_needed-packs t (at_level v.parameters h).security_parameter up simple (
            subst (λ u. bits_needed u (at_level v.parameters h).security_parameter ≡ ok b) typed
              bits) in
          omega (
            arith,
            pow-le-pow_right {n = 2} (omega arith)
                {i = (at_level v.parameters h).parameters.log_domain_size
                  - get_or v.hierarchy_to_tree h 0}
                {j = spare (at_level v.parameters) b} (omega arith),
            enough,
          )

      -- Let logarithms of positive ints be rounded up. If t is an integer type, an XorWrapper, a
      -- tuple of such types of at least one and fewer than 2 ^ 31 bits, or a single IntModN, and
      -- `Create` returns a validator, then the elements of a hierarchy level of type t that share a
      -- node of the level's tree level are at most `ElementsPerBlock`.
      pub create_validator-elements :
          create_validator ps ≡ ok v
          → (h : ℕ) → h < length ps
          → get_or_type (at_level v.parameters h).parameters.value_type ≡ to_value_type t
          → 2
              ^ ((at_level v.parameters h).parameters.log_domain_size
                  - get_or v.hierarchy_to_tree h 0)
            ≤ elements_per_block t
      create_validator-elements e = create_validator-packs (create_validator-IsCreated ps v e)
