-- ===== src/Validator/Valid.antt =====
-- What `ValidateParameters` and `Create` guarantee.
use distributed_point_functi.Base.{
  ℕ, zero, suc, ◌≤◌, ◌<◌, ◌≡◌, refl, ap, subst, true, List, [], ◌∷◌, map, Option, none, some, ok,
  invalid_argument, guard, ltb, leb, not, length, get_or, arith, >>=-eq-ok, ok-injective,
  lt_of_guard, le_of_guard, some-injective, guard-true, length-map,
}
use distributed_point_functi.Security.{Double}
use distributed_point_functi.Validator.{is_empty}
use distributed_point_functi.Validator.Create.{
  SecuredParameters, ProtoValidator, validate_one, validate_each, validate_parameters, with_default,
  build_levels, create_validator, no_levels,
}
use distributed_point_functi.Validator.Setup.{IsBuilt, build_levels_lem}

pub get_or-map {ℓ κ} :
    {A : Type ℓ} {B : Type κ} (f : A → B) (xs : List A) (h : ℕ) (d : A) (e : B)
    → h < length xs
    → get_or (map f xs) h e ≡ f (get_or xs h d)
get_or-map f [] h d e below = absurd (omega arith)
get_or-map f (x ∷ xs) zero d e below = refl
get_or-map f (x ∷ xs) (suc h) d e below = get_or-map f xs h d e (omega arith)

module _ {ℓ} {W : Type ℓ} ⦃double : Double W⦄ where
  abbrev pub nothing_set : SecuredParameters W
  nothing_set = record {
    parameters = record { log_domain_size = 0; value_type = none };
    security_parameter = double.of_int 0;
  }

  abbrev pub at_level : List (SecuredParameters W) → ℕ → SecuredParameters W
  at_level ps h = get_or ps h nothing_set

  validate_one-bounds :
      (previous : Option ℕ) (p : SecuredParameters W)
      → validate_one previous p ≡ ok tt
      → (p.parameters.log_domain_size ≤ 128)
        × ((size : ℕ) → previous ≡ some size → size < p.parameters.log_domain_size)
  unfolding validate_one
  validate_one-bounds none p e =
      let (_, small, _) =
        >>=-eq-ok (guard (leb p.parameters.log_domain_size 128) invalid_argument) _ e in
      (le_of_guard p.parameters.log_domain_size 128 invalid_argument small, λ size s. cc)
  validate_one-bounds (some size) p e =
      let (_, small, e1) =
        >>=-eq-ok (guard (leb p.parameters.log_domain_size 128) invalid_argument) _ e in
      let (_, above, _) =
        >>=-eq-ok (guard (ltb size p.parameters.log_domain_size) invalid_argument) _ e1 in
      (
        le_of_guard p.parameters.log_domain_size 128 invalid_argument small,
        λ size' s.
            subst (λ k. k < p.parameters.log_domain_size) (some-injective s)
              (lt_of_guard size p.parameters.log_domain_size invalid_argument above),
      )

  validate_each-bounded :
      (previous : Option ℕ) (ps : List (SecuredParameters W)) (h : ℕ)
      → validate_each previous ps ≡ ok tt
      → h < length ps
      → (at_level ps h).parameters.log_domain_size ≤ 128
  unfolding validate_each
  validate_each-bounded previous [] h e below = absurd (omega arith)
  validate_each-bounded previous (p ∷ ps) zero e below =
      let (_, e1, e2) = >>=-eq-ok (validate_one previous p) _ e in
      (validate_one-bounds previous p e1).0
  validate_each-bounded previous (p ∷ ps) (suc h) e below =
      let (_, e1, e2) = >>=-eq-ok (validate_one previous p) _ e in
      validate_each-bounded (some p.parameters.log_domain_size) ps h e2 (omega arith)

  validate_each-ascending :
      (previous : Option ℕ) (ps : List (SecuredParameters W)) (h : ℕ)
      → validate_each previous ps ≡ ok tt
      → suc h < length ps
      → (at_level ps h).parameters.log_domain_size
        < (at_level ps (suc h)).parameters.log_domain_size
  unfolding validate_each
  validate_each-ascending previous [] h e below = absurd (omega arith)
  validate_each-ascending previous (p ∷ []) h e below = absurd (omega arith)
  validate_each-ascending previous (p ∷ q ∷ ps) zero e below =
      let (_, e1, e2) = >>=-eq-ok (validate_one previous p) _ e in
      let (_, e3, e4) = >>=-eq-ok (validate_one (some p.parameters.log_domain_size) q) _ e2 in
      (validate_one-bounds (some p.parameters.log_domain_size) q e3).1 _ refl
  validate_each-ascending previous (p ∷ q ∷ ps) (suc h) e below =
      let (_, e1, e2) = >>=-eq-ok (validate_one previous p) _ e in
      validate_each-ascending (some p.parameters.log_domain_size) (q ∷ ps) h e2 (omega arith)

  -- A ProtoValidator that was created from the parameters.
  pub record IsCreated (ps : List (SecuredParameters W)) (v : ProtoValidator W) : Type ℓ where
    pub some_level : 0 < length ps
    pub defaults : v.parameters ≡ map with_default ps
    pub bounded :
        (h : ℕ) → h < length ps → (at_level v.parameters h).parameters.log_domain_size ≤ 128
    pub ascending :
        (h : ℕ)
        → suc h < length ps
        → (at_level v.parameters h).parameters.log_domain_size
          < (at_level v.parameters (suc h)).parameters.log_domain_size
    pub built : IsBuilt (at_level v.parameters) (length ps) (record {
      tree_levels_needed = v.tree_levels_needed;
      tree_to_hierarchy = v.tree_to_hierarchy;
      hierarchy_to_tree = v.hierarchy_to_tree;
    })

  same_size :
      (ps : List (SecuredParameters W)) (h : ℕ)
      → h < length ps
      → (at_level (map with_default ps) h).parameters.log_domain_size
        ≡ (at_level ps h).parameters.log_domain_size
  unfolding with_default
  same_size ps h below =
      ap (λ p. p.parameters.log_domain_size)
        (get_or-map with_default ps h nothing_set nothing_set below)

  not_empty : (ps : List (SecuredParameters W)) → not (is_empty ps) ≡ true → 0 < length ps
  not_empty [] e = absurd (ground arith)
  not_empty (p ∷ ps) e = omega arith

  pub create_validator-IsCreated :
      (ps : List (SecuredParameters W)) (v : ProtoValidator W)
      → create_validator ps ≡ ok v
      → IsCreated ps v
  unfolding create_validator validate_parameters
  create_validator-IsCreated ps v e =
      let (_, valid, e1) = >>=-eq-ok (validate_parameters ps) _ e in
      let (_, some_level, each) = >>=-eq-ok (guard (not (is_empty ps)) invalid_argument) _ valid in
      let (levels, e2, e3) = >>=-eq-ok (build_levels 0 (map with_default ps) no_levels) _ e1 in
      subst (IsCreated ps) (ok-injective e3) (record {
        some_level = not_empty ps (guard-true (not (is_empty ps)) _ some_level);
        defaults = refl;
        bounded = λ h below. rw (same_size ps h below) (validate_each-bounded none ps h each below);
        ascending = ascends each;
        built =
            subst (λ n. IsBuilt (at_level (map with_default ps)) n levels)
              (length-map ps with_default)
              (build_levels_lem (at_level (map with_default ps)) (map with_default ps) levels
                nothing_set (λ h inside. ascends each h (omega (arith, length-map ps with_default)))
                (λ j inside. refl) e2);
      })
    where
      ascends :
          validate_each none ps ≡ ok tt
          → (h : ℕ) → suc h < length ps
          → (at_level (map with_default ps) h).parameters.log_domain_size
            < (at_level (map with_default ps) (suc h)).parameters.log_domain_size
      ascends each h below =
          rw (same_size ps h (omega arith), same_size ps (suc h) below)
            (validate_each-ascending none ps h each below)
