-- ===== src/Dpf/Create/Setup.antt =====
-- An object that `CreateIncremental` returns is set up consistently.
use native.Mathlib.Decide.{dec_lt}
use distributed_point_functi.Base.{
  ℕ, zero, suc, ◌+◌, ◌-◌, ◌*◌, ◌^◌, ◌≤◌, ◌<◌, ◌≡◌, sym, ap, ◌∙◌, subst, List, map, ok, length,
  arith, length-map,
}
use distributed_point_functi.Aes.{Aes128FixedKeyHash}
use distributed_point_functi.Proto.{ValueType, type_not_set, get_or_type}
use distributed_point_functi.Values.{ElementType, IsSupported}
use distributed_point_functi.Values.Convert.{to_value_type}
use distributed_point_functi.Values.Bytes.{elements_per_block}
use distributed_point_functi.Values.Bytes.Enough.{bytes_read}
use distributed_point_functi.Security.{Double}
use distributed_point_functi.Validator.Create.{SecuredParameters, ProtoValidator, with_default}
use distributed_point_functi.Validator.Valid.{get_or-map, at_level, nothing_set, IsCreated}
use distributed_point_functi.Validator.Simple.{IsSimple}
use distributed_point_functi.Validator.Bits.{RoundsUp}
use distributed_point_functi.Dpf.{
  Dpf, log_domain_size, last_log_domain_size, value_type, tree_level, blocks,
  get_value_correction_function,
}
use distributed_point_functi.Dpf.Create.{blocks_needed_for}
use distributed_point_functi.Dpf.Correct.Level.{IsLevel, Place, inner, last}
use distributed_point_functi.Dpf.Create.Room.{create_validator-packs, blocks_needed_for-fits}
use distributed_point_functi.Dpf.Total.{IsDpf}

-- What the client has to see to: the type of a level is T, and T is registered.
pub record IsKnown (d : Dpf) (t : ElementType) (h : ℕ) : Type 0 where
  pub simple : IsSimple t
  pub supported : IsSupported t
  pub typed : value_type d h ≡ to_value_type t
  pub registered : get_value_correction_function d h ≡ ok t

module _ {ℓ} {W : Type ℓ} ⦃double : Double W⦄ where
  -- An object with the maps of a validator.
  abbrev pub object_of :
      ProtoValidator W
      → List ℕ
      → (Aes128FixedKeyHash × Aes128FixedKeyHash × Aes128FixedKeyHash)
      → (ValueType → List ℕ)
      → List (List ℕ × ElementType)
      → Dpf
  object_of v blocks_needed prgs serialize functions = record {
    parameters = map (λ p. p.parameters) v.parameters;
    tree_levels_needed = v.tree_levels_needed;
    tree_to_hierarchy = v.tree_to_hierarchy;
    hierarchy_to_tree = v.hierarchy_to_tree;
    blocks_needed = blocks_needed;
    prg_left = prgs.0;
    prg_right = prgs.1;
    prg_value = prgs.2;
    serialize = serialize;
    value_correction_functions = functions;
  }

  module _ (ps : List (SecuredParameters W)) (v : ProtoValidator W) (created : IsCreated ps v)
      (ks : List ℕ) (counted : blocks_needed_for ps ≡ ok ks)
      (prgs : Aes128FixedKeyHash × Aes128FixedKeyHash × Aes128FixedKeyHash)
      (serialize : ValueType → List ℕ) (functions : List (List ℕ × ElementType))
      (up : RoundsUp double) where
    abbrev d : Dpf
    d = object_of v ks prgs serialize functions

    size_validated : length v.parameters ≡ length ps
    size_validated = ap length created.defaults ∙ length-map ps with_default

    size_object : length d.parameters ≡ length ps
    size_object = length-map v.parameters (λ p. p.parameters) ∙ size_validated

    log_at :
        (h : ℕ)
        → h < length ps
        → log_domain_size d h ≡ (at_level v.parameters h).parameters.log_domain_size
    log_at h below =
        get_or-map (λ p. p.log_domain_size) (map (λ p. p.parameters) v.parameters) h
          (nothing_set {W = W}).parameters 0 (omega (arith, size_object))
        ∙ ap (λ p. p.log_domain_size)
            (get_or-map (λ p. p.parameters) v.parameters h (nothing_set {W = W})
              (nothing_set {W = W}).parameters (omega (arith, size_validated)))

    ascends_to :
        (k h : ℕ)
        → h + k < length ps
        → (at_level v.parameters h).parameters.log_domain_size
          ≤ (at_level v.parameters (h + k)).parameters.log_domain_size
    ascends_to zero h below =
        subst
          (λ j.
            (at_level v.parameters h).parameters.log_domain_size
            ≤ (at_level v.parameters j).parameters.log_domain_size)
          {x = h} {y = h + 0} (omega arith) (omega arith)
    ascends_to (suc k) h below =
        subst
          (λ j.
            (at_level v.parameters h).parameters.log_domain_size
            ≤ (at_level v.parameters j).parameters.log_domain_size)
          {x = suc (h + k)} {y = h + suc k} (omega arith)
          (omega (arith, ascends_to k h (omega arith), created.ascending (h + k) (omega arith)))

    type_at :
        (h : ℕ)
        → h < length ps
        → value_type d h ≡ get_or_type (at_level v.parameters h).parameters.value_type
    type_at h below =
        get_or-map (λ p. get_or_type p.value_type) (map (λ p. p.parameters) v.parameters) h
          (nothing_set {W = W}).parameters type_not_set (omega (arith, size_object))
        ∙ ap (λ p. get_or_type p.value_type)
            (get_or-map (λ p. p.parameters) v.parameters h (nothing_set {W = W})
              (nothing_set {W = W}).parameters (omega (arith, size_validated)))

    type_passed :
        (h : ℕ) → h < length ps → value_type d h ≡ get_or_type (at_level ps h).parameters.value_type
    unfolding with_default
    type_passed h below =
        type_at h below
        ∙ ap (λ all. get_or_type (at_level all h).parameters.value_type) created.defaults
        ∙ ap (λ p. get_or_type p.parameters.value_type)
            (get_or-map with_default ps h (nothing_set {W = W}) (nothing_set {W = W}) below)

    module _ (t : ElementType) (h : ℕ) (below : h < length ps) (known : IsKnown d t h) where
      block_room : 2 ^ (log_domain_size d h - tree_level d h) ≤ elements_per_block t
      block_room =
          subst (λ n. 2 ^ (n - tree_level d h) ≤ elements_per_block t) (sym (log_at h below))
            (create_validator-packs t known.simple up ps v created h below
              (sym (type_at h below) ∙ known.typed))

      block_bytes : bytes_read t ≤ 16 * blocks d h
      block_bytes =
          blocks_needed_for-fits t known.simple ps ks h counted below
            (sym (type_passed h below) ∙ known.typed)

      place : Place d h
      place = elim (dec_lt (suc h) (length ps)) [
        | yes before ↦
            inner (omega (arith, size_object)) (omega (arith, created.built.inner_level h before))
              (created.built.found h below)
        | no here ↦
            last (omega (arith, size_object))
              (omega (arith, created.built.last_level h (omega arith)))
      ]

      last_log :
          last_log_domain_size d
          ≡ (at_level v.parameters (length ps - 1)).parameters.log_domain_size
      last_log =
          ap (log_domain_size d) {x = length d.parameters - 1} {y = length ps - 1}
            (omega (arith, size_object))
          ∙ log_at (length ps - 1) (omega arith)

      level-IsLevel : IsLevel d t h
      level-IsLevel = record {
        supported = known.supported;
        registered = known.registered;
        place = place;
        level_fits = omega (arith, log_at h below, created.built.level_fits h below);
        domain_fits = omega (
          arith,
          log_at h below,
          last_log,
          subst
              (λ j.
                (at_level v.parameters h).parameters.log_domain_size
                ≤ (at_level v.parameters j).parameters.log_domain_size)
              {x = h + (length ps - 1 - h)} {y = length ps - 1} (omega arith)
              (ascends_to (length ps - 1 - h) h (omega arith)),
        );
        bounded = omega (arith, last_log, created.bounded (length ps - 1) (omega arith));
        tree_fits = omega (
          arith,
          last_log,
          created.built.last_level (length ps - 1) (omega arith),
          created.built.level_fits (length ps - 1) (omega arith),
        );
        block_fits = block_room;
      }

    pub object-IsDpf :
        (types : ℕ → ElementType)
        → ((h : ℕ) → h < length ps → IsKnown d (types h) h)
        → IsDpf d types
    object-IsDpf types known = record {
      some_level = omega (arith, size_object, created.some_level);
      same_size = created.built.size ∙ sym size_object;
      maps_back = λ level h e. omega (arith, size_object, created.built.maps_back level h e);
      levels = λ h below.
          level-IsLevel (types h) h (omega (arith, size_object))
            (known h (omega (arith, size_object)));
      enough_blocks = λ h below.
          block_bytes (types h) h (omega (arith, size_object))
            (known h (omega (arith, size_object)));
    }
