-- ===== src/Dpf/Create/Shares.antt =====
-- From parameters to shares: an object is created, value types are registered, keys are generated,
-- and both parties evaluate them.
use mathlib.Core.List.{map-map}
use distributed_point_functi.Base.{
  ℕ, ◌^◌, ◌<◌, ◌≡◌, refl, sym, ap, ◌∙◌, subst, List, [], ◌∷◌, map, ok, ◌==◌, length, get_or,
  >>=-eq-ok, ok-injective, All, guard, internal,
}
use distributed_point_functi.Aes.{Aes128FixedKeyHash, OpenSsl, hash_with, create_hash}
use distributed_point_functi.Aes.Hash.{IsEcb, ecb-Prg, Prg}
use distributed_point_functi.Proto.{ValueType, Value, value_not_set}
use distributed_point_functi.Values.{ElementType, Element}
use distributed_point_functi.Values.Convert.{from_value}
use distributed_point_functi.Security.{Double}
use distributed_point_functi.Validator.Create.{
  SecuredParameters, ProtoValidator, create_validator, with_default,
}
use distributed_point_functi.Validator.Valid.{IsCreated, create_validator-IsCreated}
use distributed_point_functi.Validator.Bits.{RoundsUp}
use distributed_point_functi.Dpf.{Dpf, log_domain_size, last_log_domain_size}
use distributed_point_functi.Dpf.Create.{
  prg_key_left, prg_key_right, prg_key_value, register_value_type, default_functions,
  blocks_needed_for, create_incremental,
}
use distributed_point_functi.Dpf.Create.Setup.{object_of, IsKnown, object-IsDpf}
use distributed_point_functi.Dpf.Generate.{validate_betas, value_types}
use distributed_point_functi.Dpf.Total.{IsDpf}
use distributed_point_functi.Dpf.Total.Evaluates.{AreShared, evaluate_at-total}

-- `RegisterValueType<T>` for each type T of a list, the last one first.
abbrev pub register_all : List ElementType → Dpf → Dpf
register_all [] d = d
register_all (t ∷ ts) d = register_value_type t (register_all ts d)

abbrev pub with_functions : Dpf → List (List ℕ × ElementType) → Dpf
with_functions d functions = record {
  parameters = d.parameters;
  tree_levels_needed = d.tree_levels_needed;
  tree_to_hierarchy = d.tree_to_hierarchy;
  hierarchy_to_tree = d.hierarchy_to_tree;
  blocks_needed = d.blocks_needed;
  prg_left = d.prg_left;
  prg_right = d.prg_right;
  prg_value = d.prg_value;
  serialize = d.serialize;
  value_correction_functions = functions;
}

-- Registration changes nothing but the map of the functions.
pub register_all-functions :
    (ts : List ElementType) (d : Dpf)
    → (functions : List (List ℕ × ElementType)) × (register_all ts d ≡ with_functions d functions)
unfolding register_value_type
register_all-functions [] d = (d.value_correction_functions, refl)
register_all-functions (t ∷ ts) d =
    let (functions, e) = register_all-functions ts d in (_, ap (register_value_type t) e)

create_hash-hash_with :
    (openssl : OpenSsl) (key : ℕ) {prg : Aes128FixedKeyHash}
    → create_hash openssl key ≡ ok prg
    → hash_with openssl key ≡ prg
unfolding create_hash
create_hash-hash_with openssl key e =
    let (_, _, e1) = >>=-eq-ok (guard openssl.cipher_ctx_new internal) _ e in
    let (_, _, e2) = >>=-eq-ok (guard (openssl.encrypt_init key == 1) internal) _ e1 in
    ok-injective e2

module _ {ℓ} {W : Type ℓ} ⦃double : Double W⦄ (openssl : OpenSsl) (serialize : ValueType → List ℕ)
    (ps : List (SecuredParameters W)) where
  abbrev prgs : Aes128FixedKeyHash × Aes128FixedKeyHash × Aes128FixedKeyHash
  prgs = (
    hash_with openssl prg_key_left,
    hash_with openssl prg_key_right,
    hash_with openssl prg_key_value,
  )

  -- The parts of an object that was created.
  create_incremental-object_of :
      (d : Dpf)
      → create_incremental openssl serialize ps ≡ ok d
      → (v : ProtoValidator W) × (ks : List ℕ) × IsCreated ps v
        × (blocks_needed_for ps ≡ ok ks)
        × (object_of v ks prgs serialize (default_functions serialize) ≡ d)
  unfolding create_incremental
  create_incremental-object_of d e =
      let (v, e1, e2) = >>=-eq-ok (create_validator ps) _ e in
      let (ks, e3, e4) = >>=-eq-ok (blocks_needed_for ps) _ e2 in
      let (left, e5, e6) = >>=-eq-ok (create_hash openssl prg_key_left) _ e4 in
      let (right, e7, e8) = >>=-eq-ok (create_hash openssl prg_key_right) _ e6 in
      let (value, e9, e10) = >>=-eq-ok (create_hash openssl prg_key_value) _ e8 in
      (
        v,
        ks,
        create_validator-IsCreated ps v e1,
        e3,
        ap (λ l. object_of v ks (l, prgs.1, prgs.2) serialize (default_functions serialize))
              (create_hash-hash_with openssl prg_key_left e5)
            ∙ ap (λ r. object_of v ks (left, r, prgs.2) serialize (default_functions serialize))
                (create_hash-hash_with openssl prg_key_right e7)
            ∙ ap (λ x. object_of v ks (left, right, x) serialize (default_functions serialize))
                (create_hash-hash_with openssl prg_key_value e9)
            ∙ ok-injective e10,
      )

  -- The object keeps the parameters, and knows the default types.
  pub create_incremental-kept :
      (d : Dpf)
      → create_incremental openssl serialize ps ≡ ok d
      → (d.parameters ≡ map (λ p. p.parameters) ps)
        × (d.serialize ≡ serialize)
        × (d.value_correction_functions ≡ default_functions serialize)
  unfolding with_default
  create_incremental-kept d e =
      let (v, ks, created, counted, same) = create_incremental-object_of d e in
      (
        sym (ap (λ x. x.parameters) same)
            ∙ ap (map (λ p. p.parameters)) created.defaults
            ∙ map-map (λ p. p.parameters) with_default ps,
        sym (ap (λ x. x.serialize) same),
        sym (ap (λ x. x.value_correction_functions) same),
      )

  -- The PRGs, if OpenSSL encrypts in ECB mode.
  pub create_incremental-prgs :
      (cipher : ℕ → ℕ → ℕ) (d : Dpf)
      → ((key : ℕ) → IsEcb (hash_with openssl key) (cipher key))
      → create_incremental openssl serialize ps ≡ ok d
      → Prg d.prg_left × Prg d.prg_right × Prg d.prg_value
  create_incremental-prgs cipher d ecb e =
      let (v, ks, created, counted, same) = create_incremental-object_of d e in
      let prg = λ (key : ℕ). ecb-Prg (hash_with openssl key) (cipher key) (ecb key) in
      (
        subst Prg (ap (λ x. x.prg_left) same) (prg prg_key_left),
        subst Prg (ap (λ x. x.prg_right) same) (prg prg_key_right),
        subst Prg (ap (λ x. x.prg_value) same) (prg prg_key_value),
      )

  module _ (ts : List ElementType) (types : ℕ → ElementType) where
    -- If `CreateIncremental` succeeds and the value types are registered, the object is set up
    -- consistently.
    pub create_incremental-IsDpf :
        (d : Dpf)
        → RoundsUp double
        → create_incremental openssl serialize ps ≡ ok d
        → ((h : ℕ) → h < length ps → IsKnown (register_all ts d) (types h) h)
        → IsDpf (register_all ts d) types
    create_incremental-IsDpf d up e known =
        let (v, ks, created, counted, same) = create_incremental-object_of d e in
        let (functions, changed) = register_all-functions ts d in
        let whole : object_of v ks prgs serialize functions ≡ register_all ts d =
          ap (λ x. with_functions x functions) same ∙ sym changed in
        subst (λ x. IsDpf x types) whole
          (object-IsDpf ps v created ks counted prgs serialize functions up types
            (λ h below. subst (λ x. IsKnown x (types h) h) (sym whole) (known h below)))

    -- Let OpenSSL encrypt in ECB mode, and logarithms of positive ints be rounded up. If
    -- `CreateIncremental` returns an object, and the value type of each hierarchy level is
    -- supported, is registered afterwards, and is an integer type, an XorWrapper, a tuple of such
    -- types of at least one and fewer than 2 ^ 31 bits, or a single IntModN, then for any beta with
    -- a valid value for each level, readable as `values h`, and any alpha in the domain, key
    -- generation returns two keys, and `EvaluateAt` returns outputs for both of them at any points
    -- in the domain of any level h. They add up to `values h` at alpha without the bits that the
    -- level does not have, and to zero at every other point.
    pub create_incremental-shares :
        (d : Dpf) (cipher : ℕ → ℕ → ℕ) (alpha seed_0 seed_1 : ℕ) (beta : List Value)
        (values : ℕ → Element) (h : ℕ) (points : List ℕ)
        → RoundsUp double
        → ((key : ℕ) → IsEcb (hash_with openssl key) (cipher key))
        → create_incremental openssl serialize ps ≡ ok d
        → ((i : ℕ) → i < length ps → IsKnown (register_all ts d) (types i) i)
        → length beta ≡ length (register_all ts d).parameters
        → validate_betas (value_types (register_all ts d)) beta ≡ ok tt
        → ((i : ℕ)
            → i < length (register_all ts d).parameters
            → from_value (types i) (get_or beta i value_not_set) ≡ ok (values i))
        → alpha < 2 ^ last_log_domain_size (register_all ts d)
        → h < length (register_all ts d).parameters
        → All (λ x. x < 2 ^ log_domain_size (register_all ts d) h) points
        → AreShared (register_all ts d) types alpha seed_0 seed_1 beta (values h) h points
    create_incremental-shares d cipher alpha seed_0 seed_1 beta values h points up ecb e known size
          valid reads below inside all =
        let (v, ks, created, counted, same) = create_incremental-object_of d e in
        let (functions, changed) = register_all-functions ts d in
        let whole : object_of v ks prgs serialize functions ≡ register_all ts d =
          ap (λ x. with_functions x functions) same ∙ sym changed in
        let prg = λ (key : ℕ). ecb-Prg (hash_with openssl key) (cipher key) (ecb key) in
        evaluate_at-total (register_all ts d)
          (subst Prg (ap (λ x. x.prg_left) whole) (prg prg_key_left))
          (subst Prg (ap (λ x. x.prg_right) whole) (prg prg_key_right))
          (subst Prg (ap (λ x. x.prg_value) whole) (prg prg_key_value)) types
          (create_incremental-IsDpf d up e known) alpha seed_0 seed_1 beta values h points size
          valid reads below inside all
