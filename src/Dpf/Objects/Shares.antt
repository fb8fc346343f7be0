-- ===== src/Dpf/Objects/Shares.antt =====
-- Keys from C++ objects (dpf/distributed_point_function.h), on an object that was created: a call
-- registers the types that it needs, and both parties' outputs are shares.
use distributed_point_functi.Base.{
  ℕ, zero, suc, ◌-◌, ◌/◌, ◌^◌, ◌<◌, ◌≡◌, refl, sym, ap, ◌∙◌, subst, List, [], ◌∷◌, ◌++◌, map, ok,
  length, get_or, ◌==◌, if◌then◌else◌, All, arith, length-map,
}
use distributed_point_functi.Aes.{OpenSsl, hash_with}
use distributed_point_functi.Aes.Hash.{IsEcb}
use distributed_point_functi.Proto.{Value, ValueType, DpfKey, value_not_set, type_not_set}
use distributed_point_functi.Values.{ElementType, Element, IsSupported, default}
use distributed_point_functi.Values.Convert.{to_value, to_value_type, from_value}
use distributed_point_functi.Values.Convert.RoundTrip.{from_value-round_trip}
use distributed_point_functi.Values.Convert.Injective.{HasType-IsSupported}
use distributed_point_functi.Security.{Double}
use distributed_point_functi.Validator.Simple.{IsSimple}
use distributed_point_functi.Validator.Accepts.{to_value-validated}
use distributed_point_functi.Validator.Bits.{RoundsUp}
use distributed_point_functi.Validator.Create.{SecuredParameters}
use distributed_point_functi.Dpf.{Dpf, log_domain_size, last_log_domain_size, value_type}
use distributed_point_functi.Dpf.Registered.{
  FoundFor, function_of, finds_registered, register_value_type-keeps,
}
use distributed_point_functi.Dpf.Generate.{generate_keys_incremental, validate_betas, value_types}
use distributed_point_functi.Dpf.Evaluate.{evaluate_at}
use distributed_point_functi.Dpf.Correct.Points.{sums}
use distributed_point_functi.Dpf.Total.Evaluates.{AreShared}
use distributed_point_functi.Dpf.Create.{register_value_type, create_incremental}
use distributed_point_functi.Dpf.Create.Setup.{IsKnown}
use distributed_point_functi.Dpf.Create.Shares.{
  register_all, register_all-functions, create_incremental-kept, create_incremental-shares,
}
use distributed_point_functi.Dpf.Objects.{
  convert_betas, generate_keys_of_objects, type_at, object_at, Typed,
}

register_all-append :
    (ts us : List ElementType) (d : Dpf)
    → register_all ts (register_all us d) ≡ register_all (ts ++ us) d
register_all-append [] us d = refl
register_all-append (t ∷ ts) us d = ap (register_value_type t) (register_all-append ts us d)

convert_betas-register_all :
    (betas : List (ElementType × Element)) (d : Dpf)
    → (ts : List ElementType) × ((convert_betas betas d).1 ≡ register_all ts d)
unfolding convert_betas
convert_betas-register_all [] d = ([], refl)
convert_betas-register_all ((t, x) ∷ betas) d =
    let (ts, e) = convert_betas-register_all betas (register_value_type t d) in
    (ts ++ t ∷ [], e ∙ register_all-append ts (t ∷ []) d)

convert_betas-map :
    (betas : List (ElementType × Element)) (d : Dpf)
    → (convert_betas betas d).0 ≡ map (λ b. to_value b.0 b.1) betas
unfolding convert_betas
convert_betas-map [] d = refl
convert_betas-map ((t, x) ∷ betas) d =
    ap (◌∷◌ (to_value t x)) (convert_betas-map betas (register_value_type t d))

validate_betas-objects :
    (betas : List (ElementType × Element))
    → All Typed betas
    → validate_betas (map (λ b. to_value_type b.0) betas) (map (λ b. to_value b.0 b.1) betas)
      ≡ ok tt
unfolding validate_betas
validate_betas-objects [] all = refl
validate_betas-objects ((t, x) ∷ betas) all =
    rw (to_value-validated all.0) (validate_betas-objects betas all.1)

from_value-object :
    (betas : List (ElementType × Element)) (i : ℕ)
    → All Typed betas
    → i < length betas
    → from_value (type_at betas i) (get_or (map (λ b. to_value b.0 b.1) betas) i value_not_set)
      ≡ ok (object_at betas i)
from_value-object [] i all h = absurd (omega arith)
from_value-object ((t, x) ∷ betas) zero all h = from_value-round_trip all.0
from_value-object ((t, x) ∷ betas) (suc i) all h = from_value-object betas i all.1 (omega arith)

-- What is registered stays registered, as long as the other types have other serializations.
abbrev Apart : (ValueType → List ℕ) → List (ElementType × Element) → ElementType → Type 0
Apart serialize betas t =
    (j : ℕ)
    → j < length betas
    → serialize (to_value_type (type_at betas j)) ≡ serialize (to_value_type t)
    → to_value_type (type_at betas j) ≡ to_value_type t

convert_betas-keeps :
    (betas : List (ElementType × Element)) (t : ElementType) (d : Dpf)
    → Apart d.serialize betas t
    → FoundFor d t
    → FoundFor (convert_betas betas d).1 t
unfolding convert_betas register_value_type
convert_betas-keeps [] t d apart found = found
convert_betas-keeps ((u, x) ∷ betas) t d apart found =
    convert_betas-keeps betas t (register_value_type u d) (λ j h. apart (suc j) (omega arith))
      (register_value_type-keeps u t d (apart 0 (omega arith)) found)

-- The call registers the type of each level.
convert_betas-finds :
    (betas : List (ElementType × Element)) (i : ℕ) (d : Dpf)
    → i < length betas
    → Apart d.serialize betas (type_at betas i)
    → FoundFor (convert_betas betas d).1 (type_at betas i)
unfolding convert_betas register_value_type
convert_betas-finds [] i d h apart = absurd (omega arith)
convert_betas-finds ((u, x) ∷ betas) zero d h apart =
    convert_betas-keeps betas u (register_value_type u d) (λ j k. apart (suc j) (omega arith))
      (finds_registered u d)
convert_betas-finds ((u, x) ∷ betas) (suc i) d h apart =
    convert_betas-finds betas i (register_value_type u d) (omega arith)
      (λ j k. apart (suc j) (omega arith))

convert_betas-serialize :
    (betas : List (ElementType × Element)) (d : Dpf)
    → (convert_betas betas d).1.serialize ≡ d.serialize
unfolding convert_betas register_value_type
convert_betas-serialize [] d = refl
convert_betas-serialize ((t, x) ∷ betas) d = convert_betas-serialize betas (register_value_type t d)

type_at-supported :
    (betas : List (ElementType × Element)) (i : ℕ)
    → All Typed betas
    → i < length betas
    → IsSupported (type_at betas i)
type_at-supported [] i all h = absurd (omega arith)
type_at-supported ((t, x) ∷ betas) zero all h = HasType-IsSupported all.0
type_at-supported ((t, x) ∷ betas) (suc i) all h = type_at-supported betas i all.1 (omega arith)

value_type_at :
    (betas : List (ElementType × Element)) (i : ℕ)
    → i < length betas
    → get_or (map (λ b. to_value_type b.0) betas) i type_not_set ≡ to_value_type (type_at betas i)
value_type_at [] i h = absurd (omega arith)
value_type_at ((t, x) ∷ betas) zero h = refl
value_type_at ((t, x) ∷ betas) (suc i) h = value_type_at betas i (omega arith)

module _ {ℓ} {W : Type ℓ} ⦃double : Double W⦄ (openssl : OpenSsl) (serialize : ValueType → List ℕ)
    (ps : List (SecuredParameters W)) (d : Dpf) (betas : List (ElementType × Element)) where
  -- The object after the call.
  abbrev pub d_after : Dpf
  d_after = (convert_betas betas d).1

  abbrev values_of : List Value
  values_of = map (λ b. to_value b.0 b.1) betas

  length-value_types :
      (x : Dpf)
      → value_types x ≡ map (λ b. to_value_type b.0) betas
      → length x.parameters ≡ length betas
  length-value_types x same = sym (length-map x.parameters _) ∙ ap length same ∙ length-map betas _

  d_after-IsKnown :
      All Typed betas
      → value_types d_after ≡ map (λ b. to_value_type b.0) betas
      → (i : ℕ) → i < length betas
      → IsSimple (type_at betas i)
      → Apart d.serialize betas (type_at betas i)
      → IsKnown d_after (type_at betas i) i
  d_after-IsKnown typed same i below simple apart =
      let has_type : value_type d_after i ≡ to_value_type (type_at betas i) =
        ap (λ ts. get_or ts i type_not_set) same ∙ value_type_at betas i below in
      record {
        simple = simple;
        supported = type_at-supported betas i typed below;
        typed = has_type;
        registered =
            function_of d_after i d_after.serialize refl has_type
              (convert_betas-finds betas i d below apart);
      }

  -- The keys and outputs for an object with some types registered.
  registered-AreShared :
      (ts : List ElementType) (cipher : ℕ → ℕ → ℕ) (alpha seed_0 seed_1 h : ℕ) (points : List ℕ)
      → RoundsUp double
      → ((key : ℕ) → IsEcb (hash_with openssl key) (cipher key))
      → create_incremental openssl serialize ps ≡ ok d
      → All Typed betas
      → h < length betas
      → ((i : ℕ) → i < length ps → IsKnown (register_all ts d) (type_at betas i) i)
      → value_types (register_all ts d) ≡ map (λ b. to_value_type b.0) betas
      → alpha < 2 ^ last_log_domain_size (register_all ts d)
      → All (λ x. x < 2 ^ log_domain_size (register_all ts d) h) points
      → AreShared
          (register_all ts d)
          (type_at betas)
          alpha
          seed_0
          seed_1
          values_of
          (object_at betas h)
          h
          points
  registered-AreShared ts cipher alpha seed_0 seed_1 h points up ecb e typed inside known same below
        all =
      let size = length-value_types (register_all ts d) same in
      create_incremental-shares openssl serialize ps ts (type_at betas) d cipher alpha seed_0 seed_1
        values_of (object_at betas) h points up ecb e known (length-map betas _ ∙ sym size)
        (ap (λ t. validate_betas t values_of) same ∙ validate_betas-objects betas typed)
        (λ i b. from_value-object betas i typed (omega (arith, size, b))) below
        (omega (arith, size, inside)) all

  -- Let OpenSSL encrypt in ECB mode, and logarithms of positive ints be rounded up. If
  -- `CreateIncremental` returned the object, beta is an object in the range of its type for every
  -- level, where the type is the one of the level's parameters and is an integer type, an
  -- XorWrapper, a tuple of such types of at least one and fewer than 2 ^ 31 bits, or a single
  -- IntModN, different types among them have different serializations, and alpha is in the domain,
  -- then `GenerateKeysIncremental(alpha, beta_0, ..., beta_n)` returns two keys, and `EvaluateAt`
  -- returns outputs for both of them at any points in the domain of any level h, with the types
  -- that the call has registered. They add up to the h-th beta at alpha without the bits that the
  -- level does not have, and to zero at every other point.
  pub generate_keys_of_objects-shares :
      (cipher : ℕ → ℕ → ℕ) (alpha seed_0 seed_1 h : ℕ) (points : List ℕ)
      → RoundsUp double
      → ((key : ℕ) → IsEcb (hash_with openssl key) (cipher key))
      → create_incremental openssl serialize ps ≡ ok d
      → ((i : ℕ) → i < length betas → IsSimple (type_at betas i))
      → ((i j : ℕ)
          → i < length betas
          → j < length betas
          → serialize (to_value_type (type_at betas j))
            ≡ serialize (to_value_type (type_at betas i))
          → to_value_type (type_at betas j) ≡ to_value_type (type_at betas i))
      → All Typed betas
      → value_types d_after ≡ map (λ b. to_value_type b.0) betas
      → alpha < 2 ^ last_log_domain_size d_after
      → h < length betas
      → All (λ x. x < 2 ^ log_domain_size d_after h) points
      → (key_0 key_1 : DpfKey) × (out_0 out_1 : List Element) × (generate_keys_of_objects d seed_0
            seed_1 alpha betas
          ≡ (ok (key_0, key_1), d_after))
        × (evaluate_at d_after (type_at betas h) key_0 h points ≡ ok out_0)
        × (evaluate_at d_after (type_at betas h) key_1 h points ≡ ok out_1)
        × (sums (type_at betas h) out_0 out_1
            ≡ map
                (λ x.
                  if x == alpha / 2 ^ (last_log_domain_size d_after - log_domain_size d_after h)
                  then object_at betas h
                  else default (type_at betas h))
                points)
  unfolding generate_keys_of_objects
  generate_keys_of_objects-shares cipher alpha seed_0 seed_1 h points up ecb e simple apart typed
        same below inside all =
      let (ts, registered) = convert_betas-register_all betas d in
      let (kept, serializes, _) = create_incremental-kept openssl serialize ps d e in
      let known = λ (i : ℕ) (h : i < length ps).
        let below : i < length betas = omega (
          arith,
          h,
          length-value_types d_after same,
          ap (λ x. length x.parameters) registered,
          ap (λ x. length x.parameters) (register_all-functions ts d).1,
          ap length kept,
          length-map ps (λ p. p.parameters),
        ) in
        d_after-IsKnown typed same i below (simple i below) (λ j k e'. apart i j below k (
          subst (λ s. s (to_value_type (type_at betas j)) ≡ s (to_value_type (type_at betas i)))
            serializes e')) in
      let (key_0, key_1, out_0, out_1, generated, e_0, e_1, total) =
        subst
          (λ x.
            ((i : ℕ) → i < length ps → IsKnown x (type_at betas i) i)
            → value_types x ≡ map (λ b. to_value_type b.0) betas
            → alpha < 2 ^ last_log_domain_size x
            → All (λ p. p < 2 ^ log_domain_size x h) points
            → AreShared x (type_at betas) alpha seed_0 seed_1 values_of (object_at betas h) h
                points)
          (sym registered)
          (registered-AreShared ts cipher alpha seed_0 seed_1 h points up ecb e typed inside) known
          same below all in
      (
        key_0,
        key_1,
        out_0,
        out_1,
        ap (λ vs. (generate_keys_incremental d_after seed_0 seed_1 alpha vs, d_after))
              (convert_betas-map betas d)
            ∙ ap (λ r. (r, d_after)) generated,
        e_0,
        e_1,
        total,
      )
