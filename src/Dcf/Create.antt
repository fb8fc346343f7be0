-- ===== src/Dcf/Create.antt =====
-- What `Create` of a DCF sets up (dcf/distributed_comparison_function.cc).
use mathlib.Core.List.{map-map, map-id}
use distributed_point_functi.Base.{
  ℕ, zero, suc, ◌+◌, ◌<◌, ◌≡◌, refl, sym, ap, ◌∙◌, subst, List, map, ok, length, get_or, >>=-eq-ok,
  ok-injective, arith, true, not, guard, ltb, invalid_argument, some, guard-true, length-map,
}
use distributed_point_functi.Aes.{OpenSsl, hash_with}
use distributed_point_functi.Aes.Hash.{IsEcb, Prg}
use distributed_point_functi.Proto.{ValueType, type_not_set, get_or_type}
use distributed_point_functi.Values.{ElementType, IsSupported}
use distributed_point_functi.Values.Convert.{to_value_type}
use distributed_point_functi.Security.{Double}
use distributed_point_functi.Validator.Bits.{RoundsUp}
use distributed_point_functi.Validator.Simple.{IsSimple}
use distributed_point_functi.Validator.Create.{SecuredParameters, validate_parameters}
use distributed_point_functi.Dpf.{value_type, find_function}
use distributed_point_functi.Dpf.Create.{create_incremental, default_functions}
use distributed_point_functi.Dpf.Create.Setup.{IsKnown}
use distributed_point_functi.Dpf.Create.Shares.{
  register_all, register_all-functions, create_incremental-IsDpf, create_incremental-kept,
  create_incremental-prgs,
}
use distributed_point_functi.Dpf.Registered.{function_of}
use distributed_point_functi.Dcf.{
  Dcf, DcfParameters, dpf_parameters, not_secured, create_from, create_dcf,
}
use distributed_point_functi.Dcf.Zero.{IsXorFree}
use distributed_point_functi.Dcf.Levels.{IsDcf}

length-dpf_parameters : (t : ValueType) (left i : ℕ) → length (dpf_parameters t left i) ≡ left
unfolding dpf_parameters
length-dpf_parameters t zero i = refl
length-dpf_parameters t (suc left) i = ap suc (length-dpf_parameters t left (suc i))

log-dpf_parameters :
    (t : ValueType) (left i j : ℕ)
    → j < left
    → get_or (map (λ p. p.log_domain_size) (dpf_parameters t left i)) j 0 ≡ i + j
unfolding dpf_parameters
log-dpf_parameters t zero i j h = absurd (omega arith)
log-dpf_parameters t (suc left) i zero h = omega arith
log-dpf_parameters t (suc left) i (suc j) h =
    log-dpf_parameters t left (suc i) j (omega arith) ∙ omega arith

type-dpf_parameters :
    (t : ValueType) (left i j : ℕ)
    → j < left
    → get_or (map (λ p. get_or_type p.value_type) (dpf_parameters t left i)) j type_not_set ≡ t
unfolding dpf_parameters
type-dpf_parameters t zero i j h = absurd (omega arith)
type-dpf_parameters t (suc left) i zero h = refl
type-dpf_parameters t (suc left) i (suc j) h = type-dpf_parameters t left (suc i) j (omega arith)

not_below_one : (n : ℕ) → not (ltb n 1) ≡ true → 0 < n
not_below_one n h = ground arith

module _ {ℓ} {W : Type ℓ} ⦃double : Double W⦄ (openssl : OpenSsl) (serialize : ValueType → List ℕ)
    (p : DcfParameters W) where
  abbrev n : ℕ
  n = p.parameters.parameters.log_domain_size

  abbrev levels : ValueType → List (SecuredParameters W)
  levels t = map not_secured (dpf_parameters t n 0)

  -- The parts of a DCF that was created.
  create_dcf-parts :
      (d : Dcf) (t : ValueType)
      → create_dcf openssl serialize p ≡ ok d
      → p.parameters.parameters.value_type ≡ some t
      → (0 < n)
        × (d.log_domain_size ≡ n)
        × (create_incremental openssl serialize (levels t) ≡ ok d.dpf)
  unfolding create_dcf create_from
  create_dcf-parts d t e has_type =
      let (_, above, e1) = >>=-eq-ok (guard (not (ltb n 1)) invalid_argument) _ e in
      let e2 = rw has_type at e1 in
      let (_, _, e3) = >>=-eq-ok (validate_parameters (levels t)) _ e2 in
      let (dpf, made, e4) = >>=-eq-ok (create_incremental openssl serialize (levels t)) _ e3 in
      let same = ok-injective e4 in
      (
        not_below_one n (guard-true (not (ltb n 1)) invalid_argument above),
        sym (ap (λ x. x.log_domain_size) same),
        made ∙ ap (λ x. ok x.dpf) same,
      )

  module _ (t : ElementType) (free : IsXorFree t) (simple : IsSimple t) (supported : IsSupported t)
      (small : n < 128) (up : RoundsUp double) (cipher : ℕ → ℕ → ℕ)
      (ecb : (key : ℕ) → IsEcb (hash_with openssl key) (cipher key)) (d : Dcf)
      (e : create_dcf openssl serialize p ≡ ok d)
      (has_type : p.parameters.parameters.value_type ≡ some (to_value_type t)) where
    -- The object after the registration of types.
    abbrev pub registered : List ElementType → Dcf
    registered ts = record { log_domain_size = d.log_domain_size; dpf = register_all ts d.dpf }

    pub kept :
        (ts : List ElementType)
        → ((register_all ts d.dpf).parameters ≡ dpf_parameters (to_value_type t) n 0)
          × ((register_all ts d.dpf).serialize ≡ serialize)
    kept ts =
        let (_, _, made) = create_dcf-parts d (to_value_type t) e has_type in
        let (same, serializes, _) =
          create_incremental-kept openssl serialize (levels (to_value_type t)) d.dpf made in
        let (functions, changed) = register_all-functions ts d.dpf in
        (
          ap (λ x. x.parameters) changed
              ∙ same
              ∙ map-map (λ q. q.parameters) (not_secured {W = W})
                  (dpf_parameters (to_value_type t) n 0)
              ∙ map-id (dpf_parameters (to_value_type t) n 0),
          ap (λ x. x.serialize) changed ∙ serializes,
        )

    pub default_functions-kept : d.dpf.value_correction_functions ≡ default_functions serialize
    default_functions-kept =
        let (_, _, made) = create_dcf-parts d (to_value_type t) e has_type in
        (create_incremental-kept openssl serialize (levels (to_value_type t)) d.dpf made).2

    module _ (ts : List ElementType)
        (found : find_function
            (serialize (to_value_type t))
            (register_all ts d.dpf).value_correction_functions
          ≡ some t) where
      typed_at : (h : ℕ) → h < n → value_type (register_all ts d.dpf) h ≡ to_value_type t
      typed_at h below =
          ap (λ ps. get_or (map (λ q. get_or_type q.value_type) ps) h type_not_set) (kept ts).0
          ∙ type-dpf_parameters (to_value_type t) n 0 h below

      known : (h : ℕ) → h < n → IsKnown (register_all ts d.dpf) t h
      known h below = record {
        simple = simple;
        supported = supported;
        typed = typed_at h below;
        registered =
            function_of (register_all ts d.dpf) h serialize (kept ts).1 (typed_at h below) found;
      }

      pub registered-IsDcf : IsDcf (registered ts) t n
      registered-IsDcf =
          let (positive, bits, made) = create_dcf-parts d (to_value_type t) e has_type in
          let (left, right, value) =
            create_incremental-prgs openssl serialize (levels (to_value_type t)) cipher d.dpf ecb
              made in
          let (functions, changed) = register_all-functions ts d.dpf in
          record {
            free = free;
            supported = supported;
            positive = positive;
            bounded = small;
            bits = bits;
            setup =
                create_incremental-IsDpf openssl serialize (levels (to_value_type t)) ts (λ _. t)
                  d.dpf up made
                  (λ h below. known h (
                    subst (λ k. h < k)
                      (length-map (dpf_parameters (to_value_type t) n 0) not_secured
                        ∙ length-dpf_parameters (to_value_type t) n 0)
                      below));
            size = ap length (kept ts).0 ∙ length-dpf_parameters (to_value_type t) n 0;
            log_at = λ i below.
                ap (λ ps. get_or (map (λ q. q.log_domain_size) ps) i 0) (kept ts).0
                ∙ log-dpf_parameters (to_value_type t) n 0 i below
                ∙ omega arith;
            typed = typed_at;
            left = subst Prg (ap (λ x. x.prg_left) (sym changed)) left;
            right = subst Prg (ap (λ x. x.prg_right) (sym changed)) right;
            value = subst Prg (ap (λ x. x.prg_value) (sym changed)) value;
          }
