-- ===== src/Dpf/Correct/Block.antt =====
-- The value correction of one block: what `ComputeValueCorrection` reads from the two seeds.
use mathlib.Core.List.{map-append}
use distributed_point_functi.Base.{
  ℕ, zero, suc, ◌≡◌, refl, sym, ap, ◌∙◌, Bool, List, ◌++◌, map, Status, ok, length, take, drop,
  length-map, >>=-eq-ok, ok-injective, take-append_length, drop-append_length,
}
use distributed_point_functi.Aes.Hash.{Prg}
use distributed_point_functi.Proto.{Value}
use distributed_point_functi.Values.{ElementType, Element, HasType, IsSupported}
use distributed_point_functi.Values.Convert.{from_value}
use distributed_point_functi.Values.Convert.RoundTrip.{from_value-HasType}
use distributed_point_functi.Values.Bytes.{
  bytes_of_blocks, convert_bytes_to_array_of, elements_per_block,
}
use distributed_point_functi.Values.Bytes.Typed.{
  IsArray, bytes_of_blocks-IsByte, convert_bytes_to_array_of-IsArray,
}
use distributed_point_functi.Values.Correction.{
  add_at, corrections_of, values_to_array, compute_value_correction_for,
}
use distributed_point_functi.Values.Correction.Secret.{
  corrections_of-add_at-IsArray, values_to_array-round_trip,
}
use distributed_point_functi.Dpf.{
  Dpf, blocks, iota, get_value_correction_function, domain_to_block_index, compute_value_correction,
}

pub length-iota : (k j s : ℕ) → length (iota k j s) ≡ k
unfolding iota
length-iota zero j s = refl
length-iota (suc k) j s = ap suc (length-iota k (suc j) s)

-- The first block of hashes, and the rest.
pub take-hashes :
    (f : ℕ → ℕ) (k s : ℕ) (xs : List ℕ) → take k (map f (iota k 0 s ++ xs)) ≡ map f (iota k 0 s)
take-hashes f k s xs =
    ap (take k) (map-append f (iota k 0 s) xs)
    ∙ ap (λ j. take j (map f (iota k 0 s) ++ map f xs))
        (sym (length-map (iota k 0 s) f ∙ length-iota k 0 s))
    ∙ take-append_length (map f (iota k 0 s)) (map f xs)

pub drop-hashes : (f : ℕ → ℕ) (k s : ℕ) (xs : List ℕ) → drop k (map f (iota k 0 s ++ xs)) ≡ map f xs
drop-hashes f k s xs =
    ap (drop k) (map-append f (iota k 0 s) xs)
    ∙ ap (λ j. drop j (map f (iota k 0 s) ++ map f xs))
        (sym (length-map (iota k 0 s) f ∙ length-iota k 0 s))
    ∙ drop-append_length (map f (iota k 0 s)) (map f xs)

-- The elements that a seed expands to.
abbrev pub elements_of : (ℕ → ℕ) → ElementType → ℕ → ℕ → Status (List Element)
elements_of f t k s = convert_bytes_to_array_of t (bytes_of_blocks (map f (iota k 0 s)))

pub elements_of-IsArray :
    (f : ℕ → ℕ) (t : ElementType) (k s : ℕ) {es : List Element}
    → IsSupported t
    → elements_of f t k s ≡ ok es
    → IsArray t (elements_per_block t) es
elements_of-IsArray f t k s supported e =
    convert_bytes_to_array_of-IsArray t (bytes_of_blocks (map f (iota k 0 s))) supported
      (bytes_of_blocks-IsByte (map f (iota k 0 s))) e

-- What a value correction that was computed consists of.
pub record Parts (f : ℕ → ℕ) (t : ElementType) (k s0 s1 index : ℕ) (beta : Value) (invert : Bool)
    (values : List Value) : Type 0 where
  pub beta_t : Element
  pub ints_a : List Element
  pub ints_b : List Element
  pub reads_beta : from_value t beta ≡ ok beta_t
  pub typed_beta : HasType t beta_t
  pub expands_a : elements_of f t k s0 ≡ ok ints_a
  pub expands_b : elements_of f t k s1 ≡ ok ints_b
  pub reads_values :
      values_to_array t values ≡ ok (corrections_of t invert ints_a (add_at t index beta_t ints_b))

module _ (f : ℕ → ℕ) (t : ElementType) (k s0 s1 index : ℕ) (beta : Value) (invert : Bool)
    (values : List Value) where
  parts_of :
      IsSupported t
      → compute_value_correction_for t
          (bytes_of_blocks (map f (iota k 0 s0)))
          (bytes_of_blocks (map f (iota k 0 s1)))
          index
          beta
          invert
        ≡ ok values
      → Parts f t k s0 s1 index beta invert values
  unfolding compute_value_correction_for
  parts_of supported e =
      let (b, eb, e1) = >>=-eq-ok (from_value t beta) _ e in
      let (xs, ea, e2) = >>=-eq-ok (elements_of f t k s0) _ e1 in
      let (ys, ec, e3) = >>=-eq-ok (elements_of f t k s1) _ e2 in
      let typed = from_value-HasType beta supported eb in
      record {
        beta_t = b;
        ints_a = xs;
        ints_b = ys;
        reads_beta = eb;
        typed_beta = typed;
        expands_a = ea;
        expands_b = ec;
        reads_values =
            ap (values_to_array t) (sym (ok-injective e3))
            ∙ values_to_array-round_trip t (corrections_of t invert xs (add_at t index b ys)) (
                corrections_of-add_at-IsArray t invert index (elements_per_block t) xs ys typed
                  (elements_of-IsArray f t k s0 supported ea)
                  (elements_of-IsArray f t k s1 supported ec));
      }

pub compute_value_correction-Parts :
    (d : Dpf) (v : Prg d.prg_value) (t : ElementType) (h s0 s1 a : ℕ) (beta : Value) (invert : Bool)
    (values : List Value)
    → IsSupported t
    → get_value_correction_function d h ≡ ok t
    → compute_value_correction d h s0 s1 a beta invert ≡ ok values
    → Parts v.block t (blocks d h) s0 s1 (domain_to_block_index d a h) beta invert values
unfolding compute_value_correction
compute_value_correction-Parts d v t h s0 s1 a beta invert values supported function e =
    let k = blocks d h in
    parts_of v.block t (blocks d h) s0 s1 (domain_to_block_index d a h) beta invert values supported
      (rw
        (
          v.evaluates (iota (blocks d h) 0 s0 ++ iota (blocks d h) 0 s1),
          function,
          take-hashes v.block (blocks d h) s0 (iota (blocks d h) 0 s1),
          drop-hashes v.block (blocks d h) s0 (iota (blocks d h) 0 s1),
        )
        at e)
