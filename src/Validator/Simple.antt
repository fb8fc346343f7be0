-- ===== src/Validator/Simple.antt =====
-- `BitsNeeded` (dpf/internal/value_type_helpers.cc) on the types that C++ classes have: it is the size
-- of a type that is converted directly, and one block for an integer modulo N.
use native.Mathlib.Nat.{mul-zero}
use distributed_point_functi.Base.{
  ℕ, suc, ◌+◌, ◌*◌, ◌<◌, ◌≡◌, refl, ap, ◌∙◌, Bool, true, false, ◌&&◌, none, Status, ok, arith,
  >>=-eq-ok, ok-injective, ◌>>=◌, add_int, add_int_small, int_limit, guard, ltb, crash, ◌-◌, ◌/◌,
  sym,
}
use distributed_point_functi.Proto.{ValueTypes, tuple_type}
use distributed_point_functi.Security.{Double, check_parameters, get_num_bytes_required}
use distributed_point_functi.Values.{
  ElementType, ElementTypes, uint, mod_int, xor_uint, tuple_of, no_more, also,
}
use distributed_point_functi.Values.Convert.{
  to_value_type, to_value_types, tuple_size, value_integer_to_uint128, uint128_to_value_integer,
}
use distributed_point_functi.Values.Bytes.{
  can_be_converted_directly, all_converted_directly, total_bit_size, total_bit_sizes,
}
use distributed_point_functi.Validator.Types.{
  Counts, is_int_mod_n, bits_of_ints_mod_n, per_element, count_elements, bits_of_samples,
  bits_needed, bits_of_first,
}

-- The types whose bits are counted right: those that are converted directly, of at least one bit and of
-- no more than an int can count, and a single integer modulo N. A tuple with integers modulo N is left out.
pub data IsSimple : ElementType → Type 0 where
  direct :
      {t : ElementType}
      → can_be_converted_directly t ≡ true
      → 0 < total_bit_size t
      → total_bit_size t < int_limit
      → IsSimple t
  single : {size n : ℕ} → IsSimple (mod_int size n)

both : (a b : Bool) → (a && b) ≡ true → (a ≡ true) × (b ≡ true)
both true b e = (refl, e)
both false b e = absurd (ground arith)

not_int_mod_n :
    (t : ElementType) → can_be_converted_directly t ≡ true → is_int_mod_n (to_value_type t) ≡ false
unfolding to_value_type can_be_converted_directly
not_int_mod_n (uint size) d = refl
not_int_mod_n (mod_int size n) d = absurd (ground arith)
not_int_mod_n (xor_uint size) d = refl
not_int_mod_n (tuple_of ts) d = refl

abbrev other : Counts → ℕ → Status Counts
other c n =
    ok (record { int_mod_n = c.int_mod_n; num_ints_mod_n = c.num_ints_mod_n; num_other = n })

-- A tuple of types that are converted directly has no integers modulo N.
count_elements_direct :
    (ts : ElementTypes) (c : Counts)
    → all_converted_directly ts ≡ true
    → count_elements (to_value_types ts) c ≡ other c (tuple_size ts + c.num_other)
unfolding count_elements to_value_type all_converted_directly can_be_converted_directly
count_elements_direct no_more c d = ap (other c) (omega arith)
count_elements_direct (also t ts) c d =
    let (d0, d1) = both (can_be_converted_directly t) _ d in
    rw (not_int_mod_n t d0) (
      count_elements_direct ts
        (record {
          int_mod_n = c.int_mod_n;
          num_ints_mod_n = c.num_ints_mod_n;
          num_other = suc c.num_other;
        })
        d1
      ∙ ap (other c) (omega arith))

abbrev no_counts : Counts
no_counts = record { int_mod_n = none; num_ints_mod_n = 0; num_other = 0 }

module _ {ℓ} {W : Type ℓ} ⦃double : Double W⦄ where
  bits_needed-tuple :
      (els : ValueTypes) (s : W)
      → bits_needed (tuple_type els) s ≡ (do
        c ← count_elements els no_counts
        bitsize_other ← bits_of_first els c.num_other (per_element s c.num_other) 0
        bitsize_ints_mod_n ← bits_of_ints_mod_n c s
        add_int bitsize_ints_mod_n bitsize_other)
  unfolding bits_needed
  bits_needed-tuple els s = refl

  mutual
    unfolding bits_needed to_value_type can_be_converted_directly total_bit_size

    pub bits_needed_direct :
        (t : ElementType) (s : W)
        → can_be_converted_directly t ≡ true
        → total_bit_size t < int_limit
        → bits_needed (to_value_type t) s ≡ ok (total_bit_size t)
    bits_needed_direct (uint size) s d small = ap ok (omega arith)
    bits_needed_direct (mod_int size n) s d small = absurd (ground arith)
    bits_needed_direct (xor_uint size) s d small = ap ok (omega arith)
    bits_needed_direct (tuple_of ts) s d small =
        rw
          (
            bits_needed-tuple (to_value_types ts) s,
            count_elements_direct ts no_counts d,
            ap (λ n. bits_of_first (to_value_types ts) n (per_element s (tuple_size ts + 0)) 0)
                  {x = tuple_size ts + 0} {y = tuple_size ts} (omega arith)
                ∙ bits_of_first_direct ts (per_element s (tuple_size ts + 0)) 0 d
                    (omega (arith, small)),
            add_int_small 0 (0 + total_bit_sizes ts) (omega (arith, small)),
          )
          (ap ok (omega arith))

    bits_of_first_direct :
        (ts : ElementTypes) (s : W) (bitsize_other : ℕ)
        → all_converted_directly ts ≡ true
        → bitsize_other + total_bit_sizes ts < int_limit
        → bits_of_first (to_value_types ts) (tuple_size ts) s bitsize_other
          ≡ ok (bitsize_other + total_bit_sizes ts)
    bits_of_first_direct no_more s bitsize_other d small = ap ok (omega arith)
    bits_of_first_direct (also t ts) s bitsize_other d small =
        let (d0, d1) = both (can_be_converted_directly t) _ d in
        rw
          (
            bits_needed_direct t s d0 (omega (arith, small)),
            add_int_small bitsize_other (total_bit_size t) (omega (arith, small)),
            bits_of_first_direct ts s (bitsize_other + total_bit_size t) d1 (omega (arith, small)),
          )
          (ap ok (omega arith))

  -- One sample of an integer modulo N takes one block.
  pub bits_needed_single :
      (size n : ℕ) (s : W) {b : ℕ} → bits_needed (to_value_type (mod_int size n)) s ≡ ok b → b ≡ 128
  unfolding bits_needed to_value_type bits_of_samples get_num_bytes_required
  bits_needed_single size n s e =
      let (m, e1, e2) = >>=-eq-ok (value_integer_to_uint128 (uint128_to_value_integer n)) _ e in
      let (k, e3, e4) = >>=-eq-ok (get_num_bytes_required 1 (8 * size) m s) _ e2 in
      let (_, e5, e6) = >>=-eq-ok (check_parameters 1 (8 * size) m s) _ e3 in
      let (_, _, e7) =
        >>=-eq-ok (guard (ltb (16 + (8 * size + 7) / 8 * (1 - 1)) int_limit) crash) _ e6 in
      let sixteen : 16 ≡ k = omega (arith, ok-injective e7, mul-zero ((8 * size + 7) / 8)) in
      sym (ok-injective e4) ∙ omega (arith, sixteen)
