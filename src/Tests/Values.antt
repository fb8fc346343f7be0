-- ===== src/Tests/Values.antt =====
-- The theorems on values at concrete inputs.
use distributed_point_functi.Base.{
  ℕ, ◌+◌, ◌%◌, ◌<◌, ◌≤◌, ◌≡◌, ◌≢◌, refl, true, false, List, [], ◌∷◌, All, map, ok, arith, u64_mod,
  get_or,
}
use distributed_point_functi.Proto.{value_uint64, integer}
use distributed_point_functi.Validator.{validate_value}
use distributed_point_functi.Validator.Accepts.{to_value-validated}
use distributed_point_functi.Values.{
  ElementType, uint, xor_uint, is_xor_uint, mod_int, tuple_of, also, no_more, Element, elements,
  join, empty, number, is_mod_int, is_tuple, and_then, at_end, HasType, is_uint, add, neg, sub,
  default, range,
}
use distributed_point_functi.Values.Bytes.{
  can_be_converted_directly, elements_per_block, total_bit_size, convert_bytes_to_array_of,
  bytes_of,
}
use distributed_point_functi.Values.Correction.{
  corrections_of, add_at, values_to_array, correct_output,
}
use distributed_point_functi.Values.Group.{add_group_laws}
use distributed_point_functi.Values.Convert.{
  to_value_type, from_value, value_integer_to_uint128, to_value, uint128_to,
}
use distributed_point_functi.Values.Bytes.Memory.{
  to_bytes, array_to_bytes, convert_bytes_to_array_of-array_to_bytes,
}
use distributed_point_functi.Values.Bytes.Typed.{IsArray}
use distributed_point_functi.Values.Correction.Secret.{
  corrections_of_share, values_to_array-round_trip,
}
use distributed_point_functi.Values.Convert.RoundTrip.{from_value-round_trip}
use distributed_point_functi.Values.Convert.Narrow.{uint128_to-truncates}

reads_beta : from_value (uint 8) (integer (value_uint64 42)) ≡ ok (number 42)
unfolding from_value value_integer_to_uint128 uint128_to
reads_beta = refl

typed : (a : ℕ) → a < range 1 → HasType (uint 1) (number a)
typed a h = is_uint h

two_bytes : IsArray (uint 1) 2 (number 200 ∷ number 7 ∷ [])
two_bytes = (refl, (typed 200 (omega arith), (typed 7 (omega arith), tt)))

corrections_of_share_example :
    let w =
      get_or
        (corrections_of
          (uint 1)
          false
          (number 200 ∷ number 7 ∷ [])
          (add_at (uint 1) 1 (number 100) (number 200 ∷ number 7 ∷ [])))
        1
        (default (uint 1)) in
    add
      (uint 1)
      (correct_output (uint 1) true 0 w (number 7))
      (correct_output (uint 1) false 1 w (number 7))
    ≡ number 100
corrections_of_share_example =
    corrections_of_share (uint 1) true false 1 1 2 (number 200 ∷ number 7 ∷ [])
      (number 200 ∷ number 7 ∷ []) refl (typed 100 (omega arith)) two_bytes two_bytes (omega arith)

long-IsArray : IsArray (uint 8) (elements_per_block (uint 8)) (number 5 ∷ number 6 ∷ [])
unfolding elements_per_block can_be_converted_directly total_bit_size
long-IsArray = (refl, (is_uint (omega arith), (is_uint (omega arith), tt)))

values_to_array-round_trip_example :
    values_to_array (uint 8) (map (to_value (uint 8)) (number 5 ∷ number 6 ∷ []))
    ≡ ok (number 5 ∷ number 6 ∷ [])
values_to_array-round_trip_example =
    values_to_array-round_trip (uint 8) (number 5 ∷ number 6 ∷ []) long-IsArray

abbrev pair_type : ElementType
pair_type = tuple_of (also (uint 1) (also (mod_int 4 1000) no_more))

abbrev pair : Element
pair = elements (join (number 200) (join (number 999) empty))

pair-HasType : HasType pair_type pair
pair-HasType =
    is_tuple
      (and_then (is_uint (omega arith)) (and_then (is_mod_int (omega arith) (omega arith)) at_end))

from_value-round_trip_example : from_value pair_type (to_value pair_type pair) ≡ ok pair
from_value-round_trip_example = from_value-round_trip pair-HasType

to_value-validated_example :
    validate_value (to_value_type pair_type) (to_value pair_type pair) ≡ ok tt
to_value-validated_example = to_value-validated pair-HasType

abbrev long_and_short : ElementType
long_and_short = tuple_of (also (uint 4) (also (xor_uint 2) no_more))

abbrev two_tuples : List Element
two_tuples =
    elements (join (number 258) (join (number 3) empty))
    ∷ elements (join (number 65536) (join (number 511) empty))
    ∷ []

two_tuples-HasType : All (HasType long_and_short) two_tuples
two_tuples-HasType = (
  is_tuple (and_then (is_uint (omega arith)) (and_then (is_xor_uint (omega arith)) at_end)),
  (is_tuple (and_then (is_uint (omega arith)) (and_then (is_xor_uint (omega arith)) at_end)), tt),
)

convert_bytes_to_array_of-array_to_bytes_example :
    convert_bytes_to_array_of long_and_short (array_to_bytes long_and_short two_tuples)
    ≡ ok two_tuples
unfolding can_be_converted_directly elements_per_block total_bit_size
convert_bytes_to_array_of-array_to_bytes_example =
    convert_bytes_to_array_of-array_to_bytes long_and_short refl two_tuples refl two_tuples-HasType

twelve_bytes :
    array_to_bytes long_and_short two_tuples ≡ 2 ∷ 1 ∷ 0 ∷ 0 ∷ 3 ∷ 0 ∷ 0 ∷ 0 ∷ 1 ∷ 0 ∷ 255 ∷ 1 ∷ []
unfolding array_to_bytes to_bytes bytes_of
twelve_bytes = refl

add_group_laws_example :
    let a = number 200 in
    let b = number 100 in
    let c = number 9 in
    let t = uint 1 in
    (add t (add t a b) c ≡ add t a (add t b c))
    × (add t a b ≡ add t b a)
    × (add t a (default t) ≡ a)
    × (add t a (neg t a) ≡ default t)
    × (sub t a b ≡ add t a (neg t b))
add_group_laws_example =
    add_group_laws (typed 200 (omega arith)) (typed 100 (omega arith)) (typed 9 (omega arith))

uint128_to-truncates_example :
    (uint128_to 4 (u64_mod + 5) ≡ ok ((u64_mod + 5) % range 4))
    × (range 4 ≤ u64_mod + 5)
    × ((u64_mod + 5) % range 4 ≢ u64_mod + 5)
uint128_to-truncates_example =
    uint128_to-truncates 4 (u64_mod + 5) (omega arith) (omega arith) (omega arith)
