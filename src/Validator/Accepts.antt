-- ===== src/Validator/Accepts.antt =====
-- `ValidateValue` (dpf/internal/proto_validator.cc) on the messages that `ToValue`
-- (dpf/internal/value_type_helpers.h) writes.
use distributed_point_functi.Base.{
  ℕ, arith, suc, ◌*◌, ◌<◌, ◌≡◌, refl, ap, ok, eq→==, lt→ltb, ltb, Bool-cases, inl, inr,
}
use distributed_point_functi.Values.{
  ElementType, ElementTypes, Element, Elements, HasType, HasTypes, is_uint, is_mod_int, is_xor_uint,
  is_tuple, at_end, and_then, range,
}
use distributed_point_functi.Values.Convert.{
  uint128_to_value_integer, to_value, to_values, to_value_type, to_value_types, elements_size,
}
use distributed_point_functi.Values.Convert.RoundTrip.{value_integer-round_trip}
use distributed_point_functi.Validator.{
  types_size, validate_integer_value, validate_value, validate_values,
}

validate_integer_value-fits :
    (size x : ℕ)
    → x < range size
    → validate_integer_value (uint128_to_value_integer x) (8 * size) ≡ ok tt
unfolding validate_integer_value
validate_integer_value-fits size x h = elim (Bool-cases (ltb (8 * size) 128)) [
  | inl narrow ↦ rw (narrow, value_integer-round_trip x, lt→ltb x (range size) h) refl
  | inr wide ↦ rw wide refl
]

mutual
  unfolding to_value to_value_type validate_value

  validate_value-to_value :
      {t : ElementType} {x : Element}
      → HasType t x
      → validate_value (to_value_type t) (to_value t x) ≡ ok tt
  validate_value-to_value (is_uint {size} {a} p) = validate_integer_value-fits size a p
  validate_value-to_value (is_mod_int {size} {n} {a} p m) = rw (
    validate_integer_value-fits size a (omega (arith, p, m)),
    value_integer-round_trip a,
    value_integer-round_trip n,
    lt→ltb a n p,
  )
  validate_value-to_value (is_xor_uint {size} {a} p) = validate_integer_value-fits size a p
  validate_value-to_value (is_tuple {ts} {xs} p) =
      rw (eq→== _ _ (elements_size-types_size p), validate_values-to_values p)

  validate_values-to_values :
      {ts : ElementTypes} {xs : Elements}
      → HasTypes ts xs
      → validate_values (to_value_types ts) (to_values ts xs) ≡ ok tt
  validate_values-to_values at_end = refl
  validate_values-to_values (and_then p ps) =
      rw (validate_value-to_value p, validate_values-to_values ps)

  elements_size-types_size :
      {ts : ElementTypes} {xs : Elements}
      → HasTypes ts xs
      → elements_size (to_values ts xs) ≡ types_size (to_value_types ts)
  elements_size-types_size at_end = refl
  elements_size-types_size (and_then p ps) = ap suc (elements_size-types_size ps)

-- `ValidateValue` accepts the `Value` of every object of a type, tuples included, for the
-- `ValueType` of its type.
pub to_value-validated :
    {t : ElementType} {x : Element}
    → HasType t x
    → validate_value (to_value_type t) (to_value t x) ≡ ok tt
to_value-validated p = validate_value-to_value p
