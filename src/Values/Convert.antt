-- ===== src/Values/Convert.antt =====
-- Conversion between `Value` messages and objects (dpf/internal/value_type_helpers.h and .cc):
-- `ValueTypeHelper<T>::FromValue`, `ToValue` and `ToValueType`.
pub mod RoundTrip
pub mod Narrow
pub mod Injective
use distributed_point_functi.Base.{
  ℕ, zero, suc, ◌*◌, ◌%◌, ◌^◌, ◌-◌, ◌+◌, Bool, true, false, List, [], ◌∷◌, Status, ok, err,
  invalid_argument, ◌>>=◌, ◌>>◌, guard, ltb, leb, ◌==◌, not, ◌&&◌, if◌then◌else◌, high64, low64,
}
use distributed_point_functi.Proto.{
  ValueInteger, integer_not_set, value_uint64, value_uint128, Value, Values, value_not_set, integer,
  tuple, int_mod_n, xor_wrapper, nil, cons, ValueType, ValueTypes, integer_type, tuple_type,
  int_mod_n_type, xor_wrapper_type, no_types, more_types, block_to_uint128, uint128_to_block,
}
use distributed_point_functi.Values.{
  ElementType, ElementTypes, Element, Elements, uint, mod_int, xor_uint, tuple_of, no_more, also,
  number, elements, empty, join, range,
}

unfoldable pub value_integer_to_uint128 : ValueInteger → Status ℕ
value_integer_to_uint128 integer_not_set = err invalid_argument
value_integer_to_uint128 (value_uint64 x) = ok x
value_integer_to_uint128 (value_uint128 b) = ok (block_to_uint128 b)

unfoldable pub uint128_to_value_integer : ℕ → ValueInteger
uint128_to_value_integer x =
    if high64 x == 0 then value_uint64 (low64 x) else value_uint128 (uint128_to_block x)

-- `Uint128To<T>`. The test reads the lower half of the number alone; 16 is sizeof(absl::uint128).
unfoldable pub uint128_to : ℕ → ℕ → Status ℕ
uint128_to size x =
    if not (size == 16) && ltb (range size - 1) (low64 x)
    then err invalid_argument
    else ok (x % range size)

-- The number that an integer value holds, for each kind of value.
abbrev pub as_integer : Value → Status ValueInteger
as_integer (integer i) = ok i
as_integer _ = err invalid_argument

abbrev pub as_int_mod_n : Value → Status ValueInteger
as_int_mod_n (int_mod_n i) = ok i
as_int_mod_n _ = err invalid_argument

-- `FromValue` does not look at the case of a XorWrapper: `value.xor_wrapper()` of another case is
-- an empty message.
abbrev pub as_xor_wrapper : Value → ValueInteger
as_xor_wrapper (xor_wrapper i) = i
as_xor_wrapper _ = integer_not_set

abbrev pub as_tuple : Value → Status Values
as_tuple (tuple vs) = ok vs
as_tuple _ = err invalid_argument

abbrev pub elements_size : Values → ℕ
elements_size nil = 0
elements_size (cons v vs) = suc (elements_size vs)

abbrev pub tuple_size : ElementTypes → ℕ
tuple_size no_more = 0
tuple_size (also t ts) = suc (tuple_size ts)

abbrev pub to_number : Status ℕ → Status Element
to_number (ok x) = ok (number x)
to_number (err e) = err e

unfoldable mutual
  unfolding value_integer_to_uint128 uint128_to

  pub from_value : ElementType → Value → Status Element
  from_value (uint size) v = do
    i ← as_integer v
    x ← value_integer_to_uint128 i
    to_number (uint128_to size x)
  from_value (mod_int size n) v = do
    i ← as_int_mod_n v
    x ← value_integer_to_uint128 i
    guard (ltb x n) invalid_argument
    ok (number (x % range size % n))
  from_value (xor_uint size) v = do
    x ← value_integer_to_uint128 (as_xor_wrapper v)
    to_number (uint128_to size x)
  from_value (tuple_of ts) v = do
    vs ← as_tuple v
    guard (elements_size vs == tuple_size ts) invalid_argument
    es ← from_values ts vs
    ok (elements es)

  -- The elements in order; the first error is kept.
  pub from_values : ElementTypes → Values → Status Elements
  from_values no_more vs = ok empty
  from_values (also t ts) nil = err invalid_argument
  from_values (also t ts) (cons v vs) = do
    e ← from_value t v
    es ← from_values ts vs
    ok (join e es)

unfoldable mutual
  unfolding uint128_to_value_integer

  pub to_value : ElementType → Element → Value
  to_value (uint size) (number x) = integer (uint128_to_value_integer x)
  to_value (mod_int size n) (number x) = int_mod_n (uint128_to_value_integer x)
  to_value (xor_uint size) (number x) = xor_wrapper (uint128_to_value_integer x)
  to_value (tuple_of ts) (elements es) = tuple (to_values ts es)
  to_value _ _ = value_not_set

  pub to_values : ElementTypes → Elements → Values
  to_values (also t ts) (join e es) = cons (to_value t e) (to_values ts es)
  to_values _ _ = nil

-- `ToValueType<T>()`.
unfoldable mutual
  unfolding uint128_to_value_integer

  pub to_value_type : ElementType → ValueType
  to_value_type (uint size) = integer_type (8 * size)
  to_value_type (mod_int size n) = int_mod_n_type (8 * size) (uint128_to_value_integer n)
  to_value_type (xor_uint size) = xor_wrapper_type (8 * size)
  to_value_type (tuple_of ts) = tuple_type (to_value_types ts)

  pub to_value_types : ElementTypes → ValueTypes
  to_value_types no_more = no_types
  to_value_types (also t ts) = more_types (to_value_type t) (to_value_types ts)
