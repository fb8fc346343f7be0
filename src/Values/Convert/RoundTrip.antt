-- ===== src/Values/Convert/RoundTrip.antt =====
-- `FromValue` undoes `ToValue`, and what it returns has the type.
use mathlib.Core.Bool.{and-false}
use native.Mathlib.Nat.{one-le-pow, mod-eq_of_lt, mod-lt}
use distributed_point_functi.Base.{
  ℕ, suc, ◌-◌, ◌*◌, ◌%◌, not, ◌&&◌, subst, sym, >>=-eq-ok, ok-injective, err≢ok, guard,
  invalid_argument, ◌<◌, ◌≡◌, refl, ap, arith, ok, ltb, ◌==◌, Bool-cases, inl, inr, lt→ltb, le→ltb,
  eq→==, low64,
}
use distributed_point_functi.Proto.{Value, Values, nil, cons}
use distributed_point_functi.Values.{
  ElementType, ElementTypes, Element, Elements, uint, mod_int, xor_uint, tuple_of, no_more, also,
  number, range, HasType, HasTypes, is_uint, is_mod_int, is_xor_uint, is_tuple, at_end, and_then,
  IsSupported, AreSupported, uint_supported, mod_int_supported, xor_uint_supported, tuple_supported,
  none_supported, also_supported,
}
use distributed_point_functi.Values.Convert.{
  value_integer_to_uint128, uint128_to_value_integer, uint128_to, from_value, from_values, to_value,
  to_values, elements_size, as_integer, as_int_mod_n, as_xor_wrapper, as_tuple, to_number,
  tuple_size,
}

-- The two encodings of a `Value.Integer` read back as the number that was written.
pub value_integer-round_trip :
    (x : ℕ) → value_integer_to_uint128 (uint128_to_value_integer x) ≡ ok x
unfolding value_integer_to_uint128 uint128_to_value_integer
value_integer-round_trip x = ground arith

uint128_to-fits : (size x : ℕ) → x < range size → uint128_to size x ≡ ok x
unfolding uint128_to
uint128_to-fits size x h =
    rw (
      le→ltb (range size - 1) (low64 x) (omega arith),
      and-false (not (size == 16)),
      mod-eq_of_lt h,
    )

mutual
  unfolding from_value to_value

  -- Every object of a type is what its `Value` converts to.
  from_value-to_value :
      {t : ElementType} {e : Element} → HasType t e → from_value t (to_value t e) ≡ ok e
  from_value-to_value (is_uint {size} {a} p) =
      rw (value_integer-round_trip a, uint128_to-fits size a p)
  from_value-to_value (is_mod_int {size} {n} {a} p m) = rw (
    value_integer-round_trip a,
    lt→ltb a n p,
    mod-eq_of_lt {n = a} {m = range size} (omega arith),
    mod-eq_of_lt p,
  )
  from_value-to_value (is_xor_uint {size} {a} p) =
      rw (value_integer-round_trip a, uint128_to-fits size a p)
  from_value-to_value (is_tuple {ts} {xs} p) =
      rw (eq→== _ _ (elements_size-to_values p), from_values-to_values p)

  from_values-to_values :
      {ts : ElementTypes} {xs : Elements}
      → HasTypes ts xs
      → from_values ts (to_values ts xs) ≡ ok xs
  from_values-to_values at_end = refl
  from_values-to_values (and_then p ps) = rw (from_value-to_value p, from_values-to_values ps)

  elements_size-to_values :
      {ts : ElementTypes} {xs : Elements}
      → HasTypes ts xs
      → elements_size (to_values ts xs) ≡ tuple_size ts
  elements_size-to_values at_end = refl
  elements_size-to_values (and_then p ps) = ap suc (elements_size-to_values ps)

-- Every object of a type converts to a `Value` from which it is read back.
pub from_value-round_trip :
    {t : ElementType} {e : Element} → HasType t e → from_value t (to_value t e) ≡ ok e
from_value-round_trip p = from_value-to_value p

range_pos : (size : ℕ) → 0 < range size
range_pos size = one-le-pow (8 * size) 2 (omega arith)

to_uint-HasType :
    (size x : ℕ) {e : Element}
    → to_number (uint128_to size x) ≡ ok e
    → (y : ℕ) × (y < range size) × (e ≡ number y)
unfolding uint128_to
to_uint-HasType size x {e} h =
    elim (Bool-cases (not (size == 16) && ltb (range size - 1) (low64 x))) [
      | inl refused ↦ absurd (err≢ok (rw refused at h))
      | inr fits ↦ (x % range size, mod-lt x (range_pos size), sym (ok-injective (rw fits at h)))
    ]

mutual
  unfolding from_value

  -- What `FromValue` returns is an object of the type.
  from_value-of_type :
      {t : ElementType} (v : Value) {e : Element}
      → IsSupported t
      → from_value t v ≡ ok e
      → HasType t e
  from_value-of_type v {e} (uint_supported {size}) h =
      let (i, _, h1) = >>=-eq-ok (as_integer v) _ h in
      let (x, _, h2) = >>=-eq-ok (value_integer_to_uint128 i) _ h1 in
      let (y, p, q) = to_uint-HasType size x h2 in subst (HasType (uint size)) (sym q) (is_uint p)
  from_value-of_type v {e} (mod_int_supported {size} {n} p m) h =
      let (i, _, h1) = >>=-eq-ok (as_int_mod_n v) _ h in
      let (x, _, h2) = >>=-eq-ok (value_integer_to_uint128 i) _ h1 in
      let (_, _, h3) = >>=-eq-ok (guard (ltb x n) invalid_argument) _ h2 in
      subst (HasType (mod_int size n)) (ok-injective h3) (is_mod_int (mod-lt (x % range size) p) m)
  from_value-of_type v {e} (xor_uint_supported {size}) h =
      let (x, _, h2) = >>=-eq-ok (value_integer_to_uint128 (as_xor_wrapper v)) _ h in
      let (y, p, q) = to_uint-HasType size x h2 in
      subst (HasType (xor_uint size)) (sym q) (is_xor_uint p)
  from_value-of_type v {e} (tuple_supported {ts} s) h =
      let (vs, _, h1) = >>=-eq-ok (as_tuple v) _ h in
      let (_, _, h2) =
        >>=-eq-ok (guard (elements_size vs == tuple_size ts) invalid_argument) _ h1 in
      let (es, h3, h4) = >>=-eq-ok (from_values ts vs) _ h2 in
      subst (HasType (tuple_of ts)) (ok-injective h4) (is_tuple (from_values-of_types vs s h3))

  from_values-of_types :
      {ts : ElementTypes} (vs : Values) {es : Elements}
      → AreSupported ts
      → from_values ts vs ≡ ok es
      → HasTypes ts es
  from_values-of_types vs none_supported h = subst (HasTypes no_more) (ok-injective h) at_end
  from_values-of_types nil (also_supported s ss) h = absurd (err≢ok h)
  from_values-of_types (cons v vs) (also_supported {t} {ts} s ss) h =
      let (e, h1, h2) = >>=-eq-ok (from_value t v) _ h in
      let (es, h3, h4) = >>=-eq-ok (from_values ts vs) _ h2 in
      subst (HasTypes (also t ts)) (ok-injective h4)
        (and_then (from_value-of_type v s h1) (from_values-of_types vs ss h3))

-- For a supported type, whatever `FromValue` returns for a `Value` is an object of the type.
pub from_value-HasType :
    {t : ElementType} (v : Value) {e : Element}
    → IsSupported t
    → from_value t v ≡ ok e
    → HasType t e
from_value-HasType v s h = from_value-of_type v s h
