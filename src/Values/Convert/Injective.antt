-- ===== src/Values/Convert/Injective.antt =====
-- Different C++ types have different `ValueType` messages (dpf/internal/value_type_helpers.h).
use distributed_point_functi.Base.{ℕ, ◌*◌, ◌≡◌, refl, sym, ap, ap₂, ◌∙◌, arith, ok-injective}
use distributed_point_functi.Values.{
  ElementType, ElementTypes, Element, Elements, HasType, HasTypes, IsSupported, AreSupported, uint,
  mod_int, xor_uint, tuple_of, no_more, also, is_uint, is_mod_int, is_xor_uint, is_tuple, at_end,
  and_then, uint_supported, mod_int_supported, xor_uint_supported, tuple_supported, none_supported,
  also_supported,
}
use distributed_point_functi.Values.Convert.{
  uint128_to_value_integer, value_integer_to_uint128, to_value_type, to_value_types,
}
use distributed_point_functi.Values.Convert.RoundTrip.{value_integer-round_trip}

uint128_to_value_integer-injective :
    (x y : ℕ) → uint128_to_value_integer x ≡ uint128_to_value_integer y → x ≡ y
uint128_to_value_integer-injective x y e =
    ok-injective (
      sym (value_integer-round_trip x) ∙ ap value_integer_to_uint128 e ∙ value_integer-round_trip y)

mutual
  unfolding to_value_type

  pub to_value_type-injective : (t u : ElementType) → to_value_type t ≡ to_value_type u → t ≡ u
  to_value_type-injective (uint a) (uint b) e =
      ap uint (let same : 8 * a ≡ 8 * b = cc in omega arith)
  to_value_type-injective (uint a) (mod_int b n) e = cc
  to_value_type-injective (uint a) (xor_uint b) e = cc
  to_value_type-injective (uint a) (tuple_of us) e = cc
  to_value_type-injective (mod_int a m) (uint b) e = cc
  to_value_type-injective (mod_int a m) (mod_int b n) e =
      let same : 8 * a ≡ 8 * b = cc in
      let moduli : uint128_to_value_integer m ≡ uint128_to_value_integer n = cc in
      ap₂ mod_int {x = a} {y = b} (omega arith) (uint128_to_value_integer-injective m n moduli)
  to_value_type-injective (mod_int a m) (xor_uint b) e = cc
  to_value_type-injective (mod_int a m) (tuple_of us) e = cc
  to_value_type-injective (xor_uint a) (uint b) e = cc
  to_value_type-injective (xor_uint a) (mod_int b n) e = cc
  to_value_type-injective (xor_uint a) (xor_uint b) e =
      ap xor_uint (let same : 8 * a ≡ 8 * b = cc in omega arith)
  to_value_type-injective (xor_uint a) (tuple_of us) e = cc
  to_value_type-injective (tuple_of ts) (uint b) e = cc
  to_value_type-injective (tuple_of ts) (mod_int b n) e = cc
  to_value_type-injective (tuple_of ts) (xor_uint b) e = cc
  to_value_type-injective (tuple_of ts) (tuple_of us) e =
      let same : to_value_types ts ≡ to_value_types us = cc in
      ap tuple_of (to_value_types-injective ts us same)

  to_value_types-injective :
      (ts us : ElementTypes) → to_value_types ts ≡ to_value_types us → ts ≡ us
  to_value_types-injective no_more no_more e = refl
  to_value_types-injective no_more (also u us) e = cc
  to_value_types-injective (also t ts) no_more e = cc
  to_value_types-injective (also t ts) (also u us) e =
      let first : to_value_type t ≡ to_value_type u = cc in
      let rest : to_value_types ts ≡ to_value_types us = cc in
      ap₂ also (to_value_type-injective t u first) (to_value_types-injective ts us rest)

-- A type that has an object is supported.
mutual
  pub HasType-IsSupported : {t : ElementType} {x : Element} → HasType t x → IsSupported t
  HasType-IsSupported (is_uint h) = uint_supported
  HasType-IsSupported (is_mod_int below fits) = mod_int_supported (omega arith) fits
  HasType-IsSupported (is_xor_uint h) = xor_uint_supported
  HasType-IsSupported (is_tuple all) = tuple_supported (HasTypes-AreSupported all)

  HasTypes-AreSupported : {ts : ElementTypes} {xs : Elements} → HasTypes ts xs → AreSupported ts
  HasTypes-AreSupported at_end = none_supported
  HasTypes-AreSupported (and_then h all) =
      also_supported (HasType-IsSupported h) (HasTypes-AreSupported all)
