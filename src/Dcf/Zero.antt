-- ===== src/Dcf/Zero.antt =====
-- `SetToZero` (dcf/distributed_comparison_function.cc) on the messages of objects, and the values of
-- the hierarchy levels.
use distributed_point_functi.Base.{
  ℕ, zero, suc, ◌+◌, ◌-◌, ◌<◌, ◌≡◌, refl, ap, ◌∙◌, length, get_or, arith, if◌then◌else◌, test_bit,
  Bool, true, false,
}
use distributed_point_functi.Proto.{Value, value_not_set, tuple}
use distributed_point_functi.Values.{
  ElementType, ElementTypes, uint, mod_int, tuple_of, no_more, also, Element, Elements, HasType,
  HasTypes, is_uint, is_mod_int, is_tuple, at_end, and_then, default, defaults,
}
use distributed_point_functi.Values.Convert.{to_value, to_values, uint128_to_value_integer}
use distributed_point_functi.Dcf.{set_to_zero, set_all_to_zero, dpf_values}

-- A type without XorWrapper.
mutual
  pub data IsXorFree : ElementType → Type 0 where
    uint_free : {size : ℕ} → IsXorFree (uint size)
    mod_int_free : {size n : ℕ} → IsXorFree (mod_int size n)
    tuple_free : {ts : ElementTypes} → AreXorFree ts → IsXorFree (tuple_of ts)

  pub data AreXorFree : ElementTypes → Type 0 where
    none_free : AreXorFree no_more
    also_free :
        {t : ElementType} {ts : ElementTypes} → IsXorFree t → AreXorFree ts → AreXorFree (also t ts)

mutual
  unfolding set_to_zero to_value default uint128_to_value_integer

  pub set_to_zero-default :
      {t : ElementType} {b : Element}
      → IsXorFree t
      → HasType t b
      → set_to_zero (to_value t b) ≡ to_value t (default t)
  set_to_zero-default uint_free (is_uint h) = refl
  set_to_zero-default mod_int_free (is_mod_int h h') = refl
  set_to_zero-default (tuple_free fs) (is_tuple ps) = ap tuple (set_all_to_zero-defaults fs ps)

  set_all_to_zero-defaults :
      {ts : ElementTypes} {bs : Elements}
      → AreXorFree ts
      → HasTypes ts bs
      → set_all_to_zero (to_values ts bs) ≡ to_values ts (defaults ts)
  set_all_to_zero-defaults none_free at_end = refl
  set_all_to_zero-defaults (also_free f fs) (and_then p ps) =
      rw (set_to_zero-default f p, set_all_to_zero-defaults fs ps) refl

pub length-dpf_values :
    (n alpha : ℕ) (beta : Value) (left i : ℕ) → length (dpf_values n alpha beta left i) ≡ left
unfolding dpf_values
length-dpf_values n alpha beta zero i = refl
length-dpf_values n alpha beta (suc left) i = ap suc (length-dpf_values n alpha beta left (suc i))

pub get_or-dpf_values :
    (n alpha : ℕ) (beta : Value) (left i j : ℕ)
    → j < left
    → get_or (dpf_values n alpha beta left i) j value_not_set
      ≡ (if test_bit alpha (n - (i + j) - 1) then beta else set_to_zero beta)
unfolding dpf_values
get_or-dpf_values n alpha beta zero i j h = absurd (omega arith)
get_or-dpf_values n alpha beta (suc left) i zero h =
    ap (λ k. if test_bit alpha (n - k - 1) then beta else set_to_zero beta) {x = i} {y = i + 0}
      (omega arith)
get_or-dpf_values n alpha beta (suc left) i (suc j) h =
    get_or-dpf_values n alpha beta left (suc i) j (omega arith)
    ∙ ap (λ k. if test_bit alpha (n - k - 1) then beta else set_to_zero beta) {x = suc i + j}
        {y = i + suc j} (omega arith)

pub dpf_values-object :
    {t : ElementType} {b : Element} (n alpha i : ℕ)
    → IsXorFree t
    → HasType t b
    → i < n
    → get_or (dpf_values n alpha (to_value t b) n 0) i value_not_set
      ≡ to_value t (if test_bit alpha (n - i - 1) then b else default t)
dpf_values-object {t} {b} n alpha i free typed h =
    get_or-dpf_values n alpha (to_value t b) n 0 i h
    ∙ ap (λ k. if test_bit alpha (n - k - 1) then to_value t b else set_to_zero (to_value t b))
        {x = 0 + i} {y = i} (omega arith)
    ∙ select (test_bit alpha (n - i - 1))
  where
    select :
        (c : Bool)
        → (if c then to_value t b else set_to_zero (to_value t b))
          ≡ to_value t (if c then b else default t)
    select true = refl
    select false = set_to_zero-default free typed
