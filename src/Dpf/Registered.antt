-- ===== src/Dpf/Registered.antt =====
-- The map of the registered value types (dpf/distributed_point_function.h): what is found after several
-- types were registered, if their serializations tell them apart.
use distributed_point_functi.Base.{
  ℕ, ◌≡◌, refl, ap, ap₂, ◌∙◌, List, [], ◌∷◌, none, some, ok, err, failed_precondition, true,
  Bool-cases, inl, inr, arith, eq→==,
}
use distributed_point_functi.Proto.{ValueType}
use distributed_point_functi.Values.{ElementType}
use distributed_point_functi.Values.Convert.{to_value_type}
use distributed_point_functi.Values.Convert.Injective.{to_value_type-injective}
use distributed_point_functi.Dpf.{
  Dpf, value_type, same_bytes, find_function, get_value_correction_function,
}
use distributed_point_functi.Dpf.Create.{register_value_type, register_value_type_impl}

pub same_bytes_refl : (xs : List ℕ) → same_bytes xs xs ≡ true
unfolding same_bytes
same_bytes_refl [] = refl
same_bytes_refl (x ∷ xs) = rw (eq→== x x refl) (same_bytes_refl xs)

eq_of_same_bytes : (xs ys : List ℕ) → same_bytes xs ys ≡ true → xs ≡ ys
unfolding same_bytes
eq_of_same_bytes [] [] e = refl
eq_of_same_bytes [] (y ∷ ys) e = cc
eq_of_same_bytes (x ∷ xs) [] e = cc
eq_of_same_bytes (x ∷ xs) (y ∷ ys) e = ground (arith, eq_of_same_bytes xs ys)

pub function_of :
    (x : Dpf) (h : ℕ) (serialize : ValueType → List ℕ) {v : ValueType} {t : ElementType}
    → x.serialize ≡ serialize
    → value_type x h ≡ v
    → find_function (serialize v) x.value_correction_functions ≡ some t
    → get_value_correction_function x h ≡ ok t
unfolding get_value_correction_function
function_of x h serialize e_0 e_1 found =
    ap (λ o. elim o [ none ↦ err failed_precondition | some t ↦ ok t ])
      (ap₂ (λ s u. find_function (s u) x.value_correction_functions) e_0 e_1 ∙ found)

-- What is found for a type.
abbrev pub FoundFor : Dpf → ElementType → Type 0
FoundFor d t = find_function (d.serialize (to_value_type t)) d.value_correction_functions ≡ some t

pub finds_registered : (t : ElementType) (d : Dpf) → FoundFor (register_value_type t d) t
unfolding register_value_type register_value_type_impl find_function
finds_registered t d = rw (same_bytes_refl (d.serialize (to_value_type t))) refl

-- Types with the same serialization are the same.
pub register_value_type-keeps :
    (u t : ElementType) (d : Dpf)
    → (d.serialize (to_value_type u) ≡ d.serialize (to_value_type t)
        → to_value_type u ≡ to_value_type t)
    → FoundFor d t
    → FoundFor (register_value_type u d) t
unfolding register_value_type register_value_type_impl find_function
register_value_type-keeps u t d apart found =
    elim (Bool-cases (same_bytes (d.serialize (to_value_type u)) (d.serialize (to_value_type t)))) [
      | inl same ↦
          rw same (ap some (to_value_type-injective u t (apart (eq_of_same_bytes _ _ same))))
      | inr other ↦ rw other found
    ]
