-- ===== src/Values/Correction.antt =====
-- Value correction words (dpf/internal/value_type_helpers.h): `ComputeValueCorrectionFor<T>`,
-- `ValuesToArray<T>`, and how an evaluation applies a correction to its element.
pub mod Secret
use distributed_point_functi.Base.{
  ℕ, zero, suc, ◌≡◌, Bool, List, [], ◌∷◌, map, Status, ok, err, invalid_argument, ◌>>=◌, ◌>>◌,
  guard, ◌==◌, if◌then◌else◌, length,
}
use distributed_point_functi.Proto.{Value}
use distributed_point_functi.Values.{ElementType, Element, add, neg, sub}
use distributed_point_functi.Values.Convert.{from_value, to_value}
use distributed_point_functi.Values.Bytes.{convert_bytes_to_array_of, elements_per_block}

-- `ints_b[block_index] += beta`.
unfoldable pub add_at : ElementType → ℕ → Element → List Element → List Element
add_at t i beta [] = []
add_at t zero beta (b ∷ bs) = add t b beta ∷ bs
add_at t (suc i) beta (b ∷ bs) = b ∷ add_at t i beta bs

-- One element of the loop that adds up the shares: `ints_b[i] - ints_a[i]`, inverted if needed.
unfoldable pub correction_of : ElementType → Bool → Element → Element → Element
correction_of t invert a b = if invert then neg t (sub t b a) else sub t b a

unfoldable pub corrections_of : ElementType → Bool → List Element → List Element → List Element
corrections_of t invert (a ∷ as') (b ∷ bs) =
    correction_of t invert a b ∷ corrections_of t invert as' bs
corrections_of t invert _ _ = []

-- `ComputeValueCorrectionFor<T>`.
unfoldable pub compute_value_correction_for :
    ElementType → List ℕ → List ℕ → ℕ → Value → Bool → Status (List Value)
compute_value_correction_for t seed_a seed_b block_index beta invert = do
  beta_t ← from_value t beta
  ints_a ← convert_bytes_to_array_of t seed_a
  ints_b ← convert_bytes_to_array_of t seed_b
  ok (map (to_value t) (corrections_of t invert ints_a (add_at t block_index beta_t ints_b)))

unfoldable pub from_each_value : ElementType → List Value → Status (List Element)
from_each_value t [] = ok []
from_each_value t (v ∷ vs) = do e ← from_value t v; es ← from_each_value t vs; ok (e ∷ es)

-- `ValuesToArray<T>`.
unfoldable pub values_to_array : ElementType → List Value → Status (List Element)
values_to_array t values = do
  guard (length values == elements_per_block t) invalid_argument
  from_each_value t values

-- What an evaluation returns for an element: corrected if the control bit is set, and negated by
-- party 1.
unfoldable pub correct_output : ElementType → Bool → ℕ → Element → Element → Element
correct_output t control_bit party correction e =
    let corrected = if control_bit then add t e correction else e in
    if party == 1 then neg t corrected else corrected
