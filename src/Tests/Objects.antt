-- ===== src/Tests/Objects.antt =====
-- Keys from an object of C++ type uint64_t, on a constructed DPF.
use distributed_point_functi.Base.{
  ℕ, zero, suc, ◌/◌, ◌^◌, ◌<◌, ◌≡◌, refl, List, [], ◌∷◌, map, ok, length, arith, ◌==◌,
  if◌then◌else◌,
}
use distributed_point_functi.Proto.{DpfKey}
use distributed_point_functi.Values.{Element, ElementType, uint, number, is_uint, default}
use distributed_point_functi.Values.Convert.{to_value_type}
use distributed_point_functi.Dpf.Evaluate.{evaluate_at}
use distributed_point_functi.Dpf.Correct.Points.{sums}
use distributed_point_functi.Dpf.Create.{register_value_type}
use distributed_point_functi.Validator.Simple.{IsSimple}
use distributed_point_functi.Dpf.Objects.{convert_betas, generate_keys_of_objects, type_at}
use distributed_point_functi.Dpf.Objects.Shares.{generate_keys_of_objects-shares}
use distributed_point_functi.Tests.Create.{created, ps, openssl, serialize, creates, simple}
use distributed_point_functi.Tests.Setup.{cipher}
use distributed_point_functi.Tests.Doubles.{whole, whole-RoundsUp}

abbrev betas : List (ElementType × Element)
betas = (uint 8, number 42) ∷ []

all_simple : (i : ℕ) → i < length betas → IsSimple (type_at betas i)
all_simple zero below = simple
all_simple (suc i) below = absurd (omega arith)

apart :
    (i j : ℕ)
    → i < length betas
    → j < length betas
    → serialize (to_value_type (type_at betas j)) ≡ serialize (to_value_type (type_at betas i))
    → to_value_type (type_at betas j) ≡ to_value_type (type_at betas i)
apart zero zero h k e = refl
apart (suc i) j h k e = absurd (omega arith)
apart zero (suc j) h k e = absurd (omega arith)

generate_keys_of_objects-shares_example :
    (key_0 key_1 : DpfKey) × (out_0 out_1 : List Element) × (generate_keys_of_objects created 1000
        2000 2 betas
      ≡ (ok (key_0, key_1), (convert_betas betas created).1))
    × (evaluate_at (convert_betas betas created).1 (uint 8) key_0 0 (0 ∷ 2 ∷ 3 ∷ []) ≡ ok out_0)
    × (evaluate_at (convert_betas betas created).1 (uint 8) key_1 0 (0 ∷ 2 ∷ 3 ∷ []) ≡ ok out_1)
    × (sums (uint 8) out_0 out_1
        ≡ map (λ x. if x == 2 / 2 ^ 0 then number 42 else default (uint 8)) (0 ∷ 2 ∷ 3 ∷ []))
unfolding convert_betas register_value_type to_value_type
generate_keys_of_objects-shares_example =
    generate_keys_of_objects-shares openssl serialize ps created betas cipher 2 1000 2000 0
      (0 ∷ 2 ∷ 3 ∷ []) whole-RoundsUp (λ key. record { encrypts = λ xs. refl }) creates all_simple
      apart (is_uint (omega arith), tt) refl (omega arith) (omega arith)
      (omega arith, (omega arith, (omega arith, tt)))
