-- ===== src/Dpf/Objects.antt =====
-- Key generation from C++ objects (dpf/distributed_point_function.h): `ToValue` of the class, and
-- `GenerateKeys` and `GenerateKeysIncremental` for objects in place of messages. A call registers
-- value types, so that it returns the object too.
pub mod Shares
use distributed_point_functi.Base.{ℕ, List, [], ◌∷◌, map, Status, get_or}
use distributed_point_functi.Proto.{Value, DpfKey}
use distributed_point_functi.Values.{ElementType, Element, HasType, uint, number}
use distributed_point_functi.Values.Convert.{to_value}
use distributed_point_functi.Dpf.{Dpf}
use distributed_point_functi.Dpf.Generate.{generate_keys_incremental}
use distributed_point_functi.Dpf.Create.{register_value_type}

-- `ToValue(in)` of an object.
unfoldable pub object_to_value : ElementType → Element → Dpf → Value × Dpf
object_to_value t x d = (to_value t x, register_value_type t d)

-- The conversion of the elements of beta in order.
unfoldable pub convert_betas : List (ElementType × Element) → Dpf → List Value × Dpf
unfolding object_to_value
convert_betas [] d = ([], d)
convert_betas ((t, x) ∷ betas) d =
    let converted = object_to_value t x d in
    let (values, d') = convert_betas betas converted.1 in (converted.0 ∷ values, d')

-- `GenerateKeysIncremental(alpha, beta_0, ..., beta_n)`.
unfoldable pub generate_keys_of_objects :
    Dpf → ℕ → ℕ → ℕ → List (ElementType × Element) → Status (DpfKey × DpfKey) × Dpf
generate_keys_of_objects d random_0 random_1 alpha betas =
    let (values, d') = convert_betas betas d in
    (generate_keys_incremental d' random_0 random_1 alpha values, d')

-- `GenerateKeysIncremental(alpha, beta)` for integers of 128 bits.
unfoldable pub generate_keys_of_integers : Dpf → ℕ → ℕ → ℕ → List ℕ → Status (DpfKey × DpfKey) × Dpf
unfolding generate_keys_of_objects
generate_keys_of_integers d random_0 random_1 alpha beta =
    generate_keys_of_objects d random_0 random_1 alpha (map (λ b. (uint 16, number b)) beta)

-- `GenerateKeys(alpha, beta)`.
unfoldable pub generate_keys_of_object :
    Dpf → ℕ → ℕ → ℕ → ElementType → Element → Status (DpfKey × DpfKey) × Dpf
unfolding generate_keys_of_objects
generate_keys_of_object d random_0 random_1 alpha t beta =
    generate_keys_of_objects d random_0 random_1 alpha ((t, beta) ∷ [])

-- The type and the object of a level.
abbrev pub type_at : List (ElementType × Element) → ℕ → ElementType
type_at betas h = get_or (map (λ b. b.0) betas) h (uint 1)

abbrev pub object_at : List (ElementType × Element) → ℕ → Element
object_at betas h = get_or (map (λ b. b.1) betas) h (number 0)

abbrev pub Typed : ElementType × Element → Type 0
Typed (t, x) = HasType t x
