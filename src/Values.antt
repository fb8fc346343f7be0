-- ===== src/Values.antt =====
-- The C++ types that a DPF can output, and their arithmetic: unsigned integers, IntModN
-- (dpf/int_mod_n.h), XorWrapper (dpf/xor_wrapper.h) and Tuple (dpf/tuple.h). A template argument T
-- is an `ElementType`, and an object of type T an `Element`.
pub mod Group
pub mod Convert
pub mod Bytes
pub mod Shares
pub mod Samples
pub mod Correction
use distributed_point_functi.Base.{
  ℕ, zero, suc, ◌+◌, ◌-◌, ◌*◌, ◌%◌, ◌^◌, ◌≤◌, ◌<◌, Bool, true, false, bit_xor, leb, if◌then◌else◌,
}

mutual
  pub data ElementType : Type 0 where
    -- uint8_t to absl::uint128, by `sizeof`.
    uint : ℕ → ElementType
    -- IntModN<BaseInteger, kModulus>, by `sizeof(BaseInteger)`.
    mod_int : ℕ → ℕ → ElementType
    -- XorWrapper<T> of an unsigned integer, by `sizeof(T)`.
    xor_uint : ℕ → ElementType
    tuple_of : ElementTypes → ElementType

  pub data ElementTypes : Type 0 where
    no_more : ElementTypes
    also : ElementType → ElementTypes → ElementTypes

mutual
  pub data Element : Type 0 where
    number : ℕ → Element
    elements : Elements → Element

  pub data Elements : Type 0 where
    empty : Elements
    join : Element → Elements → Elements

-- 2 ^ (8 * sizeof(T)).
abbrev pub range : ℕ → ℕ
range size = 2 ^ (8 * size)

-- Which objects a type has.
mutual
  pub data HasType : ElementType → Element → Type 0 where
    is_uint : {size a : ℕ} → a < range size → HasType (uint size) (number a)
    is_mod_int : {size n a : ℕ} → a < n → n ≤ range size → HasType (mod_int size n) (number a)
    is_xor_uint : {size a : ℕ} → a < range size → HasType (xor_uint size) (number a)
    is_tuple :
        {ts : ElementTypes} {xs : Elements} → HasTypes ts xs → HasType (tuple_of ts) (elements xs)

  pub data HasTypes : ElementTypes → Elements → Type 0 where
    at_end : HasTypes no_more empty
    and_then :
        {t : ElementType} {ts : ElementTypes} {x : Element} {xs : Elements}
        → HasType t x
        → HasTypes ts xs
        → HasTypes (also t ts) (join x xs)

-- The static assertion on IntModN: the modulus fits the base integer; a modulus of 0 divides by 0.
mutual
  pub data IsSupported : ElementType → Type 0 where
    uint_supported : {size : ℕ} → IsSupported (uint size)
    mod_int_supported : {size n : ℕ} → 0 < n → n ≤ range size → IsSupported (mod_int size n)
    xor_uint_supported : {size : ℕ} → IsSupported (xor_uint size)
    tuple_supported : {ts : ElementTypes} → AreSupported ts → IsSupported (tuple_of ts)

  pub data AreSupported : ElementTypes → Type 0 where
    none_supported : AreSupported no_more
    also_supported :
        {t : ElementType} {ts : ElementTypes}
        → IsSupported t
        → AreSupported ts
        → AreSupported (also t ts)

-- `IntModNImpl::SubtractBaseInteger` and `AddBaseInteger`, on a value below the modulus.
unfoldable pub subtract_base_integer : ℕ → ℕ → ℕ → ℕ
subtract_base_integer n value a = if leb a value then value - a else n - a + value

unfoldable pub add_base_integer : ℕ → ℕ → ℕ → ℕ
unfolding subtract_base_integer
add_base_integer n value a = subtract_base_integer n value (n - a)

-- `T{}`.
unfoldable mutual
  pub default : ElementType → Element
  default (uint size) = number 0
  default (mod_int size n) = number 0
  default (xor_uint size) = number 0
  default (tuple_of ts) = elements (defaults ts)

  pub defaults : ElementTypes → Elements
  defaults no_more = empty
  defaults (also t ts) = join (default t) (defaults ts)

-- `operator+`. Operands of another type do not compile in C++; here the first is returned.
unfoldable mutual
  unfolding add_base_integer

  pub add : ElementType → Element → Element → Element
  add (uint size) (number a) (number b) = number ((a + b) % range size)
  add (mod_int size n) (number a) (number b) = number (add_base_integer n a b)
  add (xor_uint size) (number a) (number b) = number (bit_xor a b)
  add (tuple_of ts) (elements xs) (elements ys) = elements (adds ts xs ys)
  add _ a _ = a

  pub adds : ElementTypes → Elements → Elements → Elements
  adds (also t ts) (join a xs) (join b ys) = join (add t a b) (adds ts xs ys)
  adds _ xs _ = xs

-- Unary `operator-`. On XorWrapper it does nothing.
unfoldable mutual
  unfolding subtract_base_integer

  pub neg : ElementType → Element → Element
  neg (uint size) (number a) = number ((range size - a) % range size)
  neg (mod_int size n) (number a) = number (subtract_base_integer n 0 a)
  neg (xor_uint size) (number a) = number a
  neg (tuple_of ts) (elements xs) = elements (negs ts xs)
  neg _ a = a

  pub negs : ElementTypes → Elements → Elements
  negs (also t ts) (join a xs) = join (neg t a) (negs ts xs)
  negs _ xs = xs

-- Binary `operator-`; for tuples it is defined xs `lhs + (-rhs)`.
unfoldable pub sub : ElementType → Element → Element → Element
unfolding add neg
sub (uint size) (number a) (number b) = number ((a + range size - b) % range size)
sub (mod_int size n) (number a) (number b) = number (subtract_base_integer n a b)
sub (xor_uint size) (number a) (number b) = number (bit_xor a b)
sub t a b = add t a (neg t b)
