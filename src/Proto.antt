-- ===== src/Proto.antt =====
-- The messages of dpf/distributed_point_function.proto. A message field that may be absent is an
-- `Option`; an `int32` field is a number, since each negative one here is refused before it is used.
use distributed_point_functi.Base.{
  ℕ, ◌≡◌, Bool, List, Option, none, some, high64, low64, make_uint128, make-high64-low64,
}

-- A 128-bit block as two 64-bit halves.
pub record Block : Type 0 where
  pub high : ℕ
  pub low : ℕ

abbrev pub block_to_uint128 : Block → ℕ
block_to_uint128 b = make_uint128 b.high b.low

abbrev pub uint128_to_block : ℕ → Block
uint128_to_block x = record { high = high64 x; low = low64 x }

-- An absent block reads as zero.
abbrev pub block_or_zero : Option Block → Block
block_or_zero none = record { high = 0; low = 0 }
block_or_zero (some b) = b

pub block-round_trip : (x : ℕ) → block_to_uint128 (uint128_to_block x) ≡ x
block-round_trip x = make-high64-low64 x

-- Value.Integer: a `oneof` of a 64-bit and a 128-bit number.
pub data ValueInteger : Type 0 where
  integer_not_set : ValueInteger
  value_uint64 : ℕ → ValueInteger
  value_uint128 : Block → ValueInteger

mutual
  pub data Value : Type 0 where
    value_not_set : Value
    integer : ValueInteger → Value
    tuple : Values → Value
    int_mod_n : ValueInteger → Value
    xor_wrapper : ValueInteger → Value

  pub data Values : Type 0 where
    nil : Values
    cons : Value → Values → Values

mutual
  -- The fields of `integer`, `int_mod_n` and `xor_wrapper` hold the bit size.
  pub data ValueType : Type 0 where
    type_not_set : ValueType
    integer_type : ℕ → ValueType
    tuple_type : ValueTypes → ValueType
    int_mod_n_type : ℕ → ValueInteger → ValueType
    xor_wrapper_type : ℕ → ValueType

  pub data ValueTypes : Type 0 where
    no_types : ValueTypes
    more_types : ValueType → ValueTypes → ValueTypes

pub record CorrectionWord : Type 0 where
  pub seed : Block
  pub control_left : Bool
  pub control_right : Bool
  pub value_correction : List Value

pub record DpfKey : Type 0 where
  pub seed : Option Block
  pub correction_words : List CorrectionWord
  pub party : ℕ
  pub last_level_value_correction : List Value

-- `security_parameter` is a double and is left out.
pub record DpfParameters : Type 0 where
  pub log_domain_size : ℕ
  pub value_type : Option ValueType

-- A message that is absent reads as one with no type.
abbrev pub get_or_type : Option ValueType → ValueType
get_or_type none = type_not_set
get_or_type (some t) = t

-- A prefix in the evaluation tree, with the node that it leads to.
pub record PartialEvaluation : Type 0 where
  pub prefix : Block
  pub seed : Block
  pub control_bit : Bool
