-- ===== src/Lib.antt =====
-- Verification of the distributed point function library.
--
-- A client splits a point function (zero everywhere but at one secret point alpha, where it is beta)
-- into two keys. Each of two servers evaluates its key, and the results are additive shares. Inputs
-- have up to 128 bits, and an incremental DPF has a value at several prefix lengths of alpha, its
-- hierarchy levels. A key holds a seed and one correction word for each level of a binary tree, whose
-- nodes are pseudorandom seeds with a control bit.
--
-- The files, and the code each is about:
-- - Base and its children: tests on numbers, lists over native numbers, status values
--   (dpf/status_macros.h), exclusive or, 128-bit numbers, ints.
-- - Proto: the messages (dpf/distributed_point_function.proto).
-- - Values: the C++ value types and their operators (dpf/int_mod_n.h, dpf/xor_wrapper.h, dpf/tuple.h);
--   Values/Convert, Values/Bytes and Values/Correction: `ValueTypeHelper` and the free functions of
--   dpf/internal/value_type_helpers.h and .cc. A template argument T is a value of `ElementType`.
--   Values/Bytes/Memory has the layout of objects in memory, to compare the conversion with.
--   Values/Samples is `SampleFromBytes` of dpf/int_mod_n.h, whose sizes become ints.
-- - Aes: the fixed-key hash (dpf/aes_128_fixed_key_hash.h and .cc). OpenSSL's cipher is a parameter, a
--   field of the hash object; the hypothesis on it is that ECB mode encrypts each block by itself.
-- - EvaluatePrg: evaluation along paths (dpf/internal/evaluate_prg_hwy.h and .cc), the version without
--   SIMD. EvaluatePrg/Walk is the reference: one walk down the tree. EvaluatePrg/Highway has the vector
--   operations of the Highway library, EvaluatePrg/Vectors the helpers on vectors and masks and the hash
--   of dpf/internal/aes_128_fixed_key_hash_hwy.h, and EvaluatePrg/Seeds `EvaluateSeedsHwy` with its three
--   loops. A vector of bytes is read as its blocks of 128 bits, and a position counts blocks. The
--   object calls the version without SIMD, which is what the scalar target of Highway runs.
-- - Security: the security level of integers modulo N (dpf/int_mod_n.cc), and `Double`, the interface of
--   floating point numbers.
-- - Validator: the checks of values and keys (dpf/internal/proto_validator.h and .cc). Its children:
--   Types, value types and `BitsNeeded` (dpf/internal/value_type_helpers.cc); Create,
--   `ProtoValidator::Create`, with its contract in Setup and Valid; Simple and Bits, what the bits are
--   enough for; Context, evaluation contexts; Accepts, which values pass.
-- - Dpf: the object (dpf/distributed_point_function.h and .cc) and the helpers of key generation,
--   Dpf/Generate, and of `EvaluateAt`, Dpf/Evaluate. Dpf/Tree has the invariant of the tree, and
--   Dpf/Correct the correctness of keys and evaluation together. Dpf/Total has what an object must
--   satisfy (`IsDpf`) so that both succeed, Dpf/Create the construction, which establishes it, with the
--   room for values in Dpf/Create/Room, Dpf/Registered the map of value types, and Dpf/Objects key
--   generation from C++ objects, where a parameter pack is a list of types and objects.
--   Dpf/Expand is `ExpandSeeds`, Dpf/Context the partial evaluations of a context, and Dpf/Until
--   `EvaluateUntil`, `EvaluateNext` and `EvaluateAt` with a context, with the theorems on them below it.
-- - Dcf: comparison functions over an incremental DPF (dcf/distributed_comparison_function.h and .cc).
--   Dcf/Create has what `Create` sets up, Dcf/Zero and Dcf/Levels the values of the levels, Dcf/Compare
--   the loop of `Evaluate`, and Dcf/Shares the functions from end to end.
-- - Mic: the gate that tells whether a masked input lies in each of several intervals
--   (dcf/fss_gates/multiple_interval_containment.h and .cc), with its arithmetic in Mic/Masks and
--   Mic/Outputs, its loops in Mic/Intervals, and the gate from end to end in Mic/Shares. The random
--   numbers of dcf/fss_gates/prng/basic_rng.h are arguments.
-- - Tests: the theorems at concrete inputs.
--
-- How they interact: `ProtoValidator::Create` gives each hierarchy level its level of the tree, and
-- `CreateIncremental` the number of blocks of a value. Key generation and evaluation use both, through
-- the object's fields. An evaluation context holds a key, the hierarchy level that it was evaluated on,
-- and the nodes of the tree from which the next call goes on.
--
-- State and effects: an array that is written in place is a list that is returned, and a context
-- that a call updates is returned with the outputs. A status is a value of `Status`, without its
-- message; a failed `CHECK` is the code `crash`, and so is undefined behaviour that the source
-- can run into: an int that overflows, a division by zero, a floating point number converted to
-- an int that cannot hold it. Random seeds are arguments of key generation. The keys and control
-- bits that `GenerateNext` updates are the fields of `State`. A map is a list of entries, in
-- which the newest for a key counts.
--
-- Bounds: numbers are natural numbers, and the wrap-around of the source's integers is written
-- out. An int that can be negative is its bit pattern (Base/Ints). An int32 field of a message is
-- a natural number, as a negative one is refused before its use; the previous hierarchy level -1
-- of a fresh context is `none`, and so is a negative level of partial evaluations, which is not
-- refused. The loops over batches have one unit of fuel for each block or seed, which is enough,
-- since every batch takes at least one: the results on them hold for inputs of any length. The
-- loops over vectors have one unit for each seed, which is enough, since a vector has at least
-- one block. All other loops are structural.
--
-- Parameters: the OpenSSL calls, with the hypothesis that ECB mode encrypts each block by itself,
-- and that the round keys of AES_set_encrypt_key make up the cipher; the operations of the
-- Highway library, with what each does to a block or to a mask bit as a law (`IsHighway`); the
-- deterministic serialization of a value type, a field of the object; floating point arithmetic,
-- with the hypothesis that the logarithm of a positive int, rounded up, is not below the exact
-- one; the deterministic serialization gives different value types different bytes where a
-- theorem says so.
--
-- Not modelled: failed memory allocations, but for the buffer of `EvaluateSeedsHwy`; benchmarks,
-- experiments and tests.
pub mod Aes
pub mod Base
pub mod Dcf
pub mod Dpf
pub mod EvaluatePrg
pub mod Mic
pub mod Proto
pub mod Security
pub mod Tests
pub mod Validator
pub mod Values
