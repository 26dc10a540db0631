-- ===== src/Algebra.antt =====
-- mpc-lib/include/crypto/elliptic_curve_algebra/: the table of functions through which the
-- protocols use a curve. Points and scalars are their encodings: 33 and 32 bytes, scalars
-- big-endian. `rand` is what one call of it gives.
pub mod Curve
use mpc_lib_demo.Base.{Bool, Bytes, List, Ptr, Result, err, ok, ℕ}

-- `elliptic_curve_algebra_status`
pub data AlgebraStatus : Type 0 where
  success unknown_error invalid_parameter invalid_scalar invalid_point insufficient_buffer
        out_of_memory invalid_signature :
      AlgebraStatus

-- ELLIPTIC_CURVE_FIELD_SIZE and ELLIPTIC_CURVE_COMPRESSED_POINT_LEN
abbrev pub field_size : ℕ
field_size = 32

abbrev pub point_len : ℕ
point_len = 33

-- A call gives back its status and what it wrote to the result.
abbrev pub Call : Type 0
Call = AlgebraStatus × Bytes

-- `elliptic_curve256_algebra_ctx_t`, less `release` and the functions that nothing here calls
pub record Algebra : Type 0 where
  pub order : Bytes
  pub order_internal : Ptr ℕ
  pub generator_mul_data : Bytes → Call
  pub verify_linear_combination : Bytes → List Bytes → List Bytes → AlgebraStatus × Bool
  pub generator_mul : Bytes → Call
  pub add_points : Bytes → Bytes → Call
  pub point_mul : Bytes → Bytes → Call
  pub add_scalars : Bytes → Bytes → Call
  pub sub_scalars : Bytes → Bytes → Call
  pub mul_scalars : Bytes → Bytes → Call
  pub hash_on_curve : Bytes → Call
  pub rand : Call

-- `if (status != ELLIPTIC_CURVE_ALGEBRA_SUCCESS) return convert(status);`
abbrev pub check {ℓ} :
    {E : Type 0} {A : Type ℓ} → AlgebraStatus × A → (AlgebraStatus → E) → Result E A
check (success, a) convert = ok a
check (unknown_error, a) convert = err (convert unknown_error)
check (invalid_parameter, a) convert = err (convert invalid_parameter)
check (invalid_scalar, a) convert = err (convert invalid_scalar)
check (invalid_point, a) convert = err (convert invalid_point)
check (insufficient_buffer, a) convert = err (convert insufficient_buffer)
check (out_of_memory, a) convert = err (convert out_of_memory)
check (invalid_signature, a) convert = err (convert invalid_signature)
