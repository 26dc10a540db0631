-- ===== src/Vss/Verify.antt =====
-- `verifiable_secret_sharing_verify_share`
pub mod Shares
use mpc_lib_demo.Algebra
use mpc_lib_demo.Vss.{
  VssStatus, invalid_parameter, invalid_share, out_of_memory, success, unknown_error,
}
use mpc_lib_demo.OpenSsl.{OpenSsl}
use mpc_lib_demo.Algebra.{Algebra, check, field_size}
use mpc_lib_demo.Base.{
  Bool, Bytes, List, Ptr, Result, [], err, false, guard, if◌then◌else◌, none, ok, or_fail, some,
  suc, take, true, zero, ℕ, ◌&&◌, ◌-◌, ◌==◌, ◌>>=◌, ◌>>◌, ◌∷◌,
}

module _ (o : OpenSsl) where
  -- The powers of `x` that follow `tmp`, as scalars.
  power_vals : ℕ → ℕ → ℕ → ℕ → Result VssStatus (List Bytes)
  power_vals zero tmp x field = ok []
  power_vals (suc count) tmp x field = do
    next ← or_fail (o.bn_mod_mul tmp x field) out_of_memory
    val ← or_fail (o.bn_bn2binpad next field_size) unknown_error
    rest ← power_vals count next x field
    ok (val ∷ rest)

  x_vals : (ℕ → Bool) → Algebra → ℕ → ℕ → Result VssStatus (List Bytes)
  unfolding power_vals
  x_vals mem algebra id threshold = do
    guard (mem 0 && mem 1) out_of_memory
    x ← or_fail (o.bn_set_word id) out_of_memory
    guard (mem 2) out_of_memory
    field ← or_fail algebra.order_internal out_of_memory
    guard (mem 3) out_of_memory
    first ← or_fail (o.bn_bn2binpad 1 field_size) unknown_error
    rest ← power_vals (threshold - 1) 1 x field
    ok (first ∷ rest)

  status_of : Result VssStatus Bool → VssStatus
  status_of (err status) = status
  status_of (ok true) = success
  status_of (ok false) = invalid_share

  pub verify_share : (ℕ → Bool) → Ptr Algebra → ℕ → Ptr Bytes → ℕ → Ptr (List Bytes) → VssStatus
  unfolding x_vals status_of
  verify_share mem none id share_proof threshold proofs = invalid_parameter
  verify_share mem (some algebra) id none threshold proofs = invalid_parameter
  verify_share mem (some algebra) id (some share_proof) threshold none = invalid_parameter
  verify_share mem (some algebra) id (some share_proof) threshold (some proofs) =
      if threshold == 0
      then invalid_parameter
      else status_of (do
        vals ← x_vals mem algebra id threshold
        check (algebra.verify_linear_combination share_proof (take threshold proofs) vals)
            (λ status. unknown_error))
