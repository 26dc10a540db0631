-- ===== src/Vss/Reconstruct.antt =====
-- `verifiable_secret_sharing_reconstruct`
pub mod Secret
use mpc_lib_demo.Vss.{
  Share, VssStatus, ids, insufficient_buffer, invalid_parameter, out_of_memory, success,
  unknown_error,
}
use mpc_lib_demo.OpenSsl.{OpenSsl}
use mpc_lib_demo.Algebra.{Algebra}
use mpc_lib_demo.Vss.Access.{ids_ok}
use mpc_lib_demo.Vss.Lagrange.{reconstruct_loop}
use mpc_lib_demo.Base.{
  Bool, Bytes, List, Option, Ptr, if◌then◌else◌, is_empty, leb, length, ltb, none, not, some, ℕ,
  ◌&&◌, ◌==◌, ◌||◌,
}

-- The status, the length through `out_secret_len` and the bytes written to `secret`.
pub record Reconstructed : Type 0 where
  pub status : VssStatus
  pub out_secret_len : Option ℕ
  pub secret : Option Bytes

abbrev failed : VssStatus → Reconstructed
failed status = record { status = status; out_secret_len = none; secret = none }

module _ (o : OpenSsl) where
  sum_of_shares : (ℕ → Bool) → Algebra → List Share → Option ℕ
  sum_of_shares mem algebra shares = elim algebra.order_internal [
    | none ↦ none
    | some bn_prime ↦
        if mem 1 && mem 2 && mem 3 then reconstruct_loop o bn_prime shares 0 shares 0 else none
  ]

  -- The result, if the buffer for it is long enough. A null buffer only asks for the length.
  write_secret : Bool → ℕ → ℕ → Reconstructed
  write_secret secret secret_len sum =
      let length_only : VssStatus → Reconstructed = λ status. record {
        status = status;
        out_secret_len = some (o.bn_num_bytes sum);
        secret = none;
      } in
      if leb (o.bn_num_bytes sum) secret_len
      then if secret
        then if ltb 0 (length (o.bn_bn2bin sum))
          then record {
            status = success;
            out_secret_len = some (o.bn_num_bytes sum);
            secret = some (o.bn_bn2bin sum);
          }
          else length_only unknown_error
        else length_only success
      else length_only insufficient_buffer

  pub reconstruct : (ℕ → Bool) → Ptr Algebra → Ptr (List Share) → Bool → ℕ → Reconstructed
  unfolding sum_of_shares write_secret
  reconstruct mem none shares secret secret_len = failed invalid_parameter
  reconstruct mem (some algebra) none secret secret_len = failed invalid_parameter
  reconstruct mem (some algebra) (some shares) secret secret_len =
      if is_empty shares || (not secret && not (secret_len == 0))
      then failed invalid_parameter
      else if not (ids_ok (ids shares))
      then failed invalid_parameter
      else if not (mem 0)
      then failed out_of_memory
      else elim (sum_of_shares mem algebra shares) [
        | none ↦ failed out_of_memory
        | some sum ↦ write_secret secret secret_len sum
      ]
