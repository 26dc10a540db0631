-- ===== src/RingPedersen/Commitments.antt =====
-- Commitments of ring_pedersen.c and their verification.
pub mod Batch
pub mod Opening
use mpc_lib_demo.OpenSsl.{OpenSsl}
use mpc_lib_demo.RingPedersen.{
  PrivateKey, PublicKey, RingPedersenStatus, buffer_too_short, invalid_commitment,
  invalid_parameter, out_of_memory, success, unknown_error,
}
use mpc_lib_demo.Base.{
  Bool, Bytes, Option, Ptr, Result, after, err, false, guard, if◌then◌else◌, is_empty, length, ltb,
  none, not, ok, or_fail, some, true, ℕ, ◌&&◌, ◌==◌, ◌>>=◌, ◌>>◌, ◌||◌,
}

-- The status, the length through the last pointer, and the bytes written to the result.
pub record Output : Type 0 where
  pub status : RingPedersenStatus
  pub real_len : Option ℕ
  pub commitment : Option Bytes

refuse : RingPedersenStatus → Option ℕ → Output
refuse status real_len = record { status = status; real_len = real_len; commitment = none }

-- What a step returns as its status
pub status_of : Result RingPedersenStatus Bool → RingPedersenStatus
status_of (err status) = status
status_of (ok true) = success
status_of (ok false) = invalid_commitment

module _ (o : OpenSsl) where
  pub create_commitment_internal : (ℕ → Bool) → PublicKey → ℕ → ℕ → Result RingPedersenStatus ℕ
  create_commitment_internal mem key x r = do
    guard (mem 0) out_of_memory
    or_fail (o.bn_mod_exp2_mont key.s x key.t r key.n) unknown_error

  commitment_number : (ℕ → Bool) → PublicKey → Bytes → Bytes → Result RingPedersenStatus Bytes
  unfolding create_commitment_internal
  commitment_number mem key x r = do
    guard (mem 0 && mem 1 && mem 2) out_of_memory
    bn_x ← or_fail (o.bn_bin2bn x) out_of_memory
    bn_r ← or_fail (o.bn_bin2bn r) out_of_memory
    value ← create_commitment_internal (after 3 mem) key bn_x bn_r
    or_fail (o.bn_bn2binpad value (o.bn_num_bytes key.n)) unknown_error

  -- `commitment` tells whether the buffer is not null, `commitment_len` is its length.
  pub create_commitment : (ℕ → Bool) → Ptr PublicKey → Ptr Bytes → Ptr Bytes → Bool → ℕ → Output
  unfolding refuse commitment_number
  create_commitment mem (some key) (some x) (some r) commitment commitment_len =
      let needed = o.bn_num_bytes key.n in
      if is_empty x || is_empty r || (not commitment && not (commitment_len == 0))
      then refuse invalid_parameter none
      else if ltb commitment_len needed
      then refuse buffer_too_short (some needed)
      else elim (commitment_number mem key x r) [
        | err status ↦ refuse status (some needed)
        | ok bytes ↦ record { status = success; real_len = some needed; commitment = some bytes }
      ]
  create_commitment mem key x r commitment commitment_len = refuse invalid_parameter none

  -- The exponent of `t` that opens a commitment: `lamda * x + r` modulo `phi_n`
  pub opening_exponent : PrivateKey → ℕ → ℕ → Result RingPedersenStatus ℕ
  opening_exponent key x r = do
    product ← or_fail (o.bn_mod_mul key.lamda x key.phi_n) unknown_error
    or_fail (o.bn_mod_add product r key.phi_n) unknown_error

  verify_commitment_internal : (ℕ → Bool) → PrivateKey → ℕ → ℕ → ℕ → Result RingPedersenStatus Bool
  unfolding opening_exponent
  verify_commitment_internal mem key x r commitment = do
    guard (mem 0) out_of_memory
    exponent ← opening_exponent key x r
    power ← or_fail (o.bn_mod_exp_mont key.public.t exponent key.public.n) unknown_error
    ok (power == commitment)

  pub verify_commitment :
      (ℕ → Bool) → Ptr PrivateKey → Ptr Bytes → Ptr Bytes → Ptr Bytes → RingPedersenStatus
  unfolding status_of verify_commitment_internal
  verify_commitment mem (some key) (some x) (some r) (some commitment) = status_of (do
    guard (not (is_empty x || is_empty r || is_empty commitment)) invalid_parameter
    guard (length commitment == o.bn_num_bytes key.public.n) invalid_parameter
    guard (mem 0) out_of_memory
    guard (mem 1 && mem 2 && mem 3) out_of_memory
    bn_x ← or_fail (o.bn_bin2bn x) out_of_memory
    bn_r ← or_fail (o.bn_bin2bn r) out_of_memory
    commit ← or_fail (o.bn_bin2bn commitment) out_of_memory
    verify_commitment_internal (after 4 mem) key bn_x bn_r commit)
  verify_commitment mem key x r commitment = invalid_parameter
