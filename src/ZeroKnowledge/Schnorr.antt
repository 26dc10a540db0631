-- ===== src/ZeroKnowledge/Schnorr.antt =====
-- mpc-lib/src/common/crypto/zero_knowledge_proof/schnorr.c: proofs that the secret of a point is
-- known. A function that makes a proof returns it in place of the success.
pub mod Completeness
use mpc_lib_demo.Algebra
use mpc_lib_demo.ZeroKnowledge.{
  ZkpStatus, invalid_parameter, out_of_memory, success, unknown_error, verification_failed,
}
use mpc_lib_demo.Commitments.{Sha256}
use mpc_lib_demo.Algebra.{Algebra, AlgebraStatus, check}
use mpc_lib_demo.Base.{
  Bool, Bytes, Ptr, Result, [], err, false, if◌then◌else◌, is_empty, none, ok, replicate, some,
  true, ◌&&◌, ◌++◌, ◌==◌, ◌>>=◌, ◌||◌, ◌∷◌,
}

-- `schnorr_zkp_t`; `r` is its field `R`.
pub record SchnorrZkp : Type 0 where
  pub r : Bytes
  pub s : Bytes

pub from_algebra_status : AlgebraStatus → ZkpStatus
from_algebra_status Algebra.success = success
from_algebra_status Algebra.invalid_parameter = invalid_parameter
from_algebra_status Algebra.invalid_point = invalid_parameter
from_algebra_status Algebra.invalid_scalar = invalid_parameter
from_algebra_status Algebra.out_of_memory = out_of_memory
from_algebra_status Algebra.invalid_signature = verification_failed
from_algebra_status Algebra.insufficient_buffer = unknown_error
from_algebra_status Algebra.unknown_error = unknown_error

-- A scalar of 32 bytes that is zero
unfoldable pub is_zero : Bytes → Bool
is_zero [] = true
is_zero (b ∷ bs) = b == 0 && is_zero bs

-- The scalar one
abbrev pub one : Bytes
one = replicate 31 0 ++ 1 ∷ []

module _ (sha : Sha256) (algebra : Algebra) where
  pub challenge : Bytes → Bytes → Bytes → Bytes
  challenge prover_id r public_data =
      sha.final (sha.update (sha.update (sha.update sha.init prover_id) r) public_data)

  pub generate_impl : Bytes → Bytes → Bytes → Ptr Bytes → Result ZkpStatus SchnorrZkp
  unfolding challenge from_algebra_status
  generate_impl prover_id secret public_data randomness = do
    k ← elim randomness [ some given ↦ ok given | none ↦ check algebra.rand from_algebra_status ]
    r ← check (algebra.generator_mul k) from_algebra_status
    product ←
        check (algebra.mul_scalars secret (challenge prover_id r public_data)) from_algebra_status
    s ← check (algebra.sub_scalars k product) from_algebra_status
    ok (record { r = r; s = s })

module _ (sha : Sha256) where
  pub generate :
      Ptr Algebra → Ptr Bytes → Ptr Bytes → Ptr Bytes → Bool → Result ZkpStatus SchnorrZkp
  unfolding generate_impl
  generate (some algebra) (some prover_id) (some secret) (some public_data) true =
      if is_empty prover_id
      then err invalid_parameter
      else generate_impl sha algebra prover_id secret public_data none
  generate algebra prover_id secret public_data proof = err invalid_parameter

  -- With the point of the secret, which goes through `public_data`.
  pub generate_for_data :
      Ptr Algebra → Ptr Bytes → Ptr Bytes → Bool → Bool → Result ZkpStatus (SchnorrZkp × Bytes)
  unfolding generate_impl from_algebra_status
  generate_for_data (some algebra) (some prover_id) (some secret) true true =
      if is_empty prover_id || is_empty secret then err invalid_parameter else do
        point ← check (algebra.generator_mul_data secret) from_algebra_status
        proof ← generate_impl sha algebra prover_id secret point none
        ok (proof, point)
  generate_for_data algebra prover_id secret public_data proof = err invalid_parameter

  pub generate_with_custom_randomness :
      Ptr Algebra
      → Ptr Bytes
      → Ptr Bytes
      → Ptr Bytes
      → Ptr Bytes
      → Bool
      → Result ZkpStatus SchnorrZkp
  unfolding generate_impl is_zero
  generate_with_custom_randomness (some algebra) (some prover_id) (some secret) (some public_data)
        (some randomness) true =
      if is_empty prover_id || is_zero randomness
      then err invalid_parameter
      else generate_impl sha algebra prover_id secret public_data (some randomness)
  generate_with_custom_randomness algebra prover_id secret public_data randomness proof =
      err invalid_parameter

  answer : Result ZkpStatus Bool → ZkpStatus
  answer (err status) = status
  answer (ok true) = success
  answer (ok false) = verification_failed

  pub verify : Ptr Algebra → Ptr Bytes → Ptr Bytes → Ptr SchnorrZkp → ZkpStatus
  unfolding challenge from_algebra_status answer
  verify (some algebra) (some prover_id) (some public_data) (some proof) =
      if is_empty prover_id
      then invalid_parameter
      else answer (do
        multiple ←
            check
              (algebra.point_mul public_data (challenge sha algebra prover_id proof.r public_data))
              from_algebra_status
        response ← check (algebra.generator_mul proof.s) from_algebra_status
        check
            (algebra.verify_linear_combination proof.r (multiple ∷ response ∷ []) (one ∷ one ∷ []))
            from_algebra_status)
  verify algebra prover_id public_data proof = invalid_parameter
