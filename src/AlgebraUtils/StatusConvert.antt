-- ===== src/AlgebraUtils/StatusConvert.antt =====
-- mpc-lib/src/common/crypto/algebra_utils/status_convert.c: a module's status in terms of another's.
use mpc_lib_demo.Algebra
use mpc_lib_demo.Drng
use mpc_lib_demo.Paillier
use mpc_lib_demo.ZeroKnowledge
use mpc_lib_demo.RingPedersen
use mpc_lib_demo.Base.{arith, ◌↔◌, ◌≡◌}
use mpc_lib_demo.Algebra.{AlgebraStatus}
use mpc_lib_demo.Drng.{DrngStatus}
use mpc_lib_demo.Paillier.{PaillierStatus}
use mpc_lib_demo.ZeroKnowledge.{ZkpStatus}
use mpc_lib_demo.RingPedersen.{RingPedersenStatus}

pub algebra_to_ring_pedersen_status : AlgebraStatus → RingPedersenStatus
algebra_to_ring_pedersen_status Algebra.success = RingPedersen.success
algebra_to_ring_pedersen_status Algebra.unknown_error = RingPedersen.unknown_error
algebra_to_ring_pedersen_status Algebra.invalid_parameter = RingPedersen.invalid_parameter
algebra_to_ring_pedersen_status Algebra.out_of_memory = RingPedersen.out_of_memory
algebra_to_ring_pedersen_status Algebra.insufficient_buffer = RingPedersen.buffer_too_short
algebra_to_ring_pedersen_status Algebra.invalid_scalar = RingPedersen.invalid_parameter
algebra_to_ring_pedersen_status Algebra.invalid_point = RingPedersen.invalid_parameter
algebra_to_ring_pedersen_status Algebra.invalid_signature = RingPedersen.invalid_commitment

pub convert_drng_to_zkp_status : DrngStatus → ZkpStatus
convert_drng_to_zkp_status Drng.success = ZeroKnowledge.success
convert_drng_to_zkp_status Drng.invalid_parameter = ZeroKnowledge.invalid_parameter
convert_drng_to_zkp_status Drng.out_of_memory = ZeroKnowledge.out_of_memory
convert_drng_to_zkp_status Drng.internal_error = ZeroKnowledge.unknown_error

pub convert_paillier_to_zkp_status : PaillierStatus → ZkpStatus
convert_paillier_to_zkp_status Paillier.success = ZeroKnowledge.success
convert_paillier_to_zkp_status Paillier.unknown = ZeroKnowledge.unknown_error
convert_paillier_to_zkp_status Paillier.out_of_memory = ZeroKnowledge.out_of_memory
convert_paillier_to_zkp_status Paillier.invalid_param = ZeroKnowledge.invalid_parameter
convert_paillier_to_zkp_status Paillier.keylen_too_short = ZeroKnowledge.invalid_parameter
convert_paillier_to_zkp_status Paillier.invalid_plain_text = ZeroKnowledge.invalid_parameter
convert_paillier_to_zkp_status Paillier.invalid_cipher_text = ZeroKnowledge.invalid_parameter
convert_paillier_to_zkp_status Paillier.invalid_randomness = ZeroKnowledge.invalid_parameter
convert_paillier_to_zkp_status Paillier.invalid_key = ZeroKnowledge.invalid_parameter
convert_paillier_to_zkp_status Paillier.invalid_proof = ZeroKnowledge.verification_failed
convert_paillier_to_zkp_status Paillier.buffer_too_short = ZeroKnowledge.insufficient_buffer
convert_paillier_to_zkp_status (Paillier.openssl_error code) = ZeroKnowledge.unknown_error

pub convert_ring_pedersen_to_zkp_status : RingPedersenStatus → ZkpStatus
convert_ring_pedersen_to_zkp_status RingPedersen.success = ZeroKnowledge.success
convert_ring_pedersen_to_zkp_status RingPedersen.invalid_parameter = ZeroKnowledge.invalid_parameter
convert_ring_pedersen_to_zkp_status RingPedersen.out_of_memory = ZeroKnowledge.out_of_memory
convert_ring_pedersen_to_zkp_status RingPedersen.unknown_error = ZeroKnowledge.unknown_error
convert_ring_pedersen_to_zkp_status RingPedersen.buffer_too_short =
    ZeroKnowledge.insufficient_buffer
convert_ring_pedersen_to_zkp_status RingPedersen.keylen_too_short = ZeroKnowledge.invalid_parameter
convert_ring_pedersen_to_zkp_status RingPedersen.invalid_commitment = ZeroKnowledge.unknown_error

pub convert_algebra_to_zkp_status : AlgebraStatus → ZkpStatus
convert_algebra_to_zkp_status Algebra.success = ZeroKnowledge.success
convert_algebra_to_zkp_status Algebra.unknown_error = ZeroKnowledge.unknown_error
convert_algebra_to_zkp_status Algebra.invalid_parameter = ZeroKnowledge.invalid_parameter
convert_algebra_to_zkp_status Algebra.out_of_memory = ZeroKnowledge.out_of_memory
convert_algebra_to_zkp_status Algebra.insufficient_buffer = ZeroKnowledge.insufficient_buffer
convert_algebra_to_zkp_status Algebra.invalid_scalar = ZeroKnowledge.invalid_parameter
convert_algebra_to_zkp_status Algebra.invalid_point = ZeroKnowledge.invalid_parameter
convert_algebra_to_zkp_status Algebra.invalid_signature = ZeroKnowledge.verification_failed

-- A status of another module is converted to a success exactly when it is one.
pub convert_success_iff :
    (a : AlgebraStatus) (d : DrngStatus) (p : PaillierStatus) (r : RingPedersenStatus)
    → ((algebra_to_ring_pedersen_status a ≡ RingPedersen.success) ↔ (a ≡ Algebra.success))
      × ((convert_algebra_to_zkp_status a ≡ ZeroKnowledge.success) ↔ (a ≡ Algebra.success))
      × ((convert_drng_to_zkp_status d ≡ ZeroKnowledge.success) ↔ (d ≡ Drng.success))
      × ((convert_paillier_to_zkp_status p ≡ ZeroKnowledge.success) ↔ (p ≡ Paillier.success))
      × ((convert_ring_pedersen_to_zkp_status r ≡ ZeroKnowledge.success)
          ↔ (r ≡ RingPedersen.success))
unfolding algebra_to_ring_pedersen_status convert_algebra_to_zkp_status convert_drng_to_zkp_status
    convert_paillier_to_zkp_status convert_ring_pedersen_to_zkp_status
convert_success_iff a d p r = (grind arith, grind arith, grind arith, grind arith, grind arith)
