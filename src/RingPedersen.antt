-- ===== src/RingPedersen.antt =====
-- mpc-lib/src/common/crypto/commitments/ring_pedersen.c: Pedersen commitments modulo a number
-- whose factors the verifier knows.
--
-- `mem k` tells whether the k-th allocation of a call succeeds. The Montgomery context of a key only
-- keeps what its modulus determines, and has no counterpart.
pub mod Serialization
pub mod Generation
pub mod Scheme
pub mod Commitments
pub mod Parameters
use mpc_lib_demo.Base.{ℕ}

-- `ring_pedersen_status`
pub data RingPedersenStatus : Type 0 where
  success unknown_error keylen_too_short invalid_parameter buffer_too_short invalid_commitment
        out_of_memory :
      RingPedersenStatus

-- `struct ring_pedersen_public`
pub record PublicKey : Type 0 where
  pub n : ℕ
  pub s : ℕ
  pub t : ℕ

-- `struct ring_pedersen_private`; `public` is its field `pub`.
pub record PrivateKey : Type 0 where
  pub public : PublicKey
  pub lamda : ℕ
  pub phi_n : ℕ
