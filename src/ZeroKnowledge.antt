-- ===== src/ZeroKnowledge.antt =====
-- mpc-lib/src/common/crypto/zero_knowledge_proof: the status that the proofs share.
pub mod Schnorr
pub mod DiffieHellman

pub data ZkpStatus : Type 0 where
  success unknown_error invalid_parameter insufficient_buffer verification_failed out_of_memory :
      ZkpStatus
