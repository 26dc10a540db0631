-- ===== src/Vss.antt =====
-- mpc-lib/src/common/crypto/shamir_secret_sharing/verifiable_secret_sharing.c: Shamir's secret
-- sharing over the order of a curve, with a curve point as the proof of each share and of each
-- coefficient.
--
-- `mem k` tells whether the k-th allocation of a call succeeds.
pub mod Readers
pub mod Interpolation
pub mod Lagrange
pub mod Access
pub mod Split
pub mod Reconstruct
pub mod RoundTrip
pub mod Commit
pub mod Verify
use mpc_lib_demo.Base.{Bytes, List, Ptr, map, ℕ}

pub data VssStatus : Type 0 where
  success unknown_error invalid_parameter invalid_index invalid_secret invalid_share
        invalid_share_id insufficient_buffer out_of_memory :
      VssStatus

-- `shamir_secret_share_t`; `scalar` is its field `data`.
pub record Share : Type 0 where
  pub scalar : Bytes
  pub id : ℕ

abbrev pub ids : List Share → List ℕ
ids = map (λ s. s.id)

-- `verifiable_secret_sharing_t`, less the pointer to the algebra. `share_ids` is its field `ids`. The two
-- arrays that the readers test for null are nullable.
pub record Sharing : Type 0 where
  pub share_ids : Ptr (List ℕ)
  pub shares : Ptr (List Bytes)
  pub proofs : List Bytes
  pub coefficient_proofs : List Bytes
  pub num_shares : ℕ
  pub threshold : ℕ
