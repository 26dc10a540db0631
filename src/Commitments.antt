-- ===== src/Commitments.antt =====
-- mpc-lib/src/common/crypto/commitments/commitments.c: commitments to data, at once or chunk by
-- chunk.
--
-- The calls of OpenSSL's SHA-256 and its comparison in constant time are the record `Sha256`.
pub mod Once
pub mod Sessions
use mpc_lib_demo.Base.{
  Bool, Bytes, Option, Ptr, false, if◌then◌else◌, is_empty, length, none, not, some, true, ℕ, ◌++◌,
  ◌==◌, ◌||◌, ◌≡◌,
}

pub record Sha256 : Type 1 where
  pub Ctx : Type 0
  pub init : Ctx
  pub update : Ctx → Bytes → Ctx
  pub final : Ctx → Bytes
  pub crypto_memcmp : Bytes → Bytes → ℕ → ℕ

-- SHA256_DIGEST_LENGTH
abbrev pub digest_len : ℕ
digest_len = 32

-- A digest has 32 bytes, chunks are hashed as their concatenation is, and the comparison of two
-- buffers of 32 bytes gives 0 exactly when they are equal.
pub record IsSha256 (sha : Sha256) : Type 0 where
  pub length-final : (c : sha.Ctx) → length (sha.final c) ≡ digest_len
  pub update-update :
      (c : sha.Ctx) (a b : Bytes) → sha.update (sha.update c a) b ≡ sha.update c (a ++ b)
  pub memcmp_refl : (a : Bytes) (n : ℕ) → sha.crypto_memcmp a a n ≡ 0
  pub memcmp_eq :
      (a b : Bytes)
      → length a ≡ digest_len
      → length b ≡ digest_len
      → sha.crypto_memcmp a b digest_len ≡ 0
      → a ≡ b

pub data CommitmentsStatus : Type 0 where
  success internal_error invalid_parameter invalid_commitment out_of_memory invalid_context :
      CommitmentsStatus

-- `commitments_commitment_t`
pub record Commitment : Type 0 where
  pub salt : Bytes
  pub commitment : Bytes

module _ (sha : Sha256) where
  -- `struct commitments_ctx`
  pub record CommitmentsCtx : Type 0 where
    pub commitment : Bytes
    pub ctx : sha.Ctx
    pub verifier : Bool

  unfoldable pub salted : Bytes → sha.Ctx
  salted salt = sha.update sha.init salt

  -- `CRYPTO_memcmp(…) ? COMMITMENTS_INVALID_COMMITMENT : COMMITMENTS_SUCCESS`
  unfoldable pub compare_digest : Bytes → Bytes → CommitmentsStatus
  compare_digest hash expected =
      if sha.crypto_memcmp hash expected digest_len == 0 then success else invalid_commitment

  -- The bytes that RAND_bytes writes, or `none` when it fails, come first. The commitment of the
  -- caller is written on success only.
  pub create_commitment_for_data :
      Option Bytes → Ptr Bytes → Bool → CommitmentsStatus × Option Commitment
  unfolding salted
  create_commitment_for_data rand none commitment = (invalid_parameter, none)
  create_commitment_for_data rand (some d) commitment =
      if is_empty d || not commitment then (invalid_parameter, none) else elim rand [
        | none ↦ (internal_error, none)
        | some salt ↦ (
          success,
          some (record { salt = salt; commitment = sha.final (sha.update (salted salt) d) }),
        )
      ]

  unfoldable pub verify_commitment : Ptr Bytes → Ptr Commitment → CommitmentsStatus
  unfolding salted compare_digest
  verify_commitment none commitment = invalid_parameter
  verify_commitment (some d) none = invalid_parameter
  verify_commitment (some d) (some c) =
      if is_empty d
      then invalid_parameter
      else compare_digest (sha.final (sha.update (salted c.salt) d)) c.commitment

  pub commitment_new : Bool → Option Bytes → Bool → CommitmentsStatus × Ptr CommitmentsCtx
  unfolding salted
  commitment_new malloc_works rand ctx =
      if not ctx
      then (invalid_parameter, none)
      else if not malloc_works
      then (out_of_memory, none)
      else elim rand [
        | none ↦ (internal_error, none)
        | some salt ↦
            (success, some (record { commitment = salt; ctx = salted salt; verifier = false }))
      ]

  pub commitment_update : Ptr CommitmentsCtx → Ptr Bytes → CommitmentsStatus × Ptr CommitmentsCtx
  commitment_update none d = (invalid_parameter, none)
  commitment_update (some c) none = (invalid_parameter, some c)
  commitment_update (some c) (some d) =
      if is_empty d
      then (invalid_parameter, some c)
      else if c.verifier
      then (invalid_context, some c)
      else (success, some (record c { ctx = sha.update c.ctx d }))

  -- The context is freed on success only.
  pub commitment_final :
      Ptr CommitmentsCtx → Bool → CommitmentsStatus × Ptr CommitmentsCtx × Option Commitment
  commitment_final none commitment = (invalid_parameter, none, none)
  commitment_final (some c) commitment =
      if not commitment
      then (invalid_parameter, some c, none)
      else if c.verifier
      then (invalid_context, some c, none)
      else (success, none, some (record { salt = c.commitment; commitment = sha.final c.ctx }))

  pub verify_new : Bool → Bool → Ptr Commitment → CommitmentsStatus × Ptr CommitmentsCtx
  unfolding salted
  verify_new malloc_works ctx none = (invalid_parameter, none)
  verify_new malloc_works ctx (some c) =
      if not ctx
      then (invalid_parameter, none)
      else if not malloc_works
      then (out_of_memory, none)
      else (
        success,
        some (record { commitment = c.commitment; ctx = salted c.salt; verifier = true }),
      )

  pub verify_update : Ptr CommitmentsCtx → Ptr Bytes → CommitmentsStatus × Ptr CommitmentsCtx
  verify_update none d = (invalid_parameter, none)
  verify_update (some c) none = (invalid_parameter, some c)
  verify_update (some c) (some d) =
      if is_empty d
      then (invalid_parameter, some c)
      else if not c.verifier
      then (invalid_context, some c)
      else (success, some (record c { ctx = sha.update c.ctx d }))

  -- The context is freed unless it is refused.
  pub verify_final : Ptr CommitmentsCtx → CommitmentsStatus × Ptr CommitmentsCtx
  unfolding compare_digest
  verify_final none = (invalid_parameter, none)
  verify_final (some c) =
      if not c.verifier
      then (invalid_context, some c)
      else (compare_digest (sha.final c.ctx) c.commitment, none)
