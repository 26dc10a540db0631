-- ===== src/ZeroKnowledge/DiffieHellman.antt =====
-- mpc-lib/src/common/crypto/zero_knowledge_proof/diffie_hellman_log.c: proofs that the secret in a
-- Diffie-Hellman product is the logarithm of a point. A function that makes a proof returns it in
-- place of the success.
pub mod Challenge
pub mod Completeness
use Prim.Native.Nat.{Ordering, compare}
use mpc_lib_demo.Algebra
use mpc_lib_demo.Drng
use mpc_lib_demo.ZeroKnowledge.{
  ZkpStatus, invalid_parameter, out_of_memory, success, unknown_error, verification_failed,
}
use mpc_lib_demo.Commitments.{Sha256}
use mpc_lib_demo.Drng.{Drng, drng_new, drng_read_deterministic_rand}
use mpc_lib_demo.Algebra.{Algebra, AlgebraStatus, Call, check, point_len}
use mpc_lib_demo.OpenSsl.{big_endian}
use mpc_lib_demo.Base.{
  Bool, Bytes, Option, Ptr, Result, [], drop, err, false, guard, if◌then◌else◌, is_empty, none, ok,
  some, suc, take, true, zero, ℕ, ◌&&◌, ◌==◌, ◌>>=◌, ◌>>◌, ◌∷◌,
}

-- `diffie_hellman_log_zkp_t`
pub record LogZkp : Type 0 where
  pub d : Bytes
  pub y : Bytes
  pub v : Bytes
  pub w : Bytes
  pub z : Bytes

-- `diffie_hellman_log_public_data_t`
pub record PublicData : Type 0 where
  pub a : Bytes
  pub b : Bytes
  pub c : Bytes
  pub x : Bytes

-- LOG_ZKP_SALT, "diffie hellman discrete log zkp" with the zero at its end
abbrev pub log_zkp_salt : Bytes
log_zkp_salt =
    100 ∷ 105 ∷ 102 ∷ 102 ∷ 105 ∷ 101 ∷ 32 ∷ 104 ∷ 101 ∷ 108 ∷ 108 ∷ 109 ∷ 97 ∷ 110 ∷ 32 ∷ 100 ∷ 105
    ∷ 115 ∷ 99 ∷ 114 ∷ 101 ∷ 116 ∷ 101 ∷ 32 ∷ 108 ∷ 111 ∷ 103 ∷ 32 ∷ 122 ∷ 107 ∷ 112 ∷ 0 ∷ []

-- Words of 64 bits are compared from the most significant on; a word in memory is read as the
-- big-endian number of its bytes.
pub cmp_words : ℕ → Bytes → Bytes → Ordering
cmp_words zero a b = Ordering.eq
cmp_words (suc count) a b = elim (compare (big_endian 0 (take 8 a)) (big_endian 0 (take 8 b))) [
  | Ordering.lt ↦ Ordering.lt
  | Ordering.gt ↦ Ordering.gt
  | Ordering.eq ↦ cmp_words count (drop 8 a) (drop 8 b)
]

pub cmp_uint256 : Bytes → Bytes → Ordering
unfolding cmp_words
cmp_uint256 a b = cmp_words 4 a b

-- `memcmp(a, b, n) == 0`
pub same_bytes : Bytes → Bytes → ℕ → Bool
same_bytes a b zero = true
same_bytes [] [] (suc n) = true
same_bytes [] (y ∷ b) (suc n) = false
same_bytes (x ∷ a) [] (suc n) = false
same_bytes (x ∷ a) (y ∷ b) (suc n) = x == y && same_bytes a b n

from_algebra_status : AlgebraStatus → ZkpStatus
from_algebra_status Algebra.success = success
from_algebra_status Algebra.invalid_parameter = verification_failed
from_algebra_status Algebra.invalid_point = verification_failed
from_algebra_status Algebra.out_of_memory = out_of_memory
from_algebra_status Algebra.invalid_signature = verification_failed
from_algebra_status Algebra.insufficient_buffer = unknown_error
from_algebra_status Algebra.invalid_scalar = unknown_error
from_algebra_status Algebra.unknown_error = unknown_error

-- The proof up to the challenge, with its two nonces
pub record Begun : Type 0 where
  pub proof : LogZkp
  pub d : Bytes
  pub y : Bytes

pub unknown : AlgebraStatus → ZkpStatus
unknown status = unknown_error

pub equal_points : Bytes → Bytes → Result ZkpStatus (Unit {0})
unfolding same_bytes
equal_points p q = guard (same_bytes p q point_len) verification_failed

module _ (algebra : Algebra) where
  -- `first` and `second` are what the two calls of `algebra->rand` give. The scalars of the proof are
  -- not yet set.
  pub begin_proof : Call → Call → Bytes → Bytes → Result ZkpStatus Begun
  unfolding unknown
  begin_proof first second base_point a = do
    d ← check first unknown
    y ← check second unknown
    point_d ← check (algebra.generator_mul d) unknown
    point_y ← check (algebra.point_mul base_point y) unknown
    product ← check (algebra.mul_scalars a d) unknown
    sum ← check (algebra.add_scalars product y) unknown
    point_v ← check (algebra.generator_mul sum) unknown
    ok (record {
      proof = record { d = point_d; y = point_y; v = point_v; w = []; z = [] };
      d = d;
      y = y;
    })

  -- The two scalars for the challenge `e`
  pub finish_proof : Begun → Bytes → Bytes → Bytes → Result ZkpStatus LogZkp
  unfolding unknown
  finish_proof begun e secret b = do
    e_b ← check (algebra.mul_scalars e b) unknown
    z ← check (algebra.add_scalars e_b begun.d) unknown
    e_secret ← check (algebra.mul_scalars e secret) unknown
    w ← check (algebra.add_scalars e_secret begun.y) unknown
    ok (record begun.proof { w = w; z = z })

  -- The three comparisons, for the challenge `e`
  pub verify_equations : Bytes → Bytes → PublicData → LogZkp → Result ZkpStatus (Unit {0})
  unfolding equal_points from_algebra_status
  verify_equations e base_point values proof = do
    z ← check (algebra.generator_mul proof.z) from_algebra_status
    e_b ← check (algebra.point_mul values.b e) from_algebra_status
    e_b_d ← check (algebra.add_points e_b proof.d) from_algebra_status
    equal_points z e_b_d
    w ← check (algebra.point_mul base_point proof.w) from_algebra_status
    e_x ← check (algebra.point_mul values.x e) from_algebra_status
    e_x_y ← check (algebra.add_points e_x proof.y) from_algebra_status
    equal_points w e_x_y
    a_z ← check (algebra.point_mul values.a proof.z) from_algebra_status
    g_w ← check (algebra.generator_mul proof.w) from_algebra_status
    a_z_w ← check (algebra.add_points a_z g_w) from_algebra_status
    e_c ← check (algebra.point_mul values.c e) from_algebra_status
    e_c_v ← check (algebra.add_points e_c proof.v) from_algebra_status
    equal_points a_z_w e_c_v

module _ (sha : Sha256) (sha512 : Bytes → Bytes) (malloc_works : Bool) (rng_at e_at fuel : ℕ) where
  -- Scalars are read from the generator until one is below the order. Each round takes one of
  -- `fuel`; when it is spent the loop has not ended.
  pub draw_scalar : Algebra → ℕ → Drng → Option (Result ZkpStatus Bytes)
  draw_scalar algebra zero rng = none
  draw_scalar algebra (suc left) rng =
      elim (drng_read_deterministic_rand sha512 (some rng) rng_at (some e_at) 32).1 [
        | none ↦ some (err unknown_error)
        | some (e, next) ↦ elim (cmp_uint256 e algebra.order) [
          | Ordering.lt ↦ some (ok e)
          | Ordering.gt ↦ draw_scalar algebra left next
          | Ordering.eq ↦ draw_scalar algebra left next
        ]
      ]

  pub seed_of : Bytes → Bytes → PublicData → LogZkp → Bytes
  seed_of aad base_point values proof =
      let hash = λ (ctx : sha.Ctx) (bytes : Bytes). sha.update ctx bytes in
      let context = hash (hash (hash sha.init log_zkp_salt) aad) base_point in
      let public = hash (hash (hash (hash context values.a) values.b) values.c) values.x in
      sha.final (hash (hash (hash public proof.d) proof.y) proof.v)

  pub generate_e : Algebra → Bytes → Bytes → PublicData → LogZkp → Option (Result ZkpStatus Bytes)
  unfolding draw_scalar seed_of
  generate_e algebra aad base_point values proof =
      elim (drng_new sha512 malloc_works (some (seed_of aad base_point values proof)) true).1 [
        | none ↦ some (err out_of_memory)
        | some rng ↦ draw_scalar algebra fuel rng
      ]

  -- `none` is a challenge that has not been found on the fuel.
  pub generate :
      Call
      → Call
      → Ptr Algebra
      → Ptr Bytes
      → Ptr Bytes
      → Ptr Bytes
      → Ptr Bytes
      → Ptr Bytes
      → Ptr PublicData
      → Bool
      → Option (Result ZkpStatus LogZkp)
  unfolding begin_proof generate_e finish_proof
  generate first second (some algebra) (some aad) (some base_point) (some secret) (some a) (some b)
        (some values) true =
      if is_empty aad
      then some (err invalid_parameter)
      else elim (begin_proof algebra first second base_point a) [
        | err status ↦ some (err status)
        | ok begun ↦ elim (generate_e algebra aad base_point values begun.proof) [
          | none ↦ none
          | some found ↦ some (do e ← found; finish_proof algebra begun e secret b)
        ]
      ]
  generate first second algebra aad base_point secret a b values proof =
      some (err invalid_parameter)

  pub status_of : Result ZkpStatus (Unit {0}) → ZkpStatus
  status_of (ok _) = success
  status_of (err status) = status

  pub verify : Ptr Algebra → Ptr Bytes → Ptr Bytes → Ptr PublicData → Ptr LogZkp → Option ZkpStatus
  unfolding generate_e verify_equations status_of
  verify (some algebra) (some aad) (some base_point) (some values) (some proof) =
      if is_empty aad
      then some invalid_parameter
      else elim (generate_e algebra aad base_point values proof) [
        | none ↦ none
        | some found ↦
            some (status_of (do e ← found; verify_equations algebra e base_point values proof))
      ]
  verify algebra aad base_point values proof = some invalid_parameter
