-- ===== src/Pedersen.antt =====
-- mpc-lib/src/common/crypto/commitments/pedersen.c: Pedersen commitments to three numbers, over a
-- curve and two further generators.
pub mod Opening
pub mod Generators
use mpc_lib_demo.Commitments.{
  CommitmentsStatus, Sha256, internal_error, invalid_commitment, invalid_parameter, out_of_memory,
  success,
}
use mpc_lib_demo.Algebra.{Algebra, check, point_len}
use mpc_lib_demo.Drng.{Drng, drng_new, drng_read_deterministic_rand}
use mpc_lib_demo.Base.{
  Bool, Bytes, Ptr, Result, [], err, if◌then◌else◌, is_empty, none, ok, some, true, ℕ, ◌==◌, ◌>>=◌,
  ◌||◌, ◌∷◌,
}

-- `pedersen_commitment_two_generators_t`
pub record TwoGenerators : Type 0 where
  pub h : Bytes
  pub f : Bytes

-- `ctx->hash_on_curve` of the next 64 bytes of the generator
hash_next : (Bytes → Bytes) → Algebra → ℕ → ℕ → Drng → Result CommitmentsStatus (Bytes × Drng)
hash_next sha512 ctx rng_at rand_at rng =
    elim (drng_read_deterministic_rand sha512 (some rng) rng_at (some rand_at) 64).1 [
      | none ↦ err internal_error
      | some (random_buffer, next) ↦ do
        point ← check (ctx.hash_on_curve random_buffer) (λ status. internal_error)
        ok (point, next)
    ]

-- The generator of random bytes stands at `rng_at`, the buffer for them at `rand_at`. `malloc_works`
-- is for the allocation of the generator.
pub base_generate :
    (Bytes → Bytes)
    → Bool
    → ℕ
    → ℕ
    → Bool
    → Ptr Bytes
    → Ptr Algebra
    → Result CommitmentsStatus TwoGenerators
unfolding hash_next
base_generate sha512 malloc_works rng_at rand_at true (some aad) (some ctx) =
    if is_empty aad
    then err invalid_parameter
    else elim (drng_new sha512 malloc_works (some aad) true).1 [
      | none ↦ err out_of_memory
      | some rng ↦ do
        first ← hash_next sha512 ctx rng_at rand_at rng
        second ← hash_next sha512 ctx rng_at rand_at first.1
        ok (record { h = second.0; f = first.0 })
    ]
base_generate sha512 malloc_works rng_at rand_at base aad ctx = err invalid_parameter

-- A number of any length reduced, by adding zero, and the multiple of a generator by it.
scaled : Algebra → Bytes → Bytes → Result CommitmentsStatus Bytes
scaled ctx generator number = do
  scalar ← check (ctx.add_scalars number (0 ∷ [])) (λ status. internal_error)
  check (ctx.point_mul generator scalar) (λ status. internal_error)

pub create_commitment :
    Bool
    → Ptr TwoGenerators
    → Ptr Bytes
    → Ptr Bytes
    → Ptr Bytes
    → Ptr Algebra
    → Result CommitmentsStatus Bytes
unfolding scaled
create_commitment true (some base) (some a) (some b) (some c) (some ctx) =
    if is_empty a || is_empty b || is_empty c then err invalid_parameter else do
      commitment ← check (ctx.generator_mul_data a) (λ status. internal_error)
      with_h ← scaled ctx base.h b
      partial ← check (ctx.add_points commitment with_h) (λ status. internal_error)
      with_f ← scaled ctx base.f c
      check (ctx.add_points partial with_f) (λ status. internal_error)
create_commitment commitment base a b c ctx = err invalid_parameter

module _ (sha : Sha256) where
  -- `CRYPTO_memcmp` is the one of the SHA-256 interface.
  pub verify_opening :
      Bytes
      → Ptr TwoGenerators
      → Ptr Bytes
      → Ptr Bytes
      → Ptr Bytes
      → Ptr Algebra
      → CommitmentsStatus
  unfolding create_commitment
  verify_opening commitment base a b c ctx = elim (create_commitment true base a b c ctx) [
    | err status ↦ status
    | ok generated_commitment ↦
        if sha.crypto_memcmp generated_commitment commitment point_len == 0
        then success
        else invalid_commitment
  ]
