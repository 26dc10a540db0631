-- ===== src/Pedersen/Generators.antt =====
-- About the generators of pedersen.c and the stream of drng.c.
use mpc_lib_demo.Algebra
use mpc_lib_demo.Drng
use mpc_lib_demo.Drng.{Drng, drng_new, overlaps}
use mpc_lib_demo.Drng.Stream.{IsValid, stream}
use mpc_lib_demo.Drng.Stream.Reads.{new-read, read-eq-stream, stream-IsValid}
use mpc_lib_demo.Algebra.{Algebra}
use mpc_lib_demo.Pedersen.{base_generate, hash_next}
use mpc_lib_demo.Base.{Bytes, [], arith, false, length, ok, refl, some, true, ℕ, ◌<◌, ◌∷◌, ◌≡◌}

module _ (sha512 : Bytes → Bytes) (digest_length : (message : Bytes) → length (sha512 message) ≡ 64)
    (algebra : Algebra) (hash : Bytes → Bytes)
    (hashes : (message : Bytes) → algebra.hash_on_curve message ≡ (Algebra.success, hash message))
    (rng_at rand_at : ℕ) (apart : overlaps rng_at rand_at 64 ≡ false) where
  hash_next_value :
      (g : Drng)
      → IsValid g
      → hash_next sha512 algebra rng_at rand_at g
        ≡ ok (hash (stream sha512 64 g).0, (stream sha512 64 g).1)
  unfolding hash_next
  hash_next_value g v =
      rw
        (
          hash_next,
          read-eq-stream sha512 digest_length g rng_at rand_at 64 v (omega arith) apart,
          hashes (stream sha512 64 g).0,
        )
        refl

  apart_one : overlaps 0 100 1 ≡ false
  unfolding overlaps
  apart_one = refl

  -- For data that are not empty, when the generator of random bytes can be allocated away from the
  -- buffer, `f` and `h` are the points of the first 64 bytes and of the next 64 of the stream that
  -- the data seed.
  pub base_generate-stream :
      (aad : Bytes)
      → 0 < length aad
      → (g : Drng) × (drng_new sha512 true (some aad) true ≡ (Drng.success, some g))
        × IsValid g
        × (base_generate sha512 true rng_at rand_at true (some aad) (some algebra)
            ≡ ok (record {
              h = hash (stream sha512 64 (stream sha512 64 g).1).0;
              f = hash (stream sha512 64 g).0;
            }))
  unfolding base_generate
  base_generate-stream [] pos = elim pos [ ]
  base_generate-stream (b ∷ bs) pos =
      let (g, end, made, v, first) =
        new-read sha512 digest_length (b ∷ bs) 0 100 1 pos (omega arith) (omega arith) apart_one in
      let (w, len) = stream-IsValid sha512 digest_length 64 g v in
      (g, made, v, rw (made, hash_next_value g v, hash_next_value (stream sha512 64 g).1 w) refl)
