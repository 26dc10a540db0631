-- ===== src/Drng.antt =====
-- mpc-lib/src/common/crypto/drng/drng.c: the deterministic random generator, a chain of SHA-512
-- digests whose first half is handed out and whose second half seeds the next digest.
pub mod Stream
use mpc_lib_demo.Base.{
  Bool, Bytes, Option, Ptr, drop, if◌then◌else◌, is_empty, leb, ltb, none, not, some, suc, take,
  zero, ℕ, ◌%◌, ◌&&◌, ◌++◌, ◌+◌, ◌-◌, ◌==◌, ◌^◌, ◌||◌,
}

pub data DrngStatus : Type 0 where
  success invalid_parameter out_of_memory internal_error : DrngStatus

-- SHA512_DIGEST_LENGTH / 2
abbrev pub half_digest : ℕ
half_digest = 32

-- `struct drng`; `bytes` is its field `data`.
pub record Drng : Type 0 where
  pub bytes : Bytes
  pub seed : Bytes
  pub pos : ℕ

-- `sizeof(drng_t)`: two arrays of 32 bytes and one byte
abbrev pub drng_size : ℕ
drng_size = 65

-- SHA512(…, rng->data) writes a digest of 64 bytes over the two adjacent arrays.
pub write_digest : Bytes → ℕ → Drng
write_digest digest pos = record {
  bytes = take half_digest digest;
  seed = take half_digest (drop half_digest digest);
  pos = pos;
}

-- The two ranges that the call refuses to mix, by the addresses of the generator and the buffer.
unfoldable pub overlaps : ℕ → ℕ → ℕ → Bool
overlaps rng rand length_in_bytes =
    (leb rng rand && leb rand (rng + drng_size))
    || (ltb rand rng && ltb rng (rand + length_in_bytes))

module _ (sha512 : Bytes → Bytes) where
  pub drng_new : Bool → Ptr Bytes → Bool → DrngStatus × Ptr Drng
  unfolding write_digest
  drng_new malloc_works none rng = (invalid_parameter, none)
  drng_new malloc_works (some seed) rng =
      if is_empty seed || not rng
      then (invalid_parameter, none)
      else if not malloc_works
      then (out_of_memory, none)
      else (success, some (write_digest (sha512 seed) 0))

  -- The `while` loop on fuel, then the last copy: the bytes written to `rand` and the generator.
  -- `none` is fuel that has run out.
  pub read_loop : ℕ → Drng → ℕ → Option (Bytes × Drng)
  read_loop zero rng length_in_bytes = none
  read_loop (suc fuel) rng length_in_bytes =
      let size = (half_digest - rng.pos) % 2 ^ 8 in
      let rest = read_loop fuel (write_digest (sha512 rng.seed) 0) (length_in_bytes - size) in
      if ltb (half_digest - rng.pos) length_in_bytes
      then elim rest [
        | none ↦ none
        | some (tail, rng') ↦ some (take size (drop rng.pos rng.bytes) ++ tail, rng')
      ]
      else some (
        take length_in_bytes (drop rng.pos rng.bytes),
        record rng { pos = (rng.pos + length_in_bytes) % 2 ^ 8 },
      )

  -- The generator is at address `rng_at` and the buffer at `rand_at`. Each round but the first
  -- copies 32 bytes, so two rounds more than the length are enough.
  pub drng_read_deterministic_rand : Ptr Drng → ℕ → Ptr ℕ → ℕ → DrngStatus × Option (Bytes × Drng)
  drng_read_deterministic_rand none rng_at rand length_in_bytes = (invalid_parameter, none)
  drng_read_deterministic_rand (some rng) rng_at none length_in_bytes = (invalid_parameter, none)
  drng_read_deterministic_rand (some rng) rng_at (some rand_at) length_in_bytes =
      if length_in_bytes == 0 || overlaps rng_at rand_at length_in_bytes
      then (invalid_parameter, none)
      else (success, read_loop (length_in_bytes + 2) rng length_in_bytes)
