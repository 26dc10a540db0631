-- ===== src/AlgebraUtils/ToughPrime.antt =====
-- `generate_tough_prime` of algebra_utils.c: twice a product of small primes, plus one. What OpenSSL
-- draws is an argument: the small primes in order, and the random bytes of each permutation; the
-- end of a list is a failure of its generator.
pub mod Factors
pub mod Overflow
pub mod Search
use Prim.Native.Nat.{bit_xor}
use mpc_lib_demo.Algebra.{AlgebraStatus}
use mpc_lib_demo.OpenSsl.{OpenSsl}
use mpc_lib_demo.Base.{
  Bool, Bytes, List, Option, Ptr, Result, [], err, get_elem?, guard, if◌then◌else◌, leb, length,
  ltb, none, not, ok, or_fail, set, some, suc, take, true, zero, ℕ, ◌%◌, ◌&&◌, ◌*◌, ◌+◌, ◌-◌, ◌/◌,
  ◌==◌, ◌>>=◌, ◌>>◌, ◌∷◌,
}

-- A status, or an access outside an array.
pub data ToughFailure : Type 0 where
  failed : AlgebraStatus → ToughFailure
  out_of_array : ToughFailure

-- PRIME_GENERATION_POOL_INCREASE, PRIME_GENERATION_MAX_TRIES and
-- PRIME_GENERATION_MAX_REGENERATION_CYCLES
abbrev pub pool_increase : ℕ
pool_increase = 15

abbrev pub max_tries : ℕ
max_tries = 2000

abbrev pub max_cycles : ℕ
max_cycles = 100

-- INPLACE_SWAP of the entries at two indexes
unfoldable pub inplace_swap : List ℕ → ℕ → ℕ → Result ToughFailure (List ℕ)
inplace_swap permutation i j = do
  x ← or_fail (get_elem? permutation i) out_of_array
  y ← or_fail (get_elem? permutation j) out_of_array
  let a = bit_xor x y
  let b = bit_xor y a
  ok (set (set permutation j b) i (bit_xor a b))

-- From an index down to the first, the entry is swapped with one before it.
unfoldable pub swap_loop : Bytes → ℕ → List ℕ → Result ToughFailure (List ℕ)
unfolding inplace_swap
swap_loop random_storage zero permutation = ok permutation
swap_loop random_storage (suc i) permutation = do
  random ← or_fail (get_elem? random_storage (suc i)) out_of_array
  swapped ← inplace_swap permutation (suc i) (random % suc i)
  swap_loop random_storage i swapped

-- The numbers from `i` on
abbrev pub indexes : ℕ → ℕ → List ℕ
indexes i zero = []
indexes i (suc count) = i ∷ indexes (i + 1) count

-- The array has as many entries as its size, a byte, tells; so has the one that `RAND_bytes` fills,
-- when it does not fail. The byte that is counted down from is the size less one, which wraps.
unfoldable pub generate_permutation : ℕ → Ptr Bytes → Result ToughFailure (List ℕ)
unfolding swap_loop
generate_permutation permutation_size none = err (failed AlgebraStatus.unknown_error)
generate_permutation permutation_size (some random_bytes) =
    swap_loop (take permutation_size random_bytes) ((permutation_size + 255) % 256)
      (indexes 0 permutation_size)

-- An int as a condition, where an error is not zero
abbrev pub is_true : Option Bool → Bool
is_true none = true
is_true (some answer) = answer

module _ (o : OpenSsl) where
  unfoldable pub fill_pool : ℕ → List ℕ → Result ToughFailure (List ℕ × List ℕ)
  fill_pool zero primes = ok ([], primes)
  fill_pool (suc count) [] = err (failed AlgebraStatus.unknown_error)
  fill_pool (suc count) (prime ∷ primes) = do
    filled ← fill_pool count primes
    ok (prime ∷ filled.0, filled.1)

  unfoldable pub multiply_factors : List ℕ → List ℕ → ℕ → ℕ → Result ToughFailure ℕ
  multiply_factors pool [] zero p = ok p
  multiply_factors pool (index ∷ permutation) zero p = ok p
  multiply_factors pool [] (suc count) p = err out_of_array
  multiply_factors pool (index ∷ permutation) (suc count) p = do
    factor ← or_fail (get_elem? pool index) out_of_array
    product ← or_fail (o.bn_mul p factor) (failed AlgebraStatus.unknown_error)
    multiply_factors pool permutation count product

  -- Whether the residue is the one that is asked for.
  unfoldable pub has_residue : Ptr ℕ → Ptr ℕ → ℕ → Result ToughFailure Bool
  has_residue (some add) (some rem) p = do
    remainder ← or_fail (o.bn_mod p add) (failed AlgebraStatus.unknown_error)
    ok (remainder == rem)
  has_residue add rem p = ok true

  -- `if (BN_is_prime_fasttest_ex(...))`, which an error passes as well.
  unfoldable pub passes : ℕ → Bool
  passes p = is_true (o.bn_is_prime_fasttest p)

  -- The tests of a candidate, one after the other
  unfoldable pub examine : ℕ → Ptr ℕ → Ptr ℕ → ℕ → Result ToughFailure (Ptr ℕ)
  unfolding has_residue passes
  examine bitsize add rem p =
      if not (o.bn_num_bits p == bitsize)
      then ok none
      else do residue ← has_residue add rem p; ok (if residue && passes p then some p else none)

  -- One trial: the number that is found, if any.
  unfoldable pub trial : ℕ → Ptr ℕ → Ptr ℕ → List ℕ → ℕ → Ptr Bytes → Result ToughFailure (Ptr ℕ)
  unfolding generate_permutation multiply_factors examine
  trial bitsize add rem pool factors_number random_storage = do
    permutation ← generate_permutation (length pool) random_storage
    two ← or_fail (o.bn_set_word 2) (failed AlgebraStatus.unknown_error)
    product ← multiply_factors pool permutation factors_number two
    p ← or_fail (o.bn_add_word product 1) (failed AlgebraStatus.unknown_error)
    examine bitsize add rem p

  module _ (bitsize : ℕ) (add rem : Ptr ℕ) (factors_number : ℕ) where
    -- The trials with one pool: the number that is found, if any, and what is left of the bytes.
    unfoldable pub trials : ℕ → List ℕ → List Bytes → Result ToughFailure (Ptr ℕ × List Bytes)
    unfolding trial
    trials zero pool seeds = ok (none, seeds)
    trials (suc count) pool [] =
        trial bitsize add rem pool factors_number none >>= λ found. ok (found, [])
    trials (suc count) pool (seed ∷ seeds) =
        trial bitsize add rem pool factors_number (some seed) >>= λ found. elim found [
          | some p ↦ ok (some p, seeds)
          | none ↦ trials count pool seeds
        ]

    -- A pool is drawn, and tried, until a number is found.
    unfoldable pub cycles : ℕ → ℕ → List ℕ → List Bytes → Result ToughFailure ℕ
    unfolding fill_pool trials
    cycles zero pool_size primes seeds = err (failed AlgebraStatus.unknown_error)
    cycles (suc count) pool_size primes seeds = do
      filled ← fill_pool pool_size primes
      tried ← trials max_tries filled.0 seeds
      elim tried.0 [ some p ↦ ok p | none ↦ cycles count pool_size filled.1 tried.1 ]

  -- Whether `count` allocations from the `k`-th on succeed
  unfoldable pub pool_works : (ℕ → Bool) → ℕ → ℕ → Bool
  pool_works mem k zero = true
  pool_works mem k (suc count) = mem k && pool_works mem (k + 1) count

  -- The size of the pool is a byte. `p_given` and `ctx_given` tell whether the pointers are not null,
  -- `safe_prime` is what OpenSSL finds when the size is too small for factors.
  unfoldable pub generate_tough_prime :
      (ℕ → Bool)
      → ℕ
      → ℕ
      → Bool
      → Ptr ℕ
      → Ptr ℕ
      → Bool
      → Ptr ℕ
      → List ℕ
      → List Bytes
      → Result ToughFailure ℕ
  unfolding cycles pool_works
  generate_tough_prime mem bitsize subprimes_bitsize p_given add rem ctx_given safe_prime primes
        seeds =
      do
        guard
            (not (bitsize == 0)
              && not (subprimes_bitsize == 0)
              && p_given
              && ctx_given
              && leb subprimes_bitsize 32768)
            (failed AlgebraStatus.invalid_parameter)
        guard (bitsize % subprimes_bitsize == 0) (failed AlgebraStatus.invalid_parameter)
        let factors_number = bitsize / subprimes_bitsize % 256
        let pool_size = (factors_number + pool_increase) % 256
        let composite = do
          guard (leb bitsize ((256 - pool_increase) * subprimes_bitsize))
              (failed AlgebraStatus.invalid_parameter)
          guard (mem 0) (failed AlgebraStatus.out_of_memory)
          guard (pool_works mem 1 pool_size) (failed AlgebraStatus.unknown_error)
          guard (mem (1 + pool_size)) (failed AlgebraStatus.unknown_error)
          cycles bitsize add rem factors_number max_cycles pool_size primes seeds
        if ltb bitsize (4 * subprimes_bitsize)
            then or_fail safe_prime (failed AlgebraStatus.unknown_error)
            else composite
