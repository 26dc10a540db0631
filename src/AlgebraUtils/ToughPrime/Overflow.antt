-- ===== src/AlgebraUtils/ToughPrime/Overflow.antt =====
-- The largest number of factors that `generate_tough_prime` lets through.
use native.Mathlib.Nat.{mul-div_left, mul-mod_left}
use mpc_lib_demo.AlgebraUtils.ToughPrime.{
  cycles, fill_pool, generate_permutation, generate_tough_prime, max_cycles, out_of_array,
  pool_increase, pool_works, swap_loop, trial, trials,
}
use mpc_lib_demo.OpenSsl.{OpenSsl}
use mpc_lib_demo.Base.{
  Bool, Bytes, List, Ptr, [], arith, err, false, le→leb, le→ltb, refl, subst, suc, sym, true, zero,
  ℕ, ◌%◌, ◌*◌, ◌+◌, ◌/◌, ◌<◌, ◌==◌, ◌∷◌, ◌≡◌, ◌≤◌,
}

module _ (o : OpenSsl) (bitsize : ℕ) (add rem : Ptr ℕ) (count : ℕ) where
  trials-out_of_array :
      (rounds : ℕ) (seed : Bytes) (seeds : List Bytes)
      → trials o bitsize add rem count (suc rounds) [] (seed ∷ seeds) ≡ err out_of_array
  unfolding trials trial generate_permutation swap_loop
  trials-out_of_array rounds seed seeds = refl

  cycles-out_of_array :
      (rounds : ℕ) (primes : List ℕ) (seed : Bytes) (seeds : List Bytes)
      → cycles o bitsize add rem count (suc rounds) 0 primes (seed ∷ seeds) ≡ err out_of_array
  unfolding cycles fill_pool trials trial generate_permutation swap_loop
  cycles-out_of_array rounds primes seed seeds = refl

pool_works-true :
    (o : OpenSsl) (mem : ℕ → Bool)
    → ((k : ℕ) → mem k ≡ true)
    → (k count : ℕ) → pool_works o mem k count ≡ true
unfolding pool_works
pool_works-true o mem works k zero = refl
pool_works-true o mem works k (suc count) =
    rw (works k, pool_works-true o mem works (k + 1) count) refl

-- With 241 factors of 32768 bits at most the size of the pool, 256, wraps to zero in its byte: when
-- no allocation fails and random bytes are found for the first permutation, an array without
-- entries is accessed.
pub generate_tough_prime-out_of_array :
    (o : OpenSsl) (mem : ℕ → Bool) (subprimes_bitsize : ℕ) (add rem safe_prime : Ptr ℕ)
    (primes : List ℕ) (seed : Bytes) (seeds : List Bytes)
    → 0 < subprimes_bitsize
    → subprimes_bitsize ≤ 32768
    → ((k : ℕ) → mem k ≡ true)
    → generate_tough_prime o mem
        (241 * subprimes_bitsize)
        subprimes_bitsize
        true
        add
        rem
        true
        safe_prime
        primes
        (seed ∷ seeds)
      ≡ err out_of_array
unfolding generate_tough_prime
generate_tough_prime-out_of_array o mem subprimes_bitsize add rem safe_prime primes seed seeds pos
      small works =
    let size : ℕ = 241 * subprimes_bitsize in
    let size_given : (size == 0) ≡ false = ground arith in
    let sub_given : (subprimes_bitsize == 0) ≡ false = ground arith in
    let divides : size % subprimes_bitsize ≡ 0 = mul-mod_left 241 subprimes_bitsize in
    let quotient : size / subprimes_bitsize ≡ 241 = mul-div_left 241 pos in
    let pool_size : ℕ = (size / subprimes_bitsize % 256 + pool_increase) % 256 in
    rw
      (
        size_given,
        sub_given,
        le→leb _ _ small,
        divides,
        le→ltb size (4 * subprimes_bitsize) (omega arith),
        le→leb size size (omega arith),
        works 0,
        pool_works-true o mem works 1 pool_size,
        works (1 + pool_size),
      )
      (subst
        (λ k.
          cycles o size add rem (k % 256) max_cycles ((k % 256 + pool_increase) % 256) primes
            (seed ∷ seeds)
          ≡ err out_of_array)
        (sym quotient) (cycles-out_of_array o size add rem 241 99 primes seed seeds))
