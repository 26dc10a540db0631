-- ===== src/Tests/ToughPrimes.antt =====
-- Runs of the search for a tough prime: 163 is twice the fourth power of 3, plus one, and has 8 bits.
use mpc_lib_demo.AlgebraUtils.ToughPrime.Search.{generate_tough_prime-IsTough}
use mpc_lib_demo.AlgebraUtils.ToughPrime.Factors.{IsTough}
use mpc_lib_demo.AlgebraUtils.ToughPrime.{
  cycles, examine, fill_pool, generate_permutation, generate_tough_prime, has_residue, inplace_swap,
  multiply_factors, out_of_array, passes, pool_works, swap_loop, trial, trials,
}
use mpc_lib_demo.OpenSsl.Reference.{reference, reference_laws}
use mpc_lib_demo.Tests.Field.{mem_works, works}
use mpc_lib_demo.Base.{
  List, [], arith, err, none, ok, refl, replicate, some, true, ℕ, ◌/◌, ◌∷◌, ◌≡◌,
}
use mpc_lib_demo.AlgebraUtils.ToughPrime.Overflow.{generate_tough_prime-out_of_array}

abbrev threes : List ℕ
threes = replicate 19 3

tough_163 :
    generate_tough_prime reference mem_works 8 2 true
      (some 4)
      (some 3)
      true
      none
      threes
      (replicate 19 0 ∷ [])
    ≡ ok 163
unfolding generate_tough_prime cycles trials trial examine passes has_residue multiply_factors
    fill_pool pool_works generate_permutation swap_loop inplace_swap
tough_163 = refl

generate_tough_prime-IsTough_example : IsTough reference threes 8 (some 4) (some 3) (8 / 2) 163
generate_tough_prime-IsTough_example =
    generate_tough_prime-IsTough reference reference_laws mem_works 8 2 true true (some 4) (some 3)
      none threes (replicate 19 0 ∷ []) 163 (omega arith) tough_163

generate_tough_prime-out_of_array_example :
    generate_tough_prime reference mem_works 482 2 true none none true none threes
      (replicate 19 0 ∷ [])
    ≡ err out_of_array
generate_tough_prime-out_of_array_example =
    generate_tough_prime-out_of_array reference mem_works 2 none none none threes (replicate 19 0)
      [] (omega arith) (omega arith) works
