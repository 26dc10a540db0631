-- ===== src/AlgebraUtils/ToughPrime/Search.antt =====
-- About the search of `generate_tough_prime`: what it returns.
use native.Mathlib.Nat.{div-lt_iff_lt-mul, mod-eq_of_lt}
use mpc_lib_demo.AlgebraUtils.ToughPrime.Factors.{
  All-IsAmong, IsAmong, IsTough, examine-found, fill_pool-All, get_of_ok, get_of_some,
  has_residue-HasResidue, multiply_factors-product, passes-tested, product_of,
}
use mpc_lib_demo.AlgebraUtils.ToughPrime.{
  cycles, fill_pool, generate_permutation, generate_tough_prime, max_cycles, max_tries,
  multiply_factors, pool_increase, pool_works, trial, trials,
}
use mpc_lib_demo.OpenSsl.{IsOpenSsl, OpenSsl}
use mpc_lib_demo.Base.Inversion.{bind-ok, guard-ok, or_fail-ok}
use mpc_lib_demo.Base.{
  All, Bool, Bytes, List, Ptr, [], after, and-left, ap, arith, false, if◌then◌else◌, leb, leb→le,
  length, le→ltb, ltb, none, not, ok, or_fail, refl, some, subst, suc, sym, true, zero, ℕ, ◌%◌,
  ◌&&◌, ◌*◌, ◌+◌, ◌/◌, ◌<◌, ◌==◌, ◌∙◌, ◌∷◌, ◌≡◌, ◌≤◌,
}

module _ (o : OpenSsl) (bitsize : ℕ) (add rem : Ptr ℕ) where
  module _ (laws : IsOpenSsl o) (primes : List ℕ) (count : ℕ) where
    abbrev Tough : ℕ → Type 0
    Tough p = IsTough o primes bitsize add rem count p

    trial-IsTough :
        (pool : List ℕ) (seed : Ptr Bytes) (p : ℕ)
        → All (λ f. IsAmong f primes) pool
        → trial o bitsize add rem pool count seed ≡ ok (some p)
        → Tough p
    unfolding trial
    trial-IsTough pool seed p drawn e =
        let (permutation, made, e1) =
          bind-ok (generate_permutation (length pool) seed) _ (some p) e in
        let (two, set_two, e2) = bind-ok (or_fail (o.bn_set_word 2) _) _ (some p) e1 in
        let (product, multiplied, e3) =
          bind-ok (multiply_factors o pool permutation count two) _ (some p) e2 in
        let (candidate, added, e4) = bind-ok (or_fail (o.bn_add_word product 1) _) _ (some p) e3 in
        let two_eq : two ≡ 2 =
          get_of_some (sym (or_fail-ok (o.bn_set_word 2) _ two set_two) ∙ laws.set_word 2) in
        let candidate_eq : candidate ≡ product + 1 = get_of_some (
          sym (or_fail-ok (o.bn_add_word product 1) _ candidate added) ∙ laws.add_word product 1) in
        let (factors, number, all, value) =
          multiply_factors-product (λ f. IsAmong f primes) o laws pool permutation count two product
            drawn multiplied in
        let (p_eq, size, residue, answer) = examine-found o bitsize add rem candidate p e4 in
        rw (p_eq) (record {
          factors = factors;
          drawn = all;
          number = number;
          value =
              candidate_eq ∙ omega (arith, value, ap (λ (x : ℕ). x * product_of factors) two_eq);
          size = size;
          residue = has_residue-HasResidue o bitsize add rem candidate residue;
          tested = passes-tested o bitsize add rem candidate answer;
        })

    trials-IsTough :
        (rounds : ℕ) (pool : List ℕ) (seeds : List Bytes) (p : ℕ) (left : List Bytes)
        → All (λ f. IsAmong f primes) pool
        → trials o bitsize add rem count rounds pool seeds ≡ ok (some p, left)
        → Tough p
    unfolding trials
    trials-IsTough zero pool seeds p left drawn e = absurd cc
    trials-IsTough (suc rounds) pool [] p left drawn e =
        let (found, tried, e1) =
          bind-ok (trial o bitsize add rem pool count none) (λ x. ok (x, [])) (some p, left) e in
        let same : found ≡ some p = ap (λ r. r.0) (sym (get_of_ok refl e1)) in
        trial-IsTough pool none p drawn (tried ∙ ap ok same)
    trials-IsTough (suc rounds) pool (seed ∷ seeds) p left drawn e =
        let (found, tried, e1) =
          bind-ok (trial o bitsize add rem pool count (some seed)) _ (some p, left) e in
        settle found tried e1 (λ e'. trials-IsTough rounds pool seeds p left drawn e')
      where
        settle :
            (found : Ptr ℕ)
            → trial o bitsize add rem pool count (some seed) ≡ ok found
            → elim found [
              | some x ↦ ok (some x, seeds)
              | none ↦ trials o bitsize add rem count rounds pool seeds
            ]
              ≡ ok (some p, left)
            → (trials o bitsize add rem count rounds pool seeds ≡ ok (some p, left) → Tough p)
            → Tough p
        settle (some x) tried e' later =
            let same : some x ≡ some p = ap (λ r. r.0) (sym (get_of_ok refl e')) in
            trial-IsTough pool (some seed) p drawn (tried ∙ ap ok same)
        settle none tried e' later = later e'

    cycles-IsTough :
        (rounds pool_size p : ℕ) (drawn : List ℕ) (seeds : List Bytes)
        → All (λ f. IsAmong f primes) drawn
        → cycles o bitsize add rem count rounds pool_size drawn seeds ≡ ok p
        → Tough p
    unfolding cycles
    cycles-IsTough zero pool_size p drawn seeds all e = absurd cc
    cycles-IsTough (suc rounds) pool_size p drawn seeds all e =
        let (filled, filling, e1) = bind-ok (fill_pool o pool_size drawn) _ p e in
        let (in_pool, behind) =
          fill_pool-All (λ f. IsAmong f primes) o pool_size drawn filled all filling in
        let (tried, trying, e2) =
          bind-ok (trials o bitsize add rem count max_tries filled.0 seeds) _ p e1 in
        settle filled.0 filled.1 seeds tried.0 tried.1 in_pool trying e2
          (λ e'. cycles-IsTough rounds pool_size p filled.1 tried.1 behind e')
      where
        settle :
            (pool left : List ℕ) (before : List Bytes) (found : Ptr ℕ) (after : List Bytes)
            → All (λ f. IsAmong f primes) pool
            → trials o bitsize add rem count max_tries pool before ≡ ok (found, after)
            → elim found [
              | some x ↦ ok x
              | none ↦ cycles o bitsize add rem count rounds pool_size left after
            ]
              ≡ ok p
            → (cycles o bitsize add rem count rounds pool_size left after ≡ ok p → Tough p)
            → Tough p
        settle pool left before (some x) after in_pool trying e' later =
            trials-IsTough max_tries pool before p after in_pool
              (trying ∙ ap (λ y. ok (some y, after)) (sym (get_of_ok refl e')))
        settle pool left before none after in_pool trying e' later = later e'

else_of : {A : Type 0} (c : Bool) (x y r : A) → c ≡ false → (if c then x else y) ≡ r → y ≡ r
else_of true x y r h e = absurd cc
else_of false x y r h e = e

few_factors :
    (bitsize size : ℕ) → 0 < size → bitsize ≤ 241 * size → bitsize / size % 256 ≡ bitsize / size
few_factors bitsize size pos h =
    let below : bitsize / size < 242 =
      (div-lt_iff_lt-mul {k = size} pos).1 (omega (arith, h, pos)) in
    mod-eq_of_lt (omega (arith, below))

-- When the size allows four factors or more and a number is found, it is twice a product of small
-- primes that were drawn, plus one. It has the size and the residue that are asked for, and OpenSSL
-- did not find it composite.
pub generate_tough_prime-IsTough :
    (o : OpenSsl) (laws : IsOpenSsl o) (mem : ℕ → Bool) (bitsize subprimes_bitsize : ℕ)
    (p_given ctx_given : Bool) (add rem safe_prime : Ptr ℕ) (primes : List ℕ) (seeds : List Bytes)
    (p : ℕ)
    → 4 * subprimes_bitsize ≤ bitsize
    → generate_tough_prime o mem bitsize subprimes_bitsize p_given add rem ctx_given safe_prime
        primes seeds
      ≡ ok p
    → IsTough o primes bitsize add rem (bitsize / subprimes_bitsize) p
unfolding generate_tough_prime
generate_tough_prime-IsTough o laws mem bitsize subprimes_bitsize p_given ctx_given add rem
      safe_prime primes seeds p large e =
    let (a, e1) = guard-ok _ _ _ p e in
    let (b, e2) = guard-ok (bitsize % subprimes_bitsize == 0) _ _ p e1 in
    let e3 = else_of (ltb bitsize (4 * subprimes_bitsize)) _ _ (ok p) (le→ltb _ _ large) e2 in
    let (few, e4) = guard-ok (leb bitsize (241 * subprimes_bitsize)) _ _ p e3 in
    let (c, e5) = guard-ok (mem 0) _ _ p e4 in
    let pool_size : ℕ = (bitsize / subprimes_bitsize % 256 + pool_increase) % 256 in
    let (d, e6) = guard-ok (pool_works o mem 1 pool_size) _ _ p e5 in
    let (f, e7) = guard-ok (mem (1 + pool_size)) _ _ p e6 in
    let size_pos : 0 < subprimes_bitsize =
      size_given bitsize subprimes_bitsize
        (and-left _ p_given (and-left _ ctx_given (and-left _ (leb subprimes_bitsize 32768) a))) in
    subst (λ count. IsTough o primes bitsize add rem count p)
      (few_factors bitsize subprimes_bitsize size_pos (leb→le _ _ few))
      (cycles-IsTough o bitsize add rem laws primes (bitsize / subprimes_bitsize % 256) max_cycles
        pool_size p primes seeds (All-IsAmong primes) e7)
  where
    size_given : (size sub : ℕ) → (not (size == 0) && not (sub == 0)) ≡ true → 0 < sub
    size_given zero sub h = absurd (ground arith)
    size_given (suc size) zero h = absurd (ground arith)
    size_given (suc size) (suc sub) h = omega arith
