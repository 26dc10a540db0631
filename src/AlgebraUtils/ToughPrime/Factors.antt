-- ===== src/AlgebraUtils/ToughPrime/Factors.antt =====
-- About the number that `generate_tough_prime` finds.
use mpc_lib_demo.OpenSsl.{IsOpenSsl, OpenSsl}
use mpc_lib_demo.Base.{
  All, Bool, Bool-cases, List, Ptr, Result, [], ap, arith, false, get_elem?, if◌then◌else◌, inl,
  inr, length, none, ok, or_fail, refl, some, subst, suc, sym, true, zero, ℕ, ◌&&◌, ◌*◌, ◌+◌, ◌==◌,
  ◌>>=◌, ◌∙◌, ◌∷◌, ◌≡◌, ◌≢◌, ◌⊎◌,
}
use mpc_lib_demo.AlgebraUtils.ToughPrime.{
  ToughFailure, examine, fill_pool, has_residue, multiply_factors, out_of_array, passes,
}
use mpc_lib_demo.Base.Inversion.{bind-ok, or_fail-ok}

abbrev pub product_of : List ℕ → ℕ
product_of [] = 1
product_of (factor ∷ factors) = factor * product_of factors

-- The residue is tested when both numbers are given.
abbrev pub HasResidue : OpenSsl → Ptr ℕ → Ptr ℕ → ℕ → Type 0
HasResidue o (some add) (some rem) p = o.bn_mod p add ≡ some rem
HasResidue o (some add) none p = Unit
HasResidue o none rem p = Unit

abbrev pub IsAmong : ℕ → List ℕ → Type 0
IsAmong f [] = ⊥
IsAmong f (prime ∷ primes) = (f ≡ prime) ⊎ IsAmong f primes

-- Twice a product of `count` of the small primes, plus one, of the size and the residue that are
-- asked for, which OpenSSL does not find to be composite.
pub record IsTough (o : OpenSsl) (primes : List ℕ) (bitsize : ℕ) (add rem : Ptr ℕ) (count p : ℕ)
    : Type 0 where
  pub factors : List ℕ
  pub drawn : All (λ f. IsAmong f primes) factors
  pub number : length factors ≡ count
  pub value : p ≡ 2 * product_of factors + 1
  pub size : o.bn_num_bits p ≡ bitsize
  pub residue : HasResidue o add rem p
  pub tested : o.bn_is_prime_fasttest p ≢ some false

pub get_of_some : {a b : ℕ} → some a ≡ some b → a ≡ b
get_of_some e = cc

pub get_of_ok : {A : Type 0} {m : Result ToughFailure A} {a b : A} → m ≡ ok a → m ≡ ok b → b ≡ a
get_of_ok e e' = cc

All-later :
    (prime : ℕ) (xs primes : List ℕ)
    → All (λ f. IsAmong f primes) xs
    → All (λ f. IsAmong f (prime ∷ primes)) xs
All-later prime [] primes h = tt
All-later prime (x ∷ xs) primes h = (inr h.0, All-later prime xs primes h.1)

pub All-IsAmong : (primes : List ℕ) → All (λ f. IsAmong f primes) primes
All-IsAmong [] = tt
All-IsAmong (prime ∷ primes) = (inl refl, All-later prime primes primes (All-IsAmong primes))

module _ (P : ℕ → Type 0) where
  get_elem-All : (xs : List ℕ) (i x : ℕ) → All P xs → get_elem? xs i ≡ some x → P x
  get_elem-All [] i x h e = absurd cc
  get_elem-All (y ∷ xs) zero x h e = subst P (get_of_some e) h.0
  get_elem-All (y ∷ xs) (suc i) x h e = get_elem-All xs i x h.1 e

  pub fill_pool-All :
      (o : OpenSsl) (count : ℕ) (primes : List ℕ) (filled : List ℕ × List ℕ)
      → All P primes
      → fill_pool o count primes ≡ ok filled
      → All P filled.0 × All P filled.1
  unfolding fill_pool
  fill_pool-All o zero primes filled h e =
      let same : filled ≡ ([], primes) = cc in rw (same) (tt, h)
  fill_pool-All o (suc count) [] filled h e = absurd cc
  fill_pool-All o (suc count) (prime ∷ primes) filled h e =
      let (rest, found, e') = bind-ok (fill_pool o count primes) _ filled e in
      let (left, right) = fill_pool-All o count primes rest h.1 found in
      let same : filled ≡ (prime ∷ rest.0, rest.1) = cc in rw (same) ((h.0, left), right)

  module _ (o : OpenSsl) (laws : IsOpenSsl o) where
    pub multiply_factors-product :
        (pool permutation : List ℕ) (count p result : ℕ)
        → All P pool
        → multiply_factors o pool permutation count p ≡ ok result
        → (factors : List ℕ) × (length factors ≡ count)
          × All P factors
          × (result ≡ p * product_of factors)
    unfolding multiply_factors
    multiply_factors-product pool [] zero p result h e =
        ([], refl, tt, get_of_ok refl e ∙ omega arith)
    multiply_factors-product pool (index ∷ permutation) zero p result h e =
        ([], refl, tt, get_of_ok refl e ∙ omega arith)
    multiply_factors-product pool [] (suc count) p result h e = absurd cc
    multiply_factors-product pool (index ∷ permutation) (suc count) p result h e =
        let (factor, got, e1) = bind-ok (or_fail (get_elem? pool index) out_of_array) _ result e in
        let (product, multiplied, e2) = bind-ok (or_fail (o.bn_mul p factor) _) _ result e1 in
        let here : P factor = get_elem-All pool index factor h (or_fail-ok _ _ factor got) in
        let same : some product ≡ some (p * factor) =
          sym (or_fail-ok (o.bn_mul p factor) _ product multiplied) ∙ laws.mul p factor in
        let (factors, number, all, value) =
          multiply_factors-product pool permutation count product result h e2 in
        (
          factor ∷ factors,
          ap suc number,
          (here, all),
          value ∙ ap (λ (x : ℕ). x * product_of factors) (get_of_some same) ∙ omega arith,
        )

chosen :
    (residue answer : Bool) (p found : ℕ)
    → (if residue && answer then some p else none) ≡ some found
    → (residue ≡ true) × (answer ≡ true) × (found ≡ p)
chosen true true p found e = (refl, refl, sym (get_of_some e))
chosen true false p found e = absurd cc
chosen false answer p found e = absurd cc

module _ (o : OpenSsl) (bitsize : ℕ) (add rem : Ptr ℕ) where
  pub has_residue-HasResidue : (p : ℕ) → has_residue o add rem p ≡ ok true → HasResidue o add rem p
  unfolding has_residue
  has_residue-HasResidue p e = residue_of add rem e
    where
      residue_of : (a r : Ptr ℕ) → has_residue o a r p ≡ ok true → HasResidue o a r p
      residue_of (some a) (some r) h =
          let (remainder, got, e1) = bind-ok (or_fail (o.bn_mod p a) _) _ true h in
          let same : (remainder == r) ≡ true = get_of_ok {m = ok true} refl (sym e1) in
          let equal : remainder ≡ r = ground arith in
          or_fail-ok (o.bn_mod p a) _ remainder got ∙ ap some equal
      residue_of (some a) none h = tt
      residue_of none r h = tt

  pub examine-found :
      (p found : ℕ)
      → examine o bitsize add rem p ≡ ok (some found)
      → (found ≡ p)
        × (o.bn_num_bits p ≡ bitsize)
        × (has_residue o add rem p ≡ ok true)
        × (passes o p ≡ true)
  unfolding examine
  examine-found p found e = elim (Bool-cases (o.bn_num_bits p == bitsize)) [
    | inl same ↦
        let opened : examine o bitsize add rem p ≡ (
            has_residue o add rem p >>= λ residue.
            ok (if residue && passes o p then some p else none)) =
          rw (same) refl in
        let (residue, tested, e1) =
          bind-ok (has_residue o add rem p) _ (some found) (sym opened ∙ e) in
        let (residue_true, answer, found_eq) =
          chosen residue (passes o p) p found (sym (get_of_ok refl e1)) in
        (found_eq, ground arith, tested ∙ ap ok residue_true, answer)
    | inr other ↦
        let closed : examine o bitsize add rem p ≡ ok none = rw (other) refl in
        let same : some found ≡ none = get_of_ok closed e in absurd cc
  ]

  pub passes-tested : (p : ℕ) → passes o p ≡ true → o.bn_is_prime_fasttest p ≢ some false
  unfolding passes
  passes-tested p e composite = let fails : passes o p ≡ false = rw (composite) refl in absurd cc
