-- ===== src/Paillier/Generation/Draws.antt =====
-- About the loop of paillier.c that draws the primes of a key.
use mpc_lib_demo.Paillier.Generation.{Found, draw_loop, draw_round, test_round}
use mpc_lib_demo.Paillier.{PaillierStatus}
use mpc_lib_demo.OpenSsl.{IsOpenSsl, OpenSsl, is_one}
use mpc_lib_demo.Base.{
  All, Bool, Bool-cases, List, Result, [], arith, false, inl, inr, ok, refl, true, ℕ, ◌%◌, ◌*◌, ◌-◌,
  ◌==◌, ◌∙◌, ◌∷◌, ◌≡◌, ◌≢◌, ◌⊎◌,
}
use mpc_lib_demo.Base.Fermat.{IsPrime}
use mpc_lib_demo.AlgebraUtils.Coprime.{AreCoprime}
use mpc_lib_demo.AlgebraUtils.Primes.{is_one-AreCoprime, order_of}

-- What OpenSSL is asked for: two primes, congruent to 3 and to 7 modulo 8.
pub record IsPrimePair (primes : ℕ × ℕ) : Type 0 where
  pub p_prime : IsPrime primes.0
  pub q_prime : IsPrime primes.1
  pub p_form : primes.0 % 8 ≡ 3
  pub q_form : primes.1 % 8 ≡ 7

module _ (o : OpenSsl) where
  -- Some pair has the same length, and a product that is coprime to the order.
  abbrev pub CanMake : List (ℕ × ℕ) → Type 0
  CanMake [] = ⊥
  CanMake (primes ∷ tape) =
      ((o.bn_num_bits primes.0 ≡ o.bn_num_bits primes.1)
        × AreCoprime ((primes.0 - 1) * (primes.1 - 1)) (primes.0 * primes.1))
      ⊎ CanMake tape

-- What the loop leaves is the order of a product of two different primes, which is coprime to it.
pub record IsFound (found : Found) : Type 0 where
  pub p_prime : IsPrime found.p
  pub q_prime : IsPrime found.q
  pub distinct : found.p ≢ found.q
  pub product : found.n ≡ found.p * found.q
  pub order : found.lamda ≡ (found.p - 1) * (found.q - 1)
  pub coprime : AreCoprime found.lamda found.n

module _ (o : OpenSsl) (laws : IsOpenSsl o) (e : ℕ) where
  distinct_of_form : (primes : ℕ × ℕ) → IsPrimePair primes → primes.0 ≢ primes.1
  distinct_of_form primes h same = omega (arith, h.p_form, h.q_form, same)

  round_skipped :
      (primes : ℕ × ℕ) (n lamda : ℕ)
      → (o.bn_num_bits primes.0 == o.bn_num_bits primes.1) ≡ false
      → draw_round o e primes n lamda ≡ ok (n, lamda)
  unfolding draw_round
  round_skipped primes n lamda differ = rw (differ) refl

  round_value :
      (primes : ℕ × ℕ) (n lamda : ℕ)
      → IsPrimePair primes
      → (o.bn_num_bits primes.0 == o.bn_num_bits primes.1) ≡ true
      → draw_round o e primes n lamda ≡ ok (primes.0 * primes.1, (primes.0 - 1) * (primes.1 - 1))
  unfolding draw_round
  round_value primes n lamda h same =
      let p : ℕ = primes.0 in
      let q : ℕ = primes.1 in
      let (first, second, order) = order_of p q h.p_prime.big h.q_prime.big in
      rw
        (
          same,
          laws.mul p q,
          laws.sub (p * q) p first,
          laws.sub (p * q - p) q second,
          laws.add_word (p * q - p - q) 1,
          order,
        )
        refl

  test_again :
      (primes computed : ℕ × ℕ) (rest : Result PaillierStatus Found)
      → is_one (o.bn_gcd computed.1 computed.0) ≡ false
      → test_round o e primes computed rest ≡ rest
  unfolding test_round
  test_again primes computed rest stale = elim (Bool-cases (primes.0 == primes.1)) [
    | inl same ↦ rw (same) refl
    | inr other ↦ rw (other, stale) refl
  ]

  test_ends :
      (primes computed : ℕ × ℕ) (rest : Result PaillierStatus Found)
      → primes.0 ≢ primes.1
      → is_one (o.bn_gcd computed.1 computed.0) ≡ true
      → test_round o e primes computed rest
        ≡ ok (record { p = primes.0; q = primes.1; n = computed.0; lamda = computed.1 })
  unfolding test_round
  test_ends primes computed rest other one =
      let differ : (primes.0 == primes.1) ≡ false = ground arith in rw (differ, one) refl

  -- A round that is repeated leaves numbers that the test refuses, so primes of different lengths,
  -- which leave the numbers as they were, do not end the loop.
  pub draw_loop-IsFound :
      (tape : List (ℕ × ℕ)) (n lamda : ℕ)
      → All IsPrimePair tape
      → is_one (o.bn_gcd lamda n) ≡ false
      → CanMake o tape
      → (found : Found) × (draw_loop o e tape n lamda ≡ ok found) × IsFound found
  unfolding draw_loop
  draw_loop-IsFound [] n lamda forms stale can = absurd can
  draw_loop-IsFound (primes ∷ tape) n lamda forms stale can =
      let p : ℕ = primes.0 in
      let q : ℕ = primes.1 in
      elim (Bool-cases (o.bn_num_bits p == o.bn_num_bits q)) [
        | inr differ ↦
            let later : CanMake o tape = elim can [
              | inl here ↦ absurd (ground (arith, here.0, differ))
              | inr there ↦ there
            ] in
            let (found, made, good) = draw_loop-IsFound tape n lamda forms.1 stale later in
            (
              found,
              rw (round_skipped primes n lamda differ)
                  (test_again primes (n, lamda) (draw_loop o e tape n lamda) stale ∙ made),
              good,
            )
        | inl same ↦
            let n' : ℕ = p * q in
            let lamda' : ℕ = (p - 1) * (q - 1) in
            elim (Bool-cases (is_one (o.bn_gcd lamda' n'))) [
              | inl one ↦ (
                record { p = p; q = q; n = n'; lamda = lamda' },
                rw (round_value primes n lamda forms.0 same) (
                    test_ends primes (n', lamda') (draw_loop o e tape n' lamda')
                      (distinct_of_form primes forms.0) one),
                record {
                  p_prime = forms.0.p_prime;
                  q_prime = forms.0.q_prime;
                  distinct = distinct_of_form primes forms.0;
                  product = refl;
                  order = refl;
                  coprime = (is_one-AreCoprime o laws lamda' n').0 one;
                },
              )
              | inr again ↦
                  let later : CanMake o tape = elim can [
                    | inl here ↦
                        absurd (differ_bool ((is_one-AreCoprime o laws lamda' n').1 here.1) again)
                    | inr there ↦ there
                  ] in
                  let (found, made, good) = draw_loop-IsFound tape n' lamda' forms.1 again later in
                  (
                    found,
                    rw (round_value primes n lamda forms.0 same) (
                        test_again primes (n', lamda') (draw_loop o e tape n' lamda') again ∙ made),
                    good,
                  )
            ]
      ]
    where
      differ_bool : {b : Bool} → b ≡ true → b ≡ false → ⊥
      differ_bool h h' = cc
