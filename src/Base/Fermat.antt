-- ===== src/Base/Fermat.antt =====
-- Fermat's theorem, by the binomial coefficients.
use native.Mathlib.Decide.{dec_lt}
use native.Mathlib.Nat.{
  div-add-mod, dvd_of_mod-eq-zero, mod-eq-zero_of_dvd, mod-eq_of_lt, mod-lt, pow-suc, pow-zero,
}
use mpc_lib_demo.Base.Names.{
  ap, arith, inl, inr, refl, suc, sym, zero, ℕ, ◌%◌, ◌*◌, ◌+◌, ◌-◌, ◌/◌, ◌<◌, ◌^◌, ◌∙◌, ◌∣◌, ◌≡◌,
  ◌⊎◌,
}
use mpc_lib_demo.Base.Congruence.{
  Cong, Cong-add, Cong-mod, Cong-mul_left, Cong-mul_right, Cong-of_eq, Cong-refl, Cong-symm,
  Cong-trans,
}

-- Pascal's triangle
abbrev pub choose : ℕ → ℕ → ℕ
choose n zero = 1
choose zero (suc k) = 0
choose (suc n) (suc k) = choose n k + choose n (suc k)

choose-absorb : (n k : ℕ) → suc k * choose (suc n) (suc k) ≡ suc n * choose n k
choose-absorb zero zero = refl
choose-absorb zero (suc k) = omega arith
choose-absorb (suc n) zero = omega (arith, choose-absorb n zero)
choose-absorb (suc n) (suc k) = omega (arith, choose-absorb n k, choose-absorb n (suc k))

-- The terms of the binomial theorem from `k` on, divided by `a ^ k`
abbrev terms : ℕ → ℕ → ℕ → ℕ → ℕ
terms a n k zero = 0
terms a n k (suc len) = choose n k + a * terms a n (suc k) len

terms-pascal :
    (a n k len : ℕ) → terms a (suc n) (suc k) len ≡ terms a n k len + terms a n (suc k) len
terms-pascal a n k zero = refl
terms-pascal a n k (suc len) = omega (arith, ap (λ (x : ℕ). a * x) (terms-pascal a n (suc k) len))

terms-zero : (a k len : ℕ) → terms a zero (suc k) len ≡ 0
terms-zero a k zero = refl
terms-zero a k (suc len) = omega (arith, ap (λ (x : ℕ). a * x) (terms-zero a (suc k) len))

binomial : (a n len : ℕ) → n < len → (1 + a) ^ n ≡ terms a n 0 len
binomial a n zero h = absurd (omega (arith, h))
binomial a zero (suc len) h =
    omega (arith, pow-zero (1 + a), ap (λ (x : ℕ). a * x) (terms-zero a 0 len))
binomial a (suc n) (suc len) h = omega (
  arith,
  pow-suc (1 + a) n,
  ap (λ (x : ℕ). x * (1 + a)) (binomial a n len (omega (arith, h))),
  binomial a n (suc len) (omega (arith, h)),
  ap (λ (x : ℕ). a * x) (terms-pascal a n 0 len),
  binomial a n len (omega (arith, h)),
)

-- Only 1 and the number itself divide it.
pub record IsPrime (p : ℕ) : Type 0 where
  pub big : 1 < p
  pub divisors : (d : ℕ) → d ∣ p → (d ≡ 1) ⊎ (d ≡ p)

-- The remainder is the negated multiple.
negate : (p a q r s : ℕ) → a * q + r ≡ p → 0 < p → Cong p (a * ((p - 1) * (q * s))) (r * s)
negate p a q r s split pos =
    let b : ℕ = p - 1 in
    let p_eq : p ≡ b + 1 = omega (arith, pos) in
    record {
      over_left = s;
      over_right = a * q * s;
      balance =
          ap (λ m. a * (b * (q * s)) + s * m) p_eq
          ∙ omega (arith, ap (λ (x : ℕ). x * s) (split ∙ p_eq))
          ∙ ap (λ m. r * s + a * q * s * m) (sym p_eq);
    }

module _ (p : ℕ) (prime : IsPrime p) where
  -- A number that is below a prime and not zero has an inverse.
  inverse_below : (fuel a : ℕ) → 0 < a → a < fuel → a < p → (u : ℕ) × Cong p (a * u) 1
  inverse_below zero a pos h small = absurd (omega (arith, h))
  inverse_below (suc fuel) a pos h small = elim (dec_lt a 2) [
    | yes one ↦ (1, Cong-of_eq (omega (arith, pos, one)))
    | no more ↦
        let r : ℕ = p % a in
        let q : ℕ = p / a in
        let less : r < a = mod-lt p pos in
        let nonzero : 0 < r = elim (dec_lt 0 r) [
          | yes h' ↦ h'
          | no z ↦ elim (prime.divisors a (dvd_of_mod-eq-zero a {n = p} (omega (arith, z)))) [
            | inl e ↦ absurd (omega (arith, e, more))
            | inr e ↦ absurd (omega (arith, e, small))
          ]
        ] in
        let (s, found) =
          inverse_below fuel r nonzero (omega (arith, h, less)) (omega (arith, small, less)) in
        let split : a * q + r ≡ p = div-add-mod p a in
        ((p - 1) * (q * s), Cong-trans (negate p a q r s split (omega (arith, pos, small))) found)
  ]

  pub inverse : (a : ℕ) → ¬ (p ∣ a) → (u : ℕ) × Cong p (a * u) 1
  inverse a not_dvd =
      let pos : 0 < p = omega (arith, prime.big) in
      let r : ℕ = a % p in
      let nonzero : 0 < r = elim (dec_lt 0 r) [
        | yes h ↦ h
        | no z ↦ absurd (not_dvd (dvd_of_mod-eq-zero p {n = a} (omega (arith, z))))
      ] in
      let (u, found) = inverse_below p r nonzero (mod-lt a pos) (mod-lt a pos) in
      (u, Cong-trans (Cong-mul_right u (Cong-symm (Cong-mod p a))) found)

  pub cancel : (a x : ℕ) → ¬ (p ∣ a) → Cong p (a * x) 0 → Cong p x 0
  cancel a x not_dvd h =
      let (u, found) = inverse a not_dvd in
      Cong-trans (Cong-of_eq {a = x} {b = 1 * x} (omega arith)) (
        Cong-trans (Cong-mul_right x (Cong-symm found)) (
          Cong-trans (Cong-of_eq {a = a * u * x} {b = u * (a * x)} (omega arith))
            (Cong-trans (Cong-mul_left u h) (Cong-of_eq {a = u * 0} {b = 0} (omega arith)))))

  not_dvd_below : (k : ℕ) → 0 < k → k < p → ¬ (p ∣ k)
  not_dvd_below k pos small h =
      omega (arith, mod-eq-zero_of_dvd p h, mod-eq_of_lt {n = k} {m = p} small, pos)

  -- A prime divides its binomial coefficients but the first and the last.
  choose-Cong : (k : ℕ) → 0 < k → k < p → Cong p (choose p k) 0
  choose-Cong zero pos small = absurd (omega (arith, pos))
  choose-Cong (suc k) pos small =
      let split : p ≡ suc (p - 1) = omega (arith, prime.big) in
      cancel (suc k) (choose p (suc k)) (not_dvd_below (suc k) pos small) (
        Cong-trans
          (Cong-of_eq (
            ap (λ n. suc k * choose n (suc k)) split
            ∙ choose-absorb (p - 1) k
            ∙ ap (λ n. n * choose (p - 1) k) (sym split)))
          (record { over_left = 0; over_right = choose (p - 1) k; balance = omega arith }))

  choose-beyond : (n k : ℕ) → n < k → choose n k ≡ 0
  choose-beyond n zero h = absurd (omega (arith, h))
  choose-beyond zero (suc k) h = refl
  choose-beyond (suc n) (suc k) h =
      omega
        (arith, choose-beyond n k (omega (arith, h)), choose-beyond n (suc k) (omega (arith, h)))

  choose_self : (n : ℕ) → choose n n ≡ 1
  choose_self zero = refl
  choose_self (suc n) = omega (arith, choose_self n, choose-beyond n (suc n) (omega arith))

  -- Modulo the prime only the last term is left.
  terms-last : (a k len : ℕ) → 0 < k → k + len ≡ p → Cong p (terms a p k (suc len)) (a ^ len)
  terms-last a k zero pos h =
      let e : k ≡ p = omega (arith, h) in
      Cong-of_eq (omega (arith, pow-zero a, ap (λ i. choose p i) e, choose_self p))
  terms-last a k (suc len) pos h =
      Cong-trans
        (Cong-add (choose-Cong k pos (omega (arith, h)))
          (Cong-mul_left a (terms-last a (suc k) len (omega arith) (omega (arith, h)))))
        (Cong-of_eq {a = 0 + a * a ^ len} {b = a ^ suc len} (omega (arith, pow-suc a len)))

  power-add_one : (a : ℕ) → Cong p ((1 + a) ^ p) (1 + a ^ p)
  power-add_one a =
      let split : p ≡ suc (p - 1) = omega (arith, prime.big) in
      Cong-trans (Cong-of_eq (binomial a p (suc p) (omega arith))) (
        Cong-trans
          (Cong-of_eq {b = 1 + a * terms a p 1 (suc (p - 1))}
            (ap (λ len. 1 + a * terms a p 1 len) split))
          (Cong-add (Cong-refl 1) (
            Cong-trans
              (Cong-mul_left a (terms-last a 1 (p - 1) (omega arith) (omega (arith, split))))
              (Cong-of_eq (omega (arith, pow-suc a (p - 1)) ∙ ap (λ i. a ^ i) (sym split))))))

  power-self : (a : ℕ) → Cong p (a ^ p) a
  power-self zero =
      let split : p ≡ suc (p - 1) = omega (arith, prime.big) in
      Cong-of_eq (ap (λ i. 0 ^ i) split ∙ omega (arith, pow-suc 0 (p - 1)))
  power-self (suc a) =
      Cong-trans (Cong-of_eq (ap (λ x. x ^ p) {x = suc a} {y = 1 + a} (omega arith))) (
        Cong-trans (power-add_one a)
          (Cong-trans (Cong-add (Cong-refl 1) (power-self a)) (Cong-of_eq (omega arith))))

  -- Fermat's theorem
  pub fermat : (a : ℕ) → ¬ (p ∣ a) → Cong p (a ^ (p - 1)) 1
  fermat a not_dvd =
      let (u, found) = inverse a not_dvd in
      let x : ℕ = a ^ (p - 1) in
      let split : p ≡ suc (p - 1) = omega (arith, prime.big) in
      let whole : Cong p (x * a) a =
        Cong-trans (Cong-of_eq (sym (pow-suc a (p - 1)) ∙ ap (λ i. a ^ i) (sym split)))
          (power-self a) in
      Cong-trans (Cong-of_eq {a = x} {b = x * 1} (omega arith)) (
        Cong-trans (Cong-mul_left x (Cong-symm found)) (
          Cong-trans (Cong-of_eq {a = x * (a * u)} {b = x * a * u} (omega arith))
            (Cong-trans (Cong-mul_right u whole) found)))
