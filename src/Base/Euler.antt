-- ===== src/Base/Euler.antt =====
-- Euler's theorem for a product of two primes.
use native.Mathlib.Nat.{div-add-mod, mod-eq_of_lt, pow-suc, pow-zero}
use mpc_lib_demo.Base.Names.{
  ap, arith, inl, inr, refl, suc, sym, zero, ℕ, ◌%◌, ◌*◌, ◌-◌, ◌/◌, ◌^◌, ◌∙◌, ◌∣◌, ◌≡◌, ◌≢◌,
}
use mpc_lib_demo.Base.Congruence.{
  Cong, Cong-add_cancel, Cong-of_eq, Cong-pow, Cong-trans, mod-eq_of_Cong,
}
use mpc_lib_demo.Base.Powers.{pow-mul, pow-pow}
use mpc_lib_demo.Base.Fermat.{IsPrime, cancel, fermat}

pub one-pow : (i : ℕ) → 1 ^ i ≡ 1
one-pow zero = pow-zero 1
one-pow (suc i) = rw (pow-suc 1 i, one-pow i) refl

module _ (p q : ℕ) (p_prime : IsPrime p) (q_prime : IsPrime q) (distinct : p ≢ q) where
  other_not_dvd : ¬ (p ∣ q)
  other_not_dvd h = elim (q_prime.divisors p h) [
    | inl e ↦ omega (arith, e, p_prime.big)
    | inr e ↦ distinct e
  ]

  -- What is zero modulo both primes is a multiple of the product.
  multiple_of_both : (y : ℕ) → Cong p y 0 → Cong q y 0 → (m : ℕ) × (y ≡ m * (p * q))
  multiple_of_both y on_p on_q =
      let m : ℕ = y / q in
      let rest : y % q ≡ 0 =
        mod-eq_of_Cong q y 0 on_q ∙ mod-eq_of_lt (omega (arith, q_prime.big)) in
      let y_eq : y ≡ q * m = omega (arith, div-add-mod y q, rest) in
      let on_m : Cong p m 0 =
        cancel p p_prime q m other_not_dvd (Cong-trans (Cong-of_eq (sym y_eq)) on_p) in
      let rest' : m % p ≡ 0 =
        mod-eq_of_Cong p m 0 on_m ∙ mod-eq_of_lt (omega (arith, p_prime.big)) in
      (
        m / p,
        y_eq
            ∙ ap (λ (x : ℕ). q * x) {x = m} {y = p * (m / p)}
                (omega (arith, div-add-mod m p, rest'))
            ∙ omega arith,
      )

  one_of_both : (x : ℕ) → Cong p x 1 → Cong q x 1 → Cong (p * q) x 1
  one_of_both zero on_p on_q = absurd (
      omega (
        arith,
        mod-eq_of_Cong p 0 1 on_p,
        mod-eq_of_lt {n = 1} {m = p} p_prime.big,
        mod-eq_of_lt {n = 0} {m = p} (omega (arith, p_prime.big)),
      ))
  one_of_both (suc x) on_p on_q =
      let down : (r : ℕ) → Cong r (suc x) 1 → Cong r x 0 =
        λ r h. Cong-add_cancel 1 (Cong-trans (Cong-of_eq (omega arith)) h) in
      let (m, e) = multiple_of_both x (down p on_p) (down q on_q) in
      record { over_left = 0; over_right = m; balance = omega (arith, e) }

  -- Euler's theorem
  pub euler : (a : ℕ) → ¬ (p ∣ a) → ¬ (q ∣ a) → Cong (p * q) (a ^ ((p - 1) * (q - 1))) 1
  euler a not_p not_q =
      one_of_both (a ^ ((p - 1) * (q - 1)))
        (Cong-trans (Cong-of_eq (pow-mul a (p - 1) (q - 1)))
          (Cong-trans (Cong-pow (q - 1) (fermat p p_prime a not_p)) (Cong-of_eq (one-pow (q - 1)))))
        (Cong-trans (Cong-of_eq (pow-mul a (p - 1) (q - 1) ∙ pow-pow a (p - 1) (q - 1)))
          (Cong-trans (Cong-pow (p - 1) (fermat q q_prime a not_q)) (Cong-of_eq (one-pow (p - 1)))))
