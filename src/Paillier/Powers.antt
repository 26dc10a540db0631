-- ===== src/Paillier/Powers.antt =====
-- Powers modulo `n` and modulo its square.
use native.Mathlib.Nat.{div-add-mod, mod-eq_of_lt, pow-suc, pow-zero}
use mpc_lib_demo.Base.{
  Cong, Cong-mul_right, Cong-of_eq, Cong-trans, ap, arith, mod-eq_of_Cong, suc, zero, ℕ, ◌%◌, ◌*◌,
  ◌+◌, ◌/◌, ◌<◌, ◌^◌, ◌∙◌, ◌≡◌,
}

-- The first two terms of the binomial theorem.
pub one-plus-pow : (n a k : ℕ) → Cong (n * n) ((1 + n * a) ^ k) (1 + n * (a * k))
one-plus-pow n a zero = Cong-of_eq (omega (arith, pow-zero (1 + n * a)))
one-plus-pow n a (suc k) =
    Cong-trans
      (Cong-trans (Cong-of_eq (pow-suc (1 + n * a) k))
        (Cong-mul_right (1 + n * a) (one-plus-pow n a k)))
      (record { over_left = 0; over_right = a * k * a; balance = omega arith })

-- What is one modulo `n`, to the power of `n`, is one modulo the square.
pub unit-pow : (n a : ℕ) → 1 < n → Cong n a 1 → Cong (n * n) (a ^ n) 1
unit-pow n a big h =
    let one : a % n ≡ 1 = mod-eq_of_Cong n a 1 h ∙ mod-eq_of_lt big in
    let form : a ≡ 1 + n * (a / n) = omega (arith, one, div-add-mod a n) in
    Cong-trans (Cong-trans (Cong-of_eq (ap (λ x. x ^ n) form)) (one-plus-pow n (a / n) n))
      (record { over_left = 0; over_right = a / n; balance = omega arith })
