-- ===== src/AlgebraUtils/Primes.antt =====
-- Products of two primes: their order, and what is coprime to them.
use native.Mathlib.Nat.{
  dvd-add, dvd-add_iff_left, dvd-mul_left, dvd-mul_left_of_dvd, dvd-mul_right, eq-one_of_dvd-one,
  pow-suc,
}
use mpc_lib_demo.AlgebraUtils.Coprime.{AreCoprime, is_one_iff}
use mpc_lib_demo.OpenSsl.{IsOpenSsl, OpenSsl, is_one}
use mpc_lib_demo.Base.{
  Cong, arith, subst, suc, sym, true, zero, ℕ, ◌*◌, ◌+◌, ◌-◌, ◌<◌, ◌^◌, ◌↔◌, ◌∣◌, ◌≡◌, ◌≢◌, ◌≤◌,
}
use mpc_lib_demo.Base.Fermat.{IsPrime}
use mpc_lib_demo.Base.Euler.{euler}

pub prime-not_dvd : (p a n : ℕ) → IsPrime p → p ∣ n → AreCoprime a n → ¬ (p ∣ a)
prime-not_dvd p a n prime divides coprime h = omega (arith, coprime p h divides, prime.big)

pub product_big : (p q : ℕ) → 1 < p → 1 < q → 1 < p * q
product_big p q hp hq = grind arith

-- What is coprime to the product has the order of the product.
pub order_of_product :
    (p q n a : ℕ)
    → IsPrime p
    → IsPrime q
    → p ≢ q
    → n ≡ p * q
    → AreCoprime a n
    → Cong n (a ^ ((p - 1) * (q - 1))) 1
order_of_product p q n a hp hq distinct product coprime =
    let on_p : p ∣ n = subst (λ m. p ∣ m) (sym product) (dvd-mul_right p q) in
    let on_q : q ∣ n = subst (λ m. q ∣ m) (sym product) (dvd-mul_left q p) in
    subst (λ m. Cong m (a ^ ((p - 1) * (q - 1))) 1) (sym product)
      (euler p q hp hq distinct a (prime-not_dvd p a n hp on_p coprime)
        (prime-not_dvd q a n hq on_q coprime))

order_from_two :
    (a b : ℕ)
    → (a + 2 ≤ (a + 2) * (b + 2))
      × (b + 2 ≤ (a + 2) * (b + 2) - (a + 2))
      × ((a + 2) * (b + 2) - (a + 2) - (b + 2) + 1 ≡ (a + 2 - 1) * (b + 2 - 1))
order_from_two a b =
    let left : a + 2 - 1 ≡ a + 1 = omega arith in
    let right : b + 2 - 1 ≡ b + 1 = omega arith in
    (omega arith, omega arith, rw (left, right) (omega arith))

pub order_of :
    (p q : ℕ)
    → 1 < p
    → 1 < q
    → (p ≤ p * q) × (q ≤ p * q - p) × (p * q - p - q + 1 ≡ (p - 1) * (q - 1))
order_of p q hp hq =
    let p_eq : p - 2 + 2 ≡ p = omega (arith, hp) in
    let q_eq : q - 2 + 2 ≡ q = omega (arith, hq) in
    subst (λ y. (p ≤ p * y) × (y ≤ p * y - p) × (p * y - p - y + 1 ≡ (p - 1) * (y - 1))) q_eq
      (subst
        (λ x.
          (x ≤ x * (q - 2 + 2))
          × (q - 2 + 2 ≤ x * (q - 2 + 2) - x)
          × (x * (q - 2 + 2) - x - (q - 2 + 2) + 1 ≡ (x - 1) * (q - 2 + 2 - 1)))
        p_eq (order_from_two (p - 2) (q - 2)))

pub product_pos : (a b : ℕ) → 0 < a → 0 < b → 0 < a * b
product_pos a b ha hb = grind arith

dvd-pow : (d a k : ℕ) → d ∣ a → 0 < k → d ∣ a ^ k
dvd-pow d a zero h pos = elim pos [ ]
dvd-pow d a (suc k) h pos = subst (λ x. d ∣ x) (sym (pow-suc a k)) (dvd-mul_left_of_dvd d h (a ^ k))

dvd_one_of_Cong : (n d x : ℕ) → d ∣ x → d ∣ n → Cong n x 1 → d ≡ 1
dvd_one_of_Cong n d x hx hn h =
    let left : d ∣ x + h.over_left * n = dvd-add d hx (dvd-mul_left_of_dvd d hn h.over_left) in
    let right : d ∣ 1 + h.over_right * n = subst (λ y. d ∣ y) h.balance left in
    eq-one_of_dvd-one ((dvd-add_iff_left d (dvd-mul_left_of_dvd d hn h.over_right)).1 right)

-- What has a power congruent to 1 is coprime to the modulus.
pub AreCoprime-of_order : (n a k : ℕ) → 0 < k → Cong n (a ^ k) 1 → AreCoprime a n
AreCoprime-of_order n a k pos h d ha hn = dvd_one_of_Cong n d (a ^ k) (dvd-pow d a k ha pos) hn h

module _ (o : OpenSsl) (laws : IsOpenSsl o) where
  pub is_one-AreCoprime : (a b : ℕ) → (is_one (o.bn_gcd a b) ≡ true) ↔ AreCoprime a b
  unfolding is_one
  is_one-AreCoprime a b =
      let (g, found, left, right, greatest) = laws.gcd a b in
      rw found
        (is_one_iff o laws g a b (record { left = left; right = right; greatest = greatest }))
