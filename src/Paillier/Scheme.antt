-- ===== src/Paillier/Scheme.antt =====
-- Paillier's scheme over the operations of paillier.c: what encrypts a number.
use native.Mathlib.Nat.{div-add-mod, mod-eq_of_lt, mod-lt}
use mpc_lib_demo.AlgebraUtils.Coprime.{AreCoprime}
use mpc_lib_demo.AlgebraUtils.Crt.{Cong-factor_left}
use mpc_lib_demo.Paillier.{PrivateKey}
use mpc_lib_demo.Base.Powers.{mul-pow, pow-pow}
use mpc_lib_demo.Paillier.Powers.{one-plus-pow, unit-pow}
use mpc_lib_demo.Base.{
  Bool-cases, Cong, Cong-mod, Cong-mul, Cong-mul_left, Cong-mul_right, Cong-of_eq, Cong-pow,
  Cong-trans, ap, arith, inl, inr, mod-eq_of_Cong, sym, ℕ, ◌%◌, ◌*◌, ◌+◌, ◌-◌, ◌/◌, ◌<◌, ◌==◌, ◌^◌,
  ◌∙◌, ◌≡◌,
}
use mpc_lib_demo.AlgebraUtils.Primes.{AreCoprime-of_order}

-- A key: `lamda` is the order of the numbers that are coprime to `n`, as Euler's theorem says of
-- phi(n), and `mu` is its inverse.
pub record IsKey (key : PrivateKey) : Type 0 where
  pub big : 1 < key.public.n
  pub square : key.public.n2 ≡ key.public.n * key.public.n
  pub inverse : Cong key.public.n (key.lamda * key.mu) 1
  pub order : (a : ℕ) → AreCoprime a key.public.n → Cong key.public.n (a ^ key.lamda) 1

-- `c` encrypts `m` with some randomness `r`.
pub record IsCiphertext (n c m : ℕ) : Type 0 where
  pub r : ℕ
  pub coprime : AreCoprime r n
  pub value : Cong (n * n) c ((1 + n * m) * r ^ n)
  pub reduced : c < n * n

module _ (key : PrivateKey) (is_key : IsKey key) where
  abbrev n : ℕ
  n = key.public.n

  pub lamda_pos : 0 < key.lamda
  lamda_pos = elim (Bool-cases (key.lamda == 0)) [
    | inl e ↦
        let z : key.lamda ≡ 0 = ground arith in
        let none_left : key.lamda * key.mu ≡ 0 = ap (λ (x : ℕ). x * key.mu) z ∙ omega arith in
        let one : 0 % key.public.n ≡ 1 % key.public.n =
          ap (λ x. x % key.public.n) (sym none_left)
          ∙ mod-eq_of_Cong key.public.n (key.lamda * key.mu) 1 is_key.inverse in
        absurd (
          omega (
            arith,
            one,
            mod-eq_of_lt {n = 1} {m = key.public.n} is_key.big,
            mod-eq_of_lt {n = 0} {m = key.public.n} (omega (arith, is_key.big)),
          ))
    | inr e ↦ ground arith
  ]

  pub AreCoprime-mul : (a b : ℕ) → AreCoprime a n → AreCoprime b n → AreCoprime (a * b) n
  AreCoprime-mul a b ha hb = AreCoprime-of_order n (a * b) key.lamda lamda_pos (
      Cong-trans (Cong-of_eq (mul-pow a b key.lamda))
        (Cong-mul (is_key.order a ha) (is_key.order b hb)))

  -- The power that decryption computes.
  power_value :
      (c m : ℕ) → IsCiphertext n c m → Cong (n * n) (c ^ key.lamda) (1 + n * (m * key.lamda % n))
  power_value c m h =
      let t : ℕ = m * key.lamda in
      Cong-trans (Cong-pow key.lamda h.value) (
        Cong-trans (Cong-of_eq (mul-pow (1 + n * m) (h.r ^ n) key.lamda)) (
          Cong-trans
            (Cong-mul (one-plus-pow n m key.lamda) (
              Cong-trans (Cong-of_eq (pow-pow h.r n key.lamda))
                (unit-pow n (h.r ^ key.lamda) is_key.big (is_key.order h.r h.coprime))))
            (record {
              over_left = 0;
              over_right = t / n;
              balance = omega (arith, ap (λ (x : ℕ). n * x) (div-add-mod t n));
            })))

  pub ciphertext-AreCoprime : (c m : ℕ) → IsCiphertext n c m → AreCoprime c n
  ciphertext-AreCoprime c m h = AreCoprime-of_order n c key.lamda lamda_pos (
      Cong-trans (Cong-factor_left n (power_value c m h))
        (record { over_left = 0; over_right = m * key.lamda % n; balance = omega arith }))

  pub power_eq :
      (c m : ℕ) → IsCiphertext n c m → c ^ key.lamda % (n * n) ≡ 1 + n * (m * key.lamda % n)
  power_eq c m h =
      let t : ℕ = m * key.lamda % n in
      let small : t < n = mod-lt (m * key.lamda) (omega (arith, is_key.big)) in
      let split : n ≡ t + 1 + (n - t - 1) = omega arith in
      mod-eq_of_Cong (n * n) (c ^ key.lamda) (1 + n * t) (power_value c m h)
      ∙ mod-eq_of_lt (omega (arith, ap (λ x. n * x) split, is_key.big))

  pub plaintext_eq : (m : ℕ) → (m * key.lamda % n * key.mu) % n ≡ m % n
  plaintext_eq m = mod-eq_of_Cong n (m * key.lamda % n * key.mu) m (
      Cong-trans (Cong-mul_right key.mu (Cong-mod n (m * key.lamda))) (
        Cong-trans
          (Cong-of_eq {a = m * key.lamda * key.mu} {b = m * (key.lamda * key.mu)} (omega arith))
          (Cong-trans (Cong-mul_left m is_key.inverse)
            (Cong-of_eq {a = m * 1} {b = m} (omega arith)))))
