-- ===== src/Paillier/Encryption/Internal.antt =====
-- About the internal encryption and decryption of numbers in paillier.c.
use native.Mathlib.Nat.{mod-lt, mul-div_cancel_left}
use mpc_lib_demo.OpenSsl.{IsOpenSsl, OpenSsl}
use mpc_lib_demo.AlgebraUtils.Coprime.{AreCoprime, is_coprime_fast-AreCoprime}
use mpc_lib_demo.Paillier.{
  PrivateKey, decrypt_openssl_internal, encrypt_loop, encrypt_openssl, encrypt_openssl_internal,
  invalid_randomness, is_coprime, paillier_l,
}
use mpc_lib_demo.Paillier.Scheme.{
  IsCiphertext, IsKey, ciphertext-AreCoprime, plaintext_eq, power_eq,
}
use mpc_lib_demo.Base.{
  Bool, Bool-cases, Cong-mod, Cong-mod_left, Cong-mul, Cong-of_eq, List, [], after, ap, arith, err,
  false, inl, inr, ok, refl, true, ℕ, ◌%◌, ◌*◌, ◌+◌, ◌-◌, ◌/◌, ◌<◌, ◌^◌, ◌∷◌, ◌≡◌, ◌⊎◌,
}

-- Some number of the draws is coprime to `n`.
abbrev pub CanDraw : ℕ → List ℕ → Type 0
CanDraw n [] = ⊥
CanDraw n (r ∷ tape) = AreCoprime r n ⊎ CanDraw n tape

abbrev pub Works : (ℕ → Bool) → Type 0
Works mem = (k : ℕ) → mem k ≡ true

module _ (o : OpenSsl) (laws : IsOpenSsl o) where
  pub is_coprime-true :
      (mem : ℕ → Bool) (a b : ℕ) → Works mem → AreCoprime a b → is_coprime o mem a b ≡ true
  unfolding is_coprime
  is_coprime-true mem a b works h =
      let (answer, e, right) = is_coprime_fast-AreCoprime o laws mem a b works in
      rw (is_coprime, e) (right.1 h)

  is_coprime_sound :
      (mem : ℕ → Bool) (a b : ℕ) → Works mem → is_coprime o mem a b ≡ true → AreCoprime a b
  unfolding is_coprime
  is_coprime_sound mem a b works h =
      let (answer, e, right) = is_coprime_fast-AreCoprime o laws mem a b works in
      right.0 (rw (is_coprime, e) at h)

  module _ (key : PrivateKey) (is_key : IsKey key) (e : ℕ) where
    abbrev n : ℕ
    n = key.public.n

    pub n2_pos : 0 < n * n
    n2_pos =
        let above : n ≡ 1 + (n - 1) = omega (arith, is_key.big) in
        omega (arith, ap (λ (x : ℕ). n * x) above, is_key.big)

    internal_value :
        (mem : ℕ → Bool) (r m : ℕ)
        → Works mem
        → AreCoprime r n
        → (c : ℕ) × (encrypt_openssl_internal o mem e key.public r m ≡ ok c) × IsCiphertext n c m
    unfolding encrypt_openssl_internal
    internal_value mem r m works coprime =
        let c : ℕ = ((n * m + 1) * (r ^ n % (n * n))) % (n * n) in
        (
          c,
          rw
              (
                is_coprime-true mem r n works coprime,
                works 2,
                works 3,
                laws.mul n m,
                laws.add_word (n * m) 1,
                is_key.square,
                laws.mod_exp r n (n * n) n2_pos,
                laws.mod_mul (n * m + 1) (r ^ n % (n * n)) (n * n) n2_pos,
              )
              refl,
          record {
            r = r;
            coprime = coprime;
            value = Cong-mod_left (
                Cong-mul (Cong-of_eq {a = n * m + 1} {b = 1 + n * m} (omega arith))
                  (Cong-mod (n * n) (r ^ n)));
            reduced = mod-lt _ n2_pos;
          },
        )

    internal_refused :
        (mem : ℕ → Bool) (r m : ℕ)
        → is_coprime o mem r n ≡ false
        → encrypt_openssl_internal o mem e key.public r m ≡ err invalid_randomness
    unfolding encrypt_openssl_internal
    internal_refused mem r m h = rw h refl

    loop_value :
        (tape : List ℕ) (mem : ℕ → Bool) (m : ℕ)
        → Works mem
        → CanDraw n tape
        → (c : ℕ) × (encrypt_loop o mem e key.public m tape ≡ ok c) × IsCiphertext n c m
    unfolding encrypt_loop
    loop_value [] mem m works can = absurd can
    loop_value (r ∷ tape) mem m works can = elim (Bool-cases (is_coprime o mem r n)) [
      | inl accepted ↦
          let (c, found, good) =
            internal_value mem r m works (is_coprime_sound mem r n works accepted) in
          (c, rw (encrypt_loop, found) refl, good)
      | inr refused ↦
          let (c, found, good) =
            loop_value tape (after 4 mem) m (λ k. works (k + 4)) (later can refused) in
          (c, rw (encrypt_loop, internal_refused mem r m refused) found, good)
    ]
      where
        differ : {b : Bool} → b ≡ true → b ≡ false → ⊥
        differ h h' = cc

        later : AreCoprime r n ⊎ CanDraw n tape → is_coprime o mem r n ≡ false → CanDraw n tape
        later (inl h) refused = absurd (differ (is_coprime-true mem r n works h) refused)
        later (inr h) refused = h

    pub encrypt_openssl_value :
        (tape : List ℕ) (mem : ℕ → Bool) (m : ℕ)
        → Works mem
        → CanDraw n tape
        → (c : ℕ) × (encrypt_openssl o mem e key.public m tape ≡ ok c) × IsCiphertext n c m
    unfolding encrypt_openssl
    encrypt_openssl_value tape mem m works can =
        let (c, found, good) = loop_value tape (after 1 mem) m (λ k. works (k + 1)) can in
        (c, rw (works 0) found, good)

    pub decrypt_value :
        (mem : ℕ → Bool) (c m : ℕ)
        → Works mem
        → IsCiphertext n c m
        → decrypt_openssl_internal o mem e key c ≡ ok (m % n)
    unfolding decrypt_openssl_internal paillier_l
    decrypt_value mem c m works h =
        let t : ℕ = m * key.lamda % n in
        let pos : 0 < n = omega (arith, is_key.big) in
        let less : 1 + n * t - 1 ≡ n * t = omega arith in
        let quotient : n * t / n ≡ t = mul-div_cancel_left t pos in
        rw
          (
            works 4,
            is_coprime-true mem c n works (ciphertext-AreCoprime key is_key c m h),
            is_key.square,
            laws.mod_exp c key.lamda (n * n) n2_pos,
            power_eq key is_key c m h,
            works 5,
            laws.sub_word (1 + n * t) 1 (omega arith),
            less,
            laws.div (n * t) n pos,
            quotient,
            laws.mod_mul t key.mu n pos,
            plaintext_eq key is_key m,
          )
          refl
