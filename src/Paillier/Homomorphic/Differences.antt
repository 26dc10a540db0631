-- ===== src/Paillier/Homomorphic/Differences.antt =====
-- About the two subtractions of paillier.c.
use native.Mathlib.Nat.{add-mul-mod_self_right, mod-eq_of_lt, pow-suc}
use mpc_lib_demo.OpenSsl.{IsOpenSsl, OpenSsl, big_endian}
use mpc_lib_demo.Paillier.{PrivateKey}
use mpc_lib_demo.Base.Powers.{pow-mul}
use mpc_lib_demo.Paillier.Powers.{unit-pow}
use mpc_lib_demo.Paillier.Scheme.{IsCiphertext, IsKey, ciphertext-AreCoprime, lamda_pos}
use mpc_lib_demo.Paillier.Homomorphic.{sub, sub_integer, sub_integer_number, sub_number, too_long}
use mpc_lib_demo.Paillier.Homomorphic.Sums.{
  compute_value, coprime_value, power-IsCiphertext, product-IsCiphertext,
}
use mpc_lib_demo.Paillier.Encryption.Internal.{CanDraw, Works, encrypt_openssl_value}
use mpc_lib_demo.Paillier.Encryption.RoundTrip.{Encrypts, wrote}
use mpc_lib_demo.Base.{
  Bool, Bytes, Cong, Cong-mod, Cong-mul_left, Cong-of_eq, Cong-symm, Cong-trans, List, after, ap,
  arith, le→ltb, mod-eq_of_Cong, refl, some, subst, suc, sym, true, ℕ, ◌%◌, ◌*◌, ◌+◌, ◌-◌, ◌<◌, ◌^◌,
  ◌∙◌, ◌≡◌, ◌≤◌,
}

module _ (o : OpenSsl) (laws : IsOpenSsl o) (key : PrivateKey) (is_key : IsKey key) where
  abbrev n : ℕ
  n = key.public.n

  -- The power of a ciphertext that is its inverse.
  abbrev exponent : ℕ
  exponent = key.lamda * n - 1

  suc-exponent : suc exponent ≡ key.lamda * n
  suc-exponent =
      let above : n ≡ 1 + (n - 1) = omega (arith, is_key.big) in
      omega (arith, ap (λ (x : ℕ). key.lamda * x) above, lamda_pos key is_key)

  inverse_power : (b k : ℕ) → IsCiphertext n b k → Cong (n * n) (b * b ^ exponent) 1
  inverse_power b k h =
      let whole : b * b ^ exponent ≡ (b ^ key.lamda) ^ n =
        omega (arith, pow-suc b exponent) ∙ ap (λ i. b ^ i) suc-exponent ∙ pow-mul b key.lamda n in
      Cong-trans (Cong-of_eq whole) (
        unit-pow n (b ^ key.lamda) is_key.big
          (is_key.order b (ciphertext-AreCoprime key is_key b k h)))

  n2_big : 1 < n * n
  n2_big =
      let above : n ≡ 2 + (n - 2) = omega (arith, is_key.big) in
      omega (arith, ap (λ (x : ℕ). n * x) above, is_key.big)

  inverse-IsCiphertext :
      (b k : ℕ)
      → IsCiphertext n b k
      → (v : ℕ) × (o.bn_mod_inverse b (n * n) ≡ some v) × IsCiphertext n v (k * exponent)
  inverse-IsCiphertext b k h =
      let power : ℕ = b ^ exponent in
      let one : (b * power) % (n * n) ≡ 1 =
        mod-eq_of_Cong (n * n) (b * power) 1 (inverse_power b k h) ∙ mod-eq_of_lt n2_big in
      let (v, found, inverse, small) = laws.mod_inverse b power (n * n) n2_big one in
      let undone : Cong (n * n) (b * v) 1 =
        Cong-trans (Cong-symm (Cong-mod (n * n) (b * v))) (Cong-of_eq inverse) in
      let same : Cong (n * n) v power = Cong-trans (Cong-of_eq {a = v} {b = v * 1} (omega arith)) (
        Cong-trans (Cong-mul_left v (Cong-symm (inverse_power b k h))) (
          Cong-trans (Cong-of_eq {a = v * (b * power)} {b = power * (b * v)} (omega arith)) (
            Cong-trans (Cong-mul_left power undone)
              (Cong-of_eq {a = power * 1} {b = power} (omega arith))))) in
      (
        v,
        found,
        subst (λ c. IsCiphertext n c (k * exponent))
            (sym (mod-eq_of_Cong (n * n) v power same) ∙ mod-eq_of_lt small)
            (power-IsCiphertext o laws key is_key b k exponent h),
      )

  difference_eq : (m k : ℕ) → (m + k * exponent + k) % n ≡ m % n
  difference_eq m k =
      ap (λ x. x % n) {x = m + k * exponent + k} {y = m + k * key.lamda * n}
        (omega (arith, ap (λ (x : ℕ). k * x) suc-exponent))
      ∙ add-mul-mod_self_right m (k * key.lamda) n

  module _ (mem : ℕ → Bool) (e : ℕ) (works : Works mem) (result_len : ℕ)
      (room : o.bn_num_bytes key.public.n2 ≤ result_len) where
    -- When no allocation fails and the buffer is long enough, `paillier_sub` of two ciphertexts, of
    -- `m` and of `k`, writes a ciphertext of a number that gives `m` when `k` is added, modulo `n`.
    pub sub-Encrypts :
        (a b : Bytes) (m k : ℕ)
        → Encrypts o key.public a m
        → Encrypts o key.public b k
        → (out : Bytes) × (d : ℕ) × (sub o mem e (some key.public) (some a) (some b) true result_len
            ≡ wrote out)
          × Encrypts o key.public out d
          × ((d + k) % n ≡ m % n)
    unfolding sub sub_number too_long
    sub-Encrypts a b m k ha hb =
        let (v, inverse, hv) = inverse-IsCiphertext (big_endian 0 b) k hb.ciphertext in
        let c : ℕ = (big_endian 0 a * v) % (n * n) in
        let (out, done, good) =
          compute_value o laws key is_key mem e works result_len room a
            (sub_number o mem e key.public b) c (m + k * exponent)
            (rw
              (
                laws.bin2bn b,
                coprime_value o laws key is_key mem e works result_len room a m 4 ha,
                coprime_value o laws key is_key mem e works result_len room b k 6 hb,
                is_key.square,
                inverse,
                laws.mod_mul (big_endian 0 a) v (n * n) (omega (arith, n2_big)),
              )
              refl)
            (product-IsCiphertext o laws key is_key (big_endian 0 a) v m (k * exponent)
              ha.ciphertext hv) in
        (
          out,
          m + k * exponent,
          rw (le→ltb _ _ ha.fits, le→ltb _ _ hb.fits) done,
          good,
          difference_eq m k,
        )

    -- When no allocation fails, the generator draws a number that is coprime to `n`, and the buffer
    -- is long enough, `paillier_sub_integer` of a ciphertext of `m` and the integer `k` writes a
    -- ciphertext of a number that gives `m` when `k` is added, modulo `n`.
    pub sub_integer-Encrypts :
        (tape : List ℕ) (a : Bytes) (m k : ℕ)
        → CanDraw n tape
        → Encrypts o key.public a m
        → (out : Bytes) × (d : ℕ) × (sub_integer o mem e tape
              (some key.public)
              (some a)
              k
              true
              result_len
            ≡ wrote out)
          × Encrypts o key.public out d
          × ((d + k) % n ≡ m % n)
    unfolding sub_integer sub_integer_number too_long
    sub_integer-Encrypts tape a m k can ha =
        let (b, found, hb) =
          encrypt_openssl_value o laws key is_key e tape (after 6 mem) k (λ i. works (i + 6)) can in
        let (v, inverse, hv) = inverse-IsCiphertext b k hb in
        let c : ℕ = (big_endian 0 a * v) % (n * n) in
        let (out, done, good) =
          compute_value o laws key is_key mem e works result_len room a
            (sub_integer_number o mem e tape key.public k) c (m + k * exponent)
            (rw
              (
                laws.set_word k,
                coprime_value o laws key is_key mem e works result_len room a m 4 ha,
                found,
                is_key.square,
                inverse,
                laws.mod_mul (big_endian 0 a) v (n * n) (omega (arith, n2_big)),
              )
              refl)
            (product-IsCiphertext o laws key is_key (big_endian 0 a) v m (k * exponent)
              ha.ciphertext hv) in
        (out, m + k * exponent, rw (le→ltb _ _ ha.fits) done, good, difference_eq m k)
