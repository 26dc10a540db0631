-- ===== src/Paillier/Homomorphic/Sums.antt =====
-- About the additions and the multiplication of ciphertexts in paillier.c.
use native.Mathlib.Nat.{eq-one_of_dvd-one, mod-lt, pow-suc, pow-zero}
use mpc_lib_demo.OpenSsl.{IsOpenSsl, OpenSsl, big_endian}
use mpc_lib_demo.AlgebraUtils.Coprime.{AreCoprime}
use mpc_lib_demo.Paillier.{PaillierStatus, PrivateKey, is_coprime}
use mpc_lib_demo.Base.Powers.{mul-pow, pow-pow}
use mpc_lib_demo.Paillier.Powers.{one-plus-pow}
use mpc_lib_demo.Paillier.Scheme.{AreCoprime-mul, IsCiphertext, IsKey, ciphertext-AreCoprime}
use mpc_lib_demo.Paillier.Homomorphic.{
  add, add_integer, add_integer_number, add_number, compute, mul, mul_integer, mul_integer_number,
  mul_number, too_long,
}
use mpc_lib_demo.Paillier.Encryption.Internal.{
  CanDraw, Works, encrypt_openssl_value, is_coprime-true, n2_pos,
}
use mpc_lib_demo.Paillier.Encryption.RoundTrip.{
  Encrypts, bn2bin-Encrypts, ciphertext-pos, finish_value, wrote,
}
use mpc_lib_demo.Base.{
  Bool, Bytes, Cong-mod_left, Cong-mul, Cong-mul_right, Cong-of_eq, Cong-pow, Cong-trans, List,
  Result, after, arith, length, le→ltb, ok, refl, some, subst, suc, sym, true, zero, ℕ, ◌%◌, ◌*◌,
  ◌+◌, ◌^◌, ◌∣◌, ◌≡◌, ◌≤◌,
}

module _ (o : OpenSsl) (laws : IsOpenSsl o) (key : PrivateKey) (is_key : IsKey key) where
  abbrev n : ℕ
  n = key.public.n

  pub product-IsCiphertext :
      (a b m k : ℕ)
      → IsCiphertext n a m
      → IsCiphertext n b k
      → IsCiphertext n ((a * b) % (n * n)) (m + k)
  product-IsCiphertext a b m k ha hb = record {
    r = ha.r * hb.r;
    coprime = AreCoprime-mul key is_key ha.r hb.r ha.coprime hb.coprime;
    value = Cong-mod_left (
        Cong-trans (Cong-mul ha.value hb.value) (
          Cong-trans
            (Cong-of_eq {a = (1 + n * m) * ha.r ^ n * ((1 + n * k) * hb.r ^ n)}
              {b = (1 + n * m) * (1 + n * k) * (ha.r * hb.r) ^ n}
              (rw (mul-pow ha.r hb.r n) (omega arith)))
            (Cong-mul_right ((ha.r * hb.r) ^ n)
              (record { over_left = 0; over_right = m * k; balance = omega arith }))));
    reduced = mod-lt _ (n2_pos o laws key is_key 0);
  }

  AreCoprime-pow : (r k : ℕ) → AreCoprime r n → AreCoprime (r ^ k) n
  AreCoprime-pow r zero h = λ d hd hn. eq-one_of_dvd-one (subst (λ x. d ∣ x) (pow-zero r) hd)
  AreCoprime-pow r (suc k) h =
      subst (λ x. AreCoprime x n) (sym (pow-suc r k))
        (AreCoprime-mul key is_key (r ^ k) r (AreCoprime-pow r k h) h)

  pub power-IsCiphertext :
      (a m k : ℕ) → IsCiphertext n a m → IsCiphertext n (a ^ k % (n * n)) (m * k)
  power-IsCiphertext a m k h = record {
    r = h.r ^ k;
    coprime = AreCoprime-pow h.r k h.coprime;
    value = Cong-mod_left (
        Cong-trans (Cong-pow k h.value) (
          Cong-trans (Cong-of_eq (mul-pow (1 + n * m) (h.r ^ n) k))
            (Cong-mul (one-plus-pow n m k) (Cong-of_eq (pow-pow h.r n k)))));
    reduced = mod-lt _ (n2_pos o laws key is_key 0);
  }

  module _ (mem : ℕ → Bool) (e : ℕ) (works : Works mem) (result_len : ℕ)
      (room : o.bn_num_bytes key.public.n2 ≤ result_len) where
    pub compute_value :
        (bs : Bytes) (number : ℕ → Result PaillierStatus ℕ) (c m : ℕ)
        → number (big_endian 0 bs) ≡ ok c
        → IsCiphertext n c m
        → (out : Bytes) × (compute o mem e key.public bs true result_len number ≡ wrote out)
          × Encrypts o key.public out m
    unfolding compute
    compute_value bs number c m found h = (
      o.bn_bn2bin c,
      rw (le→ltb _ _ room, works 0, works 1, works 2, works 3, laws.bin2bn bs, found)
          (finish_value o laws _ c (ciphertext-pos o laws key is_key c m h)),
      bn2bin-Encrypts o laws key is_key c m h,
    )

    pub coprime_value :
        (bs : Bytes) (m k : ℕ)
        → Encrypts o key.public bs m
        → is_coprime o (after k mem) (big_endian 0 bs) n ≡ true
    coprime_value bs m k h =
        is_coprime-true o laws (after k mem) (big_endian 0 bs) n (λ i. works (i + k))
          (ciphertext-AreCoprime key is_key (big_endian 0 bs) m h.ciphertext)

    -- When no allocation fails and the buffer is long enough, `paillier_add` of two ciphertexts writes
    -- a ciphertext of the sum.
    pub add-Encrypts :
        (a b : Bytes) (m k : ℕ)
        → Encrypts o key.public a m
        → Encrypts o key.public b k
        → (out : Bytes) × (add o mem e (some key.public) (some a) (some b) true result_len
            ≡ wrote out)
          × Encrypts o key.public out (m + k)
    unfolding add add_number too_long
    add-Encrypts a b m k ha hb =
        let c : ℕ = (big_endian 0 a * big_endian 0 b) % (n * n) in
        let (out, done, good) =
          compute_value a (add_number o mem e key.public b) c (m + k)
            (rw
              (
                laws.bin2bn b,
                coprime_value a m 4 ha,
                coprime_value b k 6 hb,
                is_key.square,
                laws.mod_mul (big_endian 0 a) (big_endian 0 b) (n * n) (n2_pos o laws key is_key 0),
              )
              refl)
            (product-IsCiphertext (big_endian 0 a) (big_endian 0 b) m k ha.ciphertext
              hb.ciphertext) in
        (out, rw (le→ltb _ _ ha.fits, le→ltb _ _ hb.fits) done, good)

    -- When no allocation fails, the generator draws a number that is coprime to `n`, and the buffer
    -- is long enough, `paillier_add_integer` writes a ciphertext of the sum.
    pub add_integer-Encrypts :
        (tape : List ℕ) (a : Bytes) (m k : ℕ)
        → CanDraw n tape
        → Encrypts o key.public a m
        → (out : Bytes) × (add_integer o mem e tape (some key.public) (some a) k true result_len
            ≡ wrote out)
          × Encrypts o key.public out (m + k)
    unfolding add_integer add_integer_number too_long
    add_integer-Encrypts tape a m k can ha =
        let (b, found, hb) =
          encrypt_openssl_value o laws key is_key e tape (after 6 mem) k (λ i. works (i + 6)) can in
        let c : ℕ = (big_endian 0 a * b) % (n * n) in
        let (out, done, good) =
          compute_value a (add_integer_number o mem e tape key.public k) c (m + k)
            (rw
              (
                laws.set_word k,
                coprime_value a m 4 ha,
                found,
                is_key.square,
                laws.mod_mul (big_endian 0 a) b (n * n) (n2_pos o laws key is_key 0),
              )
              refl)
            (product-IsCiphertext (big_endian 0 a) b m k ha.ciphertext hb) in
        (out, rw (le→ltb _ _ ha.fits) done, good)

    -- When no allocation fails and the buffer is long enough, `paillier_mul` of a ciphertext and a
    -- number that is no longer than `n` in bytes writes a ciphertext of the product.
    pub mul-Encrypts :
        (a b : Bytes) (m : ℕ)
        → Encrypts o key.public a m
        → length b ≤ o.bn_num_bytes n
        → (out : Bytes) × (mul o mem e (some key.public) (some a) (some b) true result_len
            ≡ wrote out)
          × Encrypts o key.public out (m * big_endian 0 b)
    unfolding mul mul_number too_long
    mul-Encrypts a b m ha short =
        let c : ℕ = big_endian 0 a ^ big_endian 0 b % (n * n) in
        let (out, done, good) =
          compute_value a (mul_number o mem e key.public b) c (m * big_endian 0 b)
            (rw
              (
                laws.bin2bn b,
                coprime_value a m 4 ha,
                is_key.square,
                laws.mod_exp (big_endian 0 a) (big_endian 0 b) (n * n) (n2_pos o laws key is_key 0),
              )
              refl)
            (power-IsCiphertext (big_endian 0 a) m (big_endian 0 b) ha.ciphertext) in
        (out, rw (le→ltb _ _ ha.fits, le→ltb _ _ short) done, good)

    -- When no allocation fails and the buffer is long enough, `paillier_mul_integer` of a ciphertext
    -- and an integer writes a ciphertext of the product.
    pub mul_integer-Encrypts :
        (a : Bytes) (m k : ℕ)
        → Encrypts o key.public a m
        → (out : Bytes) × (mul_integer o mem e (some key.public) (some a) k true result_len
            ≡ wrote out)
          × Encrypts o key.public out (m * k)
    unfolding mul_integer mul_integer_number too_long
    mul_integer-Encrypts a m k ha =
        let c : ℕ = big_endian 0 a ^ k % (n * n) in
        let (out, done, good) =
          compute_value a (mul_integer_number o mem e key.public k) c (m * k)
            (rw
              (
                laws.set_word k,
                coprime_value a m 4 ha,
                is_key.square,
                laws.mod_exp (big_endian 0 a) k (n * n) (n2_pos o laws key is_key 0),
              )
              refl)
            (power-IsCiphertext (big_endian 0 a) m k ha.ciphertext) in
        (out, rw (le→ltb _ _ ha.fits) done, good)
