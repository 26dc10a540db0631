-- ===== src/Paillier/Generation/Keys.antt =====
-- About the calls of paillier.c that make a key: it decrypts what it encrypts.
use native.Mathlib.Nat.{dvd-zero, mod-eq_of_lt, pow-suc}
use mpc_lib_demo.Paillier.Generation.{Found, generate_key_pair, generate_private}
use mpc_lib_demo.Paillier.Generation.Factors.{HasFactors, HasFactors-IsKey}
use mpc_lib_demo.Paillier.Generation.Draws.{CanMake, IsFound, IsPrimePair, draw_loop-IsFound}
use mpc_lib_demo.Paillier.Encryption.Internal.{CanDraw, Works}
use mpc_lib_demo.Paillier.{PaillierStatus, PrivateKey, PublicKey, min_key_len_in_bits}
use mpc_lib_demo.OpenSsl.{IsOpenSsl, OpenSsl, big_endian, is_one}
use mpc_lib_demo.Base.{
  All, Bool, Bool-cases, Bytes, Cong, Cong-of_eq, Cong-of_mod-eq, Cong-trans, List, Result, ap,
  arith, false, inl, inr, length, le→leb, mod-eq_of_Cong, ok, refl, some, subst, suc, sym, true, ℕ,
  ◌%◌, ◌*◌, ◌-◌, ◌<◌, ◌^◌, ◌∙◌, ◌∣◌, ◌≡◌, ◌≤◌,
}
use mpc_lib_demo.Base.Fermat.{inverse}
use mpc_lib_demo.Paillier.Encryption.{decrypt, encrypt}
use mpc_lib_demo.Paillier.Encryption.RoundTrip.{encrypt-decrypt, wrote}
use mpc_lib_demo.AlgebraUtils.Primes.{is_one-AreCoprime, order_of_product, product_big, product_pos}

module _ (o : OpenSsl) (laws : IsOpenSsl o) (e : ℕ) where
  -- At the start of the loop the numbers are zero.
  start_stale : is_one (o.bn_gcd 0 0) ≡ false
  start_stale = elim (Bool-cases (is_one (o.bn_gcd 0 0))) [
    | inl one ↦
        let divides : 2 ∣ 0 = dvd-zero 2 in
        absurd (omega (arith, (is_one-AreCoprime o laws 0 0).0 one 2 divides divides))
    | inr stale ↦ stale
  ]

  -- The order is inverted modulo the product.
  order_inverse :
      (found : Found)
      → IsFound found
      → (mu : ℕ) × (o.bn_mod_inverse found.lamda found.n ≡ some mu)
        × Cong found.n (found.lamda * mu) 1
  order_inverse found h =
      let n : ℕ = found.n in
      let lamda : ℕ = found.lamda in
      let k : ℕ = (found.p - 1) * (found.q - 1) in
      let big : 1 < n = rw h.product (product_big found.p found.q h.p_prime.big h.q_prime.big) in
      let k_pos : 0 < k =
        product_pos (found.p - 1) (found.q - 1) (omega (arith, h.p_prime.big))
          (omega (arith, h.q_prime.big)) in
      let power : Cong n (lamda ^ k) 1 =
        order_of_product found.p found.q n lamda h.p_prime h.q_prime h.distinct h.product
          h.coprime in
      let k_eq : suc (k - 1) ≡ k = omega (arith, k_pos) in
      let u : ℕ = lamda ^ (k - 1) in
      let product : lamda * u ≡ lamda ^ k =
        omega (arith, pow-suc lamda (k - 1)) ∙ ap (λ i. lamda ^ i) k_eq in
      let one : 1 % n ≡ 1 = mod-eq_of_lt big in
      let (mu, inverted, value, small) =
        laws.mod_inverse lamda u n big
          (mod-eq_of_Cong n (lamda * u) 1 (Cong-trans (Cong-of_eq product) power) ∙ one) in
      (mu, inverted, Cong-of_mod-eq n (lamda * mu) 1 (value ∙ sym one))

  pub generate_private-HasFactors :
      (mem : ℕ → Bool) (key_len : ℕ) (tape : List (ℕ × ℕ))
      → Works mem
      → min_key_len_in_bits ≤ key_len
      → All IsPrimePair tape
      → CanMake o tape
      → (key : PrivateKey) × (generate_private o e mem key_len tape ≡ ok key) × HasFactors key
  unfolding generate_private
  generate_private-HasFactors mem key_len tape works long forms can =
      let (found, made, h) = draw_loop-IsFound o laws e tape 0 0 forms start_stale can in
      let (mu, inverted, inverse) = order_inverse found h in
      (
        record {
          public = record { n = found.n; n2 = found.n * found.n };
          p = found.p;
          q = found.q;
          lamda = found.lamda;
          mu = mu;
        },
        rw
            (
              le→leb _ _ long,
              works 2,
              works 3,
              works 4,
              works 5,
              works 6,
              works 7,
              works 8,
              works 9,
              works 10,
              works 11,
              works 12,
              laws.set_word 3,
              laws.set_word 7,
              laws.set_word 8,
              made,
              laws.sqr found.n,
              inverted,
            )
            refl,
        record {
          p_prime = h.p_prime;
          q_prime = h.q_prime;
          distinct = h.distinct;
          product = h.product;
          square = refl;
          order = h.order;
          inverse = inverse;
        },
      )

  -- When no allocation fails, and among the pairs of primes that OpenSSL finds, which are congruent
  -- to 3 and to 7 modulo 8, there is one of equal lengths whose product is coprime to its order, a
  -- key is made from two different primes, with the order of their product and its inverse.
  pub generate_key_pair-HasFactors :
      (mem : ℕ → Bool) (key_len : ℕ) (tape : List (ℕ × ℕ))
      → Works mem
      → min_key_len_in_bits ≤ key_len
      → All IsPrimePair tape
      → CanMake o tape
      → (key : PrivateKey) × (generate_key_pair o e mem key_len tape true true
          ≡ ok (key.public, key))
        × HasFactors key
  unfolding generate_key_pair
  generate_key_pair-HasFactors mem key_len tape works long forms can =
      let (key, made, h) = generate_private-HasFactors mem key_len tape works long forms can in
      (
        key,
        rw
            (
              made,
              le→leb _ _ long,
              works 0,
              works 1,
              laws.copy key.public.n,
              laws.copy key.public.n2,
            )
            refl,
        h,
      )

  made_key :
      {made : Result PaillierStatus (PublicKey × PrivateKey)} {key key' : PrivateKey}
      → made ≡ ok (key.public, key)
      → made ≡ ok (key'.public, key')
      → key' ≡ key
  made_key h h' = cc

  -- When no allocation fails, and among the pairs of primes that OpenSSL finds, which are congruent
  -- to 3 and to 7 modulo 8, there is one of equal lengths whose product is coprime to its order,
  -- the key that is made decrypts what it encrypts: a number from 1 to `n - 1`, with a draw that is
  -- coprime to `n`, into buffers that are long enough.
  pub generate-encrypt-decrypt :
      (mem : ℕ → Bool) (key_len : ℕ) (tape : List (ℕ × ℕ)) (key : PrivateKey) (draws : List ℕ)
      (plaintext : Bytes) (ciphertext_len plaintext_len : ℕ)
      → Works mem
      → min_key_len_in_bits ≤ key_len
      → All IsPrimePair tape
      → CanMake o tape
      → generate_key_pair o e mem key_len tape true true ≡ ok (key.public, key)
      → CanDraw key.public.n draws
      → length plaintext ≤ o.bn_num_bytes key.public.n
      → 0 < big_endian 0 plaintext
      → big_endian 0 plaintext < key.public.n
      → o.bn_num_bytes key.public.n2 ≤ ciphertext_len
      → o.bn_num_bytes key.public.n ≤ plaintext_len
      → (bs : Bytes) × (out : Bytes) × (encrypt o mem e draws
            (some key.public)
            (some plaintext)
            true
            ciphertext_len
          ≡ wrote bs)
        × (decrypt o mem e (some key) (some bs) true plaintext_len ≡ wrote out)
        × (big_endian 0 out ≡ big_endian 0 plaintext)
  generate-encrypt-decrypt mem key_len tape key draws plaintext ciphertext_len plaintext_len works
        long forms can made draw short pos below room room' =
      let (key', made', h) = generate_key_pair-HasFactors mem key_len tape works long forms can in
      encrypt-decrypt o laws key (HasFactors-IsKey key (subst HasFactors (made_key made made') h))
        mem e works draws plaintext ciphertext_len plaintext_len draw short pos below room room'
