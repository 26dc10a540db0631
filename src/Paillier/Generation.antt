-- ===== src/Paillier/Generation.antt =====
-- How paillier.c makes a key. The primes that OpenSSL finds are an argument, a pair for each round of
-- the loop; the end of the list is a failure of its generator.
pub mod Factors
pub mod Draws
pub mod Keys
use mpc_lib_demo.Paillier.{
  PaillierStatus, PrivateKey, PublicKey, invalid_param, keylen_too_short, min_key_len_in_bits,
  openssl_error, out_of_memory,
}
use mpc_lib_demo.OpenSsl.{OpenSsl, is_one}
use mpc_lib_demo.Base.{
  Bool, List, Result, [], err, guard, if◌then◌else◌, leb, not, ok, or_fail, ℕ, ◌&&◌, ◌==◌, ◌>>=◌,
  ◌>>◌, ◌||◌, ◌∷◌,
}

-- The numbers that the loop leaves
pub record Found : Type 0 where
  pub p : ℕ
  pub q : ℕ
  pub n : ℕ
  pub lamda : ℕ

module _ (o : OpenSsl) (e : ℕ) where
  -- One round, up to its test: `n` and `lamda` stay as they were when the lengths differ.
  unfoldable pub draw_round : ℕ × ℕ → ℕ → ℕ → Result PaillierStatus (ℕ × ℕ)
  draw_round primes n lamda =
      if not (o.bn_num_bits primes.0 == o.bn_num_bits primes.1) then ok (n, lamda) else do
        product ← or_fail (o.bn_mul primes.0 primes.1) (openssl_error e)
        n_less_p ← or_fail (o.bn_sub product primes.0) (openssl_error e)
        n_less_both ← or_fail (o.bn_sub n_less_p primes.1) (openssl_error e)
        order ← or_fail (o.bn_add_word n_less_both 1) (openssl_error e)
        ok (product, order)

  -- The test of the loop: with other primes, or with the ones that were drawn
  unfoldable pub test_round :
      ℕ × ℕ → ℕ × ℕ → Result PaillierStatus Found → Result PaillierStatus Found
  unfolding is_one
  test_round primes computed rest =
      if primes.0 == primes.1 || not (is_one (o.bn_gcd computed.1 computed.0))
      then rest
      else ok (record { p = primes.0; q = primes.1; n = computed.0; lamda = computed.1 })

  unfoldable pub draw_loop : List (ℕ × ℕ) → ℕ → ℕ → Result PaillierStatus Found
  unfolding draw_round test_round
  draw_loop [] n lamda = err (openssl_error e)
  draw_loop (primes ∷ tape) n lamda = do
    computed ← draw_round primes n lamda
    test_round primes computed (draw_loop tape computed.0 computed.1)

  -- The numbers start at zero.
  unfoldable pub generate_private : (ℕ → Bool) → ℕ → List (ℕ × ℕ) → Result PaillierStatus PrivateKey
  unfolding draw_loop
  generate_private mem key_len tape = do
    guard (leb min_key_len_in_bits key_len) keylen_too_short
    guard (mem 2) out_of_memory
    guard (mem 3 && mem 4 && mem 5 && mem 6) (openssl_error e)
    guard (mem 7 && mem 8 && mem 9 && mem 10 && mem 11 && mem 12) (openssl_error e)
    three ← or_fail (o.bn_set_word 3) (openssl_error e)
    seven ← or_fail (o.bn_set_word 7) (openssl_error e)
    eight ← or_fail (o.bn_set_word 8) (openssl_error e)
    found ← draw_loop tape 0 0
    n2 ← or_fail (o.bn_sqr found.n) (openssl_error e)
    mu ← or_fail (o.bn_mod_inverse found.lamda found.n) (openssl_error e)
    ok (record {
      public = record { n = found.n; n2 = n2 };
      p = found.p;
      q = found.q;
      lamda = found.lamda;
      mu = mu;
    })

  -- `pub` and `priv` tell whether the two pointers are not null.
  unfoldable pub generate_key_pair :
      (ℕ → Bool) → ℕ → List (ℕ × ℕ) → Bool → Bool → Result PaillierStatus (PublicKey × PrivateKey)
  unfolding generate_private
  generate_key_pair mem key_len tape public_given private_given = do
    guard (public_given && private_given) invalid_param
    guard (leb min_key_len_in_bits key_len) keylen_too_short
    guard (mem 0 && mem 1) out_of_memory
    key ← generate_private mem key_len tape
    n ← or_fail (o.bn_copy key.public.n) out_of_memory
    n2 ← or_fail (o.bn_copy key.public.n2) out_of_memory
    ok (record { n = n; n2 = n2 }, key)
