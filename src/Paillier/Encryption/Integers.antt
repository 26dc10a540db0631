-- ===== src/Paillier/Encryption/Integers.antt =====
-- About `paillier_encrypt_integer` and `paillier_decrypt_integer`.
use native.Mathlib.Nat.{mod-eq_of_lt}
use mpc_lib_demo.OpenSsl.{IsOpenSsl, OpenSsl}
use mpc_lib_demo.Paillier.{PrivateKey}
use mpc_lib_demo.Paillier.Scheme.{IsKey}
use mpc_lib_demo.Paillier.Encryption.{decrypt_integer, encrypt_integer}
use mpc_lib_demo.Paillier.Encryption.Internal.{CanDraw, Works, encrypt_openssl_value}
use mpc_lib_demo.Paillier.Encryption.RoundTrip.{
  Encrypts, bn2bin-Encrypts, ciphertext-pos, decrypt_number_value, finish_value, wrote,
}
use mpc_lib_demo.Base.{
  Bool, Bytes, List, after, le→leb, le→ltb, ok, refl, some, true, ℕ, ◌+◌, ◌<◌, ◌^◌, ◌≡◌, ◌≤◌,
}

module _ (o : OpenSsl) (laws : IsOpenSsl o) (key : PrivateKey) (is_key : IsKey key) (mem : ℕ → Bool)
    (e : ℕ) (works : Works mem) where
  encrypt_integer_value :
      (tape : List ℕ) (m ciphertext_len : ℕ)
      → CanDraw key.public.n tape
      → o.bn_num_bytes key.public.n2 ≤ ciphertext_len
      → (bs : Bytes) × (encrypt_integer o mem e tape (some key.public) m true ciphertext_len
          ≡ wrote bs)
        × Encrypts o key.public bs m
  unfolding encrypt_integer
  encrypt_integer_value tape m ciphertext_len can room =
      let (c, found, good) =
        encrypt_openssl_value o laws key is_key e tape (after 3 mem) m (λ k. works (k + 3)) can in
      (
        o.bn_bn2bin c,
        rw (le→ltb _ _ room, works 0, works 1, works 2, laws.set_word m, found)
            (finish_value o laws _ c (ciphertext-pos o laws key is_key c m good)),
        bn2bin-Encrypts o laws key is_key c m good,
      )

  -- When no allocation fails, the generator draws a number that is coprime to `n` and the buffer is
  -- long enough, an integer of 64 bits below `n`, zero included, is encrypted by
  -- `paillier_encrypt_integer` and is what `paillier_decrypt_integer` writes.
  pub encrypt_integer-decrypt_integer :
      (tape : List ℕ) (m ciphertext_len : ℕ)
      → CanDraw key.public.n tape
      → m < 256 ^ 8
      → m < key.public.n
      → o.bn_num_bytes key.public.n2 ≤ ciphertext_len
      → (bs : Bytes) × (encrypt_integer o mem e tape (some key.public) m true ciphertext_len
          ≡ wrote bs)
        × (decrypt_integer o mem e (some key) bs true ≡ ok m)
  unfolding decrypt_integer
  encrypt_integer-decrypt_integer tape m ciphertext_len can word below room =
      let (bs, done, good) = encrypt_integer_value tape m ciphertext_len can room in
      (
        bs,
        done,
        rw
            (
              le→leb _ _ good.fits,
              decrypt_number_value o laws key is_key mem e works bs m good,
              mod-eq_of_lt below,
              le→leb _ _ (laws.num_bytes-le m 8 word),
            )
            refl,
      )
