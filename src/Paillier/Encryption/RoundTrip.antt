-- ===== src/Paillier/Encryption/RoundTrip.antt =====
-- About `paillier_encrypt` and `paillier_decrypt`, on bytes.
use native.Mathlib.Nat.{dvd-zero, dvd_refl, mod-eq_of_lt}
use mpc_lib_demo.OpenSsl.{IsOpenSsl, OpenSsl, big_endian}
use mpc_lib_demo.OpenSsl.Numbers.{bn2bin-pos, length-bn2bin_le}
use mpc_lib_demo.Paillier.{Output, PrivateKey, PublicKey, finish, success}
use mpc_lib_demo.Paillier.Scheme.{IsCiphertext, IsKey, ciphertext-AreCoprime}
use mpc_lib_demo.Paillier.Encryption.{decrypt, decrypt_number, encrypt}
use mpc_lib_demo.Paillier.Encryption.Internal.{CanDraw, Works, decrypt_value, encrypt_openssl_value}
use mpc_lib_demo.Base.{
  Bool, Bytes, List, after, arith, length, le→ltb, lt→ltb, ok, refl, some, subst, suc, sym, true,
  zero, ℕ, ≢0→==0, ◌%◌, ◌*◌, ◌+◌, ◌<◌, ◌∙◌, ◌≡◌, ◌≤◌,
}

-- The output of a call that succeeds.
abbrev pub wrote : Bytes → Output
wrote bs = record { status = success; real_len = some (length bs); result = some bs }

-- The bytes are a ciphertext of `m`, and no longer than ciphertexts are.
pub record Encrypts (o : OpenSsl) (key : PublicKey) (bs : Bytes) (m : ℕ) : Type 0 where
  pub ciphertext : IsCiphertext key.n (big_endian 0 bs) m
  pub fits : length bs ≤ o.bn_num_bytes key.n2

module _ (o : OpenSsl) (laws : IsOpenSsl o) where
  pub finish_value : (announced a : ℕ) → 0 < a → finish o announced (ok a) ≡ wrote (o.bn_bn2bin a)
  unfolding finish
  finish_value announced a pos = rw (≢0→==0 _ (bn2bin-pos o laws a pos)) refl

  module _ (key : PrivateKey) (is_key : IsKey key) where
    -- A number that is coprime to `n` is not zero.
    pub ciphertext-pos : (c m : ℕ) → IsCiphertext key.public.n c m → 0 < c
    ciphertext-pos zero m h =
        let one : key.public.n ≡ 1 =
          ciphertext-AreCoprime key is_key 0 m h key.public.n (dvd-zero key.public.n)
            (dvd_refl key.public.n) in
        absurd (omega (arith, one, is_key.big))
    ciphertext-pos (suc c) m h = omega arith

    pub bn2bin-Encrypts :
        (c m : ℕ) → IsCiphertext key.public.n c m → Encrypts o key.public (o.bn_bn2bin c) m
    bn2bin-Encrypts c m h = record {
      ciphertext = subst (λ x. IsCiphertext key.public.n x m) (sym (laws.bn2bin c)) h;
      fits = rw is_key.square (length-bn2bin_le o laws c (key.public.n * key.public.n) h.reduced);
    }

    module _ (mem : ℕ → Bool) (e : ℕ) (works : Works mem) where
      -- When no allocation fails and the generator draws a number that is coprime to `n`,
      -- `paillier_encrypt` writes a ciphertext of the plaintext, which is below `n`, to a buffer
      -- that is long enough.
      pub encrypt-Encrypts :
          (tape : List ℕ) (plaintext : Bytes) (ciphertext_len : ℕ)
          → CanDraw key.public.n tape
          → length plaintext ≤ o.bn_num_bytes key.public.n
          → big_endian 0 plaintext < key.public.n
          → o.bn_num_bytes key.public.n2 ≤ ciphertext_len
          → (bs : Bytes) × (encrypt o mem e tape
                (some key.public)
                (some plaintext)
                true
                ciphertext_len
              ≡ wrote bs)
            × Encrypts o key.public bs (big_endian 0 plaintext)
      unfolding encrypt
      encrypt-Encrypts tape plaintext ciphertext_len can short below room =
          let m : ℕ = big_endian 0 plaintext in
          let (c, found, good) =
            encrypt_openssl_value o laws key is_key e tape (after 3 mem) m (λ k. works (k + 3))
              can in
          (
            o.bn_bn2bin c,
            rw
                (
                  le→ltb _ _ short,
                  le→ltb _ _ room,
                  works 0,
                  works 1,
                  works 2,
                  laws.bin2bn plaintext,
                  lt→ltb _ _ below,
                  found,
                )
                (finish_value _ c (ciphertext-pos c m good)),
            bn2bin-Encrypts c m good,
          )

      pub decrypt_number_value :
          (bs : Bytes) (m : ℕ)
          → Encrypts o key.public bs m
          → decrypt_number o mem e key bs ≡ ok (m % key.public.n)
      unfolding decrypt_number
      decrypt_number_value bs m h =
          let below : big_endian 0 bs < key.public.n2 = rw is_key.square h.ciphertext.reduced in
          rw (works 0, works 1, works 2, laws.bin2bn bs, lt→ltb _ _ below)
            (decrypt_value o laws key is_key e (after 3 mem) (big_endian 0 bs) m
              (λ k. works (k + 3)) h.ciphertext)

      -- When no allocation fails and the buffer is long enough, `paillier_decrypt` finds what a
      -- ciphertext encrypts, modulo `n`, when that is not zero.
      pub decrypt-plaintext :
          (bs : Bytes) (m plaintext_len : ℕ)
          → Encrypts o key.public bs m
          → 0 < m % key.public.n
          → o.bn_num_bytes key.public.n ≤ plaintext_len
          → (plaintext : Bytes) × (decrypt o mem e (some key) (some bs) true plaintext_len
              ≡ wrote plaintext)
            × (big_endian 0 plaintext ≡ m % key.public.n)
      unfolding decrypt
      decrypt-plaintext bs m plaintext_len h pos room = (
        o.bn_bn2bin (m % key.public.n),
        rw (le→ltb _ _ h.fits, le→ltb _ _ room, decrypt_number_value bs m h) (finish_value _ _ pos),
        laws.bn2bin (m % key.public.n),
      )

      -- When no allocation fails and the generator draws a number that is coprime to `n`,
      -- encrypting a number from 1 to `n - 1` and decrypting the result with the same key gives
      -- the number back, into buffers that are long enough.
      pub encrypt-decrypt :
          (tape : List ℕ) (plaintext : Bytes) (ciphertext_len plaintext_len : ℕ)
          → CanDraw key.public.n tape
          → length plaintext ≤ o.bn_num_bytes key.public.n
          → 0 < big_endian 0 plaintext
          → big_endian 0 plaintext < key.public.n
          → o.bn_num_bytes key.public.n2 ≤ ciphertext_len
          → o.bn_num_bytes key.public.n ≤ plaintext_len
          → (bs : Bytes) × (out : Bytes) × (encrypt o mem e tape
                (some key.public)
                (some plaintext)
                true
                ciphertext_len
              ≡ wrote bs)
            × (decrypt o mem e (some key) (some bs) true plaintext_len ≡ wrote out)
            × (big_endian 0 out ≡ big_endian 0 plaintext)
      encrypt-decrypt tape plaintext ciphertext_len plaintext_len can short pos below room room' =
          let (bs, done, good) =
            encrypt-Encrypts tape plaintext ciphertext_len can short below room in
          let small : big_endian 0 plaintext % key.public.n ≡ big_endian 0 plaintext =
            mod-eq_of_lt below in
          let (out, done', value) =
            decrypt-plaintext bs (big_endian 0 plaintext) plaintext_len good (omega (arith, small))
              room' in
          (bs, out, done, done', value ∙ small)
