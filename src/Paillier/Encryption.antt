-- ===== src/Paillier/Encryption.antt =====
-- The calls that encrypt and decrypt.
pub mod Internal
pub mod RoundTrip
pub mod Integers
use mpc_lib_demo.OpenSsl.{OpenSsl}
use mpc_lib_demo.Paillier.{
  Output, PaillierStatus, PrivateKey, PublicKey, decrypt_openssl_internal, encrypt_openssl, finish,
  invalid_cipher_text, invalid_key, invalid_plain_text, openssl_error, out_of_memory, refuse,
}
use mpc_lib_demo.Base.{
  Bool, Bytes, List, Ptr, Result, after, err, guard, if◌then◌else◌, leb, length, ltb, none, not, ok,
  or_fail, some, ℕ, ◌&&◌, ◌>>=◌, ◌>>◌, ◌||◌,
}

module _ (o : OpenSsl) where
  -- `ciphertext` tells whether the buffer is not null, `ciphertext_len` is its length.
  pub encrypt : (ℕ → Bool) → ℕ → List ℕ → Ptr PublicKey → Ptr Bytes → Bool → ℕ → Output
  unfolding finish refuse encrypt_openssl
  encrypt mem e tape none plaintext ciphertext ciphertext_len = refuse invalid_key none
  encrypt mem e tape (some key) none ciphertext ciphertext_len = refuse invalid_plain_text none
  encrypt mem e tape (some key) (some plaintext) ciphertext ciphertext_len =
      let needed = o.bn_num_bytes key.n2 in
      if ltb (o.bn_num_bytes key.n) (length plaintext)
      then refuse invalid_plain_text none
      else if not ciphertext || ltb ciphertext_len needed
      then refuse invalid_cipher_text (some needed)
      else finish o needed (do
        guard (mem 0) out_of_memory
        guard (mem 1 && mem 2) (openssl_error e)
        msg ← or_fail (o.bn_bin2bn plaintext) (openssl_error e)
        guard (ltb msg key.n) invalid_plain_text
        encrypt_openssl o (after 3 mem) e key msg tape)

  pub encrypt_integer : (ℕ → Bool) → ℕ → List ℕ → Ptr PublicKey → ℕ → Bool → ℕ → Output
  unfolding finish refuse encrypt_openssl
  encrypt_integer mem e tape none plaintext ciphertext ciphertext_len = refuse invalid_key none
  encrypt_integer mem e tape (some key) plaintext ciphertext ciphertext_len =
      let needed = o.bn_num_bytes key.n2 in
      if not ciphertext || ltb ciphertext_len needed
      then refuse invalid_cipher_text (some needed)
      else finish o needed (do
        guard (mem 0 && mem 1 && mem 2) (openssl_error e)
        msg ← or_fail (o.bn_set_word plaintext) (openssl_error e)
        encrypt_openssl o (after 3 mem) e key msg tape)

  -- What both ways to decrypt do with a ciphertext of the right length.
  pub decrypt_number : (ℕ → Bool) → ℕ → PrivateKey → Bytes → Result PaillierStatus ℕ
  unfolding decrypt_openssl_internal
  decrypt_number mem e key ciphertext = do
    guard (mem 0) out_of_memory
    guard (mem 1 && mem 2) (openssl_error e)
    c ← or_fail (o.bn_bin2bn ciphertext) (openssl_error e)
    guard (ltb c key.public.n2) invalid_cipher_text
    decrypt_openssl_internal o (after 3 mem) e key c

  pub decrypt : (ℕ → Bool) → ℕ → Ptr PrivateKey → Ptr Bytes → Bool → ℕ → Output
  unfolding finish refuse decrypt_number
  decrypt mem e none ciphertext plaintext plaintext_len = refuse invalid_key none
  decrypt mem e (some key) none plaintext plaintext_len = refuse invalid_cipher_text none
  decrypt mem e (some key) (some ciphertext) plaintext plaintext_len =
      let needed = o.bn_num_bytes key.public.n in
      if ltb (o.bn_num_bytes key.public.n2) (length ciphertext)
      then refuse invalid_cipher_text none
      else if not plaintext || ltb plaintext_len needed
      then refuse invalid_plain_text (some needed)
      else finish o needed (decrypt_number mem e key ciphertext)

  -- The number is written when it has eight bytes at most.
  pub decrypt_integer : (ℕ → Bool) → ℕ → Ptr PrivateKey → Bytes → Bool → Result PaillierStatus ℕ
  unfolding decrypt_number
  decrypt_integer mem e none ciphertext plaintext = err invalid_key
  decrypt_integer mem e (some key) ciphertext plaintext = do
    guard (leb (length ciphertext) (o.bn_num_bytes key.public.n2)) invalid_cipher_text
    guard plaintext invalid_plain_text
    msg ← decrypt_number mem e key ciphertext
    guard (leb (o.bn_num_bytes msg) 8) invalid_plain_text
    ok msg
