-- ===== src/Paillier/Homomorphic.antt =====
-- The calls that compute with ciphertexts.
pub mod Sums
pub mod Differences
use mpc_lib_demo.OpenSsl.{OpenSsl}
use mpc_lib_demo.Paillier.{
  Output, PaillierStatus, PublicKey, encrypt_openssl, finish, invalid_cipher_text, invalid_key,
  invalid_plain_text, is_coprime, openssl_error, out_of_memory, refuse,
}
use mpc_lib_demo.Base.{
  Bool, Bytes, List, Ptr, Result, after, guard, if◌then◌else◌, length, ltb, none, not, or_fail,
  some, ℕ, ◌&&◌, ◌>>=◌, ◌>>◌, ◌||◌,
}

module _ (o : OpenSsl) where
  -- The tests that each of the calls makes of a ciphertext and of the buffer for the result, and
  -- the computation, given the number of the ciphertext.
  pub compute :
      (ℕ → Bool) → ℕ → PublicKey → Bytes → Bool → ℕ → (ℕ → Result PaillierStatus ℕ) → Output
  unfolding finish refuse
  compute mem e key a_ciphertext result result_len number =
      let needed = o.bn_num_bytes key.n2 in
      if not result || ltb result_len needed
      then refuse invalid_cipher_text (some needed)
      else finish o needed (do
        guard (mem 0) out_of_memory
        guard (mem 1 && mem 2 && mem 3) (openssl_error e)
        a ← or_fail (o.bn_bin2bn a_ciphertext) (openssl_error e)
        number a)

  too_long : PublicKey → Bytes → Bool
  too_long key ciphertext = ltb (o.bn_num_bytes key.n2) (length ciphertext)

  add_number : (ℕ → Bool) → ℕ → PublicKey → Bytes → ℕ → Result PaillierStatus ℕ
  unfolding is_coprime
  add_number mem e key b_ciphertext a = do
    b ← or_fail (o.bn_bin2bn b_ciphertext) (openssl_error e)
    guard (is_coprime o (after 4 mem) a key.n && is_coprime o (after 6 mem) b key.n)
        invalid_cipher_text
    or_fail (o.bn_mod_mul a b key.n2) (openssl_error e)

  pub add : (ℕ → Bool) → ℕ → Ptr PublicKey → Ptr Bytes → Ptr Bytes → Bool → ℕ → Output
  unfolding compute too_long refuse add_number
  add mem e none a b result result_len = refuse invalid_key none
  add mem e (some key) none b result result_len = refuse invalid_cipher_text none
  add mem e (some key) (some a_ciphertext) none result result_len = refuse invalid_cipher_text none
  add mem e (some key) (some a_ciphertext) (some b_ciphertext) result result_len =
      if too_long key a_ciphertext || too_long key b_ciphertext
      then refuse invalid_cipher_text none
      else compute mem e key a_ciphertext result result_len (add_number mem e key b_ciphertext)

  add_integer_number : (ℕ → Bool) → ℕ → List ℕ → PublicKey → ℕ → ℕ → Result PaillierStatus ℕ
  unfolding is_coprime encrypt_openssl
  add_integer_number mem e tape key b a = do
    bn_b ← or_fail (o.bn_set_word b) (openssl_error e)
    guard (is_coprime o (after 4 mem) a key.n) invalid_cipher_text
    res ← encrypt_openssl o (after 6 mem) e key bn_b tape
    or_fail (o.bn_mod_mul a res key.n2) (openssl_error e)

  pub add_integer : (ℕ → Bool) → ℕ → List ℕ → Ptr PublicKey → Ptr Bytes → ℕ → Bool → ℕ → Output
  unfolding compute too_long refuse add_integer_number
  add_integer mem e tape none a b result result_len = refuse invalid_key none
  add_integer mem e tape (some key) none b result result_len = refuse invalid_cipher_text none
  add_integer mem e tape (some key) (some a_ciphertext) b result result_len =
      if too_long key a_ciphertext
      then refuse invalid_cipher_text none
      else compute mem e key a_ciphertext result result_len (add_integer_number mem e tape key b)

  sub_number : (ℕ → Bool) → ℕ → PublicKey → Bytes → ℕ → Result PaillierStatus ℕ
  unfolding is_coprime
  sub_number mem e key b_ciphertext a = do
    b ← or_fail (o.bn_bin2bn b_ciphertext) (openssl_error e)
    guard (is_coprime o (after 4 mem) a key.n && is_coprime o (after 6 mem) b key.n)
        invalid_cipher_text
    inverse ← or_fail (o.bn_mod_inverse b key.n2) (openssl_error e)
    or_fail (o.bn_mod_mul a inverse key.n2) (openssl_error e)

  pub sub : (ℕ → Bool) → ℕ → Ptr PublicKey → Ptr Bytes → Ptr Bytes → Bool → ℕ → Output
  unfolding compute too_long refuse sub_number
  sub mem e none a b result result_len = refuse invalid_key none
  sub mem e (some key) none b result result_len = refuse invalid_cipher_text none
  sub mem e (some key) (some a_ciphertext) none result result_len = refuse invalid_cipher_text none
  sub mem e (some key) (some a_ciphertext) (some b_ciphertext) result result_len =
      if too_long key a_ciphertext || too_long key b_ciphertext
      then refuse invalid_cipher_text none
      else compute mem e key a_ciphertext result result_len (sub_number mem e key b_ciphertext)

  sub_integer_number : (ℕ → Bool) → ℕ → List ℕ → PublicKey → ℕ → ℕ → Result PaillierStatus ℕ
  unfolding is_coprime encrypt_openssl
  sub_integer_number mem e tape key b a = do
    bn_b ← or_fail (o.bn_set_word b) (openssl_error e)
    guard (is_coprime o (after 4 mem) a key.n) invalid_cipher_text
    res ← encrypt_openssl o (after 6 mem) e key bn_b tape
    inverse ← or_fail (o.bn_mod_inverse res key.n2) (openssl_error e)
    or_fail (o.bn_mod_mul a inverse key.n2) (openssl_error e)

  pub sub_integer : (ℕ → Bool) → ℕ → List ℕ → Ptr PublicKey → Ptr Bytes → ℕ → Bool → ℕ → Output
  unfolding compute too_long refuse sub_integer_number
  sub_integer mem e tape none a b result result_len = refuse invalid_key none
  sub_integer mem e tape (some key) none b result result_len = refuse invalid_cipher_text none
  sub_integer mem e tape (some key) (some a_ciphertext) b result result_len =
      if too_long key a_ciphertext
      then refuse invalid_cipher_text none
      else compute mem e key a_ciphertext result result_len (sub_integer_number mem e tape key b)

  mul_number : (ℕ → Bool) → ℕ → PublicKey → Bytes → ℕ → Result PaillierStatus ℕ
  unfolding is_coprime
  mul_number mem e key b_plaintext a = do
    b ← or_fail (o.bn_bin2bn b_plaintext) (openssl_error e)
    guard (is_coprime o (after 4 mem) a key.n) invalid_cipher_text
    or_fail (o.bn_mod_exp a b key.n2) (openssl_error e)

  pub mul : (ℕ → Bool) → ℕ → Ptr PublicKey → Ptr Bytes → Ptr Bytes → Bool → ℕ → Output
  unfolding compute too_long refuse mul_number
  mul mem e none a b result result_len = refuse invalid_key none
  mul mem e (some key) none b result result_len = refuse invalid_cipher_text none
  mul mem e (some key) (some a_ciphertext) none result result_len =
      if too_long key a_ciphertext
      then refuse invalid_cipher_text none
      else refuse invalid_plain_text none
  mul mem e (some key) (some a_ciphertext) (some b_plaintext) result result_len =
      if too_long key a_ciphertext
      then refuse invalid_cipher_text none
      else if ltb (o.bn_num_bytes key.n) (length b_plaintext)
      then refuse invalid_plain_text none
      else compute mem e key a_ciphertext result result_len (mul_number mem e key b_plaintext)

  mul_integer_number : (ℕ → Bool) → ℕ → PublicKey → ℕ → ℕ → Result PaillierStatus ℕ
  unfolding is_coprime
  mul_integer_number mem e key b a = do
    bn_b ← or_fail (o.bn_set_word b) (openssl_error e)
    guard (is_coprime o (after 4 mem) a key.n) invalid_cipher_text
    or_fail (o.bn_mod_exp a bn_b key.n2) (openssl_error e)

  pub mul_integer : (ℕ → Bool) → ℕ → Ptr PublicKey → Ptr Bytes → ℕ → Bool → ℕ → Output
  unfolding compute too_long refuse mul_integer_number
  mul_integer mem e none a b result result_len = refuse invalid_key none
  mul_integer mem e (some key) none b result result_len = refuse invalid_cipher_text none
  mul_integer mem e (some key) (some a_ciphertext) b result result_len =
      if too_long key a_ciphertext
      then refuse invalid_cipher_text none
      else compute mem e key a_ciphertext result result_len (mul_integer_number mem e key b)
