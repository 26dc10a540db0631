-- ===== src/Paillier/Serialization.antt =====
-- The keys of paillier.c as bytes: a length of 32 bits and numbers. `mem k` tells whether the k-th
-- allocation of a call succeeds.
pub mod Bounds
pub mod Release
pub mod RoundTrip
use mpc_lib_demo.Paillier.{
  Output, PrivateKey, PublicKey, invalid_key, invalid_param, keylen_too_short, min_key_len_in_bits,
  openssl_error, refuse, success,
}
use mpc_lib_demo.OpenSsl.{OpenSsl}
use mpc_lib_demo.Buffer.{
  Encoded, Failure, double_free, read_bytes, read_u32, refused, sub32, u32_bytes,
}
use mpc_lib_demo.Base.{
  Bool, Bytes, Option, Ptr, Result, err, guard, if◌then◌else◌, leb, length, ltb, none, not, ok,
  or_fail, some, true, ℕ, ◌%◌, ◌&&◌, ◌*◌, ◌++◌, ◌+◌, ◌==◌, ◌>>=◌, ◌>>◌, ◌^◌, ◌||◌,
}

-- What is decoded, or a key whose memory is freed again
unfoldable pub release_again : Result Bool PublicKey → Result Failure PublicKey
release_again (ok key) = ok key
release_again (err freed) = err (if freed then double_free else refused)

module _ (o : OpenSsl) where
  -- `n_given` tells whether the buffer is not null, `e` is the code in OpenSSL's queue of errors.
  pub public_key_n : ℕ → Ptr PublicKey → Bool → ℕ → Output
  unfolding refuse
  public_key_n e none n_given n_len = refuse invalid_key none
  public_key_n e (some key) n_given n_len =
      let len = o.bn_num_bytes key.n in
      let bytes = o.bn_bn2bin key.n in
      if not n_given && not (n_len == 0)
      then refuse invalid_param none
      else if ltb n_len len
      then refuse keylen_too_short (some len)
      else if length bytes == 0
      then refuse (openssl_error e) (some len)
      else record { status = success; real_len = some len; result = some bytes }

  pub public_key_serialize : Ptr PublicKey → Bool → ℕ → Option Encoded
  public_key_serialize none buffer buffer_len = none
  public_key_serialize (some key) buffer buffer_len =
      let n_len = o.bn_num_bytes key.n in
      let needed = (4 + n_len) % 2 ^ 32 in
      some (
        if not buffer || ltb buffer_len needed
        then record { real_len = needed; written = none }
        else record { real_len = needed; written = some (u32_bytes n_len ++ o.bn_bn2bin key.n) })

  -- When it fails it frees what it allocated; the Boolean tells whether there was something.
  pub public_key_deserialize_internal : (ℕ → Bool) → Bytes → Result Bool PublicKey
  public_key_deserialize_internal mem number = do
    n ← or_fail (o.bn_bin2bn number) (mem 2)
    guard (mem 2) true
    guard (leb min_key_len_in_bits (o.bn_num_bits n)) true
    n2 ← or_fail (o.bn_sqr n) true
    ok (record { n = n; n2 = n2 })

  -- The key is freed once more when it is not decoded.
  pub public_key_deserialize : (ℕ → Bool) → Ptr Bytes → ℕ → Result Failure PublicKey
  unfolding public_key_deserialize_internal release_again
  public_key_deserialize mem none buffer_len = err refused
  public_key_deserialize mem (some buffer) buffer_len = do
    guard (leb 36 buffer_len) refused
    guard (mem 0 && mem 1) refused
    len ← read_u32 buffer 0
    guard (leb len (sub32 buffer_len 4)) refused
    number ← read_bytes buffer 4 len
    release_again (public_key_deserialize_internal mem number)

  pub private_key_serialize : Ptr PrivateKey → Bool → ℕ → Option Encoded
  private_key_serialize none buffer buffer_len = none
  private_key_serialize (some key) buffer buffer_len =
      let p_len = o.bn_num_bytes key.p in
      let needed = (4 + 2 * p_len) % 2 ^ 32 in
      some (
        if not buffer || ltb buffer_len needed
        then record { real_len = needed; written = none }
        else record {
          real_len = needed;
          written = some (u32_bytes p_len ++ (o.bn_bn2bin key.p ++ o.bn_bn2bin key.q));
        })

  -- The key is computed from its factors.
  pub private_key_deserialize_internal : (ℕ → Bool) → Bytes → Bytes → Result Failure PrivateKey
  private_key_deserialize_internal mem p_bytes q_bytes = do
    p ← or_fail (o.bn_bin2bn p_bytes) refused
    q ← or_fail (o.bn_bin2bn q_bytes) refused
    guard (mem 2 && mem 3 && mem 4 && mem 5) refused
    n ← or_fail (o.bn_mul p q) refused
    n2 ← or_fail (o.bn_sqr n) refused
    n_less_p ← or_fail (o.bn_sub n p) refused
    n_less_both ← or_fail (o.bn_sub n_less_p q) refused
    lamda ← or_fail (o.bn_add_word n_less_both 1) refused
    mu ← or_fail (o.bn_mod_inverse lamda n) refused
    guard (leb min_key_len_in_bits (o.bn_num_bits n)) refused
    ok (record { public = record { n = n; n2 = n2 }; p = p; q = q; lamda = lamda; mu = mu })

  -- Twice the length wraps at 32 bits.
  pub private_key_deserialize : (ℕ → Bool) → Ptr Bytes → ℕ → Result Failure PrivateKey
  unfolding private_key_deserialize_internal
  private_key_deserialize mem none buffer_len = err refused
  private_key_deserialize mem (some buffer) buffer_len = do
    guard (leb 36 buffer_len) refused
    len ← read_u32 buffer 0
    guard (leb (2 * len % 2 ^ 32) (sub32 buffer_len 4)) refused
    guard (mem 0 && mem 1) refused
    p_bytes ← read_bytes buffer 4 len
    q_bytes ← read_bytes buffer (4 + len) len
    private_key_deserialize_internal mem p_bytes q_bytes
