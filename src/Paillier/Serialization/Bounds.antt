-- ===== src/Paillier/Serialization/Bounds.antt =====
-- About the functions of paillier.c that decode a key, on bytes of any kind.
use mpc_lib_demo.Paillier.Serialization.{
  private_key_deserialize, private_key_deserialize_internal, public_key_deserialize,
  public_key_deserialize_internal, release_again,
}
use mpc_lib_demo.Paillier.{PrivateKey, PublicKey, min_key_len_in_bits}
use mpc_lib_demo.OpenSsl.{OpenSsl}
use mpc_lib_demo.Buffer.{little_endian, read_bytes, read_u32, refused, sub32}
use mpc_lib_demo.Buffer.Reads.{
  IsSafe, IsSafe-bind, IsSafe-guard, IsSafe-or_fail, read_bytes-IsSafe, read_u32-IsSafe,
  read_u32-start,
}
use mpc_lib_demo.Base.{
  Bool, Bytes, Option, Result, arith, err, false, guard, leb, leb→le, length, none, or_fail, refl,
  some, take, true, ℕ, ◌%◌, ◌&&◌, ◌*◌, ◌+◌, ◌<◌, ◌>>=◌, ◌>>◌, ◌^◌, ◌≡◌, ◌≤◌,
}

-- A modulus of 256 bits at least, with its square
pub record IsWellFormed (o : OpenSsl) (key : PublicKey) : Type 0 where
  pub long : min_key_len_in_bits ≤ o.bn_num_bits key.n
  pub square : o.bn_sqr key.n ≡ some key.n2

-- A private key that was computed from its factors
pub record IsMade (o : OpenSsl) (key : PrivateKey) : Type 0 where
  pub n_less_p : ℕ
  pub n_less_both : ℕ
  pub public : IsWellFormed o key.public
  pub product : o.bn_mul key.p key.q ≡ some key.public.n
  pub less_p : o.bn_sub key.public.n key.p ≡ some n_less_p
  pub less_both : o.bn_sub n_less_p key.q ≡ some n_less_both
  pub lamda : o.bn_add_word n_less_both 1 ≡ some key.lamda
  pub inverse : o.bn_mod_inverse key.lamda key.public.n ≡ some key.mu

module _ (Q : PublicKey → Type 0) where
  IsSafe-again_err : (freed : Bool) → IsSafe Q (release_again (err freed))
  unfolding release_again
  IsSafe-again_err true = tt
  IsSafe-again_err false = tt

  IsSafe-again_guard :
      (b : Bool) (rest : Result Bool PublicKey)
      → (b ≡ true → IsSafe Q (release_again rest))
      → IsSafe Q (release_again (guard b true >> rest))
  unfolding release_again
  IsSafe-again_guard true rest h = h refl
  IsSafe-again_guard false rest h = tt

  IsSafe-again_or_fail :
      (m : Option ℕ) (freed : Bool) (f : ℕ → Result Bool PublicKey)
      → ((a : ℕ) → m ≡ some a → IsSafe Q (release_again (f a)))
      → IsSafe Q (release_again (or_fail m freed >>= f))
  unfolding release_again
  IsSafe-again_or_fail (some a) freed f h = h a refl
  IsSafe-again_or_fail none freed f h = IsSafe-again_err freed

module _ (o : OpenSsl) (mem : ℕ → Bool) where
  public_internal-IsWellFormed :
      (number : Bytes)
      → IsSafe (IsWellFormed o) (release_again (public_key_deserialize_internal o mem number))
  unfolding public_key_deserialize_internal release_again
  public_internal-IsWellFormed number =
      IsSafe-again_or_fail _ (o.bn_bin2bn number) (mem 2) _ (λ n e.
        IsSafe-again_guard _ (mem 2) _ (λ given.
          IsSafe-again_guard _ (leb min_key_len_in_bits (o.bn_num_bits n)) _ (λ long.
            IsSafe-again_or_fail _ (o.bn_sqr n) true _
              (λ n2 square. record { long = leb→le _ _ long; square = square }))))

  private_internal-IsMade :
      (p_bytes q_bytes : Bytes)
      → IsSafe (IsMade o) (private_key_deserialize_internal o mem p_bytes q_bytes)
  unfolding private_key_deserialize_internal
  private_internal-IsMade p_bytes q_bytes =
      IsSafe-or_fail _ (o.bn_bin2bn p_bytes) refused _ tt (λ p e_p.
        IsSafe-or_fail _ (o.bn_bin2bn q_bytes) refused _ tt (λ q e_q.
          IsSafe-guard _ (mem 2 && mem 3 && mem 4 && mem 5) _ (λ given.
            IsSafe-or_fail _ (o.bn_mul p q) refused _ tt (λ n product.
              IsSafe-or_fail _ (o.bn_sqr n) refused _ tt (λ n2 square.
                IsSafe-or_fail _ (o.bn_sub n p) refused _ tt (λ n_less_p less_p.
                  IsSafe-or_fail _ (o.bn_sub n_less_p q) refused _ tt (λ n_less_both less_both.
                    IsSafe-or_fail _ (o.bn_add_word n_less_both 1) refused _ tt (λ lamda added.
                      IsSafe-or_fail _ (o.bn_mod_inverse lamda n) refused _ tt (λ mu inverse.
                        IsSafe-guard _ (leb min_key_len_in_bits (o.bn_num_bits n)) _ (λ long.
                          record {
                            n_less_p = n_less_p;
                            n_less_both = n_less_both;
                            public = record { long = leb→le _ _ long; square = square };
                            product = product;
                            less_p = less_p;
                            less_both = less_both;
                            lamda = added;
                            inverse = inverse;
                          }))))))))))

  module _ (buffer : Bytes) (small : length buffer < 2 ^ 32) where
    public_key_deserialize-IsSafe :
        IsSafe (IsWellFormed o) (public_key_deserialize o mem (some buffer) (length buffer))
    unfolding public_key_deserialize
    public_key_deserialize-IsSafe = IsSafe-guard _ (leb 36 (length buffer)) _ (λ enough.
        let room : 36 ≤ length buffer = leb→le _ _ enough in
        IsSafe-guard _ (mem 0 && mem 1) _ (λ given.
          IsSafe-bind (λ (w : ℕ). Unit {0}) _ (read_u32 buffer 0) _
            (read_u32-IsSafe buffer 0 (omega (arith, room)))
            (λ len u. IsSafe-guard _ (leb len (sub32 (length buffer) 4)) _ (λ fits.
              let le : len ≤ sub32 (length buffer) 4 = leb→le _ _ fits in
              IsSafe-bind (λ bs. length bs ≡ len) _ (read_bytes buffer 4 len) _
                (read_bytes-IsSafe buffer 4 len (omega (arith, le, room, small)))
                (λ bs e. public_internal-IsWellFormed bs)))))

    private_key_deserialize-IsSafe :
        little_endian (take 4 buffer) < 2 ^ 31
        → IsSafe (IsMade o) (private_key_deserialize o mem (some buffer) (length buffer))
    unfolding private_key_deserialize
    private_key_deserialize-IsSafe short =
        let len : ℕ = little_endian (take 4 buffer) in
        IsSafe-guard _ (leb 36 (length buffer)) _ (λ enough.
          let room : 36 ≤ length buffer = leb→le _ _ enough in
          rw (read_u32-start buffer (omega (arith, room))) (
            IsSafe-guard _ (leb (2 * len % 2 ^ 32) (sub32 (length buffer) 4)) _ (λ fits.
              let le : 2 * len % 2 ^ 32 ≤ sub32 (length buffer) 4 = leb→le _ _ fits in
              IsSafe-guard _ (mem 0 && mem 1) _ (λ given.
                IsSafe-bind (λ bs. length bs ≡ len) _ (read_bytes buffer 4 len) _
                  (read_bytes-IsSafe buffer 4 len (omega (arith, le, room, small, short)))
                  (λ p_bytes e_p.
                    IsSafe-bind (λ bs. length bs ≡ len) _ (read_bytes buffer (4 + len) len) _
                      (read_bytes-IsSafe buffer (4 + len) len
                        (omega (arith, le, room, small, short)))
                      (λ q_bytes e_q. private_internal-IsMade p_bytes q_bytes))))))

  -- Whatever the bytes of a buffer are, and whichever allocation or call of OpenSSL fails, decoding
  -- a public key reads no byte outside the buffer, and a key that is returned has a modulus of 256
  -- bits at least, with its square. The same holds of a private key and its buffer when the word in
  -- front of it is below 2^31, and then its parts are those that are computed from its factors.
  pub deserialize-IsMade :
      (public_buffer private_buffer : Bytes)
      → length public_buffer < 2 ^ 32
      → length private_buffer < 2 ^ 32
      → little_endian (take 4 private_buffer) < 2 ^ 31
      → IsSafe
          (IsWellFormed o)
          (public_key_deserialize o mem (some public_buffer) (length public_buffer))
        × IsSafe
            (IsMade o)
            (private_key_deserialize o mem (some private_buffer) (length private_buffer))
  deserialize-IsMade public_buffer private_buffer small small' short = (
    public_key_deserialize-IsSafe public_buffer small,
    private_key_deserialize-IsSafe private_buffer small' short,
  )
