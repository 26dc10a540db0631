-- ===== src/Paillier.antt =====
-- mpc-lib/src/common/crypto/paillier/paillier.c: Paillier's encryption.
--
-- `mem k` tells whether the k-th allocation of a call succeeds, and `e` is the code that a failed
-- call leaves in OpenSSL's queue of errors.
pub mod Encryption
pub mod Generation
pub mod Homomorphic
pub mod Powers
pub mod Scheme
pub mod Serialization
use mpc_lib_demo.OpenSsl.{OpenSsl}
use mpc_lib_demo.AlgebraUtils.{is_coprime_fast}
use mpc_lib_demo.Base.{
  Bool, Bytes, List, Option, Result, [], after, err, false, guard, if◌then◌else◌, length, none, ok,
  or_fail, some, true, ℕ, ◌&&◌, ◌==◌, ◌>>=◌, ◌>>◌, ◌∷◌,
}

-- MIN_KEY_LEN_IN_BITS
abbrev pub min_key_len_in_bits : ℕ
min_key_len_in_bits = 256

-- The PAILLIER_ERROR codes; the negated code of OpenSSL is `openssl_error`. A call of OpenSSL that
-- fails leaves its code, which is not 0, in the queue of errors.
pub data PaillierStatus : Type 0 where
  success unknown keylen_too_short invalid_plain_text invalid_cipher_text invalid_randomness
        invalid_key invalid_param invalid_proof buffer_too_short out_of_memory :
      PaillierStatus
  openssl_error : ℕ → PaillierStatus

pub record PublicKey : Type 0 where
  pub n : ℕ
  pub n2 : ℕ

pub record PrivateKey : Type 0 where
  pub public : PublicKey
  pub p : ℕ
  pub q : ℕ
  pub lamda : ℕ
  pub mu : ℕ

-- The status, the length through the last pointer, and the bytes written to the result.
pub record Output : Type 0 where
  pub status : PaillierStatus
  pub real_len : Option ℕ
  pub result : Option Bytes

pub refuse : PaillierStatus → Option ℕ → Output
refuse status real_len = record { status = status; real_len = real_len; result = none }

module _ (o : OpenSsl) where
  -- The end of the calls: what they computed is written, or their status returned with the length
  -- that was announced.
  pub finish : ℕ → Result PaillierStatus ℕ → Output
  unfolding refuse
  finish announced (err status) = refuse status (some announced)
  finish announced (ok number) =
      let bytes = o.bn_bn2bin number in
      if length bytes == 0
      then refuse unknown (some announced)
      else record { status = success; real_len = some (length bytes); result = some bytes }

  -- `is_coprime_fast(a, b, ctx) == 1`
  pub is_coprime : (ℕ → Bool) → ℕ → ℕ → Bool
  is_coprime mem a b = elim (is_coprime_fast o mem (some a) (some b) true) [
    | none ↦ false
    | some answer ↦ answer
  ]

  module _ (mem : ℕ → Bool) (e : ℕ) where
    pub paillier_l : ℕ → ℕ → Result PaillierStatus ℕ
    paillier_l x n = do
      guard (mem 5) (openssl_error e)
      x_copy ← or_fail (o.bn_sub_word x 1) (openssl_error e)
      or_fail (o.bn_div x_copy n) (openssl_error e)

    pub encrypt_openssl_internal : PublicKey → ℕ → ℕ → Result PaillierStatus ℕ
    unfolding is_coprime
    encrypt_openssl_internal key r plaintext = do
      guard (is_coprime mem r key.n) invalid_randomness
      guard (mem 2 && mem 3) (openssl_error e)
      multiple ← or_fail (o.bn_mul key.n plaintext) (openssl_error e)
      tmp1 ← or_fail (o.bn_add_word multiple 1) (openssl_error e)
      tmp2 ← or_fail (o.bn_mod_exp r key.n key.n2) (openssl_error e)
      or_fail (o.bn_mod_mul tmp1 tmp2 key.n2) (openssl_error e)

    pub decrypt_openssl_internal : PrivateKey → ℕ → Result PaillierStatus ℕ
    unfolding is_coprime paillier_l
    decrypt_openssl_internal key ciphertext = do
      guard (mem 4) (openssl_error e)
      guard (is_coprime mem ciphertext key.public.n) invalid_cipher_text
      power ← or_fail (o.bn_mod_exp ciphertext key.lamda key.public.n2) (openssl_error e)
      tmp ← paillier_l power key.public.n
      or_fail (o.bn_mod_mul tmp key.mu key.public.n) (openssl_error e)

  -- The loop of `encrypt_openssl`: another number is drawn when one is not coprime to the key. The
  -- draws are the list, whose end is a failure of the generator. Each round has allocations of its
  -- own.
  pub encrypt_loop : (ℕ → Bool) → ℕ → PublicKey → ℕ → List ℕ → Result PaillierStatus ℕ
  unfolding encrypt_openssl_internal
  encrypt_loop mem e key plaintext [] = err (openssl_error e)
  encrypt_loop mem e key plaintext (r ∷ tape) =
      elim (encrypt_openssl_internal mem e key r plaintext) [
        | ok ciphertext ↦ ok ciphertext
        | err status ↦ elim status [
          | invalid_randomness ↦ encrypt_loop (after 4 mem) e key plaintext tape
          | other ↦ err other
        ]
      ]

  pub encrypt_openssl : (ℕ → Bool) → ℕ → PublicKey → ℕ → List ℕ → Result PaillierStatus ℕ
  unfolding encrypt_loop
  encrypt_openssl mem e key plaintext tape =
      if mem 0 then encrypt_loop (after 1 mem) e key plaintext tape else err (openssl_error e)
